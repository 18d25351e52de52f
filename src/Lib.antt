-- ===== src/Lib.antt =====
-- The host libraries of IPDBG: sw/BusAccess/BusAccess.c reads and writes over a bus master inside of
-- an FPGA, and sw/WaveformGenerator/WaveformGenerator.c loads a sample memory. Both talk over a TCP
-- connection to a JTAG server, which passes the bytes on to a core. A core resets on two 0xEE bytes,
-- and bytes that are special are sent behind 0x55 (rtl/common/IpdbgEscaping.vhd).
--
-- Prelude: the names that all files share, Boolean tests, lists, and the bit operations of C.
-- Os: the operating system as a parameter. Each call's answer is a function of the calls before it
--   (the trace), so every sequence of partial sends, short reads, timeouts, errors and ends of the
--   stream is covered. `wire` and `heard` are the bytes sent and read over the last connection.
-- Command: return codes, error messages (one constructor for each format string), the handle, and
--   commands on it. A command returns, makes a memory access that it may not (fault), or waits for
--   ever (forever); each theorem on an operation says that it returns.
-- Escaping: the encoder of the host and the decoder of the core.
-- Link: the connection, which the two libraries contain twice with the same statements: set_error,
--   begin, timeout, applyTimeout, send, receive, closeSocket; Link.Frames: sendReset, sendCommand,
--   sendWithEscaping; Link.Connecting: the guards of open, getaddrinfo and the loop over the
--   addresses. Link.Sending, Receiving, Closing and Connecting.Outcome hold their theorems.
-- BusAccess: Core (constants, handle, widths), Query (getSizes, sendAddress), Access (setAddress,
--   write, read, read_modify_write, setMiscellaneous, setStrobe), Masters (setAxprot, setPprot,
--   setDebugAccess, setHprotHsize, setResets), Session (new, open, close, delete, setTimeout and the
--   queries). Invariant says what a valid handle is; Steps, Address, Exchange, Write, Read, Modify,
--   Modified, Signals, Kinds, Ahb, Hprot, Opening, Ending and Words hold the theorems. Usage: any
--   sequence of calls.
--   Target: what rtl/BusAccess/BusAccessStatemachine.vhd makes of the bytes, behind the escaping
--   entity; its registers take as many bits as they have (Target.Cut). Coherent and
--   Delivered: the library and the core together.
-- WaveformGenerator: Core, Connection (its copy of the connection), Session (open, close, status,
--   start, stop, oneShot, queries), Writing (write). Invariant, Waiting, Buffer, Written,
--   Writing.Frame, Writing.Length, Opened, Commands and Ending hold the theorems.
-- Cxx: exceptions as results; Cxx.Bytes and Cxx.Bus (sw/BusAccess/BusAccessCxx.tpp, BusAccessCxx.cpp)
--   and Cxx.Waveform (sw/WaveformGenerator/WaveformGeneratorCxx.cpp): the C++ classes around the two
--   libraries. An unsigned type is given by its size in bytes. Cxx.Bus.Cut: what the core cuts off is
--   nothing where the classes let a number through.
-- UartBridge (sw/UartBridge/UartBridge.cpp): Options (parseInt, parseOptions), Setup (openSerial,
--   makeListenSocket), Pumps (the two threads of a session) and Session (runSession and the loop of
--   main), both as step relations, one step for each call and each access to what is shared.
-- IoView (sw/IoView): Protocol (IOViewProtocol.cpp, over the bus access library, with the events of
--   IOViewMain.cpp) and Panel (the state of IOViewPanel.cpp).
-- Tests: an operating system that runs a script, and each theorem at a concrete input.
--
-- Pointers of the caller are lists with the bytes that they give access to, and an option where the
-- code tests for NULL. Numbers are natural numbers, with the wrap-around of uint8_t, uint16_t,
-- uint32_t and a size_t of 64 bits written out where the code can reach it.
--
-- Loops: send and receive run on as many rounds as bytes, which is enough since every round moves at
-- least one. The reads of a close run on fuel, and IsQuiet is the hypothesis that the peer's stream
-- ends, fails or pauses within it once the sending side is shut down. The waiting of the waveform
-- generator's write runs on a number of answers, and ReportsAtMost bounds the progress reports of
-- the core.
--
-- Not modelled: Windows (WSAStartup, closesocket), the texts of error messages beyond their format
-- and numbers, the memory of the handle itself, the
-- layout of the user interface, listPorts of the bridge, which only prints, the simulation bridge,
-- and the other hardware of the repository. The text reader of the toolkit (ToLong) and the calls of
-- the serial port are parameters.
mod Prelude
pub mod Os
pub mod Command
pub mod Escaping
pub mod Link
pub mod BusAccess
pub mod WaveformGenerator
pub mod Cxx
pub mod IoView
pub mod UartBridge
mod Tests
