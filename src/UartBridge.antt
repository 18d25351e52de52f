-- ===== src/UartBridge.antt =====
-- sw/UartBridge/UartBridge.cpp: the bridge between a TCP port and a serial port.
pub mod Options
pub mod Setup
pub mod Pumps
pub mod Session
