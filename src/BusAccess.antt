-- ===== src/BusAccess.antt =====
-- sw/BusAccess/BusAccess.c and BusAccess.h: the host library for bus masters behind a JTAG hub.
pub mod Core
pub mod Query
pub mod Access
pub mod Masters
pub mod Session
pub mod Invariant
pub mod Steps
pub mod Address
pub mod Exchange
pub mod Write
pub mod Words
pub mod Read
pub mod Signals
pub mod Opening
pub mod Ending
pub mod Kinds
pub mod Modify
pub mod Usage
pub mod Target
pub mod Delivered
pub mod Coherent
pub mod Modified
pub mod Ahb
pub mod Hprot
