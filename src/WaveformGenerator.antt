-- ===== src/WaveformGenerator.antt =====
-- sw/WaveformGenerator/WaveformGenerator.c: the host library for the waveform generator core.
pub mod Core
pub mod Connection
pub mod Session
pub mod Writing
pub mod Invariant
pub mod Waiting
pub mod Written
pub mod Opened
pub mod Commands
pub mod Ending
pub mod Buffer
