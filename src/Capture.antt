-- ===== src/Capture.antt =====
-- socket_server/capture.py: packet capture. The children are about its parts.
pub mod Registry
pub mod Sort
pub mod Process
pub mod Cpu
