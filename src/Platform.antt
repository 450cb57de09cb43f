-- ===== src/Platform.antt =====
-- src/controlobject.cpp: what is compiled for Windows and for macOS only.
pub mod Clock
pub mod Silence
pub mod Mac
pub mod HostMac
