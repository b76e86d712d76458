-- ===== src/Agent.antt =====
-- Agent/src/c/JVMHeapScan.c
pub mod Chars
pub mod ErrorTexts
pub mod Examples
pub mod Machine
pub mod Message
pub mod Options
pub mod Setup
pub mod Tags
