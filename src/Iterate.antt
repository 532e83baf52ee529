-- ===== src/Iterate.antt =====
-- src/iterate.c: the state machines of tracked certificates and of CAs' data.
pub mod Lock
pub mod Machine
pub mod Delay
pub mod Expiry
pub mod Steps
pub mod Entry
pub mod Ca
pub mod Safety
