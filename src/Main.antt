-- ===== src/Main.antt =====
-- src/cm.c: the main loop, which comes back to the entries and follows the orders of its clients.
pub mod Context
pub mod Slots
pub mod Loop
pub mod Counts
pub mod Owners
pub mod Serving
pub mod Keeping
pub mod Named
pub mod Arrays
pub mod Sweeps
pub mod Answered
pub mod Orders
pub mod Entries
