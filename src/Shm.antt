-- ===== src/Shm.antt =====
-- l_builtin/src/cmd_shm.rs: the shared variables of a shell.
pub mod Place
pub mod Selected
mod Names
mod Sizes
mod Reader
pub mod State
pub mod Callbacks
pub mod Commands
pub mod Withdrawal
pub mod Print
pub mod Laws
pub mod Shown
pub mod Left
pub mod Cleared
pub mod Printed
pub mod Backed
pub mod Preserved
mod Sample
mod Tests
pub mod Tables
pub mod Rebuilt
