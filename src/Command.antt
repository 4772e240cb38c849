-- ===== src/Command.antt =====
-- cmd/nanok8s: the commands.
pub mod Running
pub mod Containers
pub mod Mounts
pub mod Network
pub mod Reset
pub mod Bootstrap
pub mod Operate
