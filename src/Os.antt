-- ===== src/Os.antt =====
-- The operating system as the source uses it through Go's package os.
pub mod FilePath
pub mod Tree
pub mod World
pub mod Calls
pub mod Programs
pub mod Spec
