-- ===== src/Os/Spec/Steps.antt =====
-- What each system call does to the file tree, in the form in which proofs about the code use it.
pub mod Changes
pub mod Reads
pub mod Writes
pub mod Moves
pub use Changes.{Changed, Changed-refl, Changed-trans, Changed-alter}
pub use Reads.{Triple-stat, Triple-read_file, Triple-probe}
pub use Writes.{Triple-mkdir_all, Triple-write_file, Triple-create, Triple-flush}
pub use Moves.{Triple-remove_all, Triple-remove, Triple-rename}
