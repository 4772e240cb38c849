-- ===== src/Os/Spec/Runs.antt =====
-- The weaker triples, for actions that may panic: one condition covers errors and panics alike.
pub mod Core
pub mod Keeping
pub mod Joined
pub use Core.{
  RunPost, Run, Keeps, run_ok, run_err, Run-Triple, Run-pure, Run-throw, Run-crash, Run-if,
  Run-from, Run-on_error, Run-wrapped, Run-given, Run-bind, Run-weaken,
}
pub use Keeping.{Keeps-logf, Keeps-attempt, Keeps-for_each, Keeps-when, Keeps-defer, Keeps-nothing}
pub use Joined.{Run-both, Run-all}
