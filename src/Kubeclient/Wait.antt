-- ===== src/Kubeclient/Wait.antt =====
-- internal/kubeclient/kubeclient.go: waitAllReady and WaitForControlPlane as they run. A schedule
-- says which goroutine polls next, when the caller goes on, and when the context is done.
pub mod Schedule
pub mod Checks
pub mod Quiet
pub mod Backed
pub mod Ends
pub mod Reported
pub mod Prompt
use nanok8s.Base.{
  ℕ, zero, suc, String, ◌<>◌, ◌≡◌, Bool, true, false, ◌&&◌, Option, none, some, List, [], ◌∷◌,
  if◌then◌else◌, length,
}
use nanok8s.Base.Lines.{decimal}
use nanok8s.Os.World.{Error, new_error, M, pure, throw, ◌>>=◌}
use nanok8s.Kubeclient.{Api, Context, ready_checks}
use nanok8s.Kubeclient.Race.{
  Worker, polling, passed, stopped, Outcome, ready, not_ready, Race, start,
}

-- A readyCheck: its name and its function
abbrev pub ReadyCheck : Type 0
ReadyCheck = String × M Bool

-- What happens next. A goroutine whose check is false goes on by one of the cases of its select:
-- where it may choose, the Boolean says whether it takes that of the context.
pub data Event : Type 0 where
  poll : ℕ → Bool → Event
  receive : Event
  give_up : Event
  expire : Event

-- The check of a goroutine, as long as it polls
unfoldable pub check_of : List ReadyCheck → List Worker → ℕ → Option (M Bool)
check_of [] ws i = none
check_of (c ∷ cs) [] i = none
check_of (c ∷ cs) (polling ∷ ws) zero = some c.1
check_of (c ∷ cs) (passed ∷ ws) zero = none
check_of (c ∷ cs) (stopped ∷ ws) zero = none
check_of (c ∷ cs) (w ∷ ws) (suc i) = check_of cs ws i

unfoldable pub set_worker : Worker → List Worker → ℕ → List Worker
set_worker v [] i = []
set_worker v (w ∷ ws) zero = v ∷ ws
set_worker v (w ∷ ws) (suc i) = w ∷ set_worker v ws i

-- `if c.fn(ctx) { passed <- c.name; return }`, and the select that follows
unfoldable pub polled : ℕ → Bool → Race → Bool → Race
unfolding set_worker
polled i quits s true = record s {
  workers = set_worker passed s.workers i;
  buffered = suc s.buffered;
}
polled i quits s false =
    if quits && s.done then record s { workers = set_worker stopped s.workers i } else s

unfoldable pub run_poll : ℕ → Bool → Race → Option (M Bool) → M Race
unfolding polled
run_poll i quits s none = pure s
run_poll i quits s (some check) = do b ← check; pure (polled i quits s b)

-- `case <-passed: remaining--`, where a name is there and the loop has not ended
unfoldable pub received : Race → ℕ → ℕ → Race
received s zero remaining = s
received s (suc b) zero = s
received s (suc b) (suc r) = record s { buffered = b; remaining = r }

-- `case <-ctx.Done()`, where the context is done and the loop has not ended
unfoldable pub given_up : Race → ℕ → Bool → Race
given_up s zero done = s
given_up s (suc r) false = s
given_up s (suc r) true = record s { outcome = some (not_ready s.remaining) }

-- An event, which changes nothing where it cannot happen. Once the caller has returned, the wait is
-- over.
unfoldable pub happen : List ReadyCheck → Race → Option Outcome → Event → M Race
unfolding check_of run_poll received given_up
happen checks s (some o) e = pure s
happen checks s none (poll i quits) = run_poll i quits s (check_of checks s.workers i)
happen checks s none receive = pure (received s s.buffered s.remaining)
happen checks s none give_up = pure (given_up s s.remaining s.done)
happen checks s none expire = pure (record s { done = true })

unfoldable pub run_events : List ReadyCheck → List Event → Race → M Race
unfolding happen
run_events checks [] s = pure s
run_events checks (e ∷ es) s = do t ← happen checks s s.outcome e; run_events checks es t

-- Where the schedule ends, the context is done, if the caller has not returned. It returns nil where
-- it waits for no check.
unfoldable pub last_outcome : Option Outcome → ℕ → Outcome
last_outcome (some o) remaining = o
last_outcome none zero = ready
last_outcome none (suc r) = not_ready (suc r)

unfoldable pub pending : Error → ℕ → ℕ → Error
pending cause remaining total = new_error (
    "control plane not ready: "
    <> cause.text
    <> " ("
    <> decimal remaining
    <> "/"
    <> decimal total
    <> " checks still pending)")

unfoldable pub returned : Error → ℕ → Outcome → M (Unit {0})
unfolding pending
returned cause total ready = pure tt
returned cause total (not_ready r) = throw (pending cause r total)

unfoldable pub wait_all_ready : List Event → Context → List ReadyCheck → M (Unit {0})
unfolding run_events last_outcome returned
wait_all_ready schedule ctx checks = do
  s ← run_events checks schedule (start (length checks))
  returned ctx.cause (length checks) (last_outcome s.outcome s.remaining)

unfoldable pub wait_for_control_plane :
    {Rest Client : Type 0} → Api Rest Client → List Event → Context → Client → String → M (Unit {0})
unfolding wait_all_ready
wait_for_control_plane api schedule ctx client node_name =
    wait_all_ready schedule ctx (ready_checks api client node_name)
