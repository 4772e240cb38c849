-- ===== src/Kubeclient/Race.antt =====
-- internal/kubeclient/kubeclient.go: waitAllReady. A goroutine polls each check until it passes, and
-- the caller counts what comes through the channel, until all came or the context is done. The
-- goroutines and the caller interleave in any order.
pub mod Invariant
pub mod Outcomes
pub mod Refinement
use nanok8s.Base.{
  ℕ, zero, suc, ◌+◌, ◌-◌, ◌≤◌, ◌<◌, ◌≡◌, Bool, true, false, Option, none, some, List, [], ◌∷◌,
  length,
}

-- A goroutine: it polls, it has found its check true and sent its name, or it saw the context done.
pub data Worker : Type 0 where
  polling : Worker
  passed : Worker
  stopped : Worker

-- What waitAllReady returns: nil, or the error with the number of pending checks.
pub data Outcome : Type 0 where
  ready : Outcome
  not_ready : ℕ → Outcome

-- `buffered` is how many names stand in the channel, `done` whether the context is.
pub record Race : Type 0 where
  pub workers : List Worker
  pub buffered : ℕ
  pub remaining : ℕ
  pub done : Bool
  pub outcome : Option Outcome

-- `make(chan string, len(checks))`
abbrev pub capacity : Race → ℕ
capacity s = length s.workers

abbrev pub pollers : ℕ → List Worker
pollers zero = []
pollers (suc n) = polling ∷ pollers n

-- The goroutines are started, and the caller counts from `n` checks on.
unfoldable pub start : ℕ → Race
start n = record { workers = pollers n; buffered = 0; remaining = n; done = false; outcome = none }

-- One of the workers that polls becomes another.
pub data Turn (v : Worker) : List Worker → List Worker → Type 0 where
  here : {ws : List Worker} → Turn v (polling ∷ ws) (v ∷ ws)
  there : {w : Worker} {ws vs : List Worker} → Turn v ws vs → Turn v (w ∷ ws) (w ∷ vs)

-- A step of the caller
pub data Caller (s : Race) : Race → Type 0 where
  -- it receives a name
  receive :
      {b r : ℕ}
      → s.outcome ≡ none
      → s.buffered ≡ suc b
      → s.remaining ≡ suc r
      → Caller s (record s { buffered = b; remaining = r })
  -- it finds the context done
  give_up :
      {r : ℕ}
      → s.outcome ≡ none
      → s.remaining ≡ suc r
      → s.done ≡ true
      → Caller s (record s { outcome = some (not_ready s.remaining) })
  -- its loop ends
  finish : s.outcome ≡ none → s.remaining ≡ zero → Caller s (record s { outcome = some ready })

-- A goroutine whose check is false polls again, which changes nothing and is no step here.
pub data Step (s : Race) : Race → Type 0 where
  -- a check is true: its name is sent, for which there must be room
  send :
      {ws : List Worker}
      → Turn passed s.workers ws
      → s.buffered < capacity s
      → Step s (record s { workers = ws; buffered = suc s.buffered })
  -- a goroutine finds the context done after a check that was false
  stop :
      {ws : List Worker}
      → Turn stopped s.workers ws
      → s.done ≡ true
      → Step s (record s { workers = ws })
  -- the context's deadline passes, or it is cancelled
  expire : Step s (record s { done = true })
  call : {t : Race} → Caller s t → Step s t

pub data Reach (n : ℕ) : Race → Type 0 where
  begin : Reach n (start n)
  next : {s t : Race} → Reach n s → Step s t → Reach n t
