-- ===== src/Kubeclient/Race/Invariant.antt =====
-- internal/kubeclient/kubeclient.go: what holds of waitAllReady in every state that it can reach.
use nanok8s.Base.{
  ℕ, zero, suc, ◌+◌, ◌≤◌, ◌<◌, ◌≡◌, refl, true, Option, none, some, List, [], ◌∷◌, length, arith,
  All,
}
use nanok8s.Kubeclient.Race.{
  Worker, polling, passed, stopped, Outcome, ready, not_ready, Race, pollers, start, Turn, Caller,
  call, here, there, Step, send, stop, expire, receive, give_up, finish, Reach, begin, next,
}

-- How many checks have been found true
abbrev pub passes : List Worker → ℕ
passes [] = 0
passes (passed ∷ ws) = suc (passes ws)
passes (polling ∷ ws) = passes ws
passes (stopped ∷ ws) = passes ws

abbrev pub Explained : Race → Option Outcome → Type 0
Explained s none = Unit
Explained s (some ready) = s.remaining ≡ 0
Explained s (some (not_ready r)) = (s.remaining ≡ r) × ((1 ≤ r) × (s.done ≡ true))

pub record Inv (n : ℕ) (s : Race) : Type 0 where
  pub workers : length s.workers ≡ n
  pub counted : s.buffered + n ≡ passes s.workers + s.remaining
  pub bounded : s.remaining ≤ n
  pub outcome : Explained s s.outcome

pub length-pollers : (n : ℕ) → length (pollers n) ≡ n
length-pollers zero = refl
length-pollers (suc n) = omega (arith, length-pollers n)

pub passes-pollers : (n : ℕ) → passes (pollers n) ≡ 0
passes-pollers zero = refl
passes-pollers (suc n) = passes-pollers n

length-Turn : {v : Worker} {ws vs : List Worker} → Turn v ws vs → length vs ≡ length ws
length-Turn here = refl
length-Turn (there t) = omega (arith, length-Turn t)

pub passes-Turn : {ws vs : List Worker} → Turn passed ws vs → passes vs ≡ suc (passes ws)
passes-Turn here = refl
passes-Turn (there {w = passed} t) = omega (arith, passes-Turn t)
passes-Turn (there {w = polling} t) = passes-Turn t
passes-Turn (there {w = stopped} t) = passes-Turn t

pub passes-stopped : {ws vs : List Worker} → Turn stopped ws vs → passes vs ≡ passes ws
passes-stopped here = refl
passes-stopped (there {w = passed} t) = omega (arith, passes-stopped t)
passes-stopped (there {w = polling} t) = passes-stopped t
passes-stopped (there {w = stopped} t) = passes-stopped t

Explained-done :
    (s : Race) (o : Option Outcome) → Explained s o → Explained (record s { done = true }) o
Explained-done s none h = tt
Explained-done s (some ready) h = h
Explained-done s (some (not_ready r)) h = (h.0, (h.1.0, refl))

pub Caller-Inv : {n : ℕ} {s t : Race} → Caller s t → Inv n s → Inv n t
Caller-Inv (receive o b r) i = record {
  workers = i.workers;
  counted = omega (arith, i.counted);
  bounded = omega (arith, i.bounded);
  outcome = rw o tt;
}
Caller-Inv (give_up o r d) i = record {
  workers = i.workers;
  counted = i.counted;
  bounded = i.bounded;
  outcome = (refl, (omega arith, d));
}
Caller-Inv (finish o r) i = record {
  workers = i.workers;
  counted = i.counted;
  bounded = i.bounded;
  outcome = r;
}

Step-Inv : {n : ℕ} {s t : Race} → Step s t → Inv n s → Inv n t
Step-Inv (send m r) i = record {
  workers = omega (arith, length-Turn m, i.workers);
  counted = omega (arith, passes-Turn m, i.counted);
  bounded = i.bounded;
  outcome = i.outcome;
}
Step-Inv (stop m r) i = record {
  workers = omega (arith, length-Turn m, i.workers);
  counted = omega (arith, passes-stopped m, i.counted);
  bounded = i.bounded;
  outcome = i.outcome;
}
Step-Inv {s} expire i = record {
  workers = i.workers;
  counted = i.counted;
  bounded = i.bounded;
  outcome = Explained-done s s.outcome i.outcome;
}
Step-Inv (call c) i = Caller-Inv c i

pub Reach-Inv : {n : ℕ} {s : Race} → Reach n s → Inv n s
unfolding start
Reach-Inv {n} begin = record {
  workers = length-pollers n;
  counted = omega (arith, passes-pollers n);
  bounded = omega arith;
  outcome = tt;
}
Reach-Inv (next r st) = Step-Inv st (Reach-Inv r)

pub passes-le-length : (ws : List Worker) → passes ws ≤ length ws
passes-le-length [] = omega arith
passes-le-length (passed ∷ ws) = omega (arith, passes-le-length ws)
passes-le-length (polling ∷ ws) = omega (arith, passes-le-length ws)
passes-le-length (stopped ∷ ws) = omega (arith, passes-le-length ws)

-- A worker that is not there yet
pub passes-Turn_lt : {v : Worker} {ws vs : List Worker} → Turn v ws vs → passes ws < length ws
passes-Turn_lt (here {ws}) = omega (arith, passes-le-length ws)
passes-Turn_lt (there {w = passed} t) = omega (arith, passes-Turn_lt t)
passes-Turn_lt (there {w = polling} t) = omega (arith, passes-Turn_lt t)
passes-Turn_lt (there {w = stopped} t) = omega (arith, passes-Turn_lt t)

pub All-passed : (ws : List Worker) → passes ws ≡ length ws → All (λ w. w ≡ passed) ws
All-passed [] h = tt
All-passed (passed ∷ ws) h = (refl, All-passed ws (omega arith))
All-passed (polling ∷ ws) h = absurd (omega (arith, passes-le-length ws))
All-passed (stopped ∷ ws) h = absurd (omega (arith, passes-le-length ws))
