-- ===== src/Kubeclient/Race/Refinement.antt =====
-- internal/kubeclient/kubeclient.go: waitAllReady as its caller sees it, without goroutines and
-- without a channel: how many checks have passed, how many are still awaited, and a deadline.
use nanok8s.Base.{
  ℕ, zero, suc, ◌+◌, ◌≤◌, ◌<◌, ◌≡◌, sym, subst, Bool, true, false, Option, none, some, arith,
}
use nanok8s.Kubeclient.Race.{
  Outcome, ready, not_ready, Race, start, Caller, send, stop, expire, call, receive, give_up,
  finish, Reach, begin, next,
}
use nanok8s.Kubeclient.Race.Invariant.{
  passes, Inv, Reach-Inv, passes-pollers, passes-Turn, passes-stopped, passes-Turn_lt,
}

-- `waiting p r done`: p checks have passed, and r are awaited.
pub data Wait : Type 0 where
  waiting : ℕ → ℕ → Bool → Wait
  over : Outcome → Bool → Wait

-- What the contract of the wait for n checks allows
pub data WaitStep (n : ℕ) : Wait → Wait → Type 0 where
  -- one of the n checks passes
  pass : {p r : ℕ} {done : Bool} → p < n → WaitStep n (waiting p r done) (waiting (suc p) r done)
  -- a check that has passed is counted, if fewer are counted, n less those awaited, than have passed
  one :
      {p r : ℕ} {done : Bool}
      → n < p + suc r
      → WaitStep n (waiting p (suc r) done) (waiting p r done)
  -- all of them have passed and are counted, and the wait returns nil
  all : {p : ℕ} {done : Bool} → n ≤ p → WaitStep n (waiting p zero done) (over ready done)
  -- the deadline has passed, and the wait returns an error with the number of pending checks
  late : {p r : ℕ} → WaitStep n (waiting p (suc r) true) (over (not_ready (suc r)) true)
  deadline : {p r : ℕ} {done : Bool} → WaitStep n (waiting p r done) (waiting p r true)
  deadline_after : {o : Outcome} {done : Bool} → WaitStep n (over o done) (over o true)

pub data WaitReach (n : ℕ) : Wait → Type 0 where
  initial : WaitReach n (waiting 0 n false)
  later : {a b : Wait} → WaitReach n a → WaitStep n a b → WaitReach n b

abbrev seen : Option Outcome → ℕ → ℕ → Bool → Wait
seen none p r done = waiting p r done
seen (some o) p r done = over o done

abbrev pub view : Race → Wait
view s = seen s.outcome (passes s.workers) s.remaining s.done

module _ (n : ℕ) where
  expired :
      (o : Option Outcome) (p r : ℕ) (done : Bool)
      → WaitReach n (seen o p r done)
      → WaitReach n (seen o p r true)
  expired none p r done h = later h deadline
  expired (some o) p r done h = later h deadline_after

  sent :
      (o : Option Outcome) (p r : ℕ) (done : Bool)
      → p < n
      → WaitReach n (seen o p r done)
      → WaitReach n (seen o (suc p) r done)
  sent none p r done l h = later h (pass l)
  sent (some o) p r done l h = h

  awaited :
      (s : Race) (k : ℕ)
      → s.outcome ≡ none
      → s.remaining ≡ k
      → WaitReach n (view s)
      → WaitReach n (waiting (passes s.workers) k s.done)
  awaited s k o e h =
      subst (λ x. WaitReach n (waiting (passes s.workers) x s.done)) e
        (subst (λ x. WaitReach n (seen x (passes s.workers) s.remaining s.done)) o h)

  called : (s t : Race) → Inv n s → Caller s t → WaitReach n (view s) → WaitReach n (view t)
  called s t i (receive {b} {r} o f e) h =
      let behind : n < passes s.workers + suc r = omega (arith, i.counted) in
      subst (λ x. WaitReach n (seen x (passes s.workers) r s.done)) (sym o)
        (later (awaited s (suc r) o e h) (one behind))
  called s t i (give_up {r} o e d) h = rw e (
      rw d (
        later
          (subst (λ x. WaitReach n (waiting (passes s.workers) (suc r) x)) d
            (awaited s (suc r) o e h))
          late))
  called s t i (finish o e) h =
      let passed_all : n ≤ passes s.workers = omega (arith, i.counted, e) in
      later (awaited s zero o e h) (all passed_all)

  -- Every state that waitAllReady reaches, in whichever order its goroutines and its caller take
  -- their steps, is seen by the caller as one that the contract of the wait reaches: each check
  -- passes at most once, the count of those awaited goes down by one at a time and only for a check
  -- that has passed and is not yet counted, nil is returned only at zero, when all have passed, and an error only after
  -- the deadline and with the count that is left.
  pub Reach-WaitReach : (s : Race) → Reach n s → WaitReach n (view s)
  unfolding start
  Reach-WaitReach s begin =
      subst (λ x. WaitReach n (waiting x n false)) (sym (passes-pollers n)) initial
  Reach-WaitReach s (next {s = s'} r (send m room)) =
      subst (λ x. WaitReach n (seen s'.outcome x s'.remaining s'.done)) (sym (passes-Turn m))
        (sent s'.outcome (passes s'.workers) s'.remaining s'.done
          (omega (arith, passes-Turn_lt m, (Reach-Inv r).workers)) (Reach-WaitReach s' r))
  Reach-WaitReach s (next {s = s'} r (stop m d)) =
      subst (λ x. WaitReach n (seen s'.outcome x s'.remaining s'.done)) (sym (passes-stopped m))
        (Reach-WaitReach s' r)
  Reach-WaitReach s (next {s = s'} r expire) =
      expired s'.outcome (passes s'.workers) s'.remaining s'.done (Reach-WaitReach s' r)
  Reach-WaitReach s (next {s = s'} r (call c)) = called s' s (Reach-Inv r) c (Reach-WaitReach s' r)
