-- ===== src/Kubeclient/Wait/Backed.antt =====
-- internal/kubeclient/kubeclient.go: what is known of the checks whose goroutines have
-- sent their names.
use nanok8s.Base.{
  All, ℕ, zero, suc, ◌≡◌, refl, sym, Bool, true, false, ◌&&◌, Option, none, some, List, [], ◌∷◌,
  length, Bool-cases, inl, inr, subst, arith,
}
use nanok8s.Os.World.{M}
use nanok8s.Os.Spec.Values.{Gives, Gives-pure, Gives-bind}
use nanok8s.Kubeclient.Race.{Worker, polling, passed, stopped, Outcome, Race, pollers}
use nanok8s.Kubeclient.Wait.{
  ReadyCheck, Event, poll, receive, give_up, expire, check_of, set_worker, polled, run_poll,
  received, given_up, happen, run_events,
}
use nanok8s.Kubeclient.Wait.Checks.{AllChecks, AllChecks-check_of}

-- What a check is known for once it has answered true
module _ (T : M Bool → Type 0) where
  -- It is known of the check of each goroutine that has sent its name.
  abbrev pub Backed : List ReadyCheck → List Worker → Type 0
  Backed [] ws = Unit
  Backed (c ∷ cs) [] = Unit
  Backed (c ∷ cs) (w ∷ ws) = (w ≡ passed → T c.1) × Backed cs ws

  pub Backed-pollers : (cs : List ReadyCheck) (n : ℕ) → Backed cs (pollers n)
  Backed-pollers [] n = tt
  Backed-pollers (c ∷ cs) zero = tt
  Backed-pollers (c ∷ cs) (suc n) = ((λ e. absurd (cc e)), Backed-pollers cs n)

  pub AllChecks-Backed :
      (cs : List ReadyCheck) (ws : List Worker)
      → length ws ≡ length cs
      → All (λ w. w ≡ passed) ws
      → Backed cs ws
      → AllChecks T cs
  AllChecks-Backed [] ws e a b = tt
  AllChecks-Backed (c ∷ cs) [] e a b = absurd (omega (arith, e))
  AllChecks-Backed (c ∷ cs) (w ∷ ws) e a b =
      (b.0 a.0, AllChecks-Backed cs ws (omega (arith, e)) a.1 b.1)

  Backed-set_worker :
      (cs : List ReadyCheck) (ws : List Worker) (i : ℕ) (m : M Bool) (v : Worker)
      → check_of cs ws i ≡ some m
      → (v ≡ passed → T m)
      → Backed cs ws
      → Backed cs (set_worker v ws i)
  unfolding check_of set_worker
  Backed-set_worker [] ws i m v e k b = tt
  Backed-set_worker (c ∷ cs) [] i m v e k b = tt
  Backed-set_worker (c ∷ cs) (polling ∷ ws) zero m v e k b =
      (let same : m ≡ c.1 = cc e in λ p. subst T same (k p), b.1)
  Backed-set_worker (c ∷ cs) (passed ∷ ws) zero m v e k b = absurd (cc e)
  Backed-set_worker (c ∷ cs) (stopped ∷ ws) zero m v e k b = absurd (cc e)
  Backed-set_worker (c ∷ cs) (w ∷ ws) (suc i) m v e k b =
      (b.0, Backed-set_worker cs ws i m v e k b.1)

  polled-Backed :
      (cs : List ReadyCheck) (i : ℕ) (quits : Bool) (s : Race) (m : M Bool) (b : Bool)
      → check_of cs s.workers i ≡ some m
      → (b ≡ true → T m)
      → Backed cs s.workers
      → Backed cs ((polled i quits s b).workers)
  unfolding polled
  polled-Backed cs i quits s m true e k h =
      Backed-set_worker cs s.workers i m passed e (λ p. k refl) h
  polled-Backed cs i quits s m false e k h = elim (Bool-cases (quits && s.done)) [
    | inl y ↦ rw y (Backed-set_worker cs s.workers i m stopped e (λ p. absurd (cc p)) h)
    | inr z ↦ rw z h
  ]

  received-workers : (s : Race) (b r : ℕ) → (received s b r).workers ≡ s.workers
  unfolding received
  received-workers s zero r = refl
  received-workers s (suc b) zero = refl
  received-workers s (suc b) (suc r) = refl

  given_up-workers : (s : Race) (r : ℕ) (d : Bool) → (given_up s r d).workers ≡ s.workers
  unfolding given_up
  given_up-workers s zero d = refl
  given_up-workers s (suc r) false = refl
  given_up-workers s (suc r) true = refl

  -- A check that never returns an error, and of which this is known
  abbrev pub Sound : M Bool → Type 0
  Sound m = Gives (λ b. b ≡ true → T m) (λ e. ⊥) m

  module _ (cs : List ReadyCheck) (K : AllChecks Sound cs) where
    abbrev pub Kept : Race → Type 0
    Kept s = Backed cs s.workers

    run_poll-Backed :
        (i : ℕ) (quits : Bool) (s : Race) (o : Option (M Bool))
        → check_of cs s.workers i ≡ o
        → Kept s
        → Gives Kept (λ e. ⊥) (run_poll i quits s o)
    unfolding run_poll
    run_poll-Backed i quits s none e h = Gives-pure s h
    run_poll-Backed i quits s (some m) e h =
        Gives-bind (AllChecks-check_of Sound cs s.workers i m e K)
          λ b k. Gives-pure _ (polled-Backed cs i quits s m b e k h)

    happen-Backed :
        (s : Race) (o : Option Outcome) (e : Event) → Kept s → Gives Kept (λ e. ⊥) (happen cs s o e)
    unfolding happen
    happen-Backed s (some o) e h = Gives-pure s h
    happen-Backed s none (poll i quits) h = run_poll-Backed i quits s _ refl h
    happen-Backed s none receive h =
        Gives-pure _ (subst (Backed cs) (sym (received-workers s _ _)) h)
    happen-Backed s none give_up h =
        Gives-pure _ (subst (Backed cs) (sym (given_up-workers s _ _)) h)
    happen-Backed s none expire h = Gives-pure _ h

    pub run_events-Backed :
        (es : List Event) (s : Race) → Kept s → Gives Kept (λ e. ⊥) (run_events cs es s)
    unfolding run_events
    run_events-Backed [] s h = Gives-pure s h
    run_events-Backed (e ∷ es) s h =
        Gives-bind (happen-Backed s s.outcome e h) λ t k. run_events-Backed es t k
