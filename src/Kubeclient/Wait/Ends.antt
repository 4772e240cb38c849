-- ===== src/Kubeclient/Wait/Ends.antt =====
-- internal/kubeclient/kubeclient.go: what WaitForControlPlane returns.
use nanok8s.Base.{ℕ, ◌≡◌, ◌≤◌, refl, sym, subst, Bool, some, List, length, arith}
use nanok8s.Os.World.{Error, M}
use nanok8s.Os.Spec.Values.{Gives, Gives-pure, Gives-throw, Gives-weaken, Gives-both, Gives-bind}
use nanok8s.Kubeclient.{Context}
use nanok8s.Kubeclient.Race.{Outcome, ready, not_ready, Race, start, Reach, begin}
use nanok8s.Kubeclient.Race.Invariant.{Explained, Reach-Inv}
use nanok8s.Kubeclient.Race.Outcomes.{ready_sound, not_ready_sound}
use nanok8s.Kubeclient.Wait.{ReadyCheck, Event, last_outcome, pending, returned, wait_all_ready}
use nanok8s.Kubeclient.Wait.Checks.{AllChecks}
use nanok8s.Kubeclient.Wait.Schedule.{run_events-Reach, last_outcome-Reach}
use nanok8s.Kubeclient.Wait.Backed.{
  Backed, Backed-pollers, AllChecks-Backed, Sound, run_events-Backed,
}

-- The wait gives up with an error that counts the pending checks: at least one, and no more than
-- there are.
abbrev pub GivesUp : Error → ℕ → Error → Type 0
GivesUp cause n e = (r : ℕ) × ((e ≡ pending cause r n) × ((1 ≤ r) × (r ≤ n)))

module _ (T : M Bool → Type 0) (cs : List ReadyCheck) where
  abbrev n : ℕ
  n = length cs

  -- A state that the caller returns from, with what is known of the checks in it
  abbrev Final : Outcome → Type 0
  Final o = (t : Race) × (Reach n t × ((t.outcome ≡ some o) × Backed T cs t.workers))

  returned-Gives :
      (cause : Error) (o : Outcome)
      → Final o
      → Gives (λ u. AllChecks T cs) (GivesUp cause n) (returned cause n o)
  unfolding returned
  returned-Gives cause ready (t, (reach, (e, b))) =
      let all = ready_sound n t reach e in
      Gives-pure tt (AllChecks-Backed T cs t.workers all.0 all.1 b)
  returned-Gives cause (not_ready r) (t, (reach, (e, b))) =
      let late = not_ready_sound n r t reach e in
      let i = Reach-Inv reach in
      let left : Explained t (some (not_ready r)) = subst (Explained t) e i.outcome in
      Gives-throw _ (r, (refl, (late.1.0, omega (arith, i.bounded, left.0))))

  -- waitAllReady with checks that never return an error, and of which this is known once they have
  -- answered true
  pub wait_all_ready-Gives :
      (schedule : List Event) (ctx : Context)
      → AllChecks (Sound T) cs
      → Gives (λ u. AllChecks T cs) (GivesUp ctx.cause n) (wait_all_ready schedule ctx cs)
  unfolding wait_all_ready start
  wait_all_ready-Gives schedule ctx K =
      Gives-bind
        (Gives-weaken (λ s p. p) (λ e p. absurd p.1)
          (Gives-both (run_events-Reach n cs schedule (start n) begin)
            (run_events-Backed T cs K schedule (start n) (Backed-pollers T cs n))))
        λ s k. returned-Gives ctx.cause _ (ends s k.0 k.1)
    where
      ends :
          (s : Race)
          → Reach n s
          → Backed T cs s.workers
          → Final (last_outcome s.outcome s.remaining)
      ends s reach b =
          let l = last_outcome-Reach n cs s _ _ refl refl reach in
          (l.0, (l.1.0, (l.1.1.0, subst (Backed T cs) (sym l.1.1.1) b)))
