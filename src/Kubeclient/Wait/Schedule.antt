-- ===== src/Kubeclient/Wait/Schedule.antt =====
-- internal/kubeclient/kubeclient.go: the states of waitAllReady that a schedule goes through.
use nanok8s.Base.{
  ℕ, zero, suc, ◌≡◌, refl, Bool, true, false, ◌&&◌, Option, none, some, List, [], ◌∷◌, Bool-cases,
  inl, inr,
}
use nanok8s.Os.World.{M}
use nanok8s.Os.Spec.Values.{Gives, Gives-pure, Gives-any, Gives-bind}
use nanok8s.Kubeclient.Race.{
  Worker, polling, passed, stopped, Outcome, Race, Turn, here, there, send, stop, expire, call,
  receive, give_up, finish, Reach, next,
}
use nanok8s.Kubeclient.Race.Outcomes.{send_has_room}
use nanok8s.Kubeclient.Wait as W

pub Turn-set_worker :
    (cs : List W.ReadyCheck) (ws : List Worker) (i : ℕ) (m : M Bool) (v : Worker)
    → W.check_of cs ws i ≡ some m
    → Turn v ws (W.set_worker v ws i)
unfolding W.check_of W.set_worker
Turn-set_worker [] ws i m v e = absurd (cc e)
Turn-set_worker (c ∷ cs) [] i m v e = absurd (cc e)
Turn-set_worker (c ∷ cs) (polling ∷ ws) zero m v e = here
Turn-set_worker (c ∷ cs) (passed ∷ ws) zero m v e = absurd (cc e)
Turn-set_worker (c ∷ cs) (stopped ∷ ws) zero m v e = absurd (cc e)
Turn-set_worker (c ∷ cs) (w ∷ ws) (suc i) m v e = there (Turn-set_worker cs ws i m v e)

done_of_both : (a b : Bool) → (a && b) ≡ true → b ≡ true
done_of_both true b h = h
done_of_both false b h = absurd cc

module _ (n : ℕ) (checks : List W.ReadyCheck) where
  polled-Reach :
      (i : ℕ) (quits : Bool) (s : Race) (m : M Bool) (b : Bool)
      → W.check_of checks s.workers i ≡ some m
      → Reach n s
      → Reach n (W.polled i quits s b)
  unfolding W.polled
  polled-Reach i quits s m true e r =
      let t = Turn-set_worker checks s.workers i m passed e in
      next r (send t (send_has_room n s _ r t))
  polled-Reach i quits s m false e r = elim (Bool-cases (quits && s.done)) [
    | inl y ↦ rw y (
        next r
          (stop (Turn-set_worker checks s.workers i m stopped e) (done_of_both quits s.done y)))
    | inr z ↦ rw z r
  ]

  run_poll-Reach :
      (i : ℕ) (quits : Bool) (s : Race) (o : Option (M Bool))
      → W.check_of checks s.workers i ≡ o
      → Reach n s
      → Gives (Reach n) (λ e. Unit) (W.run_poll i quits s o)
  unfolding W.run_poll
  run_poll-Reach i quits s none e r = Gives-pure s r
  run_poll-Reach i quits s (some m) e r =
      Gives-bind (Gives-any m) λ b u. Gives-pure _ (polled-Reach i quits s m b e r)

  received-Reach :
      (s : Race) (b r : ℕ)
      → s.outcome ≡ none
      → s.buffered ≡ b
      → s.remaining ≡ r
      → Reach n s
      → Reach n (W.received s b r)
  unfolding W.received
  received-Reach s zero r o e f reach = reach
  received-Reach s (suc b) zero o e f reach = reach
  received-Reach s (suc b) (suc r) o e f reach = next reach (call (receive o e f))

  given_up-Reach :
      (s : Race) (r : ℕ) (d : Bool)
      → s.outcome ≡ none
      → s.remaining ≡ r
      → s.done ≡ d
      → Reach n s
      → Reach n (W.given_up s r d)
  unfolding W.given_up
  given_up-Reach s zero d o e f reach = reach
  given_up-Reach s (suc r) false o e f reach = reach
  given_up-Reach s (suc r) true o e f reach = next reach (call (give_up o e f))

  pub happen-Reach :
      (s : Race) (o : Option Outcome) (e : W.Event)
      → s.outcome ≡ o
      → Reach n s
      → Gives (Reach n) (λ e. Unit) (W.happen checks s o e)
  unfolding W.happen
  happen-Reach s (some x) e h r = Gives-pure s r
  happen-Reach s none (W.poll i quits) h r = run_poll-Reach i quits s _ refl r
  happen-Reach s none W.receive h r = Gives-pure _ (received-Reach s _ _ h refl refl r)
  happen-Reach s none W.give_up h r = Gives-pure _ (given_up-Reach s _ _ h refl refl r)
  happen-Reach s none W.expire h r = Gives-pure _ (next r expire)

  pub run_events-Reach :
      (es : List W.Event) (s : Race)
      → Reach n s
      → Gives (Reach n) (λ e. Unit) (W.run_events checks es s)
  unfolding W.run_events
  run_events-Reach [] s r = Gives-pure s r
  run_events-Reach (e ∷ es) s r =
      Gives-bind (happen-Reach s s.outcome e refl r) λ t k. run_events-Reach es t k

  -- Where the schedule ends, the caller returns by steps of the relation.
  pub last_outcome-Reach :
      (s : Race) (o : Option Outcome) (r : ℕ)
      → s.outcome ≡ o
      → s.remaining ≡ r
      → Reach n s
      → (t : Race) × (Reach n t
          × ((t.outcome ≡ some (W.last_outcome o r)) × (t.workers ≡ s.workers)))
  unfolding W.last_outcome
  last_outcome-Reach s (some x) r e f reach = (s, (reach, (e, refl)))
  last_outcome-Reach s none zero e f reach = (_, (next reach (call (finish e f)), (refl, refl)))
  last_outcome-Reach s none (suc r) e f reach =
      (_, (next (next reach expire) (call (give_up e f refl)), (rw f refl, refl)))
