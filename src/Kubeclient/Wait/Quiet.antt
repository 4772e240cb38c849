-- ===== src/Kubeclient/Wait/Quiet.antt =====
-- internal/kubeclient/kubeclient.go: what the checks keep, waitAllReady keeps.
use nanok8s.Base.{ℕ, String, ◌≡◌, refl, Bool, Option, none, some, List, [], ◌∷◌}
use nanok8s.Os.Tree.{Node}
use nanok8s.Os.World.{Result, ok, err, panic, M}
use nanok8s.Os.Spec.Runs.{Keeps, Run-pure, Run-throw, Run-crash, Run-bind, Keeps-attempt}
use nanok8s.Kubeclient.{
  Api, Condition, Context, ready_from, node_ready, static_pod_ready, ready_checks,
}
use nanok8s.Kubeclient.Race.{Race, Outcome, ready, not_ready}
use nanok8s.Kubeclient.Wait.{
  ReadyCheck, Event, poll, receive, give_up, expire, check_of, run_poll, happen, run_events,
  returned, wait_all_ready,
}
use nanok8s.Kubeclient.Wait.Checks.{AllChecks, AllChecks-check_of}

module _ {P : Node → Type 0} where
  Keeps-returned : (n : ℕ) (o : Outcome) (ctx : Context) → Keeps P (returned ctx.cause n o)
  unfolding returned
  Keeps-returned n ready ctx = Run-pure tt
  Keeps-returned n (not_ready r) ctx = Run-throw _

  module _ (checks : List ReadyCheck) (K : AllChecks (Keeps P) checks) where
    Keeps-run_poll :
        (i : ℕ) (quits : Bool) (s : Race) (o : Option (M Bool))
        → check_of checks s.workers i ≡ o
        → Keeps P (run_poll i quits s o)
    unfolding run_poll
    Keeps-run_poll i quits s none e = Run-pure s
    Keeps-run_poll i quits s (some m) e =
        Run-bind (AllChecks-check_of (Keeps P) checks s.workers i m e K) λ b. Run-pure _

    Keeps-happen : (s : Race) (o : Option Outcome) (e : Event) → Keeps P (happen checks s o e)
    unfolding happen
    Keeps-happen s (some o) e = Run-pure s
    Keeps-happen s none (poll i quits) = Keeps-run_poll i quits s _ refl
    Keeps-happen s none receive = Run-pure _
    Keeps-happen s none give_up = Run-pure _
    Keeps-happen s none expire = Run-pure _

    Keeps-run_events : (es : List Event) (s : Race) → Keeps P (run_events checks es s)
    unfolding run_events
    Keeps-run_events [] s = Run-pure s
    Keeps-run_events (e ∷ es) s = Run-bind (Keeps-happen s s.outcome e) λ t. Keeps-run_events es t

    pub Keeps-wait_all_ready :
        (schedule : List Event) (ctx : Context) → Keeps P (wait_all_ready schedule ctx checks)
    unfolding wait_all_ready
    Keeps-wait_all_ready schedule ctx =
        Run-bind (Keeps-run_events schedule _) λ s. Keeps-returned _ _ ctx

  Keeps-ready_from : (type : String) (r : Result (List Condition)) → Keeps P (ready_from type r)
  unfolding ready_from
  Keeps-ready_from type (ok cs) = Run-pure _
  Keeps-ready_from type (err e) = Run-pure _
  Keeps-ready_from type panic = Run-crash

  pub Keeps-ready_checks :
      {Rest Client : Type 0} (api : Api Rest Client) (c : Client) (n : String)
      → ((m : String) → Keeps P (api.node_conditions c m))
      → ((m : String) → Keeps P (api.pod_conditions c "kube-system" m))
      → AllChecks (Keeps P) (ready_checks api c n)
  unfolding ready_checks node_ready static_pod_ready
  Keeps-ready_checks api c n k l = (node, (pod _, (pod _, (pod _, tt))))
    where
      node : Keeps P (node_ready api c n)
      node = Run-bind (Keeps-attempt (k n)) λ r. Keeps-ready_from "Ready" r

      pod : (m : String) → Keeps P (static_pod_ready api c m)
      pod m = Run-bind (Keeps-attempt (l m)) λ r. Keeps-ready_from "Ready" r
