-- ===== src/Kubeclient/Wait/Reported.antt =====
-- internal/kubeclient/kubeclient.go: what the API server has reported when WaitForControlPlane
-- returns nil.
use nanok8s.Base.{
  String, ◌<>◌, ◌≡◌, refl, sym, ◌∙◌, ap, subst, Bool, true, false, ◌&&◌, ◌==◌, eq_iff, List, [],
  ◌∷◌, Bool-cases, inl, inr,
}
use mathlib.Core.List.{Memᴰ}
use mathlib.Core.List.Memᴰ.{head, tail}
use nanok8s.Os.World.{Result, ok, err, panic, World, M}
use nanok8s.Os.Spec.Values.{
  Yields, Gives, Gives-pure, Gives-weaken, Gives-bind, Gives-attempt, Gives-itself, Gives-ok, Known,
}
use nanok8s.Kubeclient.{
  Api, Condition, Context, has_condition, ready_from, node_ready, static_pod_ready, ready_checks,
}
use nanok8s.Kubeclient.Wait.{Event, wait_for_control_plane}
use nanok8s.Kubeclient.Wait.Checks.{AllChecks}
use nanok8s.Kubeclient.Wait.Backed.{Sound}
use nanok8s.Kubeclient.Wait.Ends.{GivesUp, wait_all_ready-Gives}

abbrev pub is_ready : Condition
is_ready = record { type = "Ready"; status = "True" }

-- A request that, in some state, is answered with a condition that says it is ready
abbrev pub Reported : M (List Condition) → Type 0
Reported get = (w w' : World) × ((cs : List Condition) × ((get w ≡ (ok cs, w')) × Memᴰ is_ready cs))

both_true : (a b : Bool) → (a && b) ≡ true → (a ≡ true) × (b ≡ true)
both_true true b h = (refl, h)
both_true false b h = absurd cc

ready_of : (c : Condition) → (c.type == "Ready" && c.status == "True") ≡ true → c ≡ is_ready
ready_of c h =
    let (t, s) = both_true (c.type == "Ready") (c.status == "True") h in
    let type : c.type ≡ "Ready" = (eq_iff c.type "Ready").0 t in
    let status : c.status ≡ "True" = (eq_iff c.status "True").0 s in cc (type, status)

Mem-has_condition : (cs : List Condition) → has_condition "Ready" cs ≡ true → Memᴰ is_ready cs
unfolding has_condition
Mem-has_condition [] h = absurd cc
Mem-has_condition (c ∷ cs) h = elim (Bool-cases (c.type == "Ready" && c.status == "True")) [
  | inl y ↦ subst (λ d. Memᴰ is_ready (d ∷ cs)) (sym (ready_of c y)) (head refl)
  | inr z ↦ tail (Mem-has_condition cs (cc (z, h)))
]

Reported-ready_from :
    (get : M (List Condition)) (r : Result (List Condition))
    → Known (λ cs. (w w' : World) × (get w ≡ (ok cs, w'))) (λ e. Unit) r
    → Gives (λ b. b ≡ true → Reported get) (λ e. ⊥) (ready_from "Ready" r)
unfolding ready_from
Reported-ready_from get (ok cs) k =
    Gives-pure _ (λ h. (k.0, k.1, (cs, (k.2, Mem-has_condition cs h))))
Reported-ready_from get (err e) k = Gives-pure false (λ h. absurd cc)
Reported-ready_from get panic k = absurd k

abbrev Answered : M Bool → Type 0
Answered m = (w w' : World) × (m w ≡ (ok true, w'))

module _ {P : Bool → Type 0} {m : M Bool} where
  Sound-Answered : Gives P (λ e. ⊥) m → Sound Answered m
  Sound-Answered g = record { at = λ w. from w (m w) refl (g.at w) }
    where
      from :
          (w : World) (r : Result Bool × World)
          → m w ≡ r
          → Yields P (λ e. ⊥) r
          → Yields (λ b. b ≡ true → Answered m) (λ e. ⊥) r
      from w (ok b, v) e k = λ h. (w, v, e ∙ ap (λ (x : Bool). (ok x, v)) h)
      from w (err x, v) e k = k
      from w (panic, v) e k = tt

module _ {Rest Client : Type 0} (api : Api Rest Client) (client : Client) where
  -- The node and the three static pods have been reported ready.
  pub record AllReported (node_name : String) : Type 0 where
    pub node : Reported (api.node_conditions client node_name)
    pub api_server :
        Reported (api.pod_conditions client "kube-system" ("kube-apiserver-" <> node_name))
    pub controller_manager :
        Reported (api.pod_conditions client "kube-system" ("kube-controller-manager-" <> node_name))
    pub scheduler :
        Reported (api.pod_conditions client "kube-system" ("kube-scheduler-" <> node_name))

  node_ready-Gives :
      (n : String)
      → Gives
          (λ b. b ≡ true → Reported (api.node_conditions client n))
          (λ e. ⊥)
          (node_ready api client n)
  unfolding node_ready
  node_ready-Gives n = Gives-bind (Gives-attempt (Gives-itself _)) (Reported-ready_from _)

  static_pod_ready-Gives :
      (n : String)
      → Gives
          (λ b. b ≡ true → Reported (api.pod_conditions client "kube-system" n))
          (λ e. ⊥)
          (static_pod_ready api client n)
  unfolding static_pod_ready
  static_pod_ready-Gives n = Gives-bind (Gives-attempt (Gives-itself _)) (Reported-ready_from _)

  Sound-ready_checks : (n : String) → AllChecks (Sound Answered) (ready_checks api client n)
  unfolding ready_checks
  Sound-ready_checks n = (
    Sound-Answered (node_ready-Gives n),
    (
      Sound-Answered (static_pod_ready-Gives _),
      (Sound-Answered (static_pod_ready-Gives _), (Sound-Answered (static_pod_ready-Gives _), tt)),
    ),
  )

  AllReported-ready_checks :
      (n : String) → AllChecks Answered (ready_checks api client n) → AllReported n
  unfolding ready_checks
  AllReported-ready_checks n (a, (b, (c, (d, u)))) = record {
    node = Gives-ok a.0 a.1 true (node_ready-Gives n) a.2 refl;
    api_server = Gives-ok b.0 b.1 true (static_pod_ready-Gives _) b.2 refl;
    controller_manager = Gives-ok c.0 c.1 true (static_pod_ready-Gives _) c.2 refl;
    scheduler = Gives-ok d.0 d.1 true (static_pod_ready-Gives _) d.2 refl;
  }

  pub wait_for_control_plane-Gives :
      (schedule : List Event) (ctx : Context) (n : String)
      → Gives
          (λ u. AllReported n)
          (GivesUp ctx.cause 4)
          (wait_for_control_plane api schedule ctx client n)
  unfolding wait_for_control_plane ready_checks
  wait_for_control_plane-Gives schedule ctx n =
      Gives-weaken (λ u a. AllReported-ready_checks n a) (λ e h. h)
        (wait_all_ready-Gives Answered (ready_checks api client n) schedule ctx
          (Sound-ready_checks n))

-- WaitForControlPlane returns, for any schedule of its goroutines and its caller. Where it returns
-- nil, the API server has answered that the node is ready, and that each of the three static pods
-- is: in some state that request is answered with a condition of type Ready and status True. Where
-- it returns an error, that counts the pending checks: at least one of four.
pub wait_for_control_plane-Yields :
    {Rest Client : Type 0} (api : Api Rest Client) (schedule : List Event) (ctx : Context)
    (client : Client) (n : String) (w : World)
    → Yields
        (λ u. AllReported api client n)
        (GivesUp ctx.cause 4)
        (wait_for_control_plane api schedule ctx client n w)
wait_for_control_plane-Yields api schedule ctx client n w =
    (wait_for_control_plane-Gives api client schedule ctx n).at w
