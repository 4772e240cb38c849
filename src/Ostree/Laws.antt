-- ===== src/Ostree/Laws.antt =====
-- internal/ostree/ostree.go: the deployment that is booted.
use mathlib.Core.List.{Memᴰ}
use mathlib.Core.List.Memᴰ.{head, tail}
use nanok8s.Base.{
  String, Option, none, Bool, ◌⊎◌, if◌then◌else◌, ◌≡◌, refl, true, false, some, List, [], ◌∷◌,
  Bool-cases, inl, inr,
}
use nanok8s.Os.World.{continue, Result, ok, err, panic, World, M, ◌>>=◌, pure}
use nanok8s.Os.Spec.Values.{
  Yields, Gives, Gives-pure, Gives-throw, Gives-crash, Gives-on_error, Gives-bind, Gives-weaken,
  Gives-itself,
}
use nanok8s.Ostree.{
  RpmOstree, Deployment, is_ostree, booted, booted_or_error, parsed, all_deployments,
  booted_deployment_id,
}

Mem-booted :
    (ds : List Deployment) (id : String)
    → booted ds ≡ some id
    → Memᴰ (record { id = id; booted = true }) ds
unfolding booted
Mem-booted [] id e = cc
Mem-booted (d ∷ ds) id e = elim (Bool-cases d.booted) [
  | inl y ↦ head (cc)
  | inr z ↦ tail (Mem-booted ds id (cc))
]

module _ (rpm : RpmOstree) where
  -- rpm-ostree has printed, in some state, what decodes to these deployments.
  abbrev pub Printed : List Deployment → Type 0
  Printed ds =
      (w w' : World) × ((s : String) × ((rpm.status w ≡ (ok s, w')) × (rpm.unmarshal s ≡ ok ds)))

  all_deployments-Printed : Gives Printed (λ e. Unit) (all_deployments rpm)
  unfolding all_deployments
  all_deployments-Printed =
      Gives-bind (Gives-on_error (Gives-itself rpm.status) (λ e h. Gives-throw _ tt))
        λ s h. decoded s h (rpm.unmarshal s) refl
    where
      decoded :
          (s : String)
          → (w w' : World) × (rpm.status w ≡ (ok s, w'))
          → (r : Result (List Deployment)) → rpm.unmarshal s ≡ r
          → Gives Printed (λ e. Unit) (parsed r)
      decoded s h (ok ds) e = unfold parsed in Gives-pure ds (h.0, h.1, (s, (h.2, e)))
      decoded s h (err x) e = unfold parsed in Gives-throw _ tt
      decoded s h panic e = unfold parsed in Gives-crash

  -- A deployment that is printed as booted
  abbrev pub Booted : String → Type 0
  Booted id = (ds : List Deployment) × (Printed ds × Memᴰ (record { id = id; booted = true }) ds)

  booted_or_error-Booted :
      (ds : List Deployment) (o : Option String)
      → booted ds ≡ o
      → Printed ds
      → Gives Booted (λ e. Unit) (booted_or_error o)
  unfolding booted_or_error
  booted_or_error-Booted ds none e h = Gives-throw _ tt
  booted_or_error-Booted ds (some id) e h = Gives-pure id (ds, (h, Mem-booted ds id e))

  abbrev rest : Bool → M String
  rest present =
      if present then (all_deployments rpm >>= λ ds. booted_or_error (booted ds)) else pure ""

  abbrev Answer : World → String → Type 0
  Answer w id =
      (((is_ostree w).0 ≡ ok false) × (id ≡ "")) ⊎ (((is_ostree w).0 ≡ ok true) × Booted id)

  rest-Answer :
      (w : World) (r : Result Bool) (v : World)
      → (is_ostree w).0 ≡ r
      → Yields (Answer w) (λ e. Unit) (continue r rest v)
  unfolding pure
  rest-Answer w (ok true) v e =
      (Gives-weaken (λ id h. inr (e, h)) (λ e h. h)
          (Gives-bind all_deployments-Printed
            (λ ds h. booted_or_error-Booted ds (booted ds) refl h))).at
        v
  rest-Answer w (ok false) v e = inl (e, refl)
  rest-Answer w (err x) v e = tt
  rest-Answer w panic v e = tt

-- BootedDeploymentID, where it succeeds, returns the empty id and the ostree marker is absent, or the
-- marker is there and it returns the id of a deployment that rpm-ostree has printed as booted: in
-- some state it answers with a text that decodes to a list with that deployment.
pub booted_deployment_id-Booted :
    (rpm : RpmOstree) (w : World)
    → Yields
        (λ id.
          (((is_ostree w).0 ≡ ok false) × (id ≡ ""))
          ⊎ (((is_ostree w).0 ≡ ok true) × Booted rpm id))
        (λ e. Unit)
        (booted_deployment_id rpm w)
unfolding booted_deployment_id ◌>>=◌
booted_deployment_id-Booted rpm w = rest-Answer rpm w (is_ostree w).0 (is_ostree w).1 refl
