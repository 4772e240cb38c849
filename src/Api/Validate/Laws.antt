-- ===== src/Api/Validate/Laws.antt =====
-- internal/apis/bootstrap/v1alpha1/validate.go: the rules of a configuration, and Validate.
use nanok8s.Base.{
  ℕ, suc, String, ◌≡◌, ◌≢◌, ◌↔◌, refl, Bool, true, false, ◌&&◌, ◌||◌, List, [], ◌∷◌, ◌++◌, ◌==◌,
  ◌⊎◌, inl, inr, eq_iff, arith, if◌then◌else◌, starts_with, or_else, Bool-cases,
}
use nanok8s.Base.Int.{ℤ, pos, negsuc, leb_ℤ, ◌≤ℤ◌}
use nanok8s.Api.{
  api_version_name, kind_name, Taint, ControlPlaneSpec, RuntimeSpec, CertificatesSpec,
  NanoK8sConfig, mode_single, cgroup_driver_systemd, cgroup_driver_cgroupfs,
}
use nanok8s.Api.Defaults.{
  new_default, set_defaults, default_control_plane, default_runtime, default_certificates, or_text,
  or_number, or_taints,
}
use nanok8s.Api.Validate.{
  Net, Problem, report, is_effect, validate_taint, validate_taints, validate_address,
  validate_control_plane, validate_runtime, validate_certificates, validate,
}

pub record IsValidTaint (t : Taint) : Type 0 where
  pub key : t.key ≢ ""
  pub effect :
      (t.effect ≡ "NoSchedule") ⊎ ((t.effect ≡ "PreferNoSchedule") ⊎ (t.effect ≡ "NoExecute"))

abbrev pub AreValidTaints : List Taint → Type 0
AreValidTaints [] = Unit
AreValidTaints (t ∷ ts) = IsValidTaint t × AreValidTaints ts

-- Each rule of validate.go, in its order
abbrev pub ValidControlPlane : Net → ControlPlaneSpec → Type 0
ValidControlPlane net cp =
    (cp.mode ≡ mode_single)
    × (((cp.advertise_address ≢ "") × (net.is_ip cp.advertise_address ≡ true))
        × (((pos 1 ≤ℤ cp.bind_port) × (cp.bind_port ≤ℤ pos 65535))
            × ((net.is_cidr cp.service_subnet ≡ true)
                × ((net.is_cidr cp.pod_subnet ≡ true) × (net.is_ip cp.cluster_dns ≡ true)))))

abbrev pub ValidRuntime : RuntimeSpec → Type 0
ValidRuntime rt =
    (starts_with rt.cri_socket "unix://" ≡ true)
    × ((rt.cgroup_driver ≡ cgroup_driver_systemd) ⊎ (rt.cgroup_driver ≡ cgroup_driver_cgroupfs))

abbrev pub ValidCertificates : CertificatesSpec → Type 0
ValidCertificates certs =
    (certs.self_signed ≡ true)
    × ((pos 1 ≤ℤ certs.ca_validity_days) × (pos 1 ≤ℤ certs.leaf_validity_days))

pub record IsValid (net : Net) (c : NanoK8sConfig) : Type 0 where
  pub api_version : c.api_version ≡ api_version_name
  pub kind : c.kind ≡ kind_name
  pub control_plane : ValidControlPlane net c.spec.control_plane
  pub runtime : ValidRuntime c.spec.runtime
  pub certificates : ValidCertificates c.spec.certificates
  pub taints : AreValidTaints (or_else c.spec.node_registration.taints [])

-- `A` is what it takes for the list of problems to be empty.
abbrev Clean : List Problem → Type 0 → Type 0
Clean ps A = (ps ≡ []) ↔ A

append_empty : (ps qs : List Problem) → ps ++ qs ≡ [] → (ps ≡ []) × (qs ≡ [])
append_empty [] qs e = (refl, e)
append_empty (p ∷ ps) qs e = cc

Clean-append :
    {A B : Type 0} (ps qs : List Problem) → Clean ps A → Clean qs B → Clean (ps ++ qs) (A × B)
Clean-append ps qs f g =
    (λ e. let (a, b) = append_empty ps qs e in (f.0 a, g.0 b), λ h. rw (f.1 h.0) (g.1 h.1))

Clean-report : {A : Type 0} (b : Bool) (p : Problem) → ((b ≡ true) ↔ A) → Clean (report b p) A
unfolding report
Clean-report true p h = (λ e. h.0 refl, λ a. refl)
Clean-report false p h = (λ e. cc, λ a. cc (h.1 a))

same : {A : Type 0} → A ↔ A
same = (λ a. a, λ a. a)

or_true :
    (a b : Bool) {A B : Type 0} → ((a ≡ true) ↔ A) → ((b ≡ true) ↔ B) → ((a || b) ≡ true) ↔ (A ⊎ B)
or_true true b f g = (λ e. inl (f.0 refl), λ h. refl)
or_true false b f g = (λ e. inr (g.0 e), λ h. elim h [ inl a ↦ cc (f.1 a) | inr c ↦ g.1 c ])

and_true :
    (a b : Bool) {A B : Type 0} → ((a ≡ true) ↔ A) → ((b ≡ true) ↔ B) → ((a && b) ≡ true) ↔ (A × B)
and_true true b f g = (λ e. (f.0 refl, g.0 e), λ h. g.1 h.1)
and_true false b f g = (λ e. cc, λ h. cc (f.1 h.0))

leb_ℤ_iff : (a b : ℤ) → (leb_ℤ a b ≡ true) ↔ (a ≤ℤ b)
leb_ℤ_iff (pos a) (pos b) = (λ e. ground arith, λ h. ground arith)
leb_ℤ_iff (pos a) (negsuc b) = (λ e. cc, λ h. absurd h)
leb_ℤ_iff (negsuc a) (pos b) = (λ e. tt, λ h. refl)
leb_ℤ_iff (negsuc a) (negsuc b) = (λ e. ground arith, λ h. ground arith)

is_set : (s : String) (p : Problem) → Clean (if s == "" then p ∷ [] else []) (s ≢ "")
is_set s p = elim (Bool-cases (s == "")) [
  | inl e ↦ (rw e (λ k. cc), λ h. absurd (h ((eq_iff s "").0 e)))
  | inr e ↦ (λ k h. cc ((eq_iff s "").1 h), λ h. rw e refl)
]

both : {A C : Type 0} {ps : List Problem} → Clean ps A → (A → C) → (C → A) → Clean ps C
both f to from = (λ e. to (f.0 e), λ c. f.1 (from c))

taint_lem : (i : ℕ) (t : Taint) → Clean (validate_taint i t) (IsValidTaint t)
unfolding validate_taint
taint_lem i t =
    both
      (Clean-append (if t.key == "" then Problem.taint_key i ∷ [] else [])
        (report (is_effect t.effect) (Problem.taint_effect i t.effect))
        (is_set t.key (Problem.taint_key i))
        (Clean-report _ (Problem.taint_effect i t.effect) (
          or_true _ _ (eq_iff t.effect "NoSchedule")
            (or_true _ _ (eq_iff t.effect "PreferNoSchedule") (eq_iff t.effect "NoExecute")))))
      (λ h. record { key = h.0; effect = h.1 }) (λ h. (h.key, h.effect))

taints_lem : (i : ℕ) (ts : List Taint) → Clean (validate_taints i ts) (AreValidTaints ts)
unfolding validate_taints
taints_lem i [] = (λ e. tt, λ h. refl)
taints_lem i (t ∷ ts) = Clean-append _ _ (taint_lem i t) (taints_lem (suc i) ts)

address_lem :
    (net : Net) (s : String) → Clean (validate_address net s) ((s ≢ "") × (net.is_ip s ≡ true))
unfolding validate_address report
address_lem net s = elim (Bool-cases (s == "")) [
  | inl e ↦ (rw e (λ k. cc), λ h. absurd (h.0 ((eq_iff s "").0 e)))
  | inr e ↦ rw e (
      let ip = Clean-report (net.is_ip s) (Problem.address s) same in
      (λ k. (λ h. cc ((eq_iff s "").1 h), ip.0 k), λ h. ip.1 h.1))
]

control_plane_lem :
    (net : Net) (cp : ControlPlaneSpec)
    → Clean (validate_control_plane net cp) (ValidControlPlane net cp)
unfolding validate_control_plane
control_plane_lem net cp = Clean-append _ _ (Clean-report _ _ (eq_iff cp.mode mode_single)) (
    Clean-append _ _ (address_lem net cp.advertise_address) (
      Clean-append _ _
        (Clean-report _ _
          (and_true _ _ (leb_ℤ_iff (pos 1) cp.bind_port) (leb_ℤ_iff cp.bind_port (pos 65535))))
        (Clean-append _ _ (Clean-report _ _ same)
          (Clean-append _ _ (Clean-report _ _ same) (Clean-report _ _ same)))))

runtime_lem : (rt : RuntimeSpec) → Clean (validate_runtime rt) (ValidRuntime rt)
unfolding validate_runtime
runtime_lem rt = Clean-append _ _ (Clean-report _ _ same) (
    Clean-report _ _ (
      or_true _ _ (eq_iff rt.cgroup_driver cgroup_driver_systemd)
        (eq_iff rt.cgroup_driver cgroup_driver_cgroupfs)))

certificates_lem :
    (certs : CertificatesSpec) → Clean (validate_certificates certs) (ValidCertificates certs)
unfolding validate_certificates
certificates_lem certs = Clean-append _ _ (Clean-report _ _ same) (
    Clean-append _ _ (Clean-report _ _ (leb_ℤ_iff (pos 1) certs.ca_validity_days))
      (Clean-report _ _ (leb_ℤ_iff (pos 1) certs.leaf_validity_days)))

-- Validate reports no problem exactly if the configuration meets every rule.
pub validate-IsValid : (net : Net) (c : NanoK8sConfig) → (validate net c ≡ []) ↔ IsValid net c
unfolding validate
validate-IsValid net c =
    both
      (Clean-append _ _ (Clean-report _ _ (eq_iff c.api_version api_version_name)) (
        Clean-append _ _ (Clean-report _ _ (eq_iff c.kind kind_name)) (
          Clean-append _ _ (control_plane_lem net c.spec.control_plane) (
            Clean-append _ _ (runtime_lem c.spec.runtime) (
              Clean-append _ _ (certificates_lem c.spec.certificates)
                (taints_lem 0 (or_else c.spec.node_registration.taints [])))))))
      (λ h. record {
        api_version = h.0;
        kind = h.1.0;
        control_plane = h.1.1.0;
        runtime = h.1.1.1.0;
        certificates = h.1.1.1.1.0;
        taints = h.1.1.1.1.1;
      })
      (λ h. (h.api_version, (h.kind, (h.control_plane, (h.runtime, (h.certificates, h.taints))))))

-- The configuration that `config print-defaults` shows is accepted, if net reads the addresses and
-- subnets in it.
pub validate-new_default :
    (net : Net)
    → net.is_ip "0.0.0.0" ≡ true
    → net.is_cidr "10.96.0.0/12" ≡ true
    → net.is_cidr "10.244.0.0/16" ≡ true
    → net.is_ip "10.96.0.10" ≡ true
    → validate net new_default ≡ []
unfolding new_default set_defaults default_control_plane default_runtime default_certificates
    or_text or_number or_taints
validate-new_default net address service pods dns = (validate-IsValid net new_default).1 (record {
  api_version = refl;
  kind = refl;
  control_plane =
      (refl, ((λ e. cc, address), ((omega arith, omega arith), (service, (pods, dns)))));
  runtime = (refl, inl refl);
  certificates = (refl, (omega arith, omega arith));
  taints = (record { key = λ e. cc; effect = inl refl }, tt);
})
