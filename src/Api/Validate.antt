-- ===== src/Api/Validate.antt =====
-- internal/apis/bootstrap/v1alpha1/validate.go. Each message is a constructor of `Problem`;
-- errors.Join of no error is nil. net.ParseIP and net.ParseCIDR come as a parameter.
pub mod Laws
use nanok8s.Base.{
  ℕ, suc, String, ◌≡◌, ◌≢◌, ◌↔◌, refl, sym, ap, Bool, true, false, ◌&&◌, ◌||◌, Option, none, some,
  List, [], ◌∷◌, ◌++◌, ◌==◌, ◌⊎◌, inl, inr, eq_iff, arith, if◌then◌else◌, starts_with, or_else,
  Bool-cases,
}
use nanok8s.Base.Int.{ℤ, pos, negsuc, leb_ℤ, ◌≤ℤ◌}
use nanok8s.Api.{
  api_version_name, kind_name, Taint, ControlPlaneSpec, RuntimeSpec, CertificatesSpec,
  NodeRegistrationSpec, NanoK8sConfig, mode_single, cgroup_driver_systemd, cgroup_driver_cgroupfs,
}

-- Whether net.ParseIP returns an address, and net.ParseCIDR no error
pub record Net : Type 0 where
  pub is_ip : String → Bool
  pub is_cidr : String → Bool

pub data Problem : Type 0 where
  api_version : String → Problem
  kind : String → Problem
  mode : Problem
  no_address : Problem
  address : String → Problem
  bind_port : ℤ → Problem
  service_subnet : String → Problem
  pod_subnet : String → Problem
  cluster_dns : String → Problem
  cri_socket : String → Problem
  cgroup_driver : String → Problem
  self_signed : Problem
  ca_validity_days : Problem
  leaf_validity_days : Problem
  taint_key : ℕ → Problem
  taint_effect : ℕ → String → Problem

-- `if !good { errs = append(errs, p) }`
unfoldable pub report : Bool → Problem → List Problem
report true p = []
report false p = p ∷ []

abbrev pub is_effect : String → Bool
is_effect e = e == "NoSchedule" || (e == "PreferNoSchedule" || e == "NoExecute")

unfoldable pub validate_taint : ℕ → Taint → List Problem
unfolding report
validate_taint i t =
    (if t.key == "" then Problem.taint_key i ∷ [] else [])
    ++ report (is_effect t.effect) (Problem.taint_effect i t.effect)

-- The loop, from the i-th taint
unfoldable pub validate_taints : ℕ → List Taint → List Problem
unfolding validate_taint
validate_taints i [] = []
validate_taints i (t ∷ ts) = validate_taint i t ++ validate_taints (suc i) ts

module _ (net : Net) where
  unfoldable pub validate_address : String → List Problem
  unfolding report
  validate_address s =
      if s == "" then Problem.no_address ∷ [] else report (net.is_ip s) (Problem.address s)

  unfoldable pub validate_control_plane : ControlPlaneSpec → List Problem
  unfolding report validate_address
  validate_control_plane cp =
      report (cp.mode == mode_single) Problem.mode
      ++ (validate_address cp.advertise_address
          ++ (report (leb_ℤ (pos 1) cp.bind_port && leb_ℤ cp.bind_port (pos 65535))
                (Problem.bind_port cp.bind_port)
              ++ (report (net.is_cidr cp.service_subnet) (Problem.service_subnet cp.service_subnet)
                  ++ (report (net.is_cidr cp.pod_subnet) (Problem.pod_subnet cp.pod_subnet)
                      ++ report (net.is_ip cp.cluster_dns) (Problem.cluster_dns cp.cluster_dns)))))

unfoldable pub validate_runtime : RuntimeSpec → List Problem
unfolding report
validate_runtime rt =
    report (starts_with rt.cri_socket "unix://") (Problem.cri_socket rt.cri_socket)
    ++ report
        (rt.cgroup_driver == cgroup_driver_systemd || rt.cgroup_driver == cgroup_driver_cgroupfs)
        (Problem.cgroup_driver rt.cgroup_driver)

unfoldable pub validate_certificates : CertificatesSpec → List Problem
unfolding report
validate_certificates certs =
    report certs.self_signed Problem.self_signed
    ++ (report (leb_ℤ (pos 1) certs.ca_validity_days) Problem.ca_validity_days
        ++ report (leb_ℤ (pos 1) certs.leaf_validity_days) Problem.leaf_validity_days)

unfoldable pub validate : Net → NanoK8sConfig → List Problem
unfolding report validate_control_plane validate_runtime validate_certificates validate_taints
validate net c =
    report (c.api_version == api_version_name) (Problem.api_version c.api_version)
    ++ (report (c.kind == kind_name) (Problem.kind c.kind)
        ++ (validate_control_plane net c.spec.control_plane
            ++ (validate_runtime c.spec.runtime
                ++ (validate_certificates c.spec.certificates
                    ++ validate_taints 0 (or_else c.spec.node_registration.taints [])))))
