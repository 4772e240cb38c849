-- ===== src/Api/Defaults/Laws.antt =====
-- internal/apis/bootstrap/v1alpha1/defaults.go: SetDefaults on fields that are set.
use nanok8s.Base.{
  zero, suc, String, ◌≡◌, ◌≢◌, refl, Option, none, some, List, ◌==◌, eq_iff, Bool-cases, inl, inr,
}
use nanok8s.Base.Int.{ℤ, pos, negsuc}
use nanok8s.Api.{Taint, NanoK8sConfig}
use nanok8s.Api.Defaults.{
  set_defaults, default_control_plane, default_runtime, default_certificates, or_text, or_number,
  or_taints,
}

or_text_set : (s d : String) → s ≢ "" → or_text s d ≡ s
unfolding or_text
or_text_set s d h = elim (Bool-cases (s == "")) [
  | inl e ↦ absurd (h ((eq_iff s "").0 e))
  | inr e ↦ rw e refl
]

or_number_set : (n d : ℤ) → n ≢ pos 0 → or_number n d ≡ n
unfolding or_number
or_number_set (pos zero) d h = absurd (h refl)
or_number_set (pos (suc n)) d h = refl
or_number_set (negsuc n) d h = refl

or_taints_set : (o : Option (List Taint)) (d : List Taint) → o ≢ none → or_taints o d ≡ o
unfolding or_taints
or_taints_set none d h = absurd (h refl)
or_taints_set (some ts) d h = refl

-- `d` has each field of `c` that was set, and the fields that have no default.
pub record Keeps (c d : NanoK8sConfig) : Type 0 where
  pub api_version : c.api_version ≢ "" → d.api_version ≡ c.api_version
  pub kind : c.kind ≢ "" → d.kind ≡ c.kind
  pub metadata_name : d.metadata_name ≡ c.metadata_name
  pub mode : c.spec.control_plane.mode ≢ "" → d.spec.control_plane.mode ≡ c.spec.control_plane.mode
  pub advertise_address :
      d.spec.control_plane.advertise_address ≡ c.spec.control_plane.advertise_address
  pub bind_port :
      c.spec.control_plane.bind_port ≢ pos 0
      → d.spec.control_plane.bind_port ≡ c.spec.control_plane.bind_port
  pub service_subnet :
      c.spec.control_plane.service_subnet ≢ ""
      → d.spec.control_plane.service_subnet ≡ c.spec.control_plane.service_subnet
  pub pod_subnet :
      c.spec.control_plane.pod_subnet ≢ ""
      → d.spec.control_plane.pod_subnet ≡ c.spec.control_plane.pod_subnet
  pub cluster_dns :
      c.spec.control_plane.cluster_dns ≢ ""
      → d.spec.control_plane.cluster_dns ≡ c.spec.control_plane.cluster_dns
  pub cri_socket :
      c.spec.runtime.cri_socket ≢ "" → d.spec.runtime.cri_socket ≡ c.spec.runtime.cri_socket
  pub cgroup_driver :
      c.spec.runtime.cgroup_driver ≢ ""
      → d.spec.runtime.cgroup_driver ≡ c.spec.runtime.cgroup_driver
  pub self_signed : d.spec.certificates.self_signed ≡ c.spec.certificates.self_signed
  pub ca_validity_days :
      c.spec.certificates.ca_validity_days ≢ pos 0
      → d.spec.certificates.ca_validity_days ≡ c.spec.certificates.ca_validity_days
  pub leaf_validity_days :
      c.spec.certificates.leaf_validity_days ≢ pos 0
      → d.spec.certificates.leaf_validity_days ≡ c.spec.certificates.leaf_validity_days
  pub extra_sans : d.spec.certificates.extra_sans ≡ c.spec.certificates.extra_sans
  pub taints :
      c.spec.node_registration.taints ≢ none
      → d.spec.node_registration.taints ≡ c.spec.node_registration.taints

-- SetDefaults keeps every field that the user has set, an empty list of taints among them: only
-- an empty text, a zero or a nil list gets a default.
pub set_defaults-Keeps : (c : NanoK8sConfig) → Keeps c (set_defaults c)
unfolding set_defaults default_control_plane default_runtime default_certificates
set_defaults-Keeps c = record {
  api_version = or_text_set _ _;
  kind = or_text_set _ _;
  metadata_name = refl;
  mode = or_text_set _ _;
  advertise_address = refl;
  bind_port = or_number_set _ _;
  service_subnet = or_text_set _ _;
  pod_subnet = or_text_set _ _;
  cluster_dns = or_text_set _ _;
  cri_socket = or_text_set _ _;
  cgroup_driver = or_text_set _ _;
  self_signed = refl;
  ca_validity_days = or_number_set _ _;
  leaf_validity_days = or_number_set _ _;
  extra_sans = refl;
  taints = or_taints_set _ _;
}
