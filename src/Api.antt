-- ===== src/Api.antt =====
-- internal/apis/bootstrap/v1alpha1/types.go: the configuration. A Go slice that may be nil is an
-- `Option`; embedded and nested structs are records.
pub mod Defaults
pub mod Validate
use nanok8s.Base.{String, Bool, Option, List, [], ◌∷◌}
use nanok8s.Base.Int.{ℤ}

abbrev pub api_version_name : String
api_version_name = "bootstrap.nanok8s.io/v1alpha1"

abbrev pub kind_name : String
kind_name = "NanoK8sConfig"

-- corev1.Taint, with the fields that the source reads
pub record Taint : Type 0 where
  pub key : String
  pub value : String
  pub effect : String

pub record ControlPlaneSpec : Type 0 where
  pub mode : String
  pub advertise_address : String
  pub bind_port : ℤ  -- int32
  pub service_subnet : String
  pub pod_subnet : String
  pub cluster_dns : String

pub record RuntimeSpec : Type 0 where
  pub cri_socket : String
  pub cgroup_driver : String

pub record CertificatesSpec : Type 0 where
  pub self_signed : Bool
  pub ca_validity_days : ℤ  -- int32
  pub leaf_validity_days : ℤ  -- int32
  pub extra_sans : List String

-- `none` is the nil slice, `some []` the empty one.
pub record NodeRegistrationSpec : Type 0 where
  pub taints : Option (List Taint)

pub record NanoK8sConfigSpec : Type 0 where
  pub control_plane : ControlPlaneSpec
  pub runtime : RuntimeSpec
  pub certificates : CertificatesSpec
  pub node_registration : NodeRegistrationSpec

pub record NanoK8sConfig : Type 0 where
  pub api_version : String
  pub kind : String
  pub metadata_name : String
  pub spec : NanoK8sConfigSpec

abbrev pub mode_single : String
mode_single = "single"

abbrev pub cgroup_driver_systemd : String
cgroup_driver_systemd = "systemd"

abbrev pub cgroup_driver_cgroupfs : String
cgroup_driver_cgroupfs = "cgroupfs"
