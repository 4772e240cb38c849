-- ===== src/Api/Defaults.antt =====
-- internal/apis/bootstrap/v1alpha1/defaults.go
pub mod Laws
use nanok8s.Base.{
  zero, suc, String, ◌≡◌, refl, Bool, true, Option, none, some, List, [], ◌∷◌, ◌==◌, if◌then◌else◌,
}
use nanok8s.Base.Int.{ℤ, pos, negsuc}
use nanok8s.Api.{
  api_version_name, kind_name, Taint, ControlPlaneSpec, RuntimeSpec, CertificatesSpec,
  NodeRegistrationSpec, NanoK8sConfigSpec, NanoK8sConfig, mode_single, cgroup_driver_systemd,
}

abbrev pub default_bind_port : ℤ
default_bind_port = pos 6443

abbrev pub default_service_subnet : String
default_service_subnet = "10.96.0.0/12"

abbrev pub default_pod_subnet : String
default_pod_subnet = "10.244.0.0/16"

abbrev pub default_cluster_dns : String
default_cluster_dns = "10.96.0.10"

abbrev pub default_cri_socket : String
default_cri_socket = "unix:///var/run/crio/crio.sock"

abbrev pub default_validity_days : ℤ
default_validity_days = pos 3650

abbrev pub default_control_plane_taint : Taint
default_control_plane_taint = record {
  key = "node-role.kubernetes.io/control-plane";
  value = "";
  effect = "NoSchedule";
}

-- `if s == "" { s = d }`
unfoldable pub or_text : String → String → String
or_text s d = if s == "" then d else s

-- `if n == 0 { n = d }`
unfoldable pub or_number : ℤ → ℤ → ℤ
or_number (pos zero) d = d
or_number (pos (suc n)) d = pos (suc n)
or_number (negsuc n) d = negsuc n

-- `if ts == nil { ts = d }`
unfoldable pub or_taints : Option (List Taint) → List Taint → Option (List Taint)
or_taints none d = some d
or_taints (some ts) d = some ts

unfoldable pub default_control_plane : ControlPlaneSpec → ControlPlaneSpec
unfolding or_text or_number
default_control_plane cp = record cp {
  mode = or_text cp.mode mode_single;
  bind_port = or_number cp.bind_port default_bind_port;
  service_subnet = or_text cp.service_subnet default_service_subnet;
  pod_subnet = or_text cp.pod_subnet default_pod_subnet;
  cluster_dns = or_text cp.cluster_dns default_cluster_dns;
}

unfoldable pub default_runtime : RuntimeSpec → RuntimeSpec
unfolding or_text
default_runtime rt = record {
  cri_socket = or_text rt.cri_socket default_cri_socket;
  cgroup_driver = or_text rt.cgroup_driver cgroup_driver_systemd;
}

unfoldable pub default_certificates : CertificatesSpec → CertificatesSpec
unfolding or_number
default_certificates certs = record certs {
  ca_validity_days = or_number certs.ca_validity_days default_validity_days;
  leaf_validity_days = or_number certs.leaf_validity_days default_validity_days;
}

unfoldable pub set_defaults : NanoK8sConfig → NanoK8sConfig
unfolding default_control_plane default_runtime default_certificates or_taints or_text
set_defaults c = record c {
  api_version = or_text c.api_version api_version_name;
  kind = or_text c.kind kind_name;
  spec = record {
    control_plane = default_control_plane c.spec.control_plane;
    runtime = default_runtime c.spec.runtime;
    certificates = default_certificates c.spec.certificates;
    node_registration = record {
      taints = or_taints c.spec.node_registration.taints (default_control_plane_taint ∷ []);
    };
  };
}

unfoldable pub new_default : NanoK8sConfig
unfolding set_defaults
new_default = set_defaults (record {
  api_version = "";
  kind = "";
  metadata_name = "local";
  spec = record {
    control_plane = record {
      mode = "";
      advertise_address = "0.0.0.0";
      bind_port = pos 0;
      service_subnet = "";
      pod_subnet = "";
      cluster_dns = "";
    };
    runtime = record { cri_socket = ""; cgroup_driver = "" };
    certificates = record {
      self_signed = true;
      ca_validity_days = pos 0;
      leaf_validity_days = pos 0;
      extra_sans = "127.0.0.1" ∷ "localhost" ∷ [];
    };
    node_registration = record { taints = none };
  };
})
