-- ===== src/Kubeadm/Forward.antt =====
-- internal/kubeadm/config.go: what of the configuration reaches kubeadm.
use nanok8s.Base.{ℕ, ◌*◌, ◌≤◌, String, ◌≡◌, Option, none, some, List, [], ◌∷◌}
use nanok8s.Base.Int.{ℤ, pos, ◌≤ℤ◌}
use nanok8s.Os.World.{World, ok}
use nanok8s.Api.{NanoK8sConfig}
use nanok8s.Kubeadm.{
  Layout, LocalEtcd, KubeletConfiguration, InitConfiguration, Phases, day, extra_sans,
}

-- A validity of 1 to 106751 days, in nanoseconds
abbrev pub IsPeriod : ℤ → ℤ → Type 0
IsPeriod days period = (n : ℕ) × ((days ≡ pos n) × ((1 ≤ n) × (period ≡ pos (n * day))))

-- kubeadm is given local etcd, with these names for its certificates.
abbrev pub EtcdHas : List String → Option LocalEtcd → Type 0
EtcdHas sans none = ⊥
EtcdHas sans (some e) = (e.server_cert_sans ≡ sans) × (e.peer_cert_sans ≡ sans)

-- kubeadm is given a configuration of the kubelet, with the user's settings.
abbrev pub KubeletHas : NanoK8sConfig → Option KubeletConfiguration → Type 0
KubeletHas cfg none = ⊥
KubeletHas cfg (some k) =
    (k.cluster_dns ≡ cfg.spec.control_plane.cluster_dns ∷ [])
    × ((k.cluster_domain ≡ "cluster.local") × (k.cgroup_driver ≡ cfg.spec.runtime.cgroup_driver))

abbrev pub IsGiven : {A : Type 0} → Option A → Type 0
IsGiven none = ⊥
IsGiven (some a) = Unit

-- The documented defaults of kubeadm: etcd is local, and the kubelet has a configuration.
abbrev pub HasDefaults : {Client : Type 0} → Phases Client → Type 0
HasDefaults phases =
    (w : World) (k : InitConfiguration)
    → (phases.defaults w).0 ≡ ok k
    → IsGiven k.etcd_local × IsGiven k.kubelet

-- Everything that the user sets is what kubeadm is given.
pub record Forwarded (cfg : NanoK8sConfig) (layout : Layout) (name : String)
    (kc : InitConfiguration) : Type 0 where
  pub certificates_dir : kc.certificates_dir ≡ layout.pki_dir
  pub node_name : kc.node_name ≡ name
  pub cri_socket : kc.cri_socket ≡ cfg.spec.runtime.cri_socket
  pub taints : kc.taints ≡ cfg.spec.node_registration.taints
  pub advertise_address : kc.advertise_address ≡ cfg.spec.control_plane.advertise_address
  pub bind_port : kc.bind_port ≡ cfg.spec.control_plane.bind_port
  pub port_low : pos 1 ≤ℤ kc.bind_port
  pub port_high : kc.bind_port ≤ℤ pos 65535
  pub service_subnet : kc.service_subnet ≡ cfg.spec.control_plane.service_subnet
  pub pod_subnet : kc.pod_subnet ≡ cfg.spec.control_plane.pod_subnet
  pub api_server : kc.api_server_cert_sans ≡ cfg.spec.certificates.extra_sans
  pub etcd : EtcdHas cfg.spec.certificates.extra_sans kc.etcd_local
  pub kubelet : KubeletHas cfg kc.kubelet
  pub ca_validity : IsPeriod cfg.spec.certificates.ca_validity_days kc.ca_validity
  pub leaf_validity : IsPeriod cfg.spec.certificates.leaf_validity_days kc.leaf_validity
