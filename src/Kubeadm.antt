-- ===== src/Kubeadm.antt =====
-- internal/kubeadm: the configuration is handed to kubeadm's phases, which come as parameters.
pub mod Duration
pub mod Forward
use nanok8s.Base.{
  ℕ, suc, ◌*◌, ◌-◌, ◌%◌, ◌^◌, String, ◌<>◌, ◌≡◌, Bool, false, Option, none, some, List, [], ◌∷◌,
  ltb, if◌then◌else◌,
}
use nanok8s.Base.Int.{ℤ, pos, negsuc}
use nanok8s.Os.FilePath.{FilePath, show}
use nanok8s.Os.World.{M, pure, ◌>>=◌, ◌>>◌, wrapped, for_each}
use nanok8s.Os.Calls.{mkdir_all}
use nanok8s.Paths.{pki_dir, kubeconfig_dir, manifests_dir, kubelet_dir}
use nanok8s.Version.{kubernetes_version}
use nanok8s.Api.{Taint, NanoK8sConfig}

pub record Layout : Type 0 where
  pub pki_dir : FilePath
  pub kubeconfig_dir : FilePath
  pub manifests_dir : FilePath
  pub kubelet_dir : FilePath

abbrev pub default_layout : Layout
default_layout = record {
  pki_dir = pki_dir;
  kubeconfig_dir = kubeconfig_dir;
  manifests_dir = manifests_dir;
  kubelet_dir = kubelet_dir;
}

-- kubeadm's etcd configuration, with the fields that the source writes
pub record LocalEtcd : Type 0 where
  pub server_cert_sans : List String
  pub peer_cert_sans : List String

-- The kubelet's configuration, with the fields that the source writes
pub record KubeletConfiguration : Type 0 where
  pub cluster_dns : List String
  pub cluster_domain : String
  pub cgroup_driver : String
  pub container_runtime_endpoint : String

-- kubeadm's InitConfiguration, with the fields that the source reads or writes. `kubelet` is the
-- component configuration of the kubelet's group, if there is one.
pub record InitConfiguration : Type 0 where
  pub cluster_name : String
  pub kubernetes_version : String
  pub certificates_dir : FilePath
  pub node_name : String
  pub cri_socket : String
  pub taints : Option (List Taint)
  pub advertise_address : String
  pub bind_port : ℤ
  pub service_subnet : String
  pub pod_subnet : String
  pub dns_domain : String
  pub etcd_local : Option LocalEtcd
  pub api_server_cert_sans : List String
  pub ca_validity : ℤ
  pub leaf_validity : ℤ
  pub kubelet : Option KubeletConfiguration

-- The library kubeadm, as the source calls it. `Client` is kubernetes.Interface.
pub record Phases (Client : Type 0) : Type 0 where
  pub defaults : M InitConfiguration
  pub create_pki_assets : InitConfiguration → M (Unit {0})
  pub create_kubeconfig_file : String → FilePath → InitConfiguration → M (Unit {0})
  pub create_etcd_manifest : FilePath → String → String → InitConfiguration → Bool → M (Unit {0})
  pub create_control_plane_manifests : FilePath → String → InitConfiguration → Bool → M (Unit {0})
  pub write_kubelet_env_file : InitConfiguration → Bool → FilePath → M (Unit {0})
  pub write_instance_config : KubeletConfiguration → FilePath → M (Unit {0})
  pub write_kubelet_config : InitConfiguration → FilePath → String → M (Unit {0})
  pub ensure_admin_cluster_role_binding : FilePath → M Client
  pub mark_control_plane : Client → String → Option (List Taint) → M (Unit {0})
  pub ensure_dns_addon : InitConfiguration → Client → String → Bool → M (Unit {0})
  pub ensure_proxy_addon : InitConfiguration → Client → Bool → M (Unit {0})

-- An int64 by its bit pattern
abbrev pub signed64 : ℕ → ℤ
signed64 w = if ltb w (2 ^ 63) then pos w else negsuc (2 ^ 64 - w - 1)

-- 24 * time.Hour, in nanoseconds
abbrev pub day : ℕ
day = 86400000000000

-- `time.Duration(days) * day`, on 64 bits
unfoldable pub days_duration : ℤ → ℤ
days_duration (pos n) = signed64 (n * day % 2 ^ 64)
days_duration (negsuc n) = signed64 ((2 ^ 64 - suc n * day % 2 ^ 64) % 2 ^ 64)

-- A copy of the list
unfoldable pub extra_sans : NanoK8sConfig → List String
extra_sans cfg = cfg.spec.certificates.extra_sans

-- `if kc.Etcd.Local != nil { … }`
unfoldable pub etcd_with : Option LocalEtcd → List String → Option LocalEtcd
etcd_with none sans = none
etcd_with (some e) sans = some (record { server_cert_sans = sans; peer_cert_sans = sans })

-- `if kcc, ok := kc.ComponentConfigs[…]; ok { … }`
unfoldable pub kubelet_with :
    Option KubeletConfiguration → NanoK8sConfig → String → Option KubeletConfiguration
kubelet_with none cfg domain = none
kubelet_with (some k) cfg domain = some (record k {
  cluster_dns = cfg.spec.control_plane.cluster_dns ∷ [];
  cluster_domain = domain;
  cgroup_driver = cfg.spec.runtime.cgroup_driver;
})

-- The assignments to the default configuration
unfoldable pub configured : InitConfiguration → NanoK8sConfig → Layout → String → InitConfiguration
unfolding days_duration extra_sans etcd_with kubelet_with
configured kc cfg layout node_name = record {
  cluster_name = "kubernetes";
  kubernetes_version = kubernetes_version;
  certificates_dir = layout.pki_dir;
  node_name = node_name;
  cri_socket = cfg.spec.runtime.cri_socket;
  taints = cfg.spec.node_registration.taints;
  advertise_address = cfg.spec.control_plane.advertise_address;
  bind_port = cfg.spec.control_plane.bind_port;
  service_subnet = cfg.spec.control_plane.service_subnet;
  pod_subnet = cfg.spec.control_plane.pod_subnet;
  dns_domain = "cluster.local";
  etcd_local = etcd_with kc.etcd_local (extra_sans cfg);
  api_server_cert_sans = extra_sans cfg;
  ca_validity = days_duration cfg.spec.certificates.ca_validity_days;
  leaf_validity = days_duration cfg.spec.certificates.leaf_validity_days;
  kubelet = kubelet_with kc.kubelet cfg "cluster.local";
}

-- kubeadmconstants' names of the kubeconfig files
abbrev pub kubeconfig_names : List String
kubeconfig_names =
    "admin.conf" ∷ "super-admin.conf" ∷ "controller-manager.conf" ∷ "scheduler.conf"
    ∷ "kubelet.conf" ∷ []

module _ {Client : Type 0} (phases : Phases Client) (cfg : NanoK8sConfig) (layout : Layout) where
  unfoldable pub build_init_configuration : String → M InitConfiguration
  unfolding configured
  build_init_configuration node_name = do
    kc ← wrapped "kubeadm default init config" phases.defaults
    pure (configured kc cfg layout node_name)

  unfoldable pub make_dir : FilePath → M (Unit {0})
  make_dir d = wrapped ("mkdir " <> show d) (mkdir_all d)

  unfoldable pub create_kubeconfig : InitConfiguration → String → M (Unit {0})
  create_kubeconfig kc name =
      wrapped ("create kubeconfig " <> name)
        (phases.create_kubeconfig_file name layout.kubeconfig_dir kc)

  unfoldable pub instance_config : InitConfiguration → KubeletConfiguration
  instance_config kc = record {
    cluster_dns = [];
    cluster_domain = "";
    cgroup_driver = "";
    container_runtime_endpoint = kc.cri_socket;
  }

  unfoldable pub run_phases : InitConfiguration → String → M (Unit {0})
  unfolding create_kubeconfig instance_config
  run_phases kc node_name = do
    wrapped "create PKI assets" (phases.create_pki_assets kc)
    for_each kubeconfig_names (create_kubeconfig kc)
    wrapped "create etcd manifest"
        (phases.create_etcd_manifest layout.manifests_dir "" node_name kc false)
    wrapped "create control plane manifests"
        (phases.create_control_plane_manifests layout.manifests_dir "" kc false)
    wrapped "write kubelet env file" (phases.write_kubelet_env_file kc false layout.kubelet_dir)
    wrapped "write kubelet instance config"
        (phases.write_instance_config (instance_config kc) layout.kubelet_dir)
    wrapped "write kubelet config" (phases.write_kubelet_config kc layout.kubelet_dir "")

  unfoldable pub ensure : String → M (Unit {0})
  unfolding build_init_configuration make_dir run_phases
  ensure node_name = do
    kc ← build_init_configuration node_name
    for_each
        (layout.pki_dir ∷ layout.kubeconfig_dir ∷ layout.manifests_dir ∷ layout.kubelet_dir ∷ [])
        make_dir
    run_phases kc node_name

  unfoldable pub ensure_addons : Client → M (Unit {0})
  unfolding build_init_configuration
  ensure_addons client = do
    kc ← build_init_configuration "addons"
    wrapped "ensure CoreDNS" (phases.ensure_dns_addon kc client "" false)
    wrapped "ensure kube-proxy" (phases.ensure_proxy_addon kc client false)

module _ {Client : Type 0} (phases : Phases Client) where
  unfoldable pub ensure_admin_rbac : Layout → M Client
  ensure_admin_rbac layout =
      wrapped "ensure admin cluster role binding"
        (phases.ensure_admin_cluster_role_binding layout.kubeconfig_dir)

  unfoldable pub mark_control_plane : Client → NanoK8sConfig → String → M (Unit {0})
  mark_control_plane client cfg node_name =
      wrapped "mark control-plane"
        (phases.mark_control_plane client node_name cfg.spec.node_registration.taints)
