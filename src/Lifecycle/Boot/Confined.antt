-- ===== src/Lifecycle/Boot/Confined.antt =====
-- internal/lifecycle/boot.go: what is asked of all that a boot runs outside of the repository.
use nanok8s.Base.{ℕ, String, ◌≡◌, Bool, Option, List, ◌∷◌, ◌++◌}
use nanok8s.Os.FilePath.{FilePath}
use nanok8s.Os.Tree.{Node, get}
use nanok8s.Os.World.{M}
use nanok8s.Os.Spec.Runs.{Keeps}
use nanok8s.Paths.{nanok8s_var_dir}
use nanok8s.Api.{NanoK8sConfig}
use nanok8s.Kubeadm.{InitConfiguration, KubeletConfiguration, mark_control_plane}
use nanok8s.Lifecycle.Boot.{Platform}

-- An action leaves everything below /var/lib/nanok8s alone.
abbrev pub Confined : {A : Type 0} → M A → Type 0
Confined m =
    (x : String) (r : FilePath) (v : Option Node)
    → Keeps (λ t. get (nanok8s_var_dir ++ x ∷ r) t ≡ v) m

-- What is asked of the platform: rpm-ostree, kubeadm, client-go, and systemd leave the
-- program's own files alone.
pub record IsConfined {Rest Client : Type 0} (p : Platform Rest Client) : Type 0 where
  pub status : Confined p.rpm.status
  pub defaults : Confined p.phases.defaults
  pub pki : (kc : InitConfiguration) → Confined (p.phases.create_pki_assets kc)
  pub kubeconfig :
      (n : String) (d : FilePath) (kc : InitConfiguration)
      → Confined (p.phases.create_kubeconfig_file n d kc)
  pub etcd :
      (d : FilePath) (s n : String) (kc : InitConfiguration) (b : Bool)
      → Confined (p.phases.create_etcd_manifest d s n kc b)
  pub manifests :
      (d : FilePath) (s : String) (kc : InitConfiguration) (b : Bool)
      → Confined (p.phases.create_control_plane_manifests d s kc b)
  pub env :
      (kc : InitConfiguration) (b : Bool) (d : FilePath)
      → Confined (p.phases.write_kubelet_env_file kc b d)
  pub instance :
      (k : KubeletConfiguration) (d : FilePath) → Confined (p.phases.write_instance_config k d)
  pub kubelet :
      (kc : InitConfiguration) (d : FilePath) (s : String)
      → Confined (p.phases.write_kubelet_config kc d s)
  pub binding : (d : FilePath) → Confined (p.phases.ensure_admin_cluster_role_binding d)
  pub mark :
      (c : Client) (cfg : NanoK8sConfig) (n : String)
      → Confined (mark_control_plane p.phases c cfg n)
  pub dns :
      (kc : InitConfiguration) (c : Client) (s : String) (b : Bool)
      → Confined (p.phases.ensure_dns_addon kc c s b)
  pub proxy :
      (kc : InitConfiguration) (c : Client) (b : Bool)
      → Confined (p.phases.ensure_proxy_addon kc c b)
  pub build_config : (d : FilePath) → Confined (p.api.build_config d)
  pub new_for_config : (c : Rest) → Confined (p.api.new_for_config c)
  pub readyz : (c : Client) (k : ℕ) → Confined (p.api.readyz c k)
  pub node_conditions : (c : Client) (n : String) → Confined (p.api.node_conditions c n)
  pub pod_conditions : (c : Client) (s n : String) → Confined (p.api.pod_conditions c s n)
  pub systemctl : (args : List String) → Confined (p.programs.exec "systemctl" args)
  pub sd_notify : Confined p.sd_notify
