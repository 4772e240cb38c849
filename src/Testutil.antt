-- ===== src/Testutil.antt =====
-- internal/testutil/paths.go: UseTempPaths, by which a test moves the program's paths below a
-- directory of its own. The variables of internal/paths are here a record, as only tests assign them.
pub mod Restored
use nanok8s.Base.{List, [], ◌∷◌, ◌++◌}
use nanok8s.Os.FilePath.{FilePath}
use nanok8s.Paths

-- The variables of package paths
pub record PathVars : Type 0 where
  pub config_dir : FilePath
  pub config_file : FilePath
  pub kubernetes_dir : FilePath
  pub pki_dir : FilePath
  pub etcd_pki_dir : FilePath
  pub manifests_dir : FilePath
  pub kubeconfig_dir : FilePath
  pub admin_kubeconfig : FilePath
  pub kubelet_kubeconfig : FilePath
  pub cm_kubeconfig : FilePath
  pub sched_kubeconfig : FilePath
  pub kubelet_dir : FilePath
  pub kubelet_config_file : FilePath
  pub kubelet_flags_env_file : FilePath
  pub etcd_data_dir : FilePath
  pub nanok8s_var_dir : FilePath
  pub state_dir : FilePath
  pub backups_dir : FilePath
  pub last_boot_file : FilePath
  pub last_event_file : FilePath
  pub restore_marker : FilePath

-- Their initial values
abbrev pub initial : PathVars
initial = record {
  config_dir = Paths.config_dir;
  config_file = Paths.config_file;
  kubernetes_dir = Paths.kubernetes_dir;
  pki_dir = Paths.pki_dir;
  etcd_pki_dir = Paths.etcd_pki_dir;
  manifests_dir = Paths.manifests_dir;
  kubeconfig_dir = Paths.kubeconfig_dir;
  admin_kubeconfig = Paths.admin_kubeconfig;
  kubelet_kubeconfig = Paths.kubelet_kubeconfig;
  cm_kubeconfig = Paths.cm_kubeconfig;
  sched_kubeconfig = Paths.sched_kubeconfig;
  kubelet_dir = Paths.kubelet_dir;
  kubelet_config_file = Paths.kubelet_config_file;
  kubelet_flags_env_file = Paths.kubelet_flags_env_file;
  etcd_data_dir = Paths.etcd_data_dir;
  nanok8s_var_dir = Paths.nanok8s_var_dir;
  state_dir = Paths.state_dir;
  backups_dir = Paths.backups_dir;
  last_boot_file = Paths.last_boot_file;
  last_event_file = Paths.last_event_file;
  restore_marker = Paths.restore_marker;
}

pub record PathsSnapshot : Type 0 where
  pub config_dir : FilePath
  pub config_file : FilePath
  pub kubernetes_dir : FilePath
  pub pki_dir : FilePath
  pub etcd_pki_dir : FilePath
  pub manifests_dir : FilePath
  pub kubeconfig_dir : FilePath
  pub admin_kubeconfig : FilePath
  pub kubelet_kubeconfig : FilePath
  pub cm_kubeconfig : FilePath
  pub sched_kubeconfig : FilePath
  pub kubelet_dir : FilePath
  pub kubelet_config_file : FilePath
  pub kubelet_flags_env_file : FilePath
  pub etcd_data_dir : FilePath
  pub nanok8s_var_dir : FilePath
  pub state_dir : FilePath
  pub backups_dir : FilePath
  pub last_boot_file : FilePath
  pub last_event_file : FilePath
  pub restore_marker : FilePath

unfoldable pub snapshot : PathVars → PathsSnapshot
snapshot v = record {
  config_dir = v.config_dir;
  config_file = v.config_file;
  kubernetes_dir = v.kubernetes_dir;
  pki_dir = v.pki_dir;
  etcd_pki_dir = v.etcd_pki_dir;
  manifests_dir = v.manifests_dir;
  kubeconfig_dir = v.kubeconfig_dir;
  admin_kubeconfig = v.admin_kubeconfig;
  kubelet_kubeconfig = v.kubelet_kubeconfig;
  cm_kubeconfig = v.cm_kubeconfig;
  sched_kubeconfig = v.sched_kubeconfig;
  kubelet_dir = v.kubelet_dir;
  kubelet_config_file = v.kubelet_config_file;
  kubelet_flags_env_file = v.kubelet_flags_env_file;
  etcd_data_dir = v.etcd_data_dir;
  nanok8s_var_dir = v.nanok8s_var_dir;
  state_dir = v.state_dir;
  backups_dir = v.backups_dir;
  last_boot_file = v.last_boot_file;
  last_event_file = v.last_event_file;
  restore_marker = v.restore_marker;
}

unfoldable pub restore : PathsSnapshot → PathVars → PathVars
restore s v = record v {
  config_dir = s.config_dir;
  config_file = s.config_file;
  kubernetes_dir = s.kubernetes_dir;
  pki_dir = s.pki_dir;
  etcd_pki_dir = s.etcd_pki_dir;
  manifests_dir = s.manifests_dir;
  kubeconfig_dir = s.kubeconfig_dir;
  admin_kubeconfig = s.admin_kubeconfig;
  kubelet_kubeconfig = s.kubelet_kubeconfig;
  cm_kubeconfig = s.cm_kubeconfig;
  sched_kubeconfig = s.sched_kubeconfig;
  kubelet_dir = s.kubelet_dir;
  kubelet_config_file = s.kubelet_config_file;
  kubelet_flags_env_file = s.kubelet_flags_env_file;
  etcd_data_dir = s.etcd_data_dir;
  nanok8s_var_dir = s.nanok8s_var_dir;
  state_dir = s.state_dir;
  backups_dir = s.backups_dir;
  last_boot_file = s.last_boot_file;
  last_event_file = s.last_event_file;
  restore_marker = s.restore_marker;
}

-- A running test: the variables, and what t.Cleanup has registered, the latest first.
pub record TestState : Type 0 where
  pub vars : PathVars
  pub cleanups : List (PathVars → PathVars)

-- The assignments, each of which reads those before it
unfoldable pub assign : FilePath → PathVars → PathVars
assign root v =
    let config_dir = root ++ "etc" ∷ "nanok8s" ∷ [] in
    let kubernetes_dir = root ++ "etc" ∷ "kubernetes" ∷ [] in
    let pki_dir = kubernetes_dir ++ "pki" ∷ [] in
    let kubeconfig_dir = kubernetes_dir in
    let kubelet_dir = root ++ "var" ∷ "lib" ∷ "kubelet" ∷ [] in
    let nanok8s_var_dir = root ++ "var" ∷ "lib" ∷ "nanok8s" ∷ [] in
    let state_dir = nanok8s_var_dir ++ "state" ∷ [] in
    let backups_dir = nanok8s_var_dir ++ "backups" ∷ [] in
    record v {
      config_dir = config_dir;
      config_file = config_dir ++ "config.yaml" ∷ [];
      kubernetes_dir = kubernetes_dir;
      pki_dir = pki_dir;
      etcd_pki_dir = pki_dir ++ "etcd" ∷ [];
      manifests_dir = kubernetes_dir ++ "manifests" ∷ [];
      kubeconfig_dir = kubeconfig_dir;
      admin_kubeconfig = kubeconfig_dir ++ "admin.conf" ∷ [];
      kubelet_kubeconfig = kubeconfig_dir ++ "kubelet.conf" ∷ [];
      cm_kubeconfig = kubeconfig_dir ++ "controller-manager.conf" ∷ [];
      sched_kubeconfig = kubeconfig_dir ++ "scheduler.conf" ∷ [];
      kubelet_dir = kubelet_dir;
      kubelet_config_file = kubelet_dir ++ "config.yaml" ∷ [];
      kubelet_flags_env_file = kubelet_dir ++ "kubeadm-flags.env" ∷ [];
      etcd_data_dir = root ++ "var" ∷ "lib" ∷ "etcd" ∷ [];
      nanok8s_var_dir = nanok8s_var_dir;
      state_dir = state_dir;
      backups_dir = backups_dir;
      last_boot_file = state_dir ++ "last-boot.json" ∷ [];
      last_event_file = state_dir ++ "last-event" ∷ [];
      restore_marker = backups_dir ++ "restore" ∷ [];
    }

-- `root` is what t.TempDir returns.
unfoldable pub use_temp_paths : FilePath → TestState → TestState
unfolding snapshot restore assign
use_temp_paths root t =
    let orig = snapshot t.vars in
    record { vars = assign root t.vars; cleanups = restore orig ∷ t.cleanups }

-- What a test may do: call the helper, register a cleanup of its own, assign a variable.
pub data TestStep : Type 0 where
  use_paths : FilePath → TestStep
  cleanup : (PathVars → PathVars) → TestStep
  set : (PathVars → PathVars) → TestStep

unfoldable pub test_step : TestState → TestStep → TestState
unfolding use_temp_paths
test_step t (use_paths root) = use_temp_paths root t
test_step t (cleanup f) = record t { cleanups = f ∷ t.cleanups }
test_step t (set f) = record t { vars = f t.vars }

unfoldable pub test_body : List TestStep → TestState → TestState
unfolding test_step
test_body [] t = t
test_body (s ∷ ss) t = test_body ss (test_step t s)

-- When a test ends, its cleanups run, the latest first.
unfoldable pub run_cleanups : List (PathVars → PathVars) → PathVars → PathVars
run_cleanups [] v = v
run_cleanups (f ∷ fs) v = run_cleanups fs (f v)
