-- ===== src/Paths.antt =====
-- internal/paths/paths.go: the locations that the program reads or writes.
use nanok8s.Base.{[], ◌∷◌, ◌++◌}
use nanok8s.Os.FilePath.{FilePath}

abbrev pub config_dir : FilePath
config_dir = "etc" ∷ "nanok8s" ∷ []

abbrev pub config_file : FilePath
config_file = config_dir ++ "config.yaml" ∷ []

abbrev pub kubernetes_dir : FilePath
kubernetes_dir = "etc" ∷ "kubernetes" ∷ []

abbrev pub pki_dir : FilePath
pki_dir = kubernetes_dir ++ "pki" ∷ []

abbrev pub etcd_pki_dir : FilePath
etcd_pki_dir = pki_dir ++ "etcd" ∷ []

abbrev pub manifests_dir : FilePath
manifests_dir = kubernetes_dir ++ "manifests" ∷ []

abbrev pub kubeconfig_dir : FilePath
kubeconfig_dir = kubernetes_dir

abbrev pub admin_kubeconfig : FilePath
admin_kubeconfig = kubeconfig_dir ++ "admin.conf" ∷ []

abbrev pub kubelet_kubeconfig : FilePath
kubelet_kubeconfig = kubeconfig_dir ++ "kubelet.conf" ∷ []

abbrev pub cm_kubeconfig : FilePath
cm_kubeconfig = kubeconfig_dir ++ "controller-manager.conf" ∷ []

abbrev pub sched_kubeconfig : FilePath
sched_kubeconfig = kubeconfig_dir ++ "scheduler.conf" ∷ []

abbrev pub kubelet_dir : FilePath
kubelet_dir = "var" ∷ "lib" ∷ "kubelet" ∷ []

abbrev pub kubelet_config_file : FilePath
kubelet_config_file = kubelet_dir ++ "config.yaml" ∷ []

abbrev pub kubelet_flags_env_file : FilePath
kubelet_flags_env_file = kubelet_dir ++ "kubeadm-flags.env" ∷ []

abbrev pub etcd_data_dir : FilePath
etcd_data_dir = "var" ∷ "lib" ∷ "etcd" ∷ []

abbrev pub nanok8s_var_dir : FilePath
nanok8s_var_dir = "var" ∷ "lib" ∷ "nanok8s" ∷ []

abbrev pub state_dir : FilePath
state_dir = nanok8s_var_dir ++ "state" ∷ []

abbrev pub backups_dir : FilePath
backups_dir = nanok8s_var_dir ++ "backups" ∷ []

abbrev pub last_boot_file : FilePath
last_boot_file = state_dir ++ "last-boot.json" ∷ []

abbrev pub last_event_file : FilePath
last_event_file = state_dir ++ "last-event" ∷ []

abbrev pub restore_marker : FilePath
restore_marker = backups_dir ++ "restore" ∷ []
