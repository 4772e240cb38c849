-- ===== src/Command/Reset.antt =====
-- cmd/nanok8s/reset.go: the node is torn down to what a fresh bootstrap expects.
pub mod Steps
pub mod Gone
use Prim.Native.String.{compare, len}
use Prim.Native.Nat.{Ordering}
use nanok8s.Base.{
  ℕ, zero, suc, String, ◌<>◌, Bool, true, false, Option, none, some, List, [], ◌∷◌, ◌++◌, ◌==◌,
  if◌then◌else◌, ltb, leb, length, starts_with,
}
use nanok8s.Base.Text.{trim_space, has_suffix}
use nanok8s.Base.Lines.{split, join, decimal}
use nanok8s.Os.FilePath.{FilePath, show}
use nanok8s.Os.World.{
  Error, new_error, wrap, Result, ok, err, panic, M, pure, throw, crash, ◌>>=◌, ◌>>◌, on_error,
  wrapped, attempt, for_each, logf,
}
use nanok8s.Os.Calls.{read_file, remove_all}
use nanok8s.Os.Programs.{Output, Programs, Host}
use nanok8s.Paths.{kubernetes_dir, etcd_data_dir, kubelet_dir, nanok8s_var_dir}
use nanok8s.Command.Running.{say, if_ran, if_found, run_error}
use nanok8s.Command.Containers.{stop_kubelet, cleanup_cri_containers}
use nanok8s.Command.Mounts.{unmount_kubelet_mounts}
use nanok8s.Command.Network.{delete_cni_interfaces, flush_iptables, flush_ipvs}

-- The directories that are wiped, in their order
abbrev pub managed_dirs : List FilePath
managed_dirs = kubernetes_dir ∷ etcd_data_dir ∷ kubelet_dir ∷ nanok8s_var_dir ∷ []

unfoldable pub remove_managed : FilePath → M (Unit {0})
unfolding say
remove_managed t = do wrapped ("remove " <> show t) (remove_all t); say ("removed " <> show t)

module _ (host : Host) where
  unfoldable pub run_reset : M (Unit {0})
  unfolding remove_managed
  run_reset = do
    stop_kubelet host.programs
    cleanup_cri_containers host.programs
    unmount_kubelet_mounts host.unmount
    for_each managed_dirs remove_managed
    delete_cni_interfaces host.programs
    flush_iptables host.programs
    flush_ipvs host.programs

  -- The command, with `--yes` or without
  unfoldable pub reset_command : Bool → M (Unit {0})
  unfolding run_reset
  reset_command true = run_reset
  reset_command false = throw (new_error "refusing to proceed without --yes (this is destructive)")
