-- ===== src/Tests/Commands.antt =====
-- The guarantees of the commands, on a small machine.
use nanok8s.Base.{
  String, ◌≡◌, inl, inr, refl, true, false, Option, none, some, List, [], ◌∷◌, ◌==◌, if◌then◌else◌,
}
use nanok8s.Base.Lines.{to_lower, lower, split}
use nanok8s.Base.Text.{trim_space, trim_left, trim_right}
use nanok8s.Os.FilePath.{FilePath, parent, apart}
use nanok8s.Os.Tree.{
  file, dir, nil, cons, get, find, set, delete, update, store, change, alter, is_dir_node, is_dir,
  fresh_dirs, make_dirs,
}
use nanok8s.Os.World.{
  Error, new_error, World, ok, pure, throw, ◌>>=◌, on_error, wrapped, attempt, defer, for_each,
  logf,
}
use nanok8s.Os.Calls.{
  syscall, read_file, mkdir_all, remove_all, remove, rename, write_file, create_temp, create,
  random_name, flush, exists_from, probe, stat,
}
use nanok8s.Os.Spec.{Post}
use nanok8s.State.{exists, any_exists, file_exists, write_last_event, write_atomic}
use nanok8s.State.Recall.{quiet}
use nanok8s.Api.Defaults.{new_default, set_defaults}
use nanok8s.Api.Validate.{validate}
use nanok8s.Config.{load, parse, decoded, checked}
use nanok8s.Kubeadm.{ensure, build_init_configuration, make_dir, run_phases, create_kubeconfig}
use nanok8s.Command.Running.{say, if_ran, if_found}
use nanok8s.Command.Containers.{
  scan_ids, listed, stop_kubelet, crictl_list_containers, crictl_run, clean_containers,
  cleanup_cri_containers,
}
use nanok8s.Command.Mounts.{unmount_kubelet_mounts, unmount_from}
use nanok8s.Command.Network.{
  delete_cni_interfaces, delete_interface, interface_exists, flush_iptables, flush_table,
  flush_ipvs,
}
use nanok8s.Command.Reset.{managed_dirs, remove_managed, run_reset, reset_command}
use nanok8s.Command.Reset.Gone.{AllGone, Stuck, reset_wipes, exists-reset_command}
use nanok8s.Command.Bootstrap.{bootstrap_command, initialise, default_node_name}
use nanok8s.Command.Bootstrap.Once.{HasState, bootstrap_refuses, bootstrap_once}
use nanok8s.Tests.Machine.{before}
use nanok8s.Tests.Cluster.{plain_reader, plain_phases, plain_host, plain_host-IsTame}

reset_wipes_example : Post (λ u. AllGone managed_dirs) Stuck (reset_command plain_host true before)
reset_wipes_example = reset_wipes plain_host (plain_host-IsTame _) (plain_host-IsTame _) before

reset_works : (reset_command plain_host true before).0 ≡ ok tt
unfolding reset_command run_reset stop_kubelet cleanup_cri_containers unmount_kubelet_mounts
    unmount_from remove_managed delete_cni_interfaces delete_interface interface_exists
    flush_iptables flush_table flush_ipvs say if_ran if_found scan_ids listed crictl_list_containers
    crictl_run clean_containers split trim_space trim_left trim_right read_file remove_all syscall
    attempt on_error wrapped for_each ◌>>=◌ pure throw logf get find
reset_works = refl

exists-reset_command_example :
    (exists (quiet (reset_command plain_host true before).1)).0 ≡ ok false
exists-reset_command_example =
    exists-reset_command plain_host (plain_host-IsTame _) (plain_host-IsTame _) before reset_works

-- Three mounts of the kubelet's, of which one cannot be detached, and another one
abbrev mounts : String
mounts = "t /var/lib/kubelet/a t\nt /proc t\nt /var/lib/kubelet/a/v t\nt /var/lib/kubelet/b t\n"

abbrev mounted : World
mounted = record before { fs = dir 1 (cons "proc" (dir 1 (cons "mounts" (file mounts) nil)) nil) }

abbrev busy : String → Option Error
busy t = if t == "/var/lib/kubelet/b" then some (new_error "busy") else none

-- A node that was initialised before
abbrev used : World
used = record before {
  fs = dir 1 (
      cons "var"
        (dir 1 (
          cons "lib"
            (dir 1 (
              cons "nanok8s"
                (dir 1 (cons "state" (dir 1 (cons "last-event" (file "healthy") nil)) nil)) nil))
            nil))
        nil);
}

used_HasState : HasState used.fs
unfolding get find
used_HasState = inr (inl (λ e. cc))

bootstrap_refuses_example :
    Post
      (λ u t. ⊥)
      (λ e t. t ≡ used.fs)
      (bootstrap_command plain_reader plain_phases plain_host false [] used)
bootstrap_refuses_example =
    bootstrap_refuses plain_reader plain_phases plain_host [] used used_HasState

abbrev config : FilePath
config = "etc" ∷ "kubernetes" ∷ "admin.conf" ∷ []

bootstrap_works :
    (bootstrap_command plain_reader plain_phases plain_host false config before).0 ≡ ok tt
unfolding bootstrap_command exists any_exists file_exists probe exists_from stat initialise load
    parse decoded checked default_node_name to_lower lower ensure build_init_configuration make_dir
    run_phases create_kubeconfig write_last_event write_atomic mkdir_all syscall make_dirs is_dir
    ◌>>=◌ create_temp random_name create defer attempt read_file write_file flush rename remove get
    find set delete update store change alter is_dir_node fresh_dirs pure throw on_error wrapped
    parent apart for_each logf validate set_defaults new_default
bootstrap_works = refl

bootstrap_once_example :
    Post
      (λ u t. ⊥)
      (λ e t. t ≡ (bootstrap_command plain_reader plain_phases plain_host false config before).1.fs)
      (bootstrap_command plain_reader plain_phases plain_host false config
        (quiet (bootstrap_command plain_reader plain_phases plain_host false config before).1))
bootstrap_once_example =
    bootstrap_once plain_reader plain_phases plain_host false config config before
      (quiet (bootstrap_command plain_reader plain_phases plain_host false config before).1)
      bootstrap_works refl
