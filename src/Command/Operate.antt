-- ===== src/Command/Operate.antt =====
-- cmd/nanok8s/boot.go, config.go and root.go: the boot that systemd starts, and the commands that
-- only print.
use nanok8s.Base.{String, ◌<>◌}
use nanok8s.Os.FilePath.{FilePath, show}
use nanok8s.Os.World.{Result, ok, err, panic, M, throw, crash, ◌>>=◌, ◌>>◌, logf}
use nanok8s.Os.Programs.{Host}
use nanok8s.Api.Defaults.{new_default}
use nanok8s.Config.{Yaml, Reader, load, marshal}
use nanok8s.Version.{kubernetes_version, git_commit, build_date}
use nanok8s.Lifecycle.Boot.{Platform, boot}
use nanok8s.Command.Bootstrap.{default_node_name}

-- A healthy boot waits for `<-ctx.Done()`.
unfoldable pub boot_command :
    {Rest Client : Type 0}
    → Reader
    → Host
    → Platform Rest Client
    → M (Unit {0})
    → FilePath
    → M (Unit {0})
unfolding default_node_name
boot_command reader host p done config_path = do
  cfg ← load reader config_path
  node_name ← default_node_name host
  boot p cfg node_name kubernetes_version
  done

unfoldable pub printed : Result String → M (Unit {0})
printed (ok s) = logf s
printed (err e) = throw e
printed panic = crash

unfoldable pub print_defaults_command : Yaml → M (Unit {0})
unfolding printed marshal new_default
print_defaults_command yaml = printed (marshal yaml new_default)

unfoldable pub validate_command : Reader → FilePath → M (Unit {0})
validate_command reader config_path = do
  cfg ← load reader config_path
  logf (
      "config "
      <> show config_path
      <> " is valid (kubernetesVersion="
      <> kubernetes_version
      <> ", advertiseAddress="
      <> cfg.spec.control_plane.advertise_address
      <> ")\n")

unfoldable pub version_command : M (Unit {0})
version_command = logf (
    "nanok8s   kubernetes=" <> kubernetes_version <> " commit=" <> git_commit <> " built="
    <> build_date <> "\n")
