-- ===== src/Command/Bootstrap.antt =====
-- cmd/nanok8s/bootstrap.go: the node is initialised, once.
pub mod Once
use nanok8s.Base.{String, ◌<>◌, Bool, true, false, not, ◌&&◌, if◌then◌else◌}
use nanok8s.Base.Lines.{to_lower}
use nanok8s.Os.FilePath.{FilePath}
use nanok8s.Os.World.{Error, new_error, M, pure, throw, ◌>>=◌, ◌>>◌, wrapped, logf}
use nanok8s.Os.Programs.{Host}
use nanok8s.State.{exists, write_last_event}
use nanok8s.Config.{Reader, load}
use nanok8s.Kubeadm.{Phases, default_layout, ensure}
use nanok8s.Version.{kubernetes_version}

unfoldable pub default_node_name : Host → M String
default_node_name host = do
  h ← wrapped "get hostname" host.hostname
  pure (to_lower host.lower_table h)

abbrev pub already_there : Error
already_there = new_error (
    "nanok8s state already exists; re-run with --force to re-initialise, "
    <> "or use `nanok8s reset --yes` first")

module _ {Client : Type 0} (reader : Reader) (phases : Phases Client) (host : Host) where
  -- What follows the test for a state that is there
  unfoldable pub initialise : FilePath → M (Unit {0})
  unfolding default_node_name
  initialise config_path = do
    cfg ← load reader config_path
    node_name ← default_node_name host
    ensure phases cfg default_layout node_name
    wrapped "record bootstrap event" (write_last_event ("bootstrapped at " <> kubernetes_version))
    logf (
        "bootstrap complete (node=" <> node_name <> ", kubernetesVersion=" <> kubernetes_version
        <> ")\n" <> "next step: `systemctl enable --now nanok8s.service`\n")

  -- The command, with `--force` or without
  unfoldable pub bootstrap_command : Bool → FilePath → M (Unit {0})
  unfolding initialise
  bootstrap_command force config_path = do
    existed ← exists
    if existed && not force then throw already_there else initialise config_path
