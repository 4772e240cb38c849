-- ===== src/Lifecycle/Boot.antt =====
-- internal/lifecycle/boot.go: Boot. What it calls outside of the repository is a `Platform`.
pub mod Confined
pub mod Reading
pub mod Steps
pub mod Aside
pub mod Record
pub mod Notify
pub mod Retry
pub mod Reported
pub mod Opening
pub mod Next
pub mod Plain
use nanok8s.Base.{
  String, ◌<>◌, Bool, true, false, not, ◌&&◌, Option, none, some, List, [], ◌∷◌, ◌==◌,
  if◌then◌else◌,
}
use nanok8s.Os.World.{
  Error, new_error, Result, ok, err, panic, M, pure, throw, crash, ◌>>=◌, ◌>>◌, on_error, wrapped,
  attempt, when,
}
use nanok8s.Os.Programs.{Output, Programs}
use nanok8s.Paths.{admin_kubeconfig}
use nanok8s.State.{Json, LastBoot, read_last_boot, write_last_boot}
use nanok8s.Backup.{boot_id, create}
use nanok8s.Backup.Copying.{Cp}
use nanok8s.Backup.Listing.{Groups, prune}
use nanok8s.Ostree.{RpmOstree, is_ostree, booted_deployment_id, all_deployment_ids}
use nanok8s.Api.{NanoK8sConfig}
use nanok8s.Kubeadm.{
  Phases, default_layout, ensure, ensure_admin_rbac, mark_control_plane, ensure_addons,
}
use nanok8s.Kubeclient.{Api, Context, load_admin, wait_for_api_server}
use nanok8s.Kubeclient.Wait.{Event, wait_for_control_plane}
use nanok8s.Lifecycle.{log, note, short_id, maybe_restore}

-- The programs and libraries that a boot uses, the order in which Prune visits its groups, how the
-- goroutines of the four checks and their caller take turns, and when the two waits' contexts are
-- done.
pub record Platform (Rest Client : Type 0) : Type 0 where
  pub cp : Cp
  pub json : Json
  pub rpm : RpmOstree
  pub order : Groups → Groups
  pub phases : Phases Client
  pub api : Api Rest Client
  pub schedule : List Event
  pub programs : Programs
  pub sd_notify : M Bool
  pub readyz : Context
  pub control_plane : Context

unfoldable pub short_pair : String → String → String
short_pair deploy boot = short_id deploy <> "_" <> short_id boot

-- prev.Version, which is empty where there is no record
unfoldable pub version_of : Option LastBoot → String
version_of none = ""
version_of (some prev) = prev.version

unfoldable pub had : Option LastBoot → Bool
had none = false
had (some prev) = true

-- `hadPrev && prev.Version != selfVersion`
unfoldable pub is_upgrading : Option LastBoot → String → Bool
is_upgrading none self = false
is_upgrading (some prev) self = not (prev.version == self)

unfoldable pub failure_text : Bool → String → String → String → String
failure_text upgrading prev self reason =
    if upgrading
    then "boot failed upgrading " <> prev <> " -> " <> self <> ": " <> reason
    else "boot failed at " <> self <> ": " <> reason

unfoldable pub boot_failed : {A : Type 0} → Bool → String → String → Error → M A
unfolding failure_text
boot_failed upgrading prev self cause =
    note (failure_text upgrading prev self cause.text) >> throw cause

unfoldable pub started : String → Option Error → M (Unit {0})
unfolding log
started out none = log "kubelet.service queued for start"
started out (some e) = throw (new_error ("systemctl start kubelet: " <> e.text <> ": " <> out))

unfoldable pub start_kubelet : Programs → M (Unit {0})
unfolding started
start_kubelet programs = do
  o ← programs.exec "systemctl" ("start" ∷ "--no-block" ∷ "kubelet.service" ∷ [])
  started o.combined o.failure

unfoldable pub notified : Result Bool → M (Unit {0})
unfolding log
notified (ok sent) = when sent (log "sd_notify READY=1 sent")
notified (err e) = log ("sd_notify READY=1 failed (continuing): " <> e.text)
notified panic = crash

-- daemon.SdNotify(true, daemon.SdNotifyReady)
unfoldable pub notify_ready : M Bool → M (Unit {0})
unfolding notified
notify_ready sd_notify = do r ← attempt sd_notify; notified r

module _ {Rest Client : Type 0} (p : Platform Rest Client) where
  unfoldable pub wait_readyz : M (Unit {0})
  unfolding log
  wait_readyz = do
    log "waiting for apiserver /readyz (timeout=3m0s)"
    client ← load_admin p.api admin_kubeconfig
    wait_for_api_server p.api p.readyz client
    log "apiserver ready"

  unfoldable pub wait_control_plane : Client → String → M (Unit {0})
  unfolding log
  wait_control_plane client node_name = do
    log "waiting for node + control-plane static pods Ready (timeout=3m0s)"
    wait_for_control_plane p.api p.schedule p.control_plane client node_name
    log "control plane ready"

  unfoldable pub current_deployment : Bool → M String
  unfolding log
  current_deployment use_backups =
      if use_backups
      then wrapped "booted deployment id" (booted_deployment_id p.rpm)
      else (log "non-ostree system: backup/restore disabled" >> pure "")

  unfoldable pub back_up : Bool → Option LastBoot → String → M (Unit {0})
  unfolding log short_pair
  back_up use_backups none current_boot = pure tt
  back_up use_backups (some prev) current_boot =
      when
        (use_backups
          && not (prev.deployment_id == "")
          && not (prev.boot_id == "")
          && not (prev.boot_id == current_boot))
        (do
          wrapped "create backup" (create p.cp p.json prev)
          log ("snapshot of previous boot saved as " <> short_pair prev.deployment_id prev.boot_id))

  unfoldable pub pruned : Result (List String) → M (Unit {0})
  unfolding log
  pruned (ok deployments) =
      on_error (λ e. log ("prune failed (continuing): " <> e.text)) (prune p.order deployments)
  pruned (err e) = log ("list deployments failed (skipping prune): " <> e.text)
  pruned panic = crash

  unfoldable pub prune_backups : Bool → M (Unit {0})
  unfolding pruned
  prune_backups use_backups = when use_backups (do r ← attempt (all_deployment_ids p.rpm); pruned r)

  module _ (cfg : NanoK8sConfig) (node_name self_version : String) where
    -- The messages before the cluster is touched
    unfoldable pub announce : Option LastBoot → M (Unit {0})
    unfolding log note is_upgrading had version_of
    announce prev =
        if not (had prev)
        then log ("first healthy boot pending (version=" <> self_version <> ")")
        else if is_upgrading prev self_version
        then (do
          log ("upgrade path: " <> version_of prev <> " -> " <> self_version)
          note ("upgrading " <> version_of prev <> " -> " <> self_version))
        else log ("reconcile path (version=" <> self_version <> ")")

    -- `if err := …; err != nil { return bootFailed(…) }`
    unfoldable pub or_failed : {A : Type 0} → Option LastBoot → M A → M A
    unfolding boot_failed is_upgrading version_of
    or_failed prev =
        on_error (boot_failed (is_upgrading prev self_version) (version_of prev) self_version)

    -- From Ensure to the addons
    unfoldable pub bring_up : Option LastBoot → M (Unit {0})
    unfolding or_failed start_kubelet wait_readyz wait_control_plane log
    bring_up prev = do
      or_failed prev (wrapped "ensure" (ensure p.phases cfg default_layout node_name))
      or_failed prev (start_kubelet p.programs)
      or_failed prev wait_readyz
      client ← or_failed prev (ensure_admin_rbac p.phases default_layout)
      or_failed prev (wait_control_plane client node_name)
      or_failed prev (mark_control_plane p.phases client cfg node_name)
      on_error (λ e. log ("addon reconcile failed (continuing): " <> e.text))
          (ensure_addons p.phases cfg default_layout client)

    -- The last event of a healthy boot
    unfoldable pub healthy : Option LastBoot → M (Unit {0})
    unfolding note is_upgrading had version_of
    healthy prev = note (
        if is_upgrading prev self_version
        then "upgraded " <> version_of prev <> " -> " <> self_version
        else if not (had prev)
        then "initialised at " <> self_version
        else "healthy at " <> self_version)

    -- What follows once the previous boot's record is read
    unfoldable pub proceed : Bool → String → String → Option LastBoot → M (Unit {0})
    unfolding back_up announce bring_up prune_backups healthy notify_ready log
    proceed use_backups deployment current_boot prev = do
      back_up use_backups prev current_boot
      announce prev
      bring_up prev
      prune_backups use_backups
      write_last_boot p.json
          (record { version = self_version; deployment_id = deployment; boot_id = current_boot })
      healthy prev
      notify_ready p.sd_notify
      log "boot complete"

    unfoldable pub boot : M (Unit {0})
    unfolding current_deployment proceed
    boot = do
      use_backups ← wrapped "detect ostree" is_ostree
      deployment ← current_deployment use_backups
      current_boot ← boot_id
      when use_backups (wrapped "restore" (maybe_restore p.cp p.json deployment))
      prev ← read_last_boot p.json
      proceed use_backups deployment current_boot prev
