-- ===== src/Lifecycle.antt =====
-- internal/lifecycle/boot.go: the restoration that a rollback asks for.
pub mod Backups
pub mod Boot
use Prim.Native.String.{len, slice}
use nanok8s.Base.{String, ◌<>◌, List, [], ◌∷◌, ◌==◌, if◌then◌else◌, leb}
use nanok8s.Os.World.{Error, Result, M, pure, ◌>>=◌, ◌>>◌, on_error, attempt, defer, logf}
use nanok8s.State.{Json, write_last_boot, write_last_event}
use nanok8s.Backup.{restore}
use nanok8s.Backup.Copying.{Cp}
use nanok8s.Backup.Listing.{
  read_meta, latest_for_deployment, restore_requested, clear_restore_marker,
}

-- The command's log lines
unfoldable pub log : String → M (Unit {0})
log s = logf ("[nanok8s] " <> s <> "\n")

-- The first twelve bytes
unfoldable pub short_id : String → String
short_id id = if leb (len id) 12 then id else slice id 0 12

-- `_ = state.WriteLastEvent(msg)`
unfoldable pub note : String → M (Unit {0})
note msg = attempt (write_last_event msg) >> pure tt

unfoldable pub clear_marker : M (Unit {0})
unfolding log
clear_marker = on_error (λ e. log ("clear restore marker failed: " <> e.text)) clear_restore_marker

module _ (cp : Cp) (json : Json) where
  unfoldable pub restore_named : String → M (Unit {0})
  unfolding log note
  restore_named n = do
    log ("restoring backup " <> n)
    restore cp n
    meta ← read_meta json n
    write_last_boot json meta
    note ("restored backup " <> n)

  unfoldable pub restore_latest : String → M (Unit {0})
  unfolding restore_named short_id
  restore_latest deployment = do
    n ← latest_for_deployment deployment
    if n == ""
        then log ("restore marker present but no backup for deployment " <> short_id deployment)
          >> note "restore requested but no backup for current deployment"
        else restore_named n

  unfoldable pub restore_current : String → M (Unit {0})
  unfolding restore_latest
  restore_current deployment =
      if deployment == ""
      then log "restore marker present but no booted deployment id; ignoring"
        >> note "restore requested but no deployment id"
      else restore_latest deployment

  unfoldable pub maybe_restore : String → M (Unit {0})
  unfolding restore_current clear_marker
  maybe_restore deployment = do
    requested ← restore_requested
    if requested then defer clear_marker (restore_current deployment) else pure tt
