-- ===== src/Backup/Listing/Marker.antt =====
-- The marker that asks for a restoration.
use nanok8s.Base.{◌≡◌, none, false}
use nanok8s.Os.Tree.{get}
use nanok8s.Os.World.{ok, World}
use nanok8s.Os.Calls.{probe}
use nanok8s.Os.Spec.{Triple, post_ok}
use nanok8s.Os.Spec.Rules.{Triple-bind, Triple-attempt}
use nanok8s.Os.Spec.Steps.{Triple-remove}
use nanok8s.Paths.{restore_marker, backups_dir}
use nanok8s.State.Recall.{quiet}
use nanok8s.Backup.{remove_if_there}
use nanok8s.Backup.Swap.{remove_from_lem}
use nanok8s.Backup.Listing.{restore_requested, clear_restore_marker}

cleared : Triple (λ t. Unit) clear_restore_marker (λ u t. get restore_marker t ≡ none) (λ e t. Unit)
unfolding clear_restore_marker remove_if_there
cleared =
    Triple-bind
      (Triple-attempt (
        Triple-remove backups_dir "restore" (λ t u h c g. g) (λ t h g. (tt, λ p. g))
          (λ t s h. (tt, λ p. cc))))
      (remove_from_lem (λ t. get restore_marker t ≡ none) (λ t. Unit))

-- After a ClearRestoreMarker that succeeds, RestoreRequested answers no, if its own call does not
-- fail.
pub restore_requested-clear_restore_marker :
    (w : World)
    → (clear_restore_marker w).0 ≡ ok tt
    → (restore_requested (quiet (clear_restore_marker w).1)).0 ≡ ok false
unfolding restore_requested probe
restore_requested-clear_restore_marker w e = rw (post_ok _ _ _ _ e (cleared.at w tt))
