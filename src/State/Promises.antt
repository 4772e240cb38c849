-- ===== src/State/Promises.antt =====
-- What the two state files' writers promise, from any state of the machine and whichever system
-- calls fail.
use nanok8s.Base.{String, ◌<>◌, refl}
use nanok8s.Os.World.{World}
use nanok8s.Os.Spec.{Post}
use nanok8s.Paths.{state_dir}
use nanok8s.State.{Json, LastBoot, write_last_boot, write_last_event}
use nanok8s.State.Atomic.{write_atomic_lem, Written, Staging}
use nanok8s.State.Recall.{fresh_boot, fresh_event}

-- WriteLastBoot does not panic. If it succeeds, last-boot.json holds the whole record; if it fails,
-- it is as before. Either way nothing else differs but temporary files of the state directory, and
-- the directories above it.
pub write_last_boot_atomic :
    (json : Json) (lb : LastBoot) (w : World)
    → Post
        (λ u. Written state_dir w.fs "last-boot.json" (json.marshal lb))
        (λ e. Staging state_dir w.fs)
        (write_last_boot json lb w)
unfolding write_last_boot
write_last_boot_atomic json lb w =
    (write_atomic_lem state_dir w.fs "last-boot.json" (json.marshal lb) fresh_boot).at w refl

-- WriteLastEvent does not panic. If it succeeds, last-event holds the message and a line's end; if
-- it fails, it is as before. Either way nothing else differs but temporary files of the state
-- directory, and the directories above it.
pub write_last_event_atomic :
    (msg : String) (w : World)
    → Post
        (λ u. Written state_dir w.fs "last-event" (msg <> "\n"))
        (λ e. Staging state_dir w.fs)
        (write_last_event msg w)
unfolding write_last_event
write_last_event_atomic msg w =
    (write_atomic_lem state_dir w.fs "last-event" (msg <> "\n") fresh_event).at w refl
