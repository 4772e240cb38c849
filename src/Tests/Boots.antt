-- ===== src/Tests/Boots.antt =====
-- The guarantees of a boot, of the waits and of the configuration, on small inputs.
use nanok8s.Kubeclient.Race.{capacity}
use nanok8s.Base.{All, ◌≡◌, ◌↔◌, ◌≤◌, ◌<◌, ◌*◌, inr, refl, true, none, some, [], ◌∷◌, length, arith}
use nanok8s.Base.Int.{pos}
use nanok8s.Os.Tree.{find, get}
use nanok8s.Os.World.{
  Error, new_error, wrap, World, err, throw, crash, ◌>>=◌, on_error, wrapped, attempt,
}
use nanok8s.Os.Spec.{Post}
use nanok8s.Os.Spec.Runs.{RunPost}
use nanok8s.Paths.{last_boot_file, restore_marker, backups_dir}
use nanok8s.Os.Calls.{stat, syscall}
use nanok8s.Ostree.{ostree_booted_marker, is_ostree, booted_from}
use nanok8s.Api.Defaults.{new_default}
use nanok8s.Config.{load}
use nanok8s.Config.Laws.{Loaded, load-Loaded}
use nanok8s.Kubeadm.{days_duration, day}
use nanok8s.Kubeadm.Duration.{days_duration-exact}
use nanok8s.Kubeclient.{wait_for_api_server}
use nanok8s.Kubeclient.Poll.{Ends, wait_for_api_server-Ends}
use nanok8s.Kubeclient.Race.{Race, Outcome, passed, start, Turn, Reach, Step, Caller}
use nanok8s.Kubeclient.Race.Outcomes.{ready_sound, send_has_room, wait-Returns, Walk}
use nanok8s.Lifecycle.Boot.{boot}
use nanok8s.Lifecycle.Boot.Record.{Recorded, Whole, boot_records_success}
use nanok8s.Lifecycle.Boot.Plain.{boot_without_ostree}
use nanok8s.Lifecycle.Boot.Retry.{failed_boot_keeps_record}
use nanok8s.Kubeclient.Race.Refinement.{WaitReach, view, Reach-WaitReach}
use nanok8s.Lifecycle.Boot.Notify.{failed_boot_never_notifies}
use nanok8s.Tests.Tools.{plain_cp-IsLawful}
use nanok8s.Tests.Machine.{before, running}
use nanok8s.Tests.Cluster.{
  plain_reader, plain_yaml-IsTotal, plain_api, slow_answers, plain_platform,
  plain_platform-IsConfined,
}

boot_records_success_example :
    RunPost
      (λ u.
        Recorded plain_platform plain_cp-IsLawful plain_platform-IsConfined
          (get last_boot_file running.fs)
          new_default
          "node-1"
          "v2")
      (Whole plain_platform.json (get last_boot_file running.fs))
      (boot plain_platform new_default "node-1" "v2" running)
boot_records_success_example =
    boot_records_success plain_platform plain_cp-IsLawful plain_platform-IsConfined new_default
      "node-1" "v2" running

days_duration-exact_example : (days_duration (pos 365) ≡ pos (365 * day)) ↔ (365 ≤ 106751)
days_duration-exact_example = days_duration-exact 365

load-Loaded_example :
    Post
      (λ c u.
        (u ≡ before.fs)
        × Loaded plain_reader ("etc" ∷ "kubernetes" ∷ "admin.conf" ∷ []) before.fs c)
      (λ e u. u ≡ before.fs)
      (load plain_reader ("etc" ∷ "kubernetes" ∷ "admin.conf" ∷ []) before)
load-Loaded_example =
    load-Loaded plain_reader plain_yaml-IsTotal ("etc" ∷ "kubernetes" ∷ "admin.conf" ∷ []) before

wait_for_api_server-Ends_example :
    Ends slow_answers
      (plain_platform.readyz.cause)
      before
      0
      90
      (wait_for_api_server plain_api plain_platform.readyz tt before)
wait_for_api_server-Ends_example =
    wait_for_api_server-Ends plain_api plain_platform.readyz tt slow_answers before refl

-- One check, and the states of its race
abbrev sent : Race
sent = record (start 1) { workers = passed ∷ []; buffered = 1 }

abbrev received : Race
received = record sent { buffered = 0; remaining = 0 }

abbrev finished : Race
finished = record received { outcome = some Outcome.ready }

one_passed : Reach 1 sent
unfolding start
one_passed = Reach.next Reach.begin (Step.send Turn.here (omega arith))

one_finished : Reach 1 finished
unfolding start
one_finished =
    Reach.next (Reach.next one_passed (Step.call (Caller.receive refl refl refl)))
      (Step.call (Caller.finish refl refl))

abbrev expired : Race
expired = record (start 1) { done = true }

abbrev given_up : Race
given_up = record expired { outcome = some (Outcome.not_ready 1) }

one_expired : Reach 1 expired
one_expired = Reach.next Reach.begin Step.expire

one_given_up : Reach 1 given_up
unfolding start
one_given_up = Reach.next one_expired (Step.call (Caller.give_up refl refl refl))

ready_sound_example : (length finished.workers ≡ 1) × All (λ w. w ≡ passed) finished.workers
ready_sound_example = ready_sound 1 finished one_finished refl

first-Turn : Turn passed (start 1).workers (passed ∷ [])
unfolding start
first-Turn = Turn.here

send_has_room_example : (start 1).buffered < capacity (start 1)
send_has_room_example = send_has_room 1 (start 1) (passed ∷ []) Reach.begin first-Turn

-- Of two checks one has been counted, and the other one has sent its name.
abbrev one_counted : Race
one_counted = record (start 2) { workers = passed ∷ passed ∷ []; buffered = 1; remaining = 1 }

still_waits : one_counted.outcome ≡ none
unfolding start
still_waits = refl

counted_one : Walk 1 (start 2) one_counted
unfolding start
counted_one = Walk.beside (Step.send Turn.here (omega arith)) (
    Walk.own (Caller.receive refl refl refl)
      (Walk.beside (Step.send (Turn.there Turn.here) (omega arith)) Walk.stay))

wait-Returns_example : (1 ≤ (start 2).remaining) × ((t : Race) × Caller one_counted t)
wait-Returns_example =
    wait-Returns 2 1 (start 2) one_counted Reach.begin counted_one still_waits (inr refl)

-- The first system call fails.
abbrev broken : World
broken = record before {
  faults = some (record { text = "i/o error"; leaves = none; depth = 0 }) ∷ [];
}

abbrev detect_failed : Error
detect_failed = wrap "detect ostree" (wrap "stat /run/ostree-booted" (new_error "i/o error"))

boot_fails : boot plain_platform new_default "node-1" "v2" broken ≡ (err detect_failed, before)
unfolding boot is_ostree booted_from stat syscall attempt ◌>>=◌ wrapped on_error throw
boot_fails = refl

failed_boot_never_notifies_example :
    boot (record plain_platform { sd_notify = crash }) new_default "node-1" "v2" broken
    ≡ (err detect_failed, before)
failed_boot_never_notifies_example =
    failed_boot_never_notifies plain_platform crash new_default "node-1" "v2" broken before
      detect_failed boot_fails

Reach-WaitReach_example : WaitReach 1 (view given_up)
Reach-WaitReach_example = Reach-WaitReach 1 given_up one_given_up

unasked : get restore_marker broken.fs ≡ none
unfolding get find
unasked = refl

failed_boot_keeps_record_example : get last_boot_file before.fs ≡ get last_boot_file broken.fs
failed_boot_keeps_record_example =
    failed_boot_keeps_record plain_platform plain_cp-IsLawful plain_platform-IsConfined new_default
      "node-1" "v2" broken before detect_failed unasked boot_fails

no_marker : get ostree_booted_marker before.fs ≡ none
unfolding get find
no_marker = refl

boot_without_ostree_example :
    RunPost
      (λ u t. get backups_dir t ≡ get backups_dir before.fs)
      (λ t. get backups_dir t ≡ get backups_dir before.fs)
      (boot plain_platform new_default "node-1" "v2" before)
boot_without_ostree_example =
    boot_without_ostree plain_platform plain_platform-IsConfined new_default "node-1" "v2" before
      no_marker
