-- ===== src/Tests/Waits.antt =====
-- The waits for the cluster, and a boot that succeeds, on a small machine.
use mathlib.Core.List.{Memᴰ}
use mathlib.Core.List.Memᴰ.{head, tail}
use nanok8s.Kubeclient.Wait.Prompt.{Comes, IsTrue, receives, wait_all_ready-Comes}
use nanok8s.Base.{
  none, ℕ, zero, suc, ◌<◌, ◌++◌, arith, not, ◌==◌, ◌≡◌, refl, String, Bool, true, false, List, [],
  ◌∷◌,
}
use nanok8s.Os.Tree.{get, alter}
use nanok8s.Os.World.{◌>>=◌, ◌>>◌, throw, new_error, World, err, M, pure}
use nanok8s.Base.Lines.{decimal}
use nanok8s.Os.Spec.Values.{Yields}
use nanok8s.Api.Defaults.{new_default}
use nanok8s.Kubeclient.Wait.{Event, ReadyCheck}
use nanok8s.Kubeclient.Race.{start}
use nanok8s.Kubeclient.Wait.{poll, receive, give_up, expire, wait_all_ready, wait_for_control_plane}
use nanok8s.Kubeclient.Wait.Ends.{GivesUp}
use nanok8s.Kubeclient.Wait.Reported.{AllReported, wait_for_control_plane-Yields}
use nanok8s.Os.Spec.Runs.{RunPost}
use nanok8s.Lifecycle.Boot.{boot, had, is_upgrading}
use nanok8s.Lifecycle.Boot.Next.{is_upgrading-boot, between}
use nanok8s.Lifecycle.Boot.Opening.{opening, Onward, IsRest}
use nanok8s.Os.Tree.Laws.{get-alter-apart, get-alter-none}
use nanok8s.Os.FilePath.{apart}
use nanok8s.Paths.{last_boot_file, restore_marker}
use nanok8s.Tests.Tools.{plain_json-IsLawful, plain_cp-IsLawful}
use nanok8s.Lifecycle.Boot.Reported.{Served, Reported, boot-Reported}
use nanok8s.Tests.Machine.{before, running}
use nanok8s.Tests.Cluster.{plain_api, plain_platform, plain_platform-IsConfined, prompt}

-- The second check is not yet true when the context is done.
abbrev one_false : List (String × M Bool)
one_false = ("a", pure true) ∷ ("b", pure false) ∷ []

late :
    (wait_all_ready
      (poll 0 false ∷ expire ∷ poll 1 true ∷ receive ∷ give_up ∷ [])
      plain_platform.control_plane
      one_false
      before).0
    ≡ err
        (new_error "control plane not ready: context deadline exceeded (1/2 checks still pending)")
unfolding wait_all_ready ◌>>=◌ start pure throw decimal
late = refl

wait_for_control_plane-Yields_example :
    Yields
      (λ u. AllReported plain_api tt "node-1")
      (GivesUp plain_platform.control_plane.cause 4)
      (wait_for_control_plane plain_api prompt plain_platform.control_plane tt "node-1" before)
wait_for_control_plane-Yields_example =
    wait_for_control_plane-Yields plain_api prompt plain_platform.control_plane tt "node-1" before

boot-Reported_example :
    Yields
      (λ u. Served plain_platform × Reported plain_platform "node-1")
      (λ e. Unit)
      (boot plain_platform new_default "node-1" "v2" running)
boot-Reported_example = boot-Reported plain_platform new_default "node-1" "v2" running

-- Someone takes the marker away between the boots.
abbrev unmarked : World → World
unmarked u = record u { fs = alter (λ m. m) restore_marker none u.fs }

unmarked_record : (u : World) → get last_boot_file (unmarked u).fs ≡ get last_boot_file u.fs
unmarked_record u =
    get-alter-apart (λ m. m) restore_marker last_boot_file none u.fs (unfold apart in refl)

unmarked_unasked : (u : World) → get restore_marker (unmarked u).fs ≡ none
unmarked_unasked u = get-alter-none (λ m. m) _ _ u.fs

is_upgrading-boot_example :
    RunPost
      (λ prev t. (had prev ≡ true) × (is_upgrading prev "v3" ≡ not ("v2" == "v3")))
      (λ t. Unit)
      ((boot plain_platform new_default "node-1" "v2" >> between unmarked >> opening plain_platform)
        running)
    × ((u : World)
        → Onward
            (IsRest plain_platform new_default "node-1" "v3")
            (opening plain_platform u)
            (boot plain_platform new_default "node-1" "v3" u))
is_upgrading-boot_example =
    is_upgrading-boot plain_platform plain_json-IsLawful plain_cp-IsLawful plain_platform-IsConfined
      new_default "node-1" "v2" "v3" unmarked running unmarked_record unmarked_unasked

-- Two checks that are true, polled in turn
abbrev both_true : List ReadyCheck
both_true = ("a", pure true) ∷ ("b", pure true) ∷ []

always : IsTrue (pure true)
unfolding pure
always = record { at = λ w. (true, (w, (refl, refl))) }

abbrev in_turn : List Event
in_turn = poll 1 false ∷ receive ∷ poll 0 true ∷ []

each_polls : (i : ℕ) → i < 2 → (q : Bool) × Memᴰ (poll i q) in_turn
each_polls zero h = (true, tail (tail (head refl)))
each_polls (suc zero) h = (false, head refl)
each_polls (suc (suc i)) h = absurd (omega (arith, h))

wait_all_ready-Comes_example :
    Comes
      (λ u. Unit)
      (wait_all_ready (in_turn ++ receives 2) plain_platform.control_plane both_true)
wait_all_ready-Comes_example =
    wait_all_ready-Comes both_true in_turn plain_platform.control_plane (always, (always, tt))
      (tt, (tt, (tt, tt))) each_polls
