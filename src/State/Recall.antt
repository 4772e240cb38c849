-- ===== src/State/Recall.antt =====
-- internal/state/state.go: the readers after the writers.
use nanok8s.Base.{
  String, ◌<>◌, ◌≡◌, refl, ap, true, false, some, [], ◌∷◌, ◌++◌, ◌==◌, arith, Option-cases, inl,
  inr,
}
use nanok8s.Base.Text.{trim_space, trim_space-newline, heads_differ}
use nanok8s.Os.Tree.{file, get}
use nanok8s.Os.World.{ok, World, attempt, pure}
use nanok8s.Os.Calls.{read_file, probe}
use nanok8s.Os.Spec.{post_ok}
use nanok8s.State.{
  Json, IsLawfulJson, LastBoot, write_atomic, write_last_boot, read_last_boot, write_last_event,
  read_last_event, exists,
}
use nanok8s.State.Atomic.{write_atomic_lem, temp}
use nanok8s.Paths.{state_dir, last_boot_file, last_event_file}

-- The world with no failing call ahead
abbrev pub quiet : World → World
quiet w = record w { faults = [] }

module _ (x : String) (fresh : (r : String) → (temp r == x) ≡ false) where
  target_after :
      (s : String) (w : World)
      → (write_atomic (state_dir ++ x ∷ []) s w).0 ≡ ok tt
      → get (state_dir ++ x ∷ []) (write_atomic (state_dir ++ x ∷ []) s w).1.fs ≡ some (file s)
  target_after s w e =
      (post_ok _ _ _ _ e ((write_atomic_lem state_dir w.fs x s fresh).at w refl)).target

pub fresh_boot : (r : String) → (temp r == "last-boot.json") ≡ false
fresh_boot r = heads_differ _ _ "tmp-" r _ (λ e. absurd (omega (arith, e)))

pub fresh_event : (r : String) → (temp r == "last-event") ≡ false
fresh_event r = heads_differ _ _ "tmp-" r _ (λ e. absurd (omega (arith, e)))

-- After a WriteLastEvent that succeeds, ReadLastEvent returns the message without the white space
-- around it, if its own read does not fail.
pub read_last_event-write_last_event :
    (msg : String) (w : World)
    → (write_last_event msg w).0 ≡ ok tt
    → (read_last_event (quiet (write_last_event msg w).1)).0 ≡ ok (trim_space msg)
unfolding write_last_event read_last_event read_file attempt pure
read_last_event-write_last_event msg w e =
    rw (target_after "last-event" fresh_event _ w e) (ap ok (trim_space-newline msg))

-- After a WriteLastBoot that succeeds, ReadLastBoot returns the record that was written, if its own
-- read does not fail, and json reads back what it wrote.
pub read_last_boot-write_last_boot :
    (json : Json) (L : IsLawfulJson json) (lb : LastBoot) (w : World)
    → (write_last_boot json lb w).0 ≡ ok tt
    → (read_last_boot json (quiet (write_last_boot json lb w).1)).0 ≡ ok (some lb)
unfolding write_last_boot read_last_boot read_file attempt pure
read_last_boot-write_last_boot json L lb w e =
    rw (target_after "last-boot.json" fresh_boot _ w e) (rw L.unmarshal-marshal)

-- After a WriteLastEvent that succeeds, Exists reports a node that is already initialised, if none
-- of its own calls fails.
pub exists-write_last_event :
    (msg : String) (w : World)
    → (write_last_event msg w).0 ≡ ok tt
    → (exists (quiet (write_last_event msg w).1)).0 ≡ ok true
unfolding write_last_event exists probe
exists-write_last_event msg w e =
    elim (Option-cases (get last_boot_file (write_atomic last_event_file (msg <> "\n") w).1.fs)) [
      | inl absent ↦ rw absent (rw (target_after "last-event" fresh_event _ w e))
      | inr (n, present) ↦ rw present
    ]
