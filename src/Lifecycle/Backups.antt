-- ===== src/Lifecycle/Backups.antt =====
-- internal/lifecycle/boot.go: the backups while a restore request is handled, step by step.
use nanok8s.Base.{
  String, ◌<>◌, ◌≡◌, ◌≢◌, refl, sym, ◌∙◌, inl, inr, Bool, true, Option, none, some, List, [], ◌∷◌,
  ◌==◌, eq_iff, Bool-cases, starts_with,
}
use nanok8s.Os.FilePath.{FilePath, under, apart, apart-child}
use nanok8s.Os.Tree.{Node, file, dir, get}
use nanok8s.Os.World.{Result, ok, err, panic, World, M, pure, ◌>>=◌, attempt}
use nanok8s.Os.Calls.{read_file, read_dir, stat, entries_of, unspoiled}
use nanok8s.Os.Spec.{Triple, Post}
use nanok8s.Os.Spec.Rules.{
  Triple-bind, Triple-pure, Triple-throw, Triple-attempt, Triple-on_error, Triple-wrapped,
  Triple-weaken, Triple-from, Triple-if, Triple-logf, Triple-ignored, Triple-defer, Triple-syscall,
  Triple-absurd, Either,
}
use nanok8s.Os.Spec.Steps.{Triple-stat, Triple-read_file, Triple-probe, Triple-remove}
use nanok8s.Paths.{restore_marker, backups_dir, state_dir}
use nanok8s.State.{LastBoot, Json, IsLawfulJson, write_last_boot, write_last_event}
use nanok8s.State.Atomic.{write_atomic_lem}
use nanok8s.State.Recall.{fresh_boot, fresh_event}
use nanok8s.Backup.{backup_path, restore, remove_if_there}
use nanok8s.Backup.Copying.{Cp, IsLawfulCp}
use nanok8s.Backup.Restore.{restore_lem, IsSpared-backup}
use nanok8s.Backup.Swap.{remove_from_lem}
use nanok8s.Backup.Listing.{
  parsed, read_meta, names_from, list, candidates, latest_for_deployment, restore_requested,
  clear_restore_marker,
}
use nanok8s.Lifecycle.{
  log, note, clear_marker, restore_named, restore_latest, restore_current, maybe_restore,
}

module _ (n : String) (v : Option Node) where
  abbrev P : Node → Type 0
  P t = get (backup_path n) t ≡ v

  abbrev Keeps : {A : Type 0} → M A → Type 0
  Keeps m = Triple P m (λ a. P) (λ e. P)

  Keeps-bind :
      {A B : Type 0} {m : M A} {f : A → M B} → Keeps m → ((a : A) → Keeps (f a)) → Keeps (m >>= f)
  Keeps-bind k h = Triple-bind {R = λ a. P} k h

  Keeps-pure : {A : Type 0} (a : A) → Keeps (pure a)
  Keeps-pure a = Triple-pure a (λ a. P)

  Keeps-stat : (p : FilePath) → Keeps (stat p)
  Keeps-stat p = Triple-stat p (λ t m h e. h) (λ t h e. h) (λ t s h. h)

  Keeps-attempt : {A : Type 0} {m : M A} → Keeps m → Triple P (attempt m) (λ r. P) (λ e. P)
  Keeps-attempt k =
      Triple-weaken (λ t h. h) (λ r t h. from r t h) (λ e t h. h) (Triple-attempt {F = λ e. P} k)
    where
      from : {A : Type 0} (r : Result A) (t : Node) → Either (λ a. P) (λ e. P) r t → P t
      from (ok a) t h = h
      from (err e) t h = h
      from panic t h = absurd h

  write_last_boot-Keeps : (json : Json) (lb : LastBoot) → Keeps (write_last_boot json lb)
  unfolding write_last_boot under apart
  write_last_boot-Keeps json lb = Triple-from λ t h.
      Triple-weaken (λ u e. e) (λ a u k. k.same (backup_path n) refl refl (λ r. refl) ∙ h)
        (λ e u k. k.same (backup_path n) refl (λ r. refl) ∙ h)
        (write_atomic_lem state_dir t "last-boot.json" (json.marshal lb) fresh_boot)

  write_last_event-Keeps : (msg : String) → Keeps (write_last_event msg)
  unfolding write_last_event under apart
  write_last_event-Keeps msg = Triple-from λ t h.
      Triple-weaken (λ u e. e) (λ a u k. k.same (backup_path n) refl refl (λ r. refl) ∙ h)
        (λ e u k. k.same (backup_path n) refl (λ r. refl) ∙ h)
        (write_atomic_lem state_dir t "last-event" (msg <> "\n") fresh_event)

  note-Keeps : (msg : String) → Keeps (note msg)
  unfolding note
  note-Keeps msg = Triple-ignored (write_last_event-Keeps msg) (Keeps-pure tt)

  log-Keeps : (s : String) → Keeps (log s)
  unfolding log
  log-Keeps s = Triple-logf _

  restore-Keeps : (cp : Cp) (L : IsLawfulCp cp) (m : String) → Keeps (restore cp m)
  restore-Keeps cp L m = Triple-from λ t h.
      Triple-weaken (λ u e. e) (λ a u k. k.spares.same (backup_path n) (IsSpared-backup n []) ∙ h)
        (λ e u k. k.same (backup_path n) (IsSpared-backup n []) ∙ h) (restore_lem cp L m t)

  read_file-Keeps : (p : FilePath) → Keeps (read_file p)
  read_file-Keeps p = Triple-read_file p (λ t s h e. h) (λ t h e. h) (λ t s h. h)

  parsed-Keeps : (m : String) (r : Result LastBoot) → r ≢ panic → Keeps (parsed m r)
  unfolding parsed
  parsed-Keeps m (ok lb) h = Keeps-pure lb
  parsed-Keeps m (err e) h = Triple-throw _
  parsed-Keeps m panic h = absurd (h refl)

  read_meta-Keeps : (json : Json) → IsLawfulJson json → (m : String) → Keeps (read_meta json m)
  unfolding read_meta
  read_meta-Keeps json L m =
      Keeps-bind (Triple-wrapped _ (read_file-Keeps _))
        λ s. parsed-Keeps m _ (L.unmarshal_returns s)

  list_dir : Triple P (attempt (read_dir backups_dir)) (Either (λ es. P) (λ e. P)) (λ e. P)
  unfolding read_dir
  list_dir = Triple-attempt (
      Triple-syscall (λ now t. (entries_of (get backups_dir t), t)) unspoiled
        (λ now t h. same t (get backups_dir t) h) (λ now f t h. h))
    where
      same : (t : Node) (o : Option Node) → P t → Either (λ es. P) (λ e. P) (entries_of o) t
      same t none h = h
      same t (some (file s)) h = h
      same t (some (dir m es)) h = h

  names_from-Keeps :
      (r : Result (List (String × Bool)))
      → Triple (Either (λ es. P) (λ e. P) r) (names_from r) (λ a. P) (λ e. P)
  unfolding names_from
  names_from-Keeps (ok es) = Keeps-pure _
  names_from-Keeps (err e) = Triple-if e.not_exist (λ p. Keeps-pure _) (λ p. Triple-throw e)
  names_from-Keeps panic = Triple-absurd

  list-Keeps : Keeps list
  unfolding list
  list-Keeps = Triple-bind list_dir names_from-Keeps

  candidates-Keeps : (prefix : String) (ns : List String) → Keeps (candidates prefix ns)
  unfolding candidates
  candidates-Keeps prefix [] = Keeps-pure _
  candidates-Keeps prefix (m ∷ ns) =
      Triple-if (starts_with m prefix)
        (λ p.
          Keeps-bind (Keeps-stat (backup_path m))
            λ info. Keeps-bind (candidates-Keeps prefix ns) λ cs. Keeps-pure _)
        (λ p. candidates-Keeps prefix ns)

  latest_for_deployment-Keeps : (deployment : String) → Keeps (latest_for_deployment deployment)
  unfolding latest_for_deployment
  latest_for_deployment-Keeps deployment =
      Keeps-bind list-Keeps λ names. Keeps-bind (candidates-Keeps _ names) λ cs. Keeps-pure _

  clear_marker-Keeps : n ≢ "restore" → Keeps clear_marker
  unfolding clear_marker clear_restore_marker remove_if_there
  clear_marker-Keeps other =
      Triple-on_error
        (Triple-bind
          (Triple-attempt (
            Triple-remove backups_dir "restore"
              (λ t u h c g. c.apart_same (backup_path n) aside ∙ h) (λ t h g. (h, λ p. h))
              (λ t s h. (h, λ p. h))))
          (remove_from_lem P P))
        (λ e. log-Keeps _)
    where
      aside : apart restore_marker (backup_path n) ≡ true
      aside = apart-child backups_dir "restore" n (elim (Bool-cases ("restore" == n)) [
        | inl e ↦ absurd (other (sym ((eq_iff "restore" n).0 e)))
        | inr e ↦ e
      ])

  module _ (cp : Cp) (L : IsLawfulCp cp) (json : Json) (J : IsLawfulJson json) where
    restore_named-Keeps : (m : String) → Keeps (restore_named cp json m)
    unfolding restore_named
    restore_named-Keeps m = Keeps-bind (log-Keeps _) λ u. Keeps-bind (restore-Keeps cp L m) λ u.
        Keeps-bind (read_meta-Keeps json J m)
          λ meta. Keeps-bind (write_last_boot-Keeps json meta) λ u. note-Keeps _

    restore_latest-Keeps : (deployment : String) → Keeps (restore_latest cp json deployment)
    unfolding restore_latest
    restore_latest-Keeps deployment = Keeps-bind (latest_for_deployment-Keeps deployment) λ m.
        Triple-if (m == "") (λ p. Keeps-bind (log-Keeps _) λ u. note-Keeps _)
          (λ p. restore_named-Keeps m)

    restore_current-Keeps : (deployment : String) → Keeps (restore_current cp json deployment)
    unfolding restore_current
    restore_current-Keeps deployment =
        Triple-if (deployment == "")
          (λ p.
            Keeps-bind (log-Keeps "restore marker present but no booted deployment id; ignoring")
              λ u. note-Keeps _)
          (λ p. restore_latest-Keeps deployment)

    maybe_restore-Keeps :
        n ≢ "restore" → (deployment : String) → Keeps (maybe_restore cp json deployment)
    unfolding maybe_restore restore_requested
    maybe_restore-Keeps other deployment =
        Keeps-bind (Triple-probe restore_marker (λ t m h e. h) (λ t h e. h) (λ t h. h)) λ requested.
          Triple-if requested
            (λ p.
              Triple-defer _ _ _ (restore_current-Keeps deployment) (λ u. clear_marker-Keeps other)
                (λ e. clear_marker-Keeps other))
            (λ p. Keeps-pure tt)

-- Handling a restore request does not panic, and never changes a backup: whatever it finds and
-- whichever calls fail, every entry of the backups' directory but the marker is as it was. `cp` must
-- be a lawful copier, and json one that reads back what it wrote and does not panic.
pub maybe_restore_keeps_backups :
    (cp : Cp) (L : IsLawfulCp cp) (json : Json) (J : IsLawfulJson json) (deployment n : String)
    (w : World)
    → n ≢ "restore"
    → Post
        (λ u t. get (backup_path n) t ≡ get (backup_path n) w.fs)
        (λ e t. get (backup_path n) t ≡ get (backup_path n) w.fs)
        (maybe_restore cp json deployment w)
maybe_restore_keeps_backups cp L json J deployment n w other =
    (maybe_restore-Keeps n (get (backup_path n) w.fs) cp L json J other deployment).at w refl
