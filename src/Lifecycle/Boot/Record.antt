-- ===== src/Lifecycle/Boot/Record.antt =====
-- internal/lifecycle/boot.go: the previous boot's record while a boot runs.
use nanok8s.Base.{String, ◌≡◌, ◌⊎◌, inl, inr, refl, sym, subst, ap, Bool, Option, some, ◌==◌}
use nanok8s.Os.FilePath.{FilePath, under, apart}
use nanok8s.Os.Tree.{Node, file, get}
use nanok8s.Os.World.{World, M}
use nanok8s.Os.Spec.Runs.{
  RunPost, Run, Keeps, Run-Triple, Run-pure, Run-bind, Run-if, Run-on_error, Run-wrapped, Run-from,
  Run-weaken, Keeps-logf, Keeps-defer, Keeps-when,
}
use nanok8s.Os.Spec.Rules.{Triple-from, Triple-weaken, Triple-bind, Triple-attempt}
use nanok8s.Os.Spec.Steps.{Triple-probe, Triple-remove}
use nanok8s.Paths.{state_dir, backups_dir, last_boot_file, restore_marker}
use nanok8s.State.{Json, LastBoot, write_last_boot}
use nanok8s.State.Atomic.{write_atomic_lem}
use nanok8s.State.Recall.{fresh_boot}
use nanok8s.Backup.{remove_if_there}
use nanok8s.Backup.Copying.{Cp, IsLawfulCp}
use nanok8s.Backup.Swap.{remove_from_lem}
use nanok8s.Backup.Listing.{restore_requested, clear_restore_marker}
use nanok8s.Backup.Listing.Reads.{Keeps-read_meta, Keeps-latest_for_deployment}
use nanok8s.Api.{NanoK8sConfig}
use nanok8s.Lifecycle.Boot.{Platform, proceed, boot}
use nanok8s.Lifecycle.Boot.Aside
use nanok8s.Lifecycle.Boot.Confined.{IsConfined}
use nanok8s.Lifecycle.Boot.Reading.{Keeps-log, Keeps-is_ostree, Keeps-boot_id, Keeps-read_last_boot}
use nanok8s.Lifecycle.{
  log, note, clear_marker, restore_named, restore_latest, restore_current, maybe_restore,
}

-- What is kept of a path, whatever stands there, is kept of every condition on what stands there.
pub Keeps-lift :
    {A : Type 0} {m : M A} (S : Option Node → Type 0) (q : FilePath)
    → ((v : Option Node) → Keeps (λ t. get q t ≡ v) m)
    → Keeps (λ t. S (get q t)) m
Keeps-lift S q k = Run-from λ t h.
    Run-weaken (λ u e. ap (get q) e) (λ a u e. subst S (sym e) h) (λ u e. subst S (sym e) h)
      (k (get q t))

module _ (json : Json) (v : Option Node) where
  -- The file is as it was, or holds a whole record.
  abbrev Good : Option Node → Type 0
  Good o = (o ≡ v) ⊎ ((m : LastBoot) × (o ≡ some (file (json.marshal m))))

  abbrev pub Whole : Node → Type 0
  Whole t = Good (get last_boot_file t)

  same_Whole : (t u : Node) → get last_boot_file u ≡ get last_boot_file t → Whole t → Whole u
  same_Whole t u e h = subst Good (sym e) h

  -- What leaves the file alone keeps the condition.
  pub Keeps-path :
      {A : Type 0} {m : M A}
      → ((o : Option Node) → Keeps (λ t. get last_boot_file t ≡ o) m)
      → Keeps Whole m
  Keeps-path k = Keeps-lift Good last_boot_file k

  abbrev Has : LastBoot → Node → Type 0
  Has m t = get last_boot_file t ≡ some (file (json.marshal m))

  write-Has : (m : LastBoot) → Run Whole (write_last_boot json m) (λ u. Has m) Whole
  unfolding write_last_boot under
  write-Has m = Run-Triple (
      Triple-from λ t h.
        Triple-weaken (λ u e. e) (λ a u k. k.target)
          (λ e u k. same_Whole t u (k.same last_boot_file refl Aside.fresh) h)
          (write_atomic_lem state_dir t "last-boot.json" (json.marshal m) fresh_boot))

  Keeps-write : (m : LastBoot) → Keeps Whole (write_last_boot json m)
  Keeps-write m = Run-weaken (λ t h. h) (λ a t h. inr (m, h)) (λ t h. h) (write-Has m)

  Keeps-note : (msg : String) → Keeps Whole (note msg)
  Keeps-note msg = Keeps-path λ o. Aside.Keeps-note o msg

  Keeps-clear_marker : Keeps Whole clear_marker
  unfolding clear_marker clear_restore_marker remove_if_there apart log
  Keeps-clear_marker =
      Run-on_error
        (Run-Triple (
          Triple-bind
            (Triple-attempt (
              Triple-remove backups_dir "restore"
                (λ t u h c g. same_Whole t u (c.apart_same last_boot_file refl) h)
                (λ t h g. (h, λ p. h)) (λ t s h. (h, λ p. h))))
            (remove_from_lem Whole Whole)))
        (λ e. Keeps-logf _)

  module _ (cp : Cp) (L : IsLawfulCp cp) where
    Keeps-restore_named : (n : String) → Keeps Whole (restore_named cp json n)
    unfolding restore_named log
    Keeps-restore_named n = Run-bind (Keeps-logf _) λ u.
        Run-bind (Keeps-path λ o. Aside.Keeps-restore o cp L n) λ u.
          Run-bind (Keeps-read_meta json n) λ meta. Run-bind (Keeps-write meta) λ u. Keeps-note _

    Keeps-restore_current : (d : String) → Keeps Whole (restore_current cp json d)
    unfolding restore_current restore_latest log
    Keeps-restore_current d =
        Run-if (d == "") (λ h. Run-bind (Keeps-logf _) λ u. Keeps-note _)
          λ h. Run-bind (Keeps-latest_for_deployment d) λ n.
            Run-if (n == "") (λ h. Run-bind (Keeps-logf _) λ u. Keeps-note _)
              (λ h. Keeps-restore_named n)

    Keeps-maybe_restore : (d : String) → Keeps Whole (maybe_restore cp json d)
    unfolding maybe_restore restore_requested
    Keeps-maybe_restore d =
        Run-bind (Run-Triple (Triple-probe restore_marker (λ t m h e. h) (λ t h e. h) (λ t h. h)))
          λ requested.
            Run-if requested (λ h. Keeps-defer Keeps-clear_marker (Keeps-restore_current d))
              (λ h. Run-pure tt)

module _ {Rest Client : Type 0} (p : Platform Rest Client) (L : IsLawfulCp p.cp) (C : IsConfined p)
    (v : Option Node) where
  abbrev W : Node → Type 0
  W = Whole p.json v

  module _ (cfg : NanoK8sConfig) (node_name self : String) where
    abbrev pub Recorded : Node → Type 0
    Recorded t =
        (d b : String) × (get last_boot_file t
          ≡ some
              (file (p.json.marshal (record { version = self; deployment_id = d; boot_id = b }))))

    Recorded-path :
        {A : Type 0} {m : M A}
        → ((o : Option Node) → Keeps (λ t. get last_boot_file t ≡ o) m)
        → Run Recorded m (λ u. Recorded) W
    Recorded-path k =
        Run-weaken (λ t h. h) (λ a t h. h) (λ t h. inr (_, h.2))
          (Keeps-lift
            (λ o.
              (d b : String) × (o
                ≡ some (
                    file (
                      p.json.marshal (record { version = self; deployment_id = d; boot_id = b })))))
            last_boot_file k)

    proceed-Recorded :
        (b : Bool) (d now : String) (prev : Option LastBoot)
        → Run W (proceed p cfg node_name self b d now prev) (λ u. Recorded) W
    unfolding proceed under apart
    proceed-Recorded b d now prev =
        Run-bind (Keeps-path p.json v λ o. Aside.Keeps-back_up o p L C b prev now) λ u.
          Run-bind (Keeps-path p.json v λ o. Aside.Keeps-announce o p L C cfg node_name self prev)
            λ u.
              Run-bind
                (Keeps-path p.json v λ o. Aside.Keeps-bring_up o p L C cfg node_name self prev)
                λ u. Run-bind (Keeps-path p.json v λ o. Aside.Keeps-prune_backups o p L C b) λ u.
                  Run-bind
                    (Run-weaken (λ t h. h) (λ a t h. (d, now, h)) (λ t h. h) (write-Has p.json v _))
                    λ u.
                      Run-bind
                        (Recorded-path λ o. Aside.Keeps-healthy o p L C cfg node_name self prev)
                        λ u.
                          Run-bind (Recorded-path λ o. Aside.Keeps-notify_ready o p L C)
                            λ u. Recorded-path λ o. Keeps-log "boot complete"

    pub boot-Recorded : Run W (boot p cfg node_name self) (λ u. Recorded) W
    unfolding boot
    boot-Recorded = Run-bind (Run-wrapped _ (Keeps-is_ostree)) λ b.
        Run-bind (Keeps-path p.json v λ o. Aside.Keeps-current_deployment o p L C b) λ d.
          Run-bind (Keeps-boot_id) λ now.
            Run-bind (Keeps-when b (λ h. Run-wrapped _ (Keeps-maybe_restore p.json v p.cp L d)))
              λ u. Run-bind (Keeps-read_last_boot p.json) λ prev. proceed-Recorded b d now prev

-- When Boot returns without an error, last-boot.json holds a record of the version that ran. When
-- it returns an error or panics, whichever step it is that fails, the file is as it was, or holds
-- the whole text of some record: it is never torn. `cp` must be a lawful copier, and what the
-- platform runs must leave the files below /var/lib/nanok8s alone.
pub boot_records_success :
    {Rest Client : Type 0} (p : Platform Rest Client) (L : IsLawfulCp p.cp) (C : IsConfined p)
    (cfg : NanoK8sConfig) (node_name self : String) (w : World)
    → RunPost
        (λ u. Recorded p L C (get last_boot_file w.fs) cfg node_name self)
        (Whole p.json (get last_boot_file w.fs))
        (boot p cfg node_name self w)
boot_records_success p L C cfg node_name self w =
    (boot-Recorded p L C (get last_boot_file w.fs) cfg node_name self).at w (inl refl)
