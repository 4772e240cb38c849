-- ===== src/Lifecycle/Boot/Retry.antt =====
-- internal/lifecycle/boot.go: a boot that fails leaves the previous boot's record for the next one.
use nanok8s.Base.{
  String, ◌≡◌, refl, ◌∙◌, sym, subst, ap, if◌then◌else◌, Bool, true, false, Option, none, [], ◌∷◌,
}
use nanok8s.Os.FilePath.{under}
use nanok8s.Os.Tree.{Node, get}
use nanok8s.Os.World.{
  continue, Error, Result, ok, err, panic, World, M, ◌>>=◌, pure, defer, when, wrapped,
}
use nanok8s.Os.Spec.Runs.{
  RunPost, Run, Keeps, Run-Triple, Run-pure, Run-bind, Run-wrapped, Run-weaken, Run-both,
}
use nanok8s.Os.Spec.Rules.{Triple-from, Triple-weaken}
use nanok8s.Os.Spec.Steps.{Triple-probe}
use nanok8s.Os.Spec.Values.{
  NeverErrs, NeverErrs-logf, NeverErrs-attempt, Gives-pure, Gives-bind, Gives-err,
}
use nanok8s.Paths.{state_dir, last_boot_file, restore_marker}
use nanok8s.State.{LastBoot, write_last_boot}
use nanok8s.State.Atomic.{write_atomic_lem}
use nanok8s.State.Recall.{fresh_boot}
use nanok8s.Backup.Copying.{IsLawfulCp}
use nanok8s.Backup.Listing.{restore_requested}
use nanok8s.Api.{NanoK8sConfig}
use nanok8s.Lifecycle.{log, maybe_restore, note, clear_marker, restore_current}
use nanok8s.Lifecycle.Boot.{Platform, proceed, boot, healthy}
use nanok8s.Lifecycle.Boot.Steps
use nanok8s.Lifecycle.Boot.Confined.{IsConfined}
use nanok8s.Lifecycle.Boot.Reading.{Keeps-is_ostree, Keeps-boot_id, Keeps-read_last_boot}
use nanok8s.Lifecycle.Boot.Aside
use nanok8s.Lifecycle.Boot.Notify.{NeverErrs-notify_ready}

-- Where an action returns an error, a condition holds. Of a panic nothing is said.
record Fails {A : Type 0} (P : Node → Type 0) (m : M A) (X : Node → Type 0) : Type 0 where
  pub at : (w w' : World) (e : Error) → P w.fs → m w ≡ (err e, w') → X w'.fs

Fails-NeverErrs : {A : Type 0} {P X : Node → Type 0} {m : M A} → NeverErrs m → Fails P m X
Fails-NeverErrs n = record { at = λ w w' e h k. absurd (Gives-err w w' e n k) }

module _ {A B : Type 0} {R : A → Node → Type 0} {X : Node → Type 0} where
  fails_continue :
      (r : Result A) (v w' : World) (e : Error) (f : A → M B)
      → RunPost R X (r, v)
      → ((a : A) → Fails (R a) (f a) X)
      → continue r f v ≡ (err e, w')
      → X w'.fs
  fails_continue (ok a) v w' e f h k q = (k a).at v w' e h q
  fails_continue (err x) v w' e f h k q = subst X (ap (λ (o : Result B × World). o.1.fs) q) h
  fails_continue panic v w' e f h k q = absurd cc

  Fails-bind :
      {P : Node → Type 0} {m : M A} {f : A → M B}
      → Run P m R X
      → ((a : A) → Fails (R a) (f a) X)
      → Fails P (m >>= f) X
  unfolding ◌>>=◌
  Fails-bind {m} {f} t k = record {
    at = λ w w' e h. let (r, v) = m w in fails_continue r v w' e f (t.at w h) k;
  }

module _ {Rest Client : Type 0} (p : Platform Rest Client) (L : IsLawfulCp p.cp) (C : IsConfined p)
    (cfg : NanoK8sConfig) (node_name self : String) (v : Option Node) where
  abbrev Same : Node → Type 0
  Same t = get last_boot_file t ≡ v

  abbrev Unasked : Node → Type 0
  Unasked t = get restore_marker t ≡ none

  pub Keeps-path :
      {A : Type 0} {m : M A} → Keeps Unasked m → Keeps Same m → Keeps (λ t. Unasked t × Same t) m
  Keeps-path k h = Run-both k h

  pub maybe_restore-Same :
      (d : String) → Run (λ t. Unasked t × Same t) (maybe_restore p.cp p.json d) (λ u. Same) Same
  unfolding maybe_restore restore_requested
  maybe_restore-Same d =
      Run-bind {R = λ b t. (b ≡ false) × Same t}
        (Run-Triple (
          Triple-probe restore_marker (λ t n h e. absurd (cc (sym h.0 ∙ e))) (λ t h e. (refl, h.1))
            (λ t h. h.1)))
        skipped
    where
      skipped :
          (b : Bool)
          → Run
              (λ t. (b ≡ false) × Same t)
              (if b then defer clear_marker (restore_current p.cp p.json d) else pure tt)
              (λ u. Same)
              Same
      skipped true = record { at = λ w h. absurd (cc h.0) }
      skipped false = Run-weaken (λ t h. h.1) (λ a t h. h) (λ t h. h) (Run-pure tt)

  NeverErrs-healthy : (prev : Option LastBoot) → NeverErrs (healthy p cfg node_name self prev)
  unfolding healthy note
  NeverErrs-healthy prev = Gives-bind (NeverErrs-attempt _) λ u p. Gives-pure tt tt

  write_fails : (m : LastBoot) → Run Same (write_last_boot p.json m) (λ u t. Unit) Same
  unfolding write_last_boot under
  write_fails m = Run-Triple (
      Triple-from λ t h.
        Triple-weaken (λ u e. e) (λ a u k. tt) (λ e u k. k.same last_boot_file refl Aside.fresh ∙ h)
          (write_atomic_lem state_dir t "last-boot.json" (p.json.marshal m) fresh_boot))

  proceed-Fails :
      (b : Bool) (d now : String) (prev : Option LastBoot)
      → Fails Same (proceed p cfg node_name self b d now prev) Same
  unfolding proceed log
  proceed-Fails b d now prev = Fails-bind (Aside.Keeps-back_up v p L C b prev now) λ u.
      Fails-bind (Aside.Keeps-announce v p L C cfg node_name self prev) λ u.
        Fails-bind (Aside.Keeps-bring_up v p L C cfg node_name self prev) λ u.
          Fails-bind (Aside.Keeps-prune_backups v p L C b) λ u. Fails-bind (write_fails _) λ u.
            Fails-NeverErrs (
              Gives-bind (NeverErrs-healthy prev)
                λ u p. Gives-bind (NeverErrs-notify_ready _) λ u p. NeverErrs-logf _)

  boot-Fails : Fails (λ t. Unasked t × Same t) (boot p cfg node_name self) Same
  unfolding boot
  boot-Fails = Fails-bind (wide (Run-wrapped "detect ostree" Keeps-is_ostree)) λ b.
      Fails-bind
        (wide (
          Keeps-path (Steps.Keeps-current_deployment "backups" ("restore" ∷ []) none p C b)
            (Aside.Keeps-current_deployment v p L C b)))
        λ d. Fails-bind (wide Keeps-boot_id) λ now.
          Fails-bind (asked b d)
            λ u. Fails-bind (Keeps-read_last_boot p.json) λ prev. proceed-Fails b d now prev
    where
      wide :
          {A : Type 0} {m : M A}
          → Keeps (λ t. Unasked t × Same t) m
          → Run (λ t. Unasked t × Same t) m (λ a t. Unasked t × Same t) Same
      wide k = Run-weaken (λ t h. h) (λ a t h. h) (λ t h. h.1) k

      asked :
          (b : Bool) (d : String)
          → Run
              (λ t. Unasked t × Same t)
              (when b (wrapped "restore" (maybe_restore p.cp p.json d)))
              (λ u. Same)
              Same
      asked true d = Run-wrapped "restore" (maybe_restore-Same d)
      asked false d = Run-weaken (λ t h. h.1) (λ a t h. h) (λ t h. h) (Run-pure tt)

-- A boot that returns an error, where no restoration is requested, leaves last-boot.json as it was,
-- whichever step it is that fails: the next boot finds the record of the last healthy one. `cp` must
-- be a lawful copier, and what the platform runs must leave the files below /var/lib/nanok8s alone.
pub failed_boot_keeps_record :
    {Rest Client : Type 0} (p : Platform Rest Client) (L : IsLawfulCp p.cp) (C : IsConfined p)
    (cfg : NanoK8sConfig) (node_name self : String) (w w' : World) (e : Error)
    → get restore_marker w.fs ≡ none
    → boot p cfg node_name self w ≡ (err e, w')
    → get last_boot_file w'.fs ≡ get last_boot_file w.fs
failed_boot_keeps_record p L C cfg node_name self w w' e unasked h =
    (boot-Fails p L C cfg node_name self (get last_boot_file w.fs)).at w w' e (unasked, refl) h
