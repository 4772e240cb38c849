-- ===== src/Lifecycle/Boot/Plain.antt =====
-- internal/lifecycle/boot.go: a boot on a system without ostree.
use nanok8s.Base.{String, ◌≡◌, refl, ◌∙◌, sym, Bool, true, false, Option, none, some, []}
use nanok8s.Os.FilePath.{under, apart}
use nanok8s.Os.Tree.{Node, get}
use nanok8s.Os.World.{Result, ok, err, panic, World, M}
use nanok8s.Os.Spec.{Triple}
use nanok8s.Os.Spec.Runs.{
  RunPost, Run, Keeps, Run-Triple, Run-pure, Run-bind, Run-wrapped, Run-weaken,
}
use nanok8s.Os.Spec.Rules.{
  Triple-from, Triple-weaken, Triple-bind, Triple-attempt, Triple-if, Triple-pure, Triple-throw,
  Triple-absurd, Either,
}
use nanok8s.Os.Spec.Steps.{Triple-stat}
use nanok8s.Paths.{state_dir, backups_dir}
use nanok8s.State.{LastBoot, write_last_boot}
use nanok8s.State.Atomic.{write_atomic_lem}
use nanok8s.State.Recall.{fresh_boot}
use nanok8s.Ostree.{ostree_booted_marker, is_ostree, booted_from}
use nanok8s.Api.{NanoK8sConfig}
use nanok8s.Lifecycle.Boot.{Platform, back_up, prune_backups, proceed, boot}
use nanok8s.Lifecycle.Boot.Confined.{IsConfined}
use nanok8s.Lifecycle.Boot.Reading.{Keeps-log, Keeps-boot_id, Keeps-read_last_boot}
use nanok8s.Lifecycle.Boot.Steps

module _ (v : Option Node) where
  abbrev Same : Node → Type 0
  Same t = get backups_dir t ≡ v

  abbrev Off : Node → Type 0
  Off t = (get ostree_booted_marker t ≡ none) × Same t

  abbrev Answer : Bool → Node → Type 0
  Answer b t = (b ≡ false) × Same t

  is_ostree-Off : Triple Off is_ostree Answer (λ e. Same)
  unfolding is_ostree
  is_ostree-Off =
      Triple-bind {R = Either (λ n t. ⊥) (λ e. Same)}
        (Triple-attempt (
          Triple-stat ostree_booted_marker (λ t n h e. cc (sym h.0 ∙ e)) (λ t h e. h.1)
            (λ t s h. h.1)))
        from
    where
      from :
          (r : Result Node)
          → Triple (Either (λ n t. ⊥) (λ e. Same) r) (booted_from r) Answer (λ e. Same)
      from (ok n) = Triple-absurd
      from (err e) =
          unfold booted_from in
          Triple-if e.not_exist
            (λ h.
              Triple-weaken (λ t k. (refl, k)) (λ a t k. k) (λ e t k. k) (Triple-pure false Answer))
            (λ h. Triple-throw _)
      from panic = Triple-absurd

  module _ {Rest Client : Type 0} (p : Platform Rest Client) (C : IsConfined p)
      (cfg : NanoK8sConfig) (node_name self : String) where
    Keeps-write : (m : LastBoot) → Keeps Same (write_last_boot p.json m)
    unfolding write_last_boot under apart
    Keeps-write m = Run-Triple (
        Triple-from λ t h.
          Triple-weaken (λ u e. e) (λ a u k. k.same backups_dir refl refl (λ r. refl) ∙ h)
            (λ e u k. k.same backups_dir refl (λ r. refl) ∙ h)
            (write_atomic_lem state_dir t "last-boot.json" (p.json.marshal m) fresh_boot))

    Keeps-back_up : (prev : Option LastBoot) (now : String) → Keeps Same (back_up p false prev now)
    unfolding back_up
    Keeps-back_up none now = Run-pure tt
    Keeps-back_up (some prev) now = Run-pure tt

    Keeps-prune_backups : Keeps Same (prune_backups p false)
    unfolding prune_backups
    Keeps-prune_backups = Run-pure tt

    Keeps-proceed :
        (d now : String) (prev : Option LastBoot)
        → Keeps Same (proceed p cfg node_name self false d now prev)
    unfolding proceed under apart
    Keeps-proceed d now prev = Run-bind (Keeps-back_up prev now) λ u.
        Run-bind
          (Steps.Keeps-announce "backups" [] v refl refl (λ s. refl) p C cfg node_name self prev)
          λ u.
            Run-bind
              (Steps.Keeps-bring_up "backups" [] v refl refl (λ s. refl) p C cfg node_name self
                prev)
              λ u. Run-bind Keeps-prune_backups λ u. Run-bind (Keeps-write _) λ u.
                Run-bind
                  (Steps.Keeps-healthy "backups" [] v refl refl (λ s. refl) p C cfg node_name self
                    prev)
                  λ u.
                    Run-bind (Steps.Keeps-notify_ready "backups" [] v p C)
                      λ u. Keeps-log "boot complete"

    -- What follows the answer no
    after_no :
        {A : Type 0} (f : Bool → M A)
        → Keeps Same (f false)
        → (b : Bool) → Run (Answer b) (f b) (λ a. Same) Same
    after_no f k true = record { at = λ w h. absurd (cc h.0) }
    after_no f k false = Run-weaken (λ t h. h.1) (λ a t h. h) (λ t h. h) k

    boot-Same : Run Off (boot p cfg node_name self) (λ u. Same) Same
    unfolding boot
    boot-Same = Run-bind (Run-wrapped "detect ostree" (Run-Triple is_ostree-Off)) (
        after_no _ (
          Run-bind (Steps.Keeps-current_deployment "backups" [] v p C false) λ d.
            Run-bind Keeps-boot_id λ now.
              Run-bind (Run-pure tt)
                λ u. Run-bind (Keeps-read_last_boot p.json) λ prev. Keeps-proceed d now prev))

-- Where /run/ostree-booted is not there, a boot changes nothing below /var/lib/nanok8s/backups,
-- whether it succeeds, returns an error or panics: no backup is made, restored or pruned. What the
-- platform runs must leave the files below /var/lib/nanok8s alone.
pub boot_without_ostree :
    {Rest Client : Type 0} (p : Platform Rest Client) (C : IsConfined p) (cfg : NanoK8sConfig)
    (node_name self : String) (w : World)
    → get ostree_booted_marker w.fs ≡ none
    → RunPost
        (λ u t. get backups_dir t ≡ get backups_dir w.fs)
        (λ t. get backups_dir t ≡ get backups_dir w.fs)
        (boot p cfg node_name self w)
boot_without_ostree p C cfg node_name self w off =
    (boot-Same (get backups_dir w.fs) p C cfg node_name self).at w (off, refl)
