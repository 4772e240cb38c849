-- ===== src/Lifecycle/Boot/Aside.antt =====
-- internal/lifecycle/boot.go: the steps of a boot that leave last-boot.json alone.
use nanok8s.Base.{
  String, ◌≡◌, inl, inr, refl, ◌∙◌, Bool, true, Option, none, some, List, [], ◌∷◌, ◌++◌, ◌&&◌, not,
  ◌==◌,
}
use nanok8s.Os.FilePath.{under, apart, apart-child}
use nanok8s.Os.Tree.{Node, get}
use nanok8s.Os.World.{Result, ok, err, panic}
use nanok8s.Os.Spec.Runs.{
  Keeps, Run-Triple, Run-pure, Run-crash, Run-bind, Run-on_error, Run-wrapped, Keeps-logf,
  Keeps-attempt, Keeps-when,
}
use nanok8s.Os.Spec.Rules.{Triple-from, Triple-weaken}
use nanok8s.Paths.{state_dir, last_boot_file}
use nanok8s.State.{Json, LastBoot}
use nanok8s.State.Atomic.{temp}
use nanok8s.State.Recall.{fresh_boot}
use nanok8s.Backup.{create, restore}
use nanok8s.Backup.Copying.{Cp, IsLawfulCp}
use nanok8s.Backup.Create.{Backed, create_lem}
use nanok8s.Backup.Restore.{restore_lem, IsSpared}
use nanok8s.Backup.Listing.Reads.{Keeps-prune}
use nanok8s.Api.{NanoK8sConfig}
use nanok8s.Lifecycle.{log, note}
use nanok8s.Lifecycle.Boot.{
  Platform, current_deployment, back_up, pruned, prune_backups, announce, bring_up, healthy,
  notify_ready,
}
use nanok8s.Lifecycle.Boot.Steps
use nanok8s.Lifecycle.Boot.Confined.{IsConfined}

pub fresh : (s : String) → apart (state_dir ++ temp s ∷ []) last_boot_file ≡ true
fresh s = apart-child state_dir (temp s) "last-boot.json" (fresh_boot s)

module _ (v : Option Node) where
  abbrev Same : Node → Type 0
  Same t = get last_boot_file t ≡ v

  pub Keeps-restore : (cp : Cp) (L : IsLawfulCp cp) (n : String) → Keeps Same (restore cp n)
  unfolding apart under
  Keeps-restore cp L n = Run-Triple (
      Triple-from λ t h.
        Triple-weaken (λ u e. e) (λ a u k. k.spares.same last_boot_file off ∙ h)
          (λ e u k. k.same last_boot_file off ∙ h) (restore_lem cp L n t))
    where
      off : IsSpared last_boot_file
      off = record {
        etcd = refl;
        etcd_staged = refl;
        kubernetes = refl;
        kubernetes_staged = refl;
        above = refl;
        config = (refl, refl);
        instance_config = (refl, refl);
        flags = (refl, refl);
      }

  Keeps-create :
      (cp : Cp) (L : IsLawfulCp cp) (json : Json) (meta : LastBoot)
      → Keeps Same (create cp json meta)
  unfolding apart under
  Keeps-create cp L json meta = Run-Triple (
      Triple-from λ t h.
        Triple-weaken (λ u e. e) (λ a u k. backed t u k ∙ h)
          (λ e u k. k.same last_boot_file refl refl refl ∙ h) (create_lem cp L json meta t))
    where
      backed :
          (t u : Node) → Backed cp L json meta t u → get last_boot_file u ≡ get last_boot_file t
      backed t u (inl k) = k.1.same last_boot_file refl refl refl
      backed t u (inr k) = k.1.rest.same last_boot_file refl refl refl

  pub Keeps-note : (msg : String) → Keeps Same (note msg)
  unfolding under apart
  Keeps-note msg = Steps.Keeps-note "state" ("last-boot.json" ∷ []) v refl refl fresh msg

  module _ {Rest Client : Type 0} (p : Platform Rest Client) (L : IsLawfulCp p.cp)
      (C : IsConfined p) where
    pub Keeps-current_deployment : (b : Bool) → Keeps Same (current_deployment p b)
    Keeps-current_deployment b =
        Steps.Keeps-current_deployment "state" ("last-boot.json" ∷ []) v p C b

    pub Keeps-back_up :
        (b : Bool) (prev : Option LastBoot) (now : String) → Keeps Same (back_up p b prev now)
    unfolding back_up log
    Keeps-back_up b none now = Run-pure tt
    Keeps-back_up b (some prev) now =
        Keeps-when
          (b
            && not (prev.deployment_id == "")
            && not (prev.boot_id == "")
            && not (prev.boot_id == now))
          (λ h.
            Run-bind (Run-wrapped "create backup" (Keeps-create p.cp L p.json prev))
              λ u. Keeps-logf _)

    pub Keeps-prune_backups : (b : Bool) → Keeps Same (prune_backups p b)
    unfolding prune_backups apart log
    Keeps-prune_backups b = Keeps-when b (λ h.
        Run-bind
          (Keeps-attempt (Steps.Keeps-all_deployment_ids "state" ("last-boot.json" ∷ []) v p C))
          from)
      where
        from : (r : Result (List String)) → Keeps Same (pruned p r)
        from (ok ds) =
            unfold pruned in
            Run-on_error
              (Keeps-prune Same (λ n t u h c. c.apart_same last_boot_file refl ∙ h) p.order ds)
              (λ e. Keeps-logf _)
        from (err e) = unfold pruned in Keeps-logf _
        from panic = unfold pruned in Run-crash

    pub Keeps-notify_ready : Keeps Same (notify_ready p.sd_notify)
    Keeps-notify_ready = Steps.Keeps-notify_ready "state" ("last-boot.json" ∷ []) v p C

    module _ (cfg : NanoK8sConfig) (node_name self : String) (prev : Option LastBoot) where
      pub Keeps-announce : Keeps Same (announce p cfg node_name self prev)
      unfolding under apart
      Keeps-announce =
          Steps.Keeps-announce "state" ("last-boot.json" ∷ []) v refl refl fresh p C cfg node_name
            self prev

      pub Keeps-bring_up : Keeps Same (bring_up p cfg node_name self prev)
      unfolding under apart
      Keeps-bring_up =
          Steps.Keeps-bring_up "state" ("last-boot.json" ∷ []) v refl refl fresh p C cfg node_name
            self prev

      pub Keeps-healthy : Keeps Same (healthy p cfg node_name self prev)
      unfolding under apart
      Keeps-healthy =
          Steps.Keeps-healthy "state" ("last-boot.json" ∷ []) v refl refl fresh p C cfg node_name
            self prev
