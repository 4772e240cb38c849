-- ===== src/Backup/Create.antt =====
-- internal/backup/backup.go: `Create`, with the test for a backup of the same name.
use nanok8s.Base.{
  ◌≡◌, refl, ◌≢◌, ◌⊎◌, inl, inr, ◌∙◌, sym, subst, Bool, true, false, none, [], ◌==◌, if◌then◌else◌,
  ◌||◌,
}
use nanok8s.Base.Text.{suffixed_differs}
use nanok8s.Os.FilePath.{apart, apart_sym, apart-child, under-child}
use nanok8s.Os.Tree.{Node, get}
use nanok8s.Os.World.{pure}
use nanok8s.Os.Spec.{Triple}
use nanok8s.Os.Spec.Rules.{
  Triple-bind, Triple-pure, Triple-throw, Triple-weaken, Triple-from, Triple-if,
}
use nanok8s.Os.Spec.Steps.{Triple-mkdir_all, Triple-probe}
use nanok8s.Os.Spec.Outside.{Outside-refl, Outside-dirs}
use nanok8s.Paths.{backups_dir}
use nanok8s.State.{LastBoot, Json}
use nanok8s.Backup.{name, exists, backup_path, create, create_new}
use nanok8s.Backup.Copying.{Cp, IsLawfulCp}
use nanok8s.Backup.Stage.{staged, staging, Untouched, NewBackup}
use nanok8s.Backup.Snapshot.{create_new_step}

module _ (cp : Cp) (L : IsLawfulCp cp) (json : Json) (meta : LastBoot) (t₀ : Node) where
  -- What a successful call leaves: the backup that was there, as it was, or a new one.
  abbrev pub Backed : Node → Type 0
  Backed u =
      ((get (backup_path (name meta)) t₀ ≢ none) × Untouched (name meta) t₀ u)
      ⊎ ((get (backup_path (name meta)) t₀ ≡ none) × NewBackup json meta (name meta) t₀ u)

  abbrev Found : Bool → Node → Type 0
  Found b u =
      Untouched (name meta) t₀ u
      × (b ≡ true → get (backup_path (name meta)) t₀ ≢ none)
      × (b ≡ false → get (backup_path (name meta)) t₀ ≡ none)

  final_same :
      (u : Node)
      → Untouched (name meta) t₀ u
      → get (backup_path (name meta)) u ≡ get (backup_path (name meta)) t₀
  final_same u h =
      h.same (backup_path (name meta)) (under-child backups_dir [] (name meta)) aside aside
    where
      aside : apart (staging (name meta)) (backup_path (name meta)) ≡ true
      aside =
          apart_sym (staging (name meta)) (backup_path (name meta))
          ∙ apart-child backups_dir (name meta) (staged (name meta))
              (suffixed_differs (name meta) _ "tmp")

  after_probe :
      (b : Bool)
      → Triple
          (Found b)
          (if b then pure tt else create_new cp json (name meta) meta)
          (λ u. Backed)
          (λ e. Untouched (name meta) t₀)
  after_probe true =
      Triple-weaken (λ t h. inl (h.1 refl, h.0)) (λ a t h. h) (λ e t h. h)
        (Triple-pure tt (λ u. Backed))
  after_probe false = Triple-from λ t h.
      Triple-weaken (λ u e. subst (Untouched (name meta) t₀) (sym e) h.0)
        (λ a u k. inr (h.2 refl, k)) (λ e u k. k) (create_new_step cp L json meta (name meta) t₀)

  -- Create either leaves the backup that exists under the boot's name as it is, or makes it whole:
  -- meta.json with the record, and the etcd tree, the kubernetes tree and the kubelet files as they
  -- are. If it fails, whichever call it is that fails, the backup is not there, or is as it was.
  pub create_lem :
      Triple (λ t. t ≡ t₀) (create cp json meta) (λ u. Backed) (λ e. Untouched (name meta) t₀)
  unfolding create exists
  create_lem =
      Triple-if (meta.deployment_id == "" || meta.boot_id == "")
        (λ p. Triple-weaken (λ t h. begin t h) (λ a t h. h) (λ e t h. h) (Triple-throw _))
        (λ p.
          Triple-bind {R = λ u. Untouched (name meta) t₀}
            (Triple-mkdir_all backups_dir (λ t u h f k l. Outside-dirs (begin t h) f)
              (λ t u e h f k. Outside-dirs (begin t h) f))
            λ u.
              Triple-bind
                (Triple-probe {Q = Found} (backup_path (name meta))
                  (λ t m h e. (h, λ k z. cc (sym z ∙ sym (final_same t h) ∙ e), λ k. cc))
                  (λ t h e. (h, λ k. cc, λ k. sym (final_same t h) ∙ e)) (λ t h. h))
                after_probe)
    where
      begin : (t : Node) → t ≡ t₀ → Untouched (name meta) t₀ t
      begin t h = subst (Untouched (name meta) t₀) (sym h) (Outside-refl t₀)
