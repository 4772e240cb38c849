-- ===== src/Backup/Stage.antt =====
-- internal/backup/backup.go: the staged copy that Create fills, and what each step adds to it.
use nanok8s.Base.{String, ◌<>◌, ◌≡◌, refl, ◌∙◌, sym, true, false, none, some, [], ◌∷◌, ◌++◌}
use nanok8s.Os.FilePath.{
  FilePath, under, apart, apart_sym, apart-append_below, under-of-apart, parent,
}
use nanok8s.Os.Tree.{Node, file, get}
use nanok8s.Os.World.{Result, ok, err, panic, M, attempt}
use nanok8s.Os.Calls.{stat, mkdir_all}
use nanok8s.Os.Spec.{Triple}
use nanok8s.Os.Spec.Rules.{
  Either, Triple-bind, Triple-pure, Triple-throw, Triple-attempt, Triple-wrapped, Triple-weaken,
  Triple-from, Triple-if, Triple-absurd,
}
use nanok8s.Os.Spec.Steps.{Changed, Triple-stat, Triple-mkdir_all}
use nanok8s.Os.Spec.Outside.{Outside}
use nanok8s.Paths.{backups_dir, etcd_data_dir, kubernetes_dir, kubelet_dir}
use nanok8s.State.{LastBoot, Json}
use nanok8s.Backup.{
  backup_path, snapshot_file, if_present, copy_dir_if_exists, copy_file_if_exists, copy_tree,
  copy_file, run_cp,
}
use nanok8s.Backup.Copying.{Cp, IsLawfulCp, Copies, tree_flags, file_flags}
use nanok8s.Backup.Facts.{Facts, Holds, is_clear, is_below, Holds-Changed, Holds-dirs}

abbrev pub staged : String → String
staged n = n <> ".tmp"

abbrev pub staging : String → FilePath
staging n = backups_dir ++ staged n ∷ []

-- Nothing changes beside the staged copy, and the directories above it.
abbrev pub Untouched : String → Node → Node → Type 0
Untouched n = Outside backups_dir (staged n) (staged n)

-- The trees and files that a backup is made of, as they are at a moment
abbrev pub trees_of : Node → Facts
trees_of t =
    ("etcd" ∷ [], get etcd_data_dir t)
    ∷ ("kubernetes" ∷ [], get kubernetes_dir t)
    ∷ ("kubelet" ∷ "config.yaml" ∷ [], get (kubelet_dir ++ "config.yaml" ∷ []) t)
    ∷ ("kubelet" ∷ "instance-config.yaml" ∷ [], get (kubelet_dir ++ "instance-config.yaml" ∷ []) t)
    ∷ ("kubelet" ∷ "kubeadm-flags.env" ∷ [], get (kubelet_dir ++ "kubeadm-flags.env" ∷ []) t)
    ∷ []

-- A new backup, whole: the record of the boot with the trees and files. Nothing else has changed.
pub record NewBackup (json : Json) (meta : LastBoot) (n : String) (t₀ u : Node) : Type 0 where
  pub contents :
      Holds (backup_path n) (("meta.json" ∷ [], some (file (json.marshal meta))) ∷ trees_of t₀) u
  pub rest : Outside backups_dir n (staged n) t₀ u

module _ (cp : Cp) (L : IsLawfulCp cp) (json : Json) (meta : LastBoot) (n : String)
    (t₀ : Node) where
  abbrev pub Quiet : Node → Type 0
  Quiet = Untouched n t₀

  -- So far the staged copy holds these.
  pub record S (fs : Facts) (u : Node) : Type 0 where
    pub quiet : Quiet u
    pub holds : Holds (staging n) fs u

  live :
      (src : FilePath) (u : Node)
      → under src backups_dir ≡ false
      → apart (staging n) src ≡ true
      → Quiet u
      → get src u ≡ get src t₀
  live src u a b h = h.same src a b b

  pub Quiet-below : (r : FilePath) (t u : Node) → Quiet t → Changed (staging n ++ r) t u → Quiet u
  Quiet-below r t u h c = record {
    same = λ q a b e. c.apart_same q (apart-append_below (staging n) q r b) ∙ h.same q a b e;
  }

  -- The precondition of a copy to `r`, and what it leaves
  abbrev Before : FilePath → Facts → Node → Type 0
  Before r fs = S ((r, none) ∷ fs)

  module _ (src r : FilePath) (fs : Facts) (off_dir : under src backups_dir ≡ false)
      (off_staging : apart (staging n) src ≡ true) (clear : is_clear r fs ≡ true) where
    abbrev After : Node → Type 0
    After = S ((r, get src t₀) ∷ fs)

    copied :
        (m : M (Unit {0}))
        → apart src (staging n ++ r) ≡ true
        → Copies m src (staging n ++ r)
        → Triple (Before r fs) m (λ u. After) (λ e. Quiet)
    copied m off copies = Triple-from λ t h.
        Triple-weaken (λ u e. e)
          (λ a u k. record {
            quiet = Quiet-below r t u h.quiet k.0;
            holds = (
              k.1 ∙ live src t off_dir off_staging h.quiet,
              Holds-Changed (staging n) r fs t u clear k.0 h.holds.1,
            );
          })
          (λ e u k. Quiet-below r t u h.quiet k) (copies t off h.holds.0)

    abbrev Looked : Result Node → Node → Type 0
    Looked =
        Either (λ m. Before r fs) (λ e u. Before r fs u × (e.not_exist ≡ true → get src t₀ ≡ none))

    if_present-After :
        (x : Result Node) (m : M (Unit {0}))
        → Triple (Before r fs) m (λ u. After) (λ e. Quiet)
        → Triple (Looked x) (if_present x m) (λ u. After) (λ e. Quiet)
    unfolding if_present
    if_present-After (ok y) m k = k
    if_present-After (err e) m k =
        Triple-if e.not_exist
          (λ p.
            Triple-weaken
              (λ t h. record {
                quiet = h.0.quiet;
                holds = (h.0.holds.0 ∙ sym (h.1 p), h.0.holds.1);
              })
              (λ a t h. h) (λ e t h. h) (Triple-pure tt (λ u. After)))
          (λ p. Triple-weaken (λ t h. h.0.quiet) (λ a t h. h) (λ e t h. h) (Triple-throw e))
    if_present-After panic m k = Triple-absurd

    look : Triple (Before r fs) (attempt (stat src)) Looked (λ e. Quiet)
    look = Triple-attempt (
        Triple-stat src (λ t m h e. h)
          (λ t h e. (h, λ p. sym (live src t off_dir off_staging h.quiet) ∙ e))
          (λ t s h. (h, λ p. cc)))

  pub copy_dir_step :
      (src : FilePath) (x : String) (fs : Facts)
      → under src backups_dir ≡ false
      → apart (staging n) src ≡ true
      → is_clear (x ∷ []) fs ≡ true
      → apart src (staging n ++ x ∷ []) ≡ true
      → Triple
          (Before (x ∷ []) fs)
          (copy_dir_if_exists cp src (staging n ++ x ∷ []))
          (λ u. S ((x ∷ [], get src t₀) ∷ fs))
          (λ e. Quiet)
  unfolding copy_dir_if_exists copy_tree run_cp
  copy_dir_step src x fs a b c e = Triple-bind (look src (x ∷ []) fs a b c) λ r.
      if_present-After src (x ∷ []) fs a b c r _ (
        Triple-wrapped _ (
          copied src (x ∷ []) fs a b c (cp.run tree_flags src (staging n ++ x ∷ [])) e
            (L.copies_tree src (staging n) x)))

  kubelet_dst : (f : String) → FilePath
  kubelet_dst f = staging n ++ "kubelet" ∷ f ∷ []

  pub make_kubelet :
      (fs : Facts)
      → is_below ("kubelet" ∷ []) fs ≡ true
      → Triple (S fs) (mkdir_all (staging n ++ "kubelet" ∷ [])) (λ u. S fs) (λ e. Quiet)
  make_kubelet fs c =
      Triple-mkdir_all (staging n ++ "kubelet" ∷ [])
        (λ t u h f k l. record {
          quiet = through t u h.quiet f;
          holds = Holds-dirs (staging n) ("kubelet" ∷ []) fs t u c f h.holds;
        })
        (λ t u e h f k. through t u h.quiet f)
    where
      through :
          (t u : Node)
          → Quiet t
          → ((q : FilePath) → under q (staging n ++ "kubelet" ∷ []) ≡ false → get q u ≡ get q t)
          → Quiet u
      through t u h f = record {
        same = λ q a b e.
            f q (
              under-of-apart q (staging n ++ "kubelet" ∷ []) (
                apart_sym q (staging n ++ "kubelet" ∷ [])
                ∙ apart-append_below (staging n) q ("kubelet" ∷ []) b))
            ∙ h.same q a b e;
      }

  pub copy_file_step :
      (f : String) (fs : Facts)
      → is_clear ("kubelet" ∷ f ∷ []) fs ≡ true
      → is_below ("kubelet" ∷ []) fs ≡ true
      → Triple
          (Before ("kubelet" ∷ f ∷ []) fs)
          (snapshot_file cp json (staging n ++ "kubelet" ∷ []) f)
          (λ u. S (("kubelet" ∷ f ∷ [], get (kubelet_dir ++ f ∷ []) t₀) ∷ fs))
          (λ e. Quiet)
  unfolding snapshot_file copy_file_if_exists copy_file run_cp under apart is_below parent
  copy_file_step f fs c b = Triple-wrapped _ (
      Triple-bind (look src r fs refl refl c) λ x. if_present-After src r fs refl refl c x _ (
        Triple-bind (make_kubelet ((r, none) ∷ fs) b) λ u. Triple-wrapped _ (
          copied src r fs refl refl c (cp.run file_flags src (staging n ++ r)) refl
            (L.copies_file src (staging n ++ "kubelet" ∷ []) f))))
    where
      src : FilePath
      src = kubelet_dir ++ f ∷ []

      r : FilePath
      r = "kubelet" ∷ f ∷ []
