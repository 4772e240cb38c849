-- ===== src/Backup/Restore.antt =====
-- internal/backup/backup.go: `Restore`, from each tree and file to the next.
use nanok8s.Base.{String, ◌≡◌, refl, ◌∙◌, ap, true, false, [], ◌∷◌, ◌++◌}
use nanok8s.Os.FilePath.{FilePath, under, apart, under-of-apart_child}
use nanok8s.Os.Tree.{Node, get}
use nanok8s.Os.World.{for_each}
use nanok8s.Os.Calls.{mkdir_all}
use nanok8s.Os.Spec.{Triple}
use nanok8s.Os.Spec.Rules.{Triple-bind, Triple-pure, Triple-wrapped, Triple-weaken, Triple-from}
use nanok8s.Os.Spec.Steps.{Triple-stat, Triple-mkdir_all}
use nanok8s.Os.Spec.Outside.{Outside}
use nanok8s.Paths.{etcd_data_dir, kubernetes_dir, kubelet_dir}
use nanok8s.Backup.{restore, restore_dir, restore_file, backup_path, kubelet_state_files}
use nanok8s.Backup.Copying.{Cp, IsLawfulCp}
use nanok8s.Backup.Swap.{restore_dir_lem, restore_one_lem, restoring}

abbrev lib : FilePath
lib = "var" ∷ "lib" ∷ []

abbrev etc : FilePath
etc = "etc" ∷ []

-- Neither a file in the kubelet's directory nor what it is staged at
abbrev IsBeside : String → FilePath → Type 0
IsBeside f q =
    (apart (kubelet_dir ++ f ∷ []) q ≡ true) × (apart (kubelet_dir ++ restoring f ∷ []) q ≡ true)

-- A path that has nothing to do with the trees and the files that a restoration replaces: of the
-- kubelet's directory all but three files and their staging paths
pub record IsSpared (q : FilePath) : Type 0 where
  pub etcd : apart etcd_data_dir q ≡ true
  pub etcd_staged : apart (lib ++ "etcd.restoring" ∷ []) q ≡ true
  pub kubernetes : apart kubernetes_dir q ≡ true
  pub kubernetes_staged : apart (etc ++ "kubernetes.restoring" ∷ []) q ≡ true
  pub above : under q kubelet_dir ≡ false
  pub config : IsBeside "config.yaml" q
  pub instance_config : IsBeside "instance-config.yaml" q
  pub flags : IsBeside "kubeadm-flags.env" q

abbrev pub file_source : String → String → FilePath
file_source n f = backup_path n ++ "kubelet" ∷ f ∷ []

module _ (n : String) (t₀ : Node) where
  pub record Spares (u : Node) : Type 0 where
    pub same : (q : FilePath) → IsSpared q → get q u ≡ get q t₀

  abbrev pub HasEtcd : Node → Type 0
  HasEtcd u = get etcd_data_dir u ≡ get (backup_path n ++ "etcd" ∷ []) t₀

  abbrev pub HasKubernetes : Node → Type 0
  HasKubernetes u = get kubernetes_dir u ≡ get (backup_path n ++ "kubernetes" ∷ []) t₀

  abbrev pub HasFile : String → Node → Type 0
  HasFile f u = get (kubelet_dir ++ f ∷ []) u ≡ get (file_source n f) t₀

  -- The live state is the backup's.
  pub record Restored (u : Node) : Type 0 where
    pub spares : Spares u
    pub etcd : HasEtcd u
    pub kubernetes : HasKubernetes u
    pub config : HasFile "config.yaml" u
    pub instance_config : HasFile "instance-config.yaml" u
    pub flags : HasFile "kubeadm-flags.env" u

-- Everything in the backups' directory is spared.
pub IsSpared-backup : (n : String) (r : FilePath) → IsSpared (backup_path n ++ r)
unfolding apart under
IsSpared-backup n r = record {
  etcd = refl;
  etcd_staged = refl;
  kubernetes = refl;
  kubernetes_staged = refl;
  above = refl;
  config = (refl, refl);
  instance_config = (refl, refl);
  flags = (refl, refl);
}

module _ (cp : Cp) (L : IsLawfulCp cp) (n : String) (t₀ : Node) where
  abbrev A : Node → Type 0
  A u = Spares n t₀ u × HasEtcd n t₀ u

  abbrev B : Node → Type 0
  B u = A u × HasKubernetes n t₀ u

  Spares-etcd :
      (t u : Node) → Spares n t₀ t → Outside lib "etcd" "etcd.restoring" t u → Spares n t₀ u
  Spares-etcd t u h o = record {
    same = λ q s.
        o.same q (under-of-apart_child lib "etcd" q s.etcd) s.etcd s.etcd_staged ∙ h.same q s;
  }

  Spares-kubernetes :
      (t u : Node)
      → Spares n t₀ t
      → Outside etc "kubernetes" "kubernetes.restoring" t u
      → Spares n t₀ u
  Spares-kubernetes t u h o = record {
    same = λ q s.
        o.same q (under-of-apart_child etc "kubernetes" q s.kubernetes) s.kubernetes
          s.kubernetes_staged
        ∙ h.same q s;
  }

  Spares-file :
      (f : String) (t u : Node)
      → ((q : FilePath) → IsSpared q → IsBeside f q)
      → Spares n t₀ t
      → Outside kubelet_dir f (restoring f) t u
      → Spares n t₀ u
  Spares-file f t u beside h o = record {
    same = λ q s. o.same q s.above (beside q s).0 (beside q s).1 ∙ h.same q s;
  }

  Spares-dirs :
      (t u : Node)
      → Spares n t₀ t
      → ((q : FilePath) → under q kubelet_dir ≡ false → get q u ≡ get q t)
      → Spares n t₀ u
  Spares-dirs t u h f = record { same = λ q s. f q s.above ∙ h.same q s }

  source :
      (r : FilePath) (t : Node)
      → Spares n t₀ t
      → get (backup_path n ++ r) t ≡ get (backup_path n ++ r) t₀
  source r t h = h.same _ (IsSpared-backup n r)

  etcd_step :
      Triple
        (Spares n t₀)
        (restore_dir cp (backup_path n ++ "etcd" ∷ []) etcd_data_dir)
        (λ u. A)
        (λ e. Spares n t₀)
  unfolding apart under
  etcd_step = Triple-from λ t h.
      Triple-weaken (λ u e. e) (λ a u k. (Spares-etcd t u h k.0, k.1 ∙ source ("etcd" ∷ []) t h))
        (λ e u k. Spares-etcd t u h k)
        (restore_dir_lem cp L (backup_path n ++ "etcd" ∷ []) lib "etcd" refl refl refl t)

  kubernetes_step :
      Triple A
        (restore_dir cp (backup_path n ++ "kubernetes" ∷ []) kubernetes_dir)
        (λ u. B)
        (λ e. Spares n t₀)
  unfolding apart under
  kubernetes_step = Triple-from λ t h.
      Triple-weaken (λ u e. e)
        (λ a u k. (
          (Spares-kubernetes t u h.0 k.0, k.0.same etcd_data_dir refl refl refl ∙ h.1),
          k.1 ∙ source ("kubernetes" ∷ []) t h.0,
        ))
        (λ e u k. Spares-kubernetes t u h.0 k)
        (restore_dir_lem cp L (backup_path n ++ "kubernetes" ∷ []) etc "kubernetes" refl refl refl
          t)

  kubelet_dir_step : Triple B (mkdir_all kubelet_dir) (λ u. B) (λ e. Spares n t₀)
  unfolding apart under
  kubelet_dir_step =
      Triple-mkdir_all kubelet_dir
        (λ t u h f k l.
          ((Spares-dirs t u h.0.0 f, f etcd_data_dir refl ∙ h.0.1), f kubernetes_dir refl ∙ h.1))
        (λ t u e h f k. Spares-dirs t u h.0.0 f)

  B-file :
      (f : String)
      → ((q : FilePath) → IsSpared q → IsBeside f q)
      → (t u : Node) → B t
      → Outside kubelet_dir f (restoring f) t u
      → B u
  unfolding apart under
  B-file f beside t u h o = (
    (Spares-file f t u beside h.0.0 o, o.same etcd_data_dir refl refl refl ∙ h.0.1),
    o.same kubernetes_dir refl refl refl ∙ h.1,
  )

  file_step :
      (P : Node → Type 0) (f : String)
      → ((t u : Node) → P t → Outside kubelet_dir f (restoring f) t u → P u)
      → ((t : Node) → P t → Spares n t₀ t)
      → Triple P
          (restore_file cp (backup_path n) f)
          (λ a u. P u × HasFile n t₀ f u)
          (λ e. Spares n t₀)
  unfolding apart under restore_file
  file_step P f keeps sparing = Triple-from λ t h.
      Triple-weaken (λ u e. e)
        (λ a u k. (keeps t u h k.0, k.1 ∙ source ("kubelet" ∷ f ∷ []) t (sparing t h)))
        (λ e u k. sparing u (keeps t u h k))
        (restore_one_lem cp L (file_source n f) kubelet_dir f refl refl refl t f)

  abbrev C : Node → Type 0
  C u = B u × HasFile n t₀ "config.yaml" u

  abbrev D : Node → Type 0
  D u = C u × HasFile n t₀ "instance-config.yaml" u

  C-file :
      (t u : Node)
      → C t
      → Outside kubelet_dir "instance-config.yaml" (restoring "instance-config.yaml") t u
      → C u
  unfolding apart under
  C-file t u h o = (
    B-file "instance-config.yaml" (λ q s. s.instance_config) t u h.0 o,
    o.same (kubelet_dir ++ "config.yaml" ∷ []) refl refl refl ∙ h.1,
  )

  D-file :
      (t u : Node)
      → D t
      → Outside kubelet_dir "kubeadm-flags.env" (restoring "kubeadm-flags.env") t u
      → D u
  unfolding apart under
  D-file t u h o = (
    (
      B-file "kubeadm-flags.env" (λ q s. s.flags) t u h.0.0 o,
      o.same (kubelet_dir ++ "config.yaml" ∷ []) refl refl refl ∙ h.0.1,
    ),
    o.same (kubelet_dir ++ "instance-config.yaml" ∷ []) refl refl refl ∙ h.1,
  )

  files_step :
      Triple B
        (for_each kubelet_state_files (restore_file cp (backup_path n)))
        (λ u. Restored n t₀)
        (λ e. Spares n t₀)
  unfolding for_each
  files_step =
      Triple-bind
        (file_step B "config.yaml" (B-file "config.yaml" (λ q s. s.config)) (λ t h. h.0.0))
        λ u. Triple-bind (file_step C "instance-config.yaml" C-file (λ t h. h.0.0.0)) λ u.
          Triple-bind (file_step D "kubeadm-flags.env" D-file (λ t h. h.0.0.0.0)) λ u.
            Triple-weaken
              (λ t h. record {
                spares = h.0.0.0.0.0;
                etcd = h.0.0.0.0.1;
                kubernetes = h.0.0.0.1;
                config = h.0.0.1;
                instance_config = h.0.1;
                flags = h.1;
              })
              (λ a t h. h) (λ e t h. h) (Triple-pure tt (λ u. Restored n t₀))

  -- If Restore succeeds, the etcd tree, the kubernetes tree and each of the three kubelet files are
  -- what the backup holds, and absent where it holds none. Whatever fails, nothing else changes:
  -- the backup itself in particular.
  pub restore_lem : Triple (λ t. t ≡ t₀) (restore cp n) (λ u. Restored n t₀) (λ e. Spares n t₀)
  unfolding restore
  restore_lem =
      Triple-bind {R = λ u. Spares n t₀}
        (Triple-wrapped _ (
          Triple-stat (backup_path n) (λ t m h e. begin t h) (λ t h e. begin t h)
            (λ t s h. begin t h)))
        λ m. Triple-bind (Triple-wrapped _ etcd_step) λ u.
          Triple-bind (Triple-wrapped _ kubernetes_step)
            λ u. Triple-bind kubelet_dir_step λ u. files_step
    where
      begin : (t : Node) → t ≡ t₀ → Spares n t₀ t
      begin t h = record { same = λ q s. ap (get q) h }
