-- ===== src/Backup/Promises.antt =====
-- What Create and Restore promise their caller, from any state of the machine and whichever system
-- calls fail.
use nanok8s.Base.{String, ◌≡◌, refl, ◌∙◌, inl, inr, none, [], ◌∷◌, ◌++◌}
use nanok8s.Os.Tree.{Node, get}
use nanok8s.Os.World.{ok, World}
use nanok8s.Os.Spec.{Post, post_ok}
use nanok8s.Paths.{etcd_data_dir, kubernetes_dir, kubelet_dir}
use nanok8s.State.{LastBoot, Json}
use nanok8s.Backup.{create, restore, name, backup_path}
use nanok8s.Backup.Copying.{Cp, IsLawfulCp}
use nanok8s.Backup.Facts.{Holds, Holds-moved}
use nanok8s.Backup.Stage.{Untouched, trees_of}
use nanok8s.Backup.Create.{Backed, create_lem}
use nanok8s.Backup.Restore.{Restored, Spares, restore_lem}

-- Create does not panic. If it succeeds, either a backup of that name was there before, and it is
-- as it was; or there was none, and now there is one with meta.json and all that the state trees
-- hold. If it fails, nothing differs from before but the staging directory, and the directories
-- above the backups. `cp` must be a lawful copier.
pub create_all_or_nothing :
    (cp : Cp) (L : IsLawfulCp cp) (json : Json) (meta : LastBoot) (w : World)
    → Post
        (λ u. Backed cp L json meta w.fs)
        (λ e. Untouched (name meta) w.fs)
        (create cp json meta w)
create_all_or_nothing cp L json meta w = (create_lem cp L json meta w.fs).at w refl

-- Restore does not panic. If it succeeds, the etcd tree, the kubernetes tree and the three kubelet
-- files are what the backup holds of them, and absent where it holds none. In success and on an
-- error alike, nothing differs but these trees and files, their staging paths, and the kubelet's
-- directory and those above it as directories: everything else in the kubelet's directory is as it
-- was. `cp` must be a lawful copier.
pub restore_replaces :
    (cp : Cp) (L : IsLawfulCp cp) (n : String) (w : World)
    → Post (λ u. Restored n w.fs) (λ e. Spares n w.fs) (restore cp n w)
restore_replaces cp L n w = (restore_lem cp L n w.fs).at w refl

-- The trees and files that a backup covers are the same.
pub record SameState (t u : Node) : Type 0 where
  pub etcd : get etcd_data_dir u ≡ get etcd_data_dir t
  pub kubernetes : get kubernetes_dir u ≡ get kubernetes_dir t
  pub config : get (kubelet_dir ++ "config.yaml" ∷ []) u ≡ get (kubelet_dir ++ "config.yaml" ∷ []) t
  pub instance_config :
      get (kubelet_dir ++ "instance-config.yaml" ∷ []) u
      ≡ get (kubelet_dir ++ "instance-config.yaml" ∷ []) t
  pub flags :
      get (kubelet_dir ++ "kubeadm-flags.env" ∷ []) u
      ≡ get (kubelet_dir ++ "kubeadm-flags.env" ∷ []) t

module _ (cp : Cp) (L : IsLawfulCp cp) (json : Json) (meta : LastBoot) (t : Node) where
  trees_kept :
      (u : Node)
      → get (backup_path (name meta)) t ≡ none
      → Backed cp L json meta t u
      → Holds (backup_path (name meta)) (trees_of t) u
  trees_kept u e (inl b) = absurd (b.0 e)
  trees_kept u e (inr b) = b.1.contents.1

  same_after :
      (v u : Node)
      → Holds (backup_path (name meta)) (trees_of t) v
      → Restored (name meta) v u
      → SameState t u
  same_after v u h r = record {
    etcd = r.etcd ∙ h.0;
    kubernetes = r.kubernetes ∙ h.1.0;
    config = r.config ∙ h.1.1.0;
    instance_config = r.instance_config ∙ h.1.1.1.0;
    flags = r.flags ∙ h.1.1.1.1.0;
  }

-- If a Create that found no backup of its name succeeds, and a Restore of that name succeeds later,
-- in a state that still has the backup, then the live etcd tree, kubernetes tree and kubelet files
-- are what they were when Create was called, whatever happened to them in between. `cp` must be a
-- lawful copier.
pub restore-create :
    (cp : Cp) (L : IsLawfulCp cp) (json : Json) (meta : LastBoot) (w v : World)
    → get (backup_path (name meta)) w.fs ≡ none
    → (create cp json meta w).0 ≡ ok tt
    → get (backup_path (name meta)) v.fs
      ≡ get (backup_path (name meta)) (create cp json meta w).1.fs
    → (restore cp (name meta) v).0 ≡ ok tt
    → SameState w.fs (restore cp (name meta) v).1.fs
restore-create cp L json meta w v absent created kept restored =
    same_after cp L json meta w.fs v.fs _
      (Holds-moved _ _ (trees_of w.fs) _ v.fs kept (
        trees_kept cp L json meta w.fs _ absent
          (post_ok _ _ _ _ created (create_all_or_nothing cp L json meta w))))
      (post_ok _ _ _ _ restored (restore_replaces cp L (name meta) v))
