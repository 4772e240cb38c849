-- ===== src/Backup/Snapshot.antt =====
-- internal/backup/backup.go: Create where there is no backup yet.
use nanok8s.Base.{String, ◌≡◌, refl, ◌∙◌, sym, ap, false, Option, none, some, [], ◌∷◌, ◌++◌, bind}
use nanok8s.Os.FilePath.{
  FilePath, under, apart, apart_sym, under-child, under-of-apart, with_suffix,
}
use nanok8s.Os.Tree.{Node, file, get}
use nanok8s.Os.Tree.Laws.{get-append}
use nanok8s.Os.World.{Error, M, for_each}
use nanok8s.Os.Spec.{Triple}
use nanok8s.Os.Spec.Rules.{
  Triple-bind, Triple-pure, Triple-throw, Triple-on_error, Triple-wrapped, Triple-weaken,
}
use nanok8s.Os.Spec.Steps.{Triple-mkdir_all, Triple-remove_all, Triple-write_file, Triple-rename}
use nanok8s.Os.Spec.Outside.{Outside-target}
use nanok8s.Paths.{backups_dir, etcd_data_dir, kubernetes_dir}
use nanok8s.State.{LastBoot, Json}
use nanok8s.Backup.{backup_path, create_new, snapshot, rollback_tmp, write_meta}
use nanok8s.Backup.Copying.{Cp, IsLawfulCp}
use nanok8s.Backup.Facts.{Facts, is_clear, is_below, Holds-Changed, Holds-moved, Holds-rotate}
use nanok8s.Backup.Stage.{staged, staging, Untouched, trees_of, NewBackup}
use nanok8s.Backup.Stage

module _ (cp : Cp) (L : IsLawfulCp cp) (json : Json) (meta : LastBoot) (n : String)
    (t₀ : Node) where
  abbrev Quiet : Node → Type 0
  Quiet = Untouched n t₀

  abbrev S : Facts → Node → Type 0
  S = Stage.S cp L json meta n t₀

  abbrev Trees : Facts
  Trees = trees_of t₀

  abbrev Contents : Facts
  Contents = ("meta.json" ∷ [], some (file (json.marshal meta))) ∷ Trees

  abbrev Created : Node → Type 0
  Created = NewBackup json meta n t₀

  abbrev nothing : Facts
  nothing =
      ("etcd" ∷ [], none)
      ∷ ("kubernetes" ∷ [], none)
      ∷ ("kubelet" ∷ "config.yaml" ∷ [], none)
      ∷ ("kubelet" ∷ "instance-config.yaml" ∷ [], none)
      ∷ ("kubelet" ∷ "kubeadm-flags.env" ∷ [], none)
      ∷ []

  rotated :
      {r : FilePath} {v : Option Node} {fs : Facts} {m : M (Unit {0})}
      {Q : Unit {0} → Node → Type 0}
      → Triple (S (fs ++ (r, v) ∷ [])) m Q (λ e. Quiet)
      → Triple (S ((r, v) ∷ fs)) m Q (λ e. Quiet)
  rotated {r} {v} {fs} k =
      Triple-weaken
        (λ t h. record { quiet = h.quiet; holds = Holds-rotate (staging n) r v fs t h.holds })
        (λ a t h. h) (λ e t h. h) k

  snapshot_step :
      Triple
        (S nothing)
        (snapshot cp json (staging n) (backup_path n) meta)
        (λ u. Created)
        (λ e. Quiet)
  unfolding snapshot write_meta under apart is_clear is_below for_each
  snapshot_step =
      Triple-bind
        (Triple-wrapped _
          (Stage.copy_dir_step cp L json meta n t₀ etcd_data_dir "etcd" _ refl refl refl refl))
        λ u. rotated (
          Triple-bind
            (Triple-wrapped _ (
              Stage.copy_dir_step cp L json meta n t₀ kubernetes_dir "kubernetes" _ refl refl refl
                refl))
            λ u. rotated (
              Triple-bind (Stage.make_kubelet cp L json meta n t₀ _ refl) λ u.
                Triple-bind {R = λ u. S Trees}
                  (Triple-bind (Stage.copy_file_step cp L json meta n t₀ "config.yaml" _ refl refl)
                    λ u. rotated (
                      Triple-bind
                        (Stage.copy_file_step cp L json meta n t₀ "instance-config.yaml" _ refl
                          refl)
                        λ u. rotated (
                          Triple-bind
                            (Stage.copy_file_step cp L json meta n t₀ "kubeadm-flags.env" _ refl
                              refl)
                            λ u. rotated (Triple-pure tt (λ u. S Trees)))))
                  λ u.
                    Triple-bind {R = λ u. S Contents}
                      (Triple-wrapped _ (
                        Triple-write_file (staging n) "meta.json" (json.marshal meta)
                          (λ t u h c e. record {
                            quiet =
                                Stage.Quiet-below cp L json meta n t₀ ("meta.json" ∷ []) t u h.quiet
                                  c;
                            holds = (
                              e,
                              Holds-Changed (staging n) ("meta.json" ∷ []) Trees t u refl c h.holds,
                            );
                          })
                          (λ t u e h c.
                            Stage.Quiet-below cp L json meta n t₀ ("meta.json" ∷ []) t u h.quiet
                              c)))
                      λ u. Triple-wrapped _ (
                        Triple-rename (staging n) backups_dir n
                          (λ t u v m h e a c k f. record {
                            contents =
                                Holds-moved (staging n) (backup_path n) Contents t v (f ∙ sym e)
                                  h.holds;
                            rest = record {
                              same = λ q x y z.
                                  k.apart_same q y ∙ c.apart_same q z ∙ h.quiet.same q x z z;
                            };
                          })
                          (λ t e h. h.quiet))))

  clean : (e : Error) → Triple Quiet (rollback_tmp (staging n) e) (λ u. Created) (λ e. Quiet)
  unfolding rollback_tmp
  clean e =
      Triple-bind {R = λ u. Quiet}
        (Triple-on_error
          (Triple-remove_all backups_dir (staged n) (λ t u h c g. Outside-target h c)
            (λ t u e h c. Outside-target h c))
          (λ x. Triple-throw _))
        (λ u. Triple-throw e)

  abbrev Gone : Node → Type 0
  Gone t = Quiet t × (get (staging n) t ≡ none)

  outside :
      (t u : Node)
      → Quiet t
      → ((q : FilePath) → under q (staging n) ≡ false → get q u ≡ get q t)
      → Quiet u
  outside t u h f = record {
    same = λ q a b e.
        f q (under-of-apart q (staging n) (apart_sym q (staging n) ∙ b)) ∙ h.same q a b e;
  }

  fresh :
      (t u : Node)
      → Gone t
      → ((q : FilePath) → under q (staging n) ≡ false → get q u ≡ get q t)
      → S nothing u
  fresh t u h f = record {
    quiet = outside t u h.0 f;
    holds = (
      empty "etcd" [],
      (empty "kubernetes" [], (empty "kubelet" _, (empty "kubelet" _, (empty "kubelet" _, tt)))),
    );
  }
    where
      empty : (x : String) (r : FilePath) → get (staging n ++ x ∷ r) u ≡ none
      empty x r =
          f (staging n ++ x ∷ r) (under-child (staging n) r x)
          ∙ get-append (staging n) (x ∷ r) t
          ∙ ap (λ (o : Option Node). bind o (get (x ∷ r))) h.1

  pub create_new_step : Triple Quiet (create_new cp json n meta) (λ u. Created) (λ e. Quiet)
  unfolding create_new with_suffix
  create_new_step =
      Triple-bind {R = λ u. Gone}
        (Triple-wrapped _ (
          Triple-remove_all backups_dir (staged n) (λ t u h c g. (Outside-target h c, g))
            (λ t u e h c. Outside-target h c)))
        λ u.
          Triple-bind {R = λ u. S nothing}
            (Triple-mkdir_all (staging n) (λ t u h f k l. fresh t u h f)
              (λ t u e h f k. outside t u h.0 f))
            λ u. Triple-on_error snapshot_step (λ e. clean e)
