-- ===== src/Command/Reset/Gone.antt =====
-- cmd/nanok8s/reset.go: what a reset leaves of the node's state.
use nanok8s.Base.{
  String, ◌<>◌, ◌≡◌, refl, ◌∙◌, true, false, Option, none, List, [], ◌∷◌, ◌++◌, ap, bind,
}
use nanok8s.Os.FilePath.{FilePath, show, apart}
use nanok8s.Os.Tree.{Node, get}
use nanok8s.Os.Tree.Laws.{get-append}
use nanok8s.Os.World.{Error, wrap, ok, World, M, wrapped, for_each}
use nanok8s.Os.Programs.{Host}
use nanok8s.Os.Spec.{Post, Triple, post_ok}
use nanok8s.Os.Spec.Rules.{Triple-bind, Triple-pure, Triple-throw, Triple-on_error, Triple-weaken}
use nanok8s.Os.Spec.Steps.{Triple-remove_all, Changed}
use nanok8s.Paths.{kubernetes_dir, etcd_data_dir, kubelet_dir, nanok8s_var_dir}
use nanok8s.State.{exists}
use nanok8s.State.Recall.{quiet}
use nanok8s.Command.Reset.{managed_dirs, remove_managed, run_reset, reset_command}
use nanok8s.Command.Reset.Steps

-- Nothing stands at these paths.
abbrev pub AllGone : List FilePath → Node → Type 0
AllGone [] t = Unit
AllGone (d ∷ ds) t = (get d t ≡ none) × AllGone ds t

-- The removal of one of the directories failed, with those before it gone.
pub record Stuck (e : Error) (t : Node) : Type 0 where
  pub done : List FilePath
  pub failed : FilePath
  pub left : List FilePath
  pub order : done ++ failed ∷ left ≡ managed_dirs
  pub gone : AllGone done t
  pub cause : Error
  pub text : e ≡ wrap ("remove " <> show failed) cause

AllGone-append :
    (ds : List FilePath) (d : FilePath) (t : Node)
    → AllGone ds t
    → get d t ≡ none
    → AllGone (ds ++ d ∷ []) t
AllGone-append [] d t h k = (k, tt)
AllGone-append (e ∷ ds) d t h k = (h.0, AllGone-append ds d t h.1 k)

-- `ds` are apart from a path.
abbrev AllApart : FilePath → List FilePath → Type 0
AllApart p [] = Unit
AllApart p (d ∷ ds) = (apart p d ≡ true) × AllApart p ds

AllGone-Changed :
    (p : FilePath) (ds : List FilePath) (t u : Node)
    → AllApart p ds
    → Changed p t u
    → AllGone ds t
    → AllGone ds u
AllGone-Changed p [] t u a c h = tt
AllGone-Changed p (d ∷ ds) t u a c h =
    (c.apart_same d a.0 ∙ h.0, AllGone-Changed p ds t u a.1 c h.1)

-- One round of the loop, with some directories gone
remove_step :
    (done left : List FilePath) (d : FilePath) (x : String)
    → done ++ (d ++ x ∷ []) ∷ left ≡ managed_dirs
    → AllApart (d ++ x ∷ []) done
    → Triple
        (AllGone done)
        (remove_managed (d ++ x ∷ []))
        (λ u. AllGone (done ++ (d ++ x ∷ []) ∷ []))
        Stuck
unfolding remove_managed wrapped
remove_step done left d x order off =
    Triple-bind {R = λ u. AllGone (done ++ (d ++ x ∷ []) ∷ [])}
      (Triple-on_error {E = λ e. AllGone done}
        (Triple-remove_all d x
          (λ t u h c g. AllGone-append done (d ++ x ∷ []) u (AllGone-Changed _ done t u off c h) g)
          (λ t u e h c. AllGone-Changed _ done t u off c h))
        (λ e.
          Triple-weaken
            (λ t h. record {
              done = done;
              failed = d ++ x ∷ [];
              left = left;
              order = order;
              gone = h;
              cause = e;
              text = refl;
            })
            (λ a t h. h) (λ e t h. h) (Triple-throw _)))
      λ u. Steps.say-Keeps _

remove_all_lem :
    Triple (λ t. Unit) (for_each managed_dirs remove_managed) (λ u. AllGone managed_dirs) Stuck
unfolding for_each apart
remove_all_lem =
    Triple-bind {R = λ u. AllGone (kubernetes_dir ∷ [])}
      (remove_step [] _ ("etc" ∷ []) "kubernetes" refl tt)
      λ u.
        Triple-bind {R = λ u. AllGone (kubernetes_dir ∷ etcd_data_dir ∷ [])}
          (remove_step (kubernetes_dir ∷ []) _ ("var" ∷ "lib" ∷ []) "etcd" refl (refl, tt))
          λ u.
            Triple-bind {R = λ u. AllGone (kubernetes_dir ∷ etcd_data_dir ∷ kubelet_dir ∷ [])}
              (remove_step (kubernetes_dir ∷ etcd_data_dir ∷ []) _ ("var" ∷ "lib" ∷ []) "kubelet"
                refl (refl, (refl, tt)))
              λ u.
                Triple-bind {R = λ u. AllGone managed_dirs}
                  (remove_step (kubernetes_dir ∷ etcd_data_dir ∷ kubelet_dir ∷ []) _
                    ("var" ∷ "lib" ∷ []) "nanok8s" refl (refl, (refl, (refl, tt))))
                  λ u. Triple-pure tt (λ u. AllGone managed_dirs)

module _ (host : Host) (T : Steps.IsTame (λ t. Unit) host)
    (U : Steps.IsTame (AllGone managed_dirs) host) where
  before :
      {m : M (Unit {0})}
      → Triple (λ t. Unit) m (λ u t. Unit) (λ e t. ⊥)
      → Triple (λ t. Unit) m (λ u t. Unit) Stuck
  before k = Triple-weaken (λ t h. h) (λ a t h. h) (λ e t h. absurd h) k

  after :
      {m : M (Unit {0})}
      → Triple (AllGone managed_dirs) m (λ u. AllGone managed_dirs) (λ e t. ⊥)
      → Triple (AllGone managed_dirs) m (λ u. AllGone managed_dirs) Stuck
  after k = Triple-weaken (λ t h. h) (λ a t h. h) (λ e t h. absurd h) k

  run_reset_lem : Triple (λ t. Unit) (run_reset host) (λ u. AllGone managed_dirs) Stuck
  unfolding run_reset
  run_reset_lem = Triple-bind {R = λ u t. Unit} (before (Steps.stop_kubelet-Keeps host T)) λ u.
      Triple-bind {R = λ u t. Unit} (before (Steps.cleanup-Keeps host T)) λ u.
        Triple-bind {R = λ u t. Unit} (before (Steps.unmount-Keeps host T)) λ u.
          Triple-bind {R = λ u. AllGone managed_dirs} remove_all_lem λ u.
            Triple-bind {R = λ u. AllGone managed_dirs} (after (Steps.delete_cni-Keeps host U)) λ u.
              Triple-bind {R = λ u. AllGone managed_dirs}
                (after (Steps.flush_iptables-Keeps host U))
                λ u. after (Steps.flush_ipvs-Keeps host U)

-- A reset with `--yes` does not panic. If it succeeds, nothing is left of /etc/kubernetes,
-- /var/lib/etcd, /var/lib/kubelet and /var/lib/nanok8s. If it fails, it is the removal of one of
-- these four that failed, and those that come before it are gone: no other step is fatal, whatever
-- the other programs do. They must answer, and not bring the four directories back.
pub reset_wipes :
    (host : Host) (T : Steps.IsTame (λ t. Unit) host) (U : Steps.IsTame (AllGone managed_dirs) host)
    (w : World)
    → Post (λ u. AllGone managed_dirs) Stuck (reset_command host true w)
unfolding reset_command
reset_wipes host T U w = (run_reset_lem host T U).at w tt

below_gone : (d r : FilePath) (t : Node) → get d t ≡ none → get (d ++ r) t ≡ none
below_gone d r t h = get-append d r t ∙ ap (λ (o : Option Node). bind o (get r)) h

-- After a reset that succeeds, state.Exists reports a fresh node, if none of its own calls fails:
-- a bootstrap needs no `--force`. The other programs must answer, and not bring back what is wiped.
pub exists-reset_command :
    (host : Host) (T : Steps.IsTame (λ t. Unit) host) (U : Steps.IsTame (AllGone managed_dirs) host)
    (w : World)
    → (reset_command host true w).0 ≡ ok tt
    → (exists (quiet (reset_command host true w).1)).0 ≡ ok false
unfolding exists
exists-reset_command host T U w e =
    let g = post_ok _ _ _ _ e (reset_wipes host T U w) in
    let t = (reset_command host true w).1.fs in
    rw (below_gone nanok8s_var_dir ("state" ∷ "last-boot.json" ∷ []) t g.1.1.1.0) (
      rw (below_gone nanok8s_var_dir ("state" ∷ "last-event" ∷ []) t g.1.1.1.0)
        (rw (below_gone kubernetes_dir ("manifests" ∷ "kube-apiserver.yaml" ∷ []) t g.0) refl))
