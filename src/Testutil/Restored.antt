-- ===== src/Testutil/Restored.antt =====
-- internal/testutil/paths.go: where a test finds the program's files, and what it leaves.
use nanok8s.Base.{◌≡◌, refl, sym, ◌∙◌, ap, List, [], ◌∷◌, ◌++◌}
use mathlib.Core.List.{append_assoc}
use nanok8s.Os.FilePath.{FilePath}
use nanok8s.Testutil.{
  PathVars, initial, snapshot, restore, TestState, TestStep, use_paths, cleanup, set, assign,
  use_temp_paths, test_step, test_body, run_cleanups,
}

-- Each of the program's locations, below a directory
abbrev pub below : FilePath → PathVars
below root = record {
  config_dir = root ++ initial.config_dir;
  config_file = root ++ initial.config_file;
  kubernetes_dir = root ++ initial.kubernetes_dir;
  pki_dir = root ++ initial.pki_dir;
  etcd_pki_dir = root ++ initial.etcd_pki_dir;
  manifests_dir = root ++ initial.manifests_dir;
  kubeconfig_dir = root ++ initial.kubeconfig_dir;
  admin_kubeconfig = root ++ initial.admin_kubeconfig;
  kubelet_kubeconfig = root ++ initial.kubelet_kubeconfig;
  cm_kubeconfig = root ++ initial.cm_kubeconfig;
  sched_kubeconfig = root ++ initial.sched_kubeconfig;
  kubelet_dir = root ++ initial.kubelet_dir;
  kubelet_config_file = root ++ initial.kubelet_config_file;
  kubelet_flags_env_file = root ++ initial.kubelet_flags_env_file;
  etcd_data_dir = root ++ initial.etcd_data_dir;
  nanok8s_var_dir = root ++ initial.nanok8s_var_dir;
  state_dir = root ++ initial.state_dir;
  backups_dir = root ++ initial.backups_dir;
  last_boot_file = root ++ initial.last_boot_file;
  last_event_file = root ++ initial.last_event_file;
  restore_marker = root ++ initial.restore_marker;
}

restore-snapshot : (v u : PathVars) → restore (snapshot v) u ≡ v
unfolding snapshot restore
restore-snapshot v u = refl

assign-below : (root : FilePath) (v : PathVars) → assign root v ≡ below root
unfolding assign
assign-below root v = simp append_assoc

run_cleanups-append :
    (fs gs : List (PathVars → PathVars)) (v : PathVars)
    → run_cleanups (fs ++ gs) v ≡ run_cleanups gs (run_cleanups fs v)
unfolding run_cleanups
run_cleanups-append [] gs v = refl
run_cleanups-append (f ∷ fs) gs v = run_cleanups-append fs gs (f v)

-- The body of a test only adds cleanups.
abbrev Added : TestState → TestState → Type 0
Added t u = (fs : List (PathVars → PathVars)) × (u.cleanups ≡ fs ++ t.cleanups)

test_body-Added : (ss : List TestStep) (t : TestState) → Added t (test_body ss t)
unfolding test_body test_step use_temp_paths
test_body-Added [] t = ([], refl)
test_body-Added (use_paths root ∷ ss) t =
    let h = test_body-Added ss (use_temp_paths root t) in
    (h.0 ++ restore (snapshot t.vars) ∷ [], h.1 ∙ sym (append_assoc h.0 _ t.cleanups))
test_body-Added (cleanup f ∷ ss) t =
    let h = test_body-Added ss (record t { cleanups = f ∷ t.cleanups }) in
    (h.0 ++ f ∷ [], h.1 ∙ sym (append_assoc h.0 _ t.cleanups))
test_body-Added (set f ∷ ss) t = test_body-Added ss (record t { vars = f t.vars })

-- A test that has called UseTempPaths finds every one of the program's locations below its own
-- root, whatever the variables held before. Whatever the test does then, further calls, cleanups of
-- its own and assignments of any variable included, when its cleanups have run, the variables are
-- as they were before it.
pub use_temp_paths-restored :
    (root : FilePath) (body : List TestStep) (v : PathVars)
    → let t = use_temp_paths root (record { vars = v; cleanups = [] }) in
      let u = test_body body t in (t.vars ≡ below root) × (run_cleanups u.cleanups u.vars ≡ v)
unfolding use_temp_paths run_cleanups
use_temp_paths-restored root body v =
    let t = use_temp_paths root (record { vars = v; cleanups = [] }) in
    let u = test_body body t in
    let h = test_body-Added body t in
    (
      assign-below root v,
      ap (λ (fs : List (PathVars → PathVars)). run_cleanups fs u.vars) h.1
          ∙ run_cleanups-append h.0 _ u.vars
          ∙ restore-snapshot v (run_cleanups h.0 u.vars),
    )
