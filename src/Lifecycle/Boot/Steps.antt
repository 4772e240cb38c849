-- ===== src/Lifecycle/Boot/Steps.antt =====
-- internal/lifecycle/boot.go: what the steps of a boot leave alone below /var/lib/nanok8s.
use nanok8s.Base.{
  ℕ, zero, suc, String, ◌<>◌, ◌≡◌, refl, ◌∙◌, Bool, true, false, not, Option, none, some, List, [],
  ◌∷◌, ◌++◌,
}
use nanok8s.Os.FilePath.{FilePath, under, apart}
use nanok8s.Os.Tree.{Node, get}
use nanok8s.Os.World.{for_each}
use nanok8s.Os.World.{Error, Result, ok, err, panic, M}
use nanok8s.Os.Spec.Runs.{
  Keeps, Run-Triple, Run-pure, Run-throw, Run-crash, Run-bind, Run-if, Run-on_error, Run-wrapped,
  Keeps-attempt, Keeps-for_each,
}
use nanok8s.Os.Spec.Rules.{Triple-from, Triple-weaken}
use nanok8s.Os.Spec.Steps.{Triple-mkdir_all}
use nanok8s.Paths.{nanok8s_var_dir, state_dir, last_event_file}
use nanok8s.State.{LastBoot, write_last_event}
use nanok8s.State.Atomic.{write_atomic_lem, temp}
use nanok8s.State.Recall.{fresh_event}
use nanok8s.Ostree.{
  Deployment, booted_or_error, parsed, all_deployments, booted_deployment_id, all_deployment_ids,
  booted,
}
use nanok8s.Api.{NanoK8sConfig}
use nanok8s.Kubeadm.{
  InitConfiguration, default_layout, build_init_configuration, make_dir, create_kubeconfig,
  run_phases, ensure, ensure_admin_rbac, ensure_addons, kubeconfig_names,
}
use nanok8s.Kubeclient.{load_admin, wait_for_api_server, poll_from}
use nanok8s.Kubeclient.Wait.{wait_for_control_plane}
use nanok8s.Kubeclient.Wait.Quiet.{Keeps-wait_all_ready, Keeps-ready_checks}
use nanok8s.Lifecycle.{note}
use nanok8s.Lifecycle.Boot.{
  Platform, boot_failed, start_kubelet, notify_ready, wait_readyz, wait_control_plane,
  current_deployment, announce, or_failed, bring_up, healthy, is_upgrading, had,
}
use nanok8s.Lifecycle.Boot.Confined.{IsConfined}
use nanok8s.Lifecycle.Boot.Reading.{Keeps-log, Keeps-is_ostree, Keeps-started, Keeps-notified}

-- The path `x ∷ r` below /var/lib/nanok8s, and the reasons for which an event leaves it alone
module _ (x : String) (r : FilePath) (v : Option Node) where
  abbrev q : FilePath
  q = nanok8s_var_dir ++ x ∷ r

  abbrev P : Node → Type 0
  P t = get q t ≡ v

  module _ {Rest Client : Type 0} (p : Platform Rest Client) (C : IsConfined p) where
    Keeps-all_deployments : Keeps P (all_deployments p.rpm)
    unfolding all_deployments
    Keeps-all_deployments =
        Run-bind (Run-on_error (C.status x r v) (λ e. Run-throw _)) λ s. from (p.rpm.unmarshal s)
      where
        from : (r : Result (List Deployment)) → Keeps P (parsed r)
        from (ok ds) = unfold parsed in Run-pure ds
        from (err e) = unfold parsed in Run-throw _
        from panic = unfold parsed in Run-crash

    pub Keeps-all_deployment_ids : Keeps P (all_deployment_ids p.rpm)
    unfolding all_deployment_ids
    Keeps-all_deployment_ids =
        Run-bind Keeps-is_ostree
          λ b. Run-if b (λ h. Run-bind Keeps-all_deployments λ ds. Run-pure _) (λ h. Run-pure _)

    Keeps-booted_deployment_id : Keeps P (booted_deployment_id p.rpm)
    unfolding booted_deployment_id
    Keeps-booted_deployment_id =
        Run-bind Keeps-is_ostree λ b.
          Run-if b (λ h. Run-bind Keeps-all_deployments λ ds. from (booted ds)) (λ h. Run-pure _)
      where
        from : (o : Option String) → Keeps P (booted_or_error o)
        from none = unfold booted_or_error in Run-throw _
        from (some id) = unfold booted_or_error in Run-pure id

    pub Keeps-current_deployment : (b : Bool) → Keeps P (current_deployment p b)
    unfolding current_deployment
    Keeps-current_deployment b =
        Run-if b (λ h. Run-wrapped _ Keeps-booted_deployment_id)
          (λ h. Run-bind (Keeps-log "non-ostree system: backup/restore disabled") λ u. Run-pure _)

    Keeps-build :
        (cfg : NanoK8sConfig) (n : String)
        → Keeps P (build_init_configuration p.phases cfg default_layout n)
    unfolding build_init_configuration
    Keeps-build cfg n = Run-bind (Run-wrapped _ (C.defaults x r v)) λ kc. Run-pure _

    Keeps-make_dir :
        (cfg : NanoK8sConfig) (d : FilePath)
        → under q d ≡ false
        → Keeps P (make_dir p.phases cfg default_layout d)
    unfolding make_dir
    Keeps-make_dir cfg d off =
        Run-wrapped _ (
          Run-Triple (Triple-mkdir_all d (λ t u h f k l. f q off ∙ h) (λ t u e h f k. f q off ∙ h)))

    Keeps-run_phases :
        (cfg : NanoK8sConfig) (kc : InitConfiguration) (n : String)
        → Keeps P (run_phases p.phases cfg default_layout kc n)
    unfolding run_phases create_kubeconfig
    Keeps-run_phases cfg kc n = Run-bind (Run-wrapped _ (C.pki kc x r v)) λ u.
        Run-bind
          (Keeps-for_each kubeconfig_names _ (λ f. Run-wrapped _ (C.kubeconfig f _ kc x r v)))
          λ u. Run-bind (Run-wrapped _ (C.etcd _ _ _ kc _ x r v)) λ u.
            Run-bind (Run-wrapped _ (C.manifests _ _ kc _ x r v)) λ u.
              Run-bind (Run-wrapped _ (C.env kc _ _ x r v)) λ u.
                Run-bind (Run-wrapped _ (C.instance _ _ x r v))
                  λ u. Run-wrapped _ (C.kubelet kc _ _ x r v)

    Keeps-ensure :
        (cfg : NanoK8sConfig) (n : String) → Keeps P (ensure p.phases cfg default_layout n)
    unfolding ensure under for_each
    Keeps-ensure cfg n = Run-bind (Keeps-build cfg n) λ kc.
        Run-bind
          (Run-bind (Keeps-make_dir cfg _ refl) λ u. Run-bind (Keeps-make_dir cfg _ refl) λ u.
            Run-bind (Keeps-make_dir cfg _ refl)
              λ u. Run-bind (Keeps-make_dir cfg _ refl) λ u. Run-pure tt)
          λ u. Keeps-run_phases cfg kc n

    Keeps-ensure_addons :
        (cfg : NanoK8sConfig) (c : Client) → Keeps P (ensure_addons p.phases cfg default_layout c)
    unfolding ensure_addons
    Keeps-ensure_addons cfg c = Run-bind (Keeps-build cfg "addons") λ kc.
        Run-bind (Run-wrapped _ (C.dns kc c _ _ x r v)) λ u. Run-wrapped _ (C.proxy kc c _ x r v)

    Keeps-poll :
        (c : Client) (e : Error) (k n : ℕ) (a : Result (Unit {0}))
        → Keeps P (poll_from (p.api.readyz c) e k n a)
    unfolding poll_from
    Keeps-poll c e k n (ok u) = Run-pure tt
    Keeps-poll c e k zero (err x') = Run-throw _
    Keeps-poll c e k (suc n) (err x') =
        Run-bind (Keeps-attempt (C.readyz c _ x r v)) λ a. Keeps-poll c e (suc k) n a
    Keeps-poll c e k n panic = Run-crash

    Keeps-wait_readyz : Keeps P (wait_readyz p)
    unfolding wait_readyz load_admin wait_for_api_server
    Keeps-wait_readyz = Run-bind (Keeps-log "waiting for apiserver /readyz (timeout=3m0s)") λ u.
        Run-bind
          (Run-bind (Run-wrapped _ (C.build_config _ x r v))
            λ rest. Run-wrapped _ (C.new_for_config rest x r v))
          λ c.
            Run-bind
              (Run-bind (Keeps-attempt (C.readyz c _ x r v)) λ a. Keeps-poll c p.readyz.cause _ _ a)
              λ u. Keeps-log "apiserver ready"

    Keeps-wait_control_plane : (c : Client) (n : String) → Keeps P (wait_control_plane p c n)
    unfolding wait_control_plane wait_for_control_plane
    Keeps-wait_control_plane c n =
        Run-bind (Keeps-log "waiting for node + control-plane static pods Ready (timeout=3m0s)")
          λ u.
            Run-bind
              (Keeps-wait_all_ready _
                (Keeps-ready_checks p.api c n (λ m. C.node_conditions c m x r v)
                  (λ m. C.pod_conditions c _ m x r v))
                p.schedule p.control_plane)
              λ u. Keeps-log "control plane ready"

    pub Keeps-notify_ready : Keeps P (notify_ready p.sd_notify)
    unfolding notify_ready
    Keeps-notify_ready = Run-bind (Keeps-attempt (C.sd_notify x r v)) Keeps-notified

    Keeps-ensure_admin_rbac : Keeps P (ensure_admin_rbac p.phases default_layout)
    unfolding ensure_admin_rbac
    Keeps-ensure_admin_rbac = Run-wrapped _ (C.binding _ x r v)

    Keeps-start_kubelet : Keeps P (start_kubelet p.programs)
    unfolding start_kubelet
    Keeps-start_kubelet = Run-bind (C.systemctl _ x r v) λ o. Keeps-started o.combined o.failure

  -- With an event's write, which leaves alone what lies beside the state directory and its file
  module _ (off_state : under q state_dir ≡ false) (off_event : apart last_event_file q ≡ true)
      (off_temp : (s : String) → apart (state_dir ++ temp s ∷ []) q ≡ true) where
    Keeps-write_last_event : (msg : String) → Keeps P (write_last_event msg)
    unfolding write_last_event
    Keeps-write_last_event msg = Run-Triple (
        Triple-from λ t h.
          Triple-weaken (λ u e. e) (λ a u k. k.same q off_state off_event off_temp ∙ h)
            (λ e u k. k.same q off_state off_temp ∙ h)
            (write_atomic_lem state_dir t "last-event" (msg <> "\n") fresh_event))

    pub Keeps-note : (msg : String) → Keeps P (note msg)
    unfolding note
    Keeps-note msg = Run-bind (Keeps-attempt (Keeps-write_last_event msg)) λ a. Run-pure tt

    Keeps-boot_failed :
        {A : Type 0} (b : Bool) (prev self : String) (e : Error)
        → Keeps {A = A} P (boot_failed b prev self e)
    unfolding boot_failed
    Keeps-boot_failed b prev self e = Run-bind (Keeps-note _) λ u. Run-throw e

    module _ {Rest Client : Type 0} (p : Platform Rest Client) (C : IsConfined p)
        (cfg : NanoK8sConfig) (node_name self : String) (prev : Option LastBoot) where
      Keeps-or_failed :
          {A : Type 0} {m : M A} → Keeps P m → Keeps P (or_failed p cfg node_name self prev m)
      unfolding or_failed
      Keeps-or_failed k = Run-on_error k (λ e. Keeps-boot_failed _ _ _ e)

      pub Keeps-announce : Keeps P (announce p cfg node_name self prev)
      unfolding announce
      Keeps-announce =
          Run-if (not (had prev)) (λ h. Keeps-log _)
            λ h.
              Run-if (is_upgrading prev self) (λ h. Run-bind (Keeps-log _) λ u. Keeps-note _)
                (λ h. Keeps-log _)

      pub Keeps-bring_up : Keeps P (bring_up p cfg node_name self prev)
      unfolding bring_up
      Keeps-bring_up =
          Run-bind (Keeps-or_failed (Run-wrapped _ (Keeps-ensure p C cfg node_name))) λ u.
            Run-bind (Keeps-or_failed (Keeps-start_kubelet p C)) λ u.
              Run-bind (Keeps-or_failed (Keeps-wait_readyz p C)) λ u.
                Run-bind (Keeps-or_failed (Keeps-ensure_admin_rbac p C)) λ c.
                  Run-bind (Keeps-or_failed (Keeps-wait_control_plane p C c node_name)) λ u.
                    Run-bind (Keeps-or_failed (C.mark c cfg node_name x r v)) λ u.
                      Run-on_error (Keeps-ensure_addons p C cfg c)
                        (λ e. Keeps-log ("addon reconcile failed (continuing): " <> e.text))

      pub Keeps-healthy : Keeps P (healthy p cfg node_name self prev)
      unfolding healthy
      Keeps-healthy = Keeps-note _
