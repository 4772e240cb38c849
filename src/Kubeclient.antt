-- ===== src/Kubeclient.antt =====
-- internal/kubeclient/kubeclient.go: a client for the cluster, and the waits for it to be ready.
-- client-go comes as a parameter.
pub mod Poll
pub mod Race
pub mod Wait
use nanok8s.Base.{
  ℕ, zero, suc, String, ◌<>◌, ◌≡◌, Bool, true, false, ◌&&◌, ◌||◌, Option, none, some, List, [], ◌∷◌,
  ◌==◌, if◌then◌else◌,
}
use nanok8s.Os.FilePath.{FilePath, show}
use nanok8s.Os.World.{
  Error, wrap, new_error, Result, ok, err, panic, M, pure, throw, crash, ◌>>=◌, wrapped, attempt,
}

-- A condition of a node or of a pod, with the fields that the source reads
pub record Condition : Type 0 where
  pub type : String
  pub status : String

-- client-go, as the source calls it: `Rest` is a rest.Config, `Client` a kubernetes.Interface. The
-- k-th request of a wait need not be answered as the one before: `readyz` takes its number. The
-- conditions are those in the status of what is read.
pub record Api (Rest Client : Type 0) : Type 0 where
  pub build_config : FilePath → M Rest
  pub new_for_config : Rest → M Client
  pub readyz : Client → ℕ → M (Unit {0})
  pub node_conditions : Client → String → M (List Condition)
  pub pod_conditions : Client → String → String → M (List Condition)

-- A context: why it is done, and how often a wait of two seconds ends before it is.
pub record Context : Type 0 where
  pub cause : Error
  pub rounds : ℕ

-- The loop over the conditions: one of the type is true.
unfoldable pub has_condition : String → List Condition → Bool
has_condition type [] = false
has_condition type (c ∷ cs) = (c.type == type && c.status == "True") || has_condition type cs

-- `if err != nil { return false }` and the loop
unfoldable pub ready_from : String → Result (List Condition) → M Bool
unfolding has_condition
ready_from type (ok cs) = pure (has_condition type cs)
ready_from type (err e) = pure false
ready_from type panic = crash

-- A wait that gives up
unfoldable pub not_ready : Error → Error → Error
not_ready cause last =
    new_error ("apiserver not ready: " <> cause.text <> " (last probe: " <> last.text <> ")")

-- The loop of WaitForAPIServer from the k-th request on, `rounds` waits before the context is done
unfoldable pub poll_from : (ℕ → M (Unit {0})) → Error → ℕ → ℕ → Result (Unit {0}) → M (Unit {0})
unfolding not_ready
poll_from probe cause k rounds (ok u) = pure tt
poll_from probe cause k zero (err e) = throw (not_ready cause e)
poll_from probe cause k (suc rounds) (err e) = do
  r ← attempt (probe (suc k))
  poll_from probe cause (suc k) rounds r
poll_from probe cause k rounds panic = crash

module _ {Rest Client : Type 0} (api : Api Rest Client) where
  unfoldable pub load_admin : FilePath → M Client
  load_admin path = do
    rest_cfg ← wrapped ("build rest config from " <> show path) (api.build_config path)
    wrapped "build clientset" (api.new_for_config rest_cfg)

  unfoldable pub wait_for_api_server : Context → Client → M (Unit {0})
  unfolding poll_from
  wait_for_api_server ctx client = do
    r ← attempt (api.readyz client zero)
    poll_from (api.readyz client) ctx.cause zero ctx.rounds r

  unfoldable pub node_ready : Client → String → M Bool
  unfolding ready_from
  node_ready client node_name = do
    r ← attempt (api.node_conditions client node_name)
    ready_from "Ready" r

  unfoldable pub static_pod_ready : Client → String → M Bool
  unfolding ready_from
  static_pod_ready client pod_name = do
    r ← attempt (api.pod_conditions client "kube-system" pod_name)
    ready_from "Ready" r

  -- The four checks, with their names
  unfoldable pub ready_checks : Client → String → List (String × M Bool)
  unfolding node_ready static_pod_ready
  ready_checks client node_name =
      ("node/" <> node_name, node_ready client node_name)
      ∷ (
        "pod/kube-apiserver-" <> node_name,
        static_pod_ready client ("kube-apiserver-" <> node_name),
      )
      ∷ (
        "pod/kube-controller-manager-" <> node_name,
        static_pod_ready client ("kube-controller-manager-" <> node_name),
      )
      ∷ (
        "pod/kube-scheduler-" <> node_name,
        static_pod_ready client ("kube-scheduler-" <> node_name),
      )
      ∷ []
