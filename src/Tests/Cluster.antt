-- ===== src/Tests/Cluster.antt =====
-- A cluster's libraries that do as little as they can, for the tests.
use nanok8s.Base.{ℕ, zero, suc, true, false, Option, none, some, List, [], ◌∷◌}
use nanok8s.Base.Int.{pos}
use nanok8s.Os.Tree.{Node}
use nanok8s.Os.World.{Error, new_error, ok, M, pure}
use nanok8s.Os.Programs.{Output, Programs, Host}
use nanok8s.Os.Spec.Rules.{Triple-pure}
use nanok8s.Os.Spec.Runs.{Run-pure, Run-wrapped}
use nanok8s.Api.Defaults.{new_default}
use nanok8s.Config.{Yaml, IsTotalYaml, Reader}
use nanok8s.Kubeadm.{InitConfiguration, Phases, mark_control_plane}
use nanok8s.Kubeclient.{Api, Condition, Context}
use nanok8s.Kubeclient.Wait.{Event, poll, receive}
use nanok8s.Kubeclient.Poll.{answered}
use nanok8s.Lifecycle.Boot.{Platform}
use nanok8s.Lifecycle.Boot.Confined.{Confined, IsConfined}
use nanok8s.Command.Reset.Steps.{IsTame}
use nanok8s.Tests.Tools.{plain_cp, plain_json, few_addresses}

abbrev pub plain_yaml : Yaml
plain_yaml = record {
  unmarshal_strict = λ s. ok new_default;
  marshal = λ c. ok "kind: NanoK8sConfig";
}

pub plain_yaml-IsTotal : IsTotalYaml plain_yaml
plain_yaml-IsTotal = record { returns = λ s e. cc }

abbrev pub plain_reader : Reader
plain_reader = record { yaml = plain_yaml; net = few_addresses; describe = λ ps. "problems" }

abbrev pub kubeadm_defaults : InitConfiguration
kubeadm_defaults = record {
  cluster_name = "";
  kubernetes_version = "";
  certificates_dir = [];
  node_name = "";
  cri_socket = "";
  taints = none;
  advertise_address = "";
  bind_port = pos 0;
  service_subnet = "";
  pod_subnet = "";
  dns_domain = "";
  etcd_local = some (record { server_cert_sans = []; peer_cert_sans = [] });
  api_server_cert_sans = [];
  ca_validity = pos 0;
  leaf_validity = pos 0;
  kubelet = some (record {
    cluster_dns = [];
    cluster_domain = "";
    cgroup_driver = "";
    container_runtime_endpoint = "";
  });
}

abbrev nothing : M (Unit {0})
nothing = pure tt

abbrev pub plain_phases : Phases (Unit {0})
plain_phases = record {
  defaults = pure kubeadm_defaults;
  create_pki_assets = λ kc. nothing;
  create_kubeconfig_file = λ n d kc. nothing;
  create_etcd_manifest = λ d s n kc b. nothing;
  create_control_plane_manifests = λ d s kc b. nothing;
  write_kubelet_env_file = λ kc b d. nothing;
  write_instance_config = λ k d. nothing;
  write_kubelet_config = λ kc d s. nothing;
  ensure_admin_cluster_role_binding = λ d. pure tt;
  mark_control_plane = λ c n ts. nothing;
  ensure_dns_addon = λ kc c s b. nothing;
  ensure_proxy_addon = λ kc c b. nothing;
}

-- The API server answers at the third request.
abbrev pub slow_answers : ℕ → Option Error
slow_answers zero = some (new_error "refused")
slow_answers (suc zero) = some (new_error "etcd failed")
slow_answers (suc (suc k)) = none

abbrev pub is_ready : Condition
is_ready = record { type = "Ready"; status = "True" }

-- Each goroutine polls once, and the caller takes what it finds.
abbrev pub prompt : List Event
prompt =
    poll 3 false
    ∷ poll 0 false
    ∷ receive
    ∷ poll 2 false
    ∷ receive
    ∷ poll 1 false
    ∷ receive
    ∷ receive
    ∷ []

abbrev pub plain_api : Api (Unit {0}) (Unit {0})
plain_api = record {
  build_config = λ d. pure tt;
  new_for_config = λ c. pure tt;
  readyz = λ c. answered slow_answers;
  node_conditions = λ c n. pure (is_ready ∷ []);
  pod_conditions = λ c s n. pure (is_ready ∷ []);
}

abbrev quiet_output : Output
quiet_output = record { stdout = "0f3a\n\n77b1\n"; stderr = ""; combined = ""; failure = none }

abbrev pub plain_programs : Programs
plain_programs = record { exec = λ n args. pure quiet_output; look_path = λ n. pure tt }

abbrev pub plain_host : Host
plain_host = record {
  programs = plain_programs;
  unmount = λ t. pure tt;
  hostname = pure "Node-1";
  lower_table = λ c. c;
}

pub plain_host-IsTame : (P : Node → Type 0) → IsTame P plain_host
plain_host-IsTame P = record {
  exec = λ n args. Triple-pure quiet_output (λ o. P);
  look_path = λ n. Triple-pure tt (λ u. P);
  unmount = λ t. Triple-pure tt (λ u. P);
}

abbrev three_minutes : Context
three_minutes = record { cause = new_error "context deadline exceeded"; rounds = 90 }

abbrev pub plain_platform : Platform (Unit {0}) (Unit {0})
plain_platform = record {
  cp = plain_cp;
  json = plain_json;
  rpm = record { status = pure "{}"; unmarshal = λ s. ok [] };
  order = λ gs. gs;
  phases = plain_phases;
  api = plain_api;
  schedule = prompt;
  programs = plain_programs;
  sd_notify = pure true;
  readyz = three_minutes;
  control_plane = three_minutes;
}

Confined-pure : {A : Type 0} (a : A) → Confined (pure a)
Confined-pure a x r v = Run-pure a

Confined-slow : (k : ℕ) → Confined (answered slow_answers k)
Confined-slow zero x r v = record { at = λ w h. h }
Confined-slow (suc zero) x r v = record { at = λ w h. h }
Confined-slow (suc (suc k)) x r v = record { at = λ w h. h }

pub plain_platform-IsConfined : IsConfined plain_platform
unfolding mark_control_plane
plain_platform-IsConfined = record {
  status = Confined-pure _;
  defaults = Confined-pure _;
  pki = λ kc. Confined-pure tt;
  kubeconfig = λ n d kc. Confined-pure tt;
  etcd = λ d s n kc b. Confined-pure tt;
  manifests = λ d s kc b. Confined-pure tt;
  env = λ kc b d. Confined-pure tt;
  instance = λ k d. Confined-pure tt;
  kubelet = λ kc d s. Confined-pure tt;
  binding = λ d. Confined-pure tt;
  mark = λ c cfg n x r v. Run-wrapped _ (Run-pure tt);
  dns = λ kc c s b. Confined-pure tt;
  proxy = λ kc c b. Confined-pure tt;
  build_config = λ d. Confined-pure tt;
  new_for_config = λ c. Confined-pure tt;
  readyz = λ c. Confined-slow;
  node_conditions = λ c n. Confined-pure _;
  pod_conditions = λ c s n. Confined-pure _;
  systemctl = λ args. Confined-pure quiet_output;
  sd_notify = Confined-pure true;
}
