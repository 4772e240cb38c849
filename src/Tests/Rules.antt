-- ===== src/Tests/Rules.antt =====
-- The rules of the configuration, of the listing and of the deployments, on small inputs.
use mathlib.Core.List.{Memᴰ}
use nanok8s.Os.Spec.Values.{Yields}
use nanok8s.Base.{◌⊎◌, String, ◌≡◌, ◌↔◌, refl, Bool, true, false, some, List, [], ◌∷◌}
use nanok8s.Base.Int.{pos}
use nanok8s.Os.World.{World, ok, pure, throw, attempt, on_error, ◌>>=◌}
use nanok8s.Os.Tree.{dir, file, nil, cons, get, find}
use nanok8s.Os.Calls.{syscall, stat, remove}
use nanok8s.Api.{NanoK8sConfig}
use nanok8s.Api.Defaults.{new_default, set_defaults}
use nanok8s.Api.Defaults.Laws.{set_defaults-Keeps, Keeps}
use nanok8s.Api.Validate.{validate}
use nanok8s.Api.Validate.Laws.{validate-IsValid, IsValid}
use nanok8s.Backup.{remove_if_there, remove_from}
use nanok8s.Backup.Listing.{backups_of, clear_restore_marker, restore_requested}
use nanok8s.Backup.Listing.Laws.{Mem-backups_of, IsWhole}
use nanok8s.Backup.Listing.Marker.{restore_requested-clear_restore_marker}
use nanok8s.State.Recall.{quiet}
use nanok8s.Ostree.{
  RpmOstree, Deployment, is_ostree, booted_from, booted_deployment_id, all_deployments, booted,
  booted_or_error, parsed,
}
use nanok8s.Ostree.Laws.{Booted, booted_deployment_id-Booted}
use nanok8s.Tests.Tools.{few_addresses}
use nanok8s.Tests.Machine.{before}

-- The user asks for no taints and another port.
abbrev chosen : NanoK8sConfig
chosen = record {
  api_version = "";
  kind = "NanoK8sConfig";
  metadata_name = "node";
  spec = record {
    control_plane = record {
      mode = "";
      advertise_address = "10.0.0.1";
      bind_port = pos 7443;
      service_subnet = "";
      pod_subnet = "";
      cluster_dns = "";
    };
    runtime = record { cri_socket = ""; cgroup_driver = "cgroupfs" };
    certificates = record {
      self_signed = true;
      ca_validity_days = pos 0;
      leaf_validity_days = pos 30;
      extra_sans = [];
    };
    node_registration = record { taints = some [] };
  };
}

set_defaults-Keeps_example : Keeps chosen (set_defaults chosen)
set_defaults-Keeps_example = set_defaults-Keeps chosen

validate-IsValid_example :
    (validate few_addresses new_default ≡ []) ↔ IsValid few_addresses new_default
validate-IsValid_example = validate-IsValid few_addresses new_default

abbrev entries : List (String × Bool)
entries = ("os-1.0_b1", true) ∷ ("os-1.0_b2.tmp", true) ∷ ("restore", false) ∷ []

Mem-backups_of_example :
    Memᴰ "os-1.0_b1" (backups_of entries) ↔ (Memᴰ ("os-1.0_b1", true) entries × IsWhole "os-1.0_b1")
Mem-backups_of_example = Mem-backups_of "os-1.0_b1" entries

clear_works : (clear_restore_marker before).0 ≡ ok tt
unfolding clear_restore_marker remove_if_there remove_from remove syscall attempt ◌>>=◌ pure throw
    get find
clear_works = refl

restore_requested-clear_restore_marker_example :
    (restore_requested (quiet (clear_restore_marker before).1)).0 ≡ ok false
restore_requested-clear_restore_marker_example =
    restore_requested-clear_restore_marker before clear_works

abbrev two : List Deployment
two = record { id = "os-2.0"; booted = false } ∷ record { id = "os-1.0"; booted = true } ∷ []

abbrev rpm : RpmOstree
rpm = record { status = λ w. (ok "status", w); unmarshal = λ s. ok two }

abbrev on_ostree : World
on_ostree = record before {
  fs = dir 1 (cons "run" (dir 1 (cons "ostree-booted" (file "") nil)) nil);
}

-- The second of the two is booted.
answer : (booted_deployment_id rpm on_ostree).0 ≡ ok "os-1.0"
unfolding booted_deployment_id is_ostree booted_from stat syscall attempt ◌>>=◌ pure throw get find
    all_deployments booted booted_or_error parsed on_error
answer = refl

booted_deployment_id-Booted_example :
    Yields
      (λ id.
        (((is_ostree on_ostree).0 ≡ ok false) × (id ≡ ""))
        ⊎ (((is_ostree on_ostree).0 ≡ ok true) × Booted rpm id))
      (λ e. Unit)
      (booted_deployment_id rpm on_ostree)
booted_deployment_id-Booted_example = booted_deployment_id-Booted rpm on_ostree
