-- ===== src/Tests/Machine.antt =====
-- A small machine, and the runs of the program on it that the tests are about.
use nanok8s.Base.{none, []}
use nanok8s.Os.Tree.{Node, file, dir, Entries, nil, cons, alter}
use nanok8s.Os.World.{World}
use nanok8s.Paths.{etcd_data_dir}
use nanok8s.State.{LastBoot}
use nanok8s.Backup.{create}
use nanok8s.Tests.Tools.{plain_cp, plain_json}

abbrev pub sample : LastBoot
sample = record { version = "v1"; deployment_id = "os-1.0"; boot_id = "b1" }

abbrev var_lib : Entries
var_lib =
    cons "etcd" (dir 3 (cons "db" (file "keys") nil))
      (cons "kubelet" (dir 3 (cons "config.yaml" (file "kind: KubeletConfiguration") nil)) nil)

abbrev pub machine : Node
machine = dir 1 (
    cons "etc" (dir 1 (cons "kubernetes" (dir 2 (cons "admin.conf" (file "kubeconfig") nil)) nil))
      (cons "var" (dir 1 (cons "lib" (dir 1 var_lib) nil)) nil))

abbrev pub before : World
before = record { fs = machine; now = 7; random = "42"; faults = []; calls = []; logs = [] }

-- The machine with a boot id
abbrev random_dir : Node
random_dir = dir 1 (cons "random" (dir 1 (cons "boot_id" (file "b2") nil)) nil)

abbrev pub running : World
running = record before {
  fs = dir 1 (
      cons "proc" (dir 1 (cons "sys" (dir 1 (cons "kernel" random_dir nil)) nil))
        (cons "var" (dir 1 (cons "lib" (dir 1 nil) nil)) nil));
}

-- After a backup
abbrev pub backed_up : World
backed_up = (create plain_cp plain_json sample before).1

-- And after etcd's data is lost
abbrev pub damaged : World
damaged = record backed_up { fs = alter (λ m. m) etcd_data_dir none backed_up.fs }
