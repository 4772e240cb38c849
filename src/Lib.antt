-- ===== src/Lib.antt =====
-- nanok8s keeps a one-node Kubernetes on an image-based system: at each boot it backs up the state
-- of the last healthy boot, restores an older one after a rollback of the image, and brings up the
-- control plane. This library models the program from its commands down to the system calls.
--
-- The parts, and how they meet. internal/lifecycle runs a boot: it asks
-- internal/ostree which image is booted, has internal/backup restore or create a backup, starts the
-- control plane by internal/kubeadm and internal/kubeclient, and records the boot by internal/state.
-- Each of them finds its files by internal/paths. The configuration, internal/config, is of the types
-- of internal/apis/bootstrap/v1alpha1. cmd/nanok8s has the commands: bootstrap, boot and reset.
--
-- The files:
--   Paths            internal/paths/paths.go. A path is the list of its components.
--   State            internal/state/state.go. WriteLastBoot is `write_last_boot`, and so on; in
--                    State/Atomic the write by way of a temporary file, in State/Recall what is read
--                    after a write, in State/Promises what the writers promise.
--   Backup           internal/backup/backup.go: Create and Restore. Backup/Copying is what is asked
--                    of `cp`; Backup/Stage, Snapshot, Create, Swap, Restore and Facts carry
--                    the proofs of Backup/Promises.
--   Backup/Listing   the same file: ReadMeta, List, LatestForDeployment, Prune and the marker;
--                    Backup/Listing/Sorting to Pruning follow Prune from its sort to the tree it leaves.
--   Api              internal/apis/bootstrap/v1alpha1: the types, in Api/Defaults SetDefaults and
--                    NewDefault, in Api/Validate the checks.
--   Ostree           internal/ostree/ostree.go.
--   Version          internal/version/version.go.
--   Config           internal/config/load.go.
--   Kubeadm          internal/kubeadm: BuildInitConfiguration, Ensure, EnsureAddons, EnsureAdminRBAC
--                    and MarkControlPlane; in Kubeadm/Duration the validities in nanoseconds, in
--                    Kubeadm/Forward what is handed on.
--   Kubeclient       internal/kubeclient/kubeclient.go: the clients and the checks, in Kubeclient/Poll
--                    the wait for the API server, in Kubeclient/Race waitAllReady as a step relation and,
--                    in Kubeclient/Race/Refinement, the wait that it implements, in Kubeclient/Wait
--                    waitAllReady and WaitForControlPlane as they run by a schedule.
--   Lifecycle        internal/lifecycle/boot.go: `maybe_restore`, the restoration that a rollback
--                    asks for by a marker file; in Lifecycle/Boot the whole of Boot, as `boot`;
--                    Lifecycle/Boot/Opening splits it at its read of the record.
--   Command          cmd/nanok8s: reset in Command/Containers, Mounts, Network and Reset (in
--                    Command/Mounts/Detached what is unmounted, and in which order), bootstrap in
--                    Command/Bootstrap, the other commands in Command/Operate.
--   Os               package os, as the source uses it: a tree of files and directories, an action
--                    that reads and changes it, the system calls. Os/Spec has the rules by which
--                    proofs follow an action from call to call.
--   Base             shared names and lemmas.
--   Testutil         internal/testutil/paths.go: the paths that the program's own tests move.
--   Tests            a small machine, and each theorem at work on it.
--
-- An action takes a `World` and returns a result with a new one. A result is a value, an error or a
-- run-time panic. The world says of each system call to come whether it fails, and what a failing
-- write or removal leaves at its path: anything. Theorems are about every world, and so about every
-- pattern of failures. Two loops of the code wait for the cluster. The one for the API server ends
-- with its context: it is a recursion on the number of waits that end before the context is done. The
-- one for the four checks is a relation on states, in which the goroutines and the caller take their
-- steps in any order; in a boot it runs by a schedule, a list of what happens next, at whose end the
-- context is done. A theorem about every schedule is one about every order. No fuel is used.
--
-- Left out: file modes and owners, symbolic links, the modification times of files (only those of
-- directories are ever compared), other programs that change the tree meanwhile, a crash of the
-- machine in the middle of a call. An error keeps its text and whether it is os.ErrNotExist. A
-- path below a regular file counts as missing, where Go's stat says ENOTDIR. The stands
-- still during a command. A message of Validate is a constructor, not its text. sort.Slice is the insertion sort that Go uses up to twelve elements. Prune goes through a map in
-- an order that is a parameter.
--
-- Parameters: `cp` (it writes at its destination only, and a success makes that equal to the
-- source), rpm-ostree with the decoding of its output, encoding/json at the boot's record (it reads
-- back what it wrote and does not panic), sigs.k8s.io/yaml, the phases of kubeadm, client-go, the
-- programs that os/exec runs, umount, the host's name, sd_notify, unicode's lower case beyond ASCII,
-- and which texts net.ParseIP and net.ParseCIDR accept. In a boot they are the fields of a
-- `Platform`, together with the schedule of the wait for the four checks. `IsConfined` asks of them
-- that they leave the program's own files alone, `IsTame` that they answer and keep a condition.
--
-- Not modelled: the registration of the commands and of their flags, which is cobra's, and main,
-- which sets up the signals and prints the error. The packaging and the end-to-end tests hold nothing
-- to prove.
pub mod Base
pub mod Os
pub mod Paths
pub mod State
pub mod Backup
pub mod Api
pub mod Ostree
pub mod Version
pub mod Command
pub mod Config
pub mod Kubeadm
pub mod Kubeclient
pub mod Lifecycle
pub mod Testutil
pub mod Tests
