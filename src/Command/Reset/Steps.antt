-- ===== src/Command/Reset/Steps.antt =====
-- cmd/nanok8s/reset.go: the runs of other programs in a reset, and the unmounts, are never
-- fatal.
use Prim.Native.String.{len}
use nanok8s.Base.{ℕ, String, Option, none, some, List, [], ◌∷◌, leb, ltb}
use nanok8s.Base.Lines.{split}
use nanok8s.Os.Tree.{Node}
use nanok8s.Os.World.{Error, Result, ok, err, panic, M, ◌>>=◌, attempt}
use nanok8s.Os.Programs.{Output, Host}
use nanok8s.Os.Spec.{Triple}
use nanok8s.Os.Spec.Rules.{
  Triple-bind, Triple-pure, Triple-throw, Triple-attempt, Triple-on_error, Triple-weaken, Triple-if,
  Triple-logf, Triple-for_each, Either,
}
use nanok8s.Os.Spec.Steps.{Triple-read_file}
use nanok8s.Command.Running.{say, if_ran, if_found}
use nanok8s.Command.Containers.{
  stop_kubelet, scan_ids, listed, crictl_list_containers, crictl_run, clean_containers,
  cleanup_cri_containers, max_token,
}
use nanok8s.Command.Mounts.{counted, unmount_all, unmount_from, unmount_kubelet_mounts}
use nanok8s.Command.Network.{
  interface_exists, delete_interface, delete_cni_interfaces, flush_table, flush_iptables,
  flush_ipvs, cni_interfaces, iptables_runs,
}

-- No error is returned.
abbrev Never : Error → Node → Type 0
Never e t = ⊥

-- The other programs and the kernel answer, and leave a condition on the tree as it is.
pub record IsTame (P : Node → Type 0) (host : Host) : Type 0 where
  pub exec :
      (name : String) (args : List String)
      → Triple P (host.programs.exec name args) (λ o. P) (λ e t. ⊥)
  pub look_path : (name : String) → Triple P (host.programs.look_path name) (λ u. P) (λ e. P)
  pub unmount : (t : String) → Triple P (host.unmount t) (λ u. P) (λ e. P)

module _ {P : Node → Type 0} where
  pub say-Keeps : {E : Error → Node → Type 0} (s : String) → Triple P (say s) (λ u. P) E
  unfolding say
  say-Keeps s = Triple-logf _

  if_ran-Keeps :
      (o : Option Error) {E : Error → Node → Type 0} {f : Error → M (Unit {0})} {m : M (Unit {0})}
      → ((e : Error) → Triple P (f e) (λ u. P) E)
      → Triple P m (λ u. P) E
      → Triple P (if_ran o f m) (λ u. P) E
  unfolding if_ran
  if_ran-Keeps none f m = m
  if_ran-Keeps (some e) f m = f e

  if_found-Keeps :
      (r : Result (Unit {0})) (s : String) {E : Error → Node → Type 0} {m : M (Unit {0})}
      → Triple P m (λ u. P) E
      → Triple (Either (λ u. P) (λ e. P) r) (if_found r s m) (λ u. P) E
  unfolding if_found
  if_found-Keeps (ok u) s k = k
  if_found-Keeps (err e) s k = say-Keeps s
  if_found-Keeps panic s k = record { at = λ w h. absurd h }

  scan_ids-Keeps : (ls : List String) → Triple P (scan_ids ls) (λ ids. P) (λ e. P)
  unfolding scan_ids
  scan_ids-Keeps [] = Triple-pure [] (λ ids. P)
  scan_ids-Keeps (l ∷ ls) =
      Triple-if (leb max_token (len l)) (λ h. Triple-throw _)
        (λ h. Triple-bind {R = λ ids. P} (scan_ids-Keeps ls) λ ids. Triple-pure _ (λ ids. P))

  module _ (host : Host) (T : IsTame P host) where
    after_run :
        (n : String) (args : List String) {A : Type 0} {f : Output → M A}
        {E : Error → Node → Type 0}
        → ((o : Output) → Triple P (f o) (λ a. P) E)
        → Triple P (host.programs.exec n args >>= f) (λ a. P) E
    after_run n args k =
        Triple-bind {R = λ o. P}
          (Triple-weaken (λ t h. h) (λ o t h. h) (λ e t h. absurd h) (T.exec n args)) k

    pub stop_kubelet-Keeps : Triple P (stop_kubelet host.programs) (λ u. P) Never
    unfolding stop_kubelet
    stop_kubelet-Keeps =
        after_run _ _
          λ o. if_ran-Keeps o.failure (λ e. say-Keeps _) (say-Keeps "stopped kubelet.service")

    if_there :
        (n s : String) {m : M (Unit {0})}
        → Triple P m (λ u. P) Never
        → Triple P (attempt (host.programs.look_path n) >>= λ r. if_found r s m) (λ u. P) Never
    if_there n s k = Triple-bind (Triple-attempt (T.look_path n)) λ r. if_found-Keeps r s k

    listed-Keeps : (f : Option Error) (o : Output) → Triple P (listed f o) (λ ids. P) (λ e. P)
    unfolding listed
    listed-Keeps none o = scan_ids-Keeps (split "\n" o.stdout)
    listed-Keeps (some e) o = Triple-throw _

    crictl_run-Keeps :
        (args : List String) → Triple P (crictl_run host.programs args) (λ u. P) (λ e. P)
    unfolding crictl_run
    crictl_run-Keeps args =
        after_run _ _ λ o. if_ran-Keeps o.failure (λ e. Triple-throw _) (Triple-pure tt (λ u. P))

    clean_containers-Keeps :
        (r : Result (List String))
        → Triple (Either (λ ids. P) (λ e. P) r) (clean_containers host.programs r) (λ u. P) Never
    unfolding clean_containers
    clean_containers-Keeps (ok []) = say-Keeps "no CRI containers to remove"
    clean_containers-Keeps (ok (i ∷ ids)) =
        Triple-bind {R = λ u. P} (Triple-on_error (crictl_run-Keeps _) (λ e. say-Keeps _)) λ u.
          Triple-bind {R = λ u. P} (Triple-on_error (crictl_run-Keeps _) (λ e. say-Keeps _))
            λ u. say-Keeps _
    clean_containers-Keeps (err e) = say-Keeps _
    clean_containers-Keeps panic = record { at = λ w h. absurd h }

    pub cleanup-Keeps : Triple P (cleanup_cri_containers host.programs) (λ u. P) Never
    unfolding cleanup_cri_containers crictl_list_containers
    cleanup-Keeps = if_there "crictl" _ (
        Triple-bind (Triple-attempt (after_run _ _ λ o. listed-Keeps o.failure o))
          clean_containers-Keeps)

    counted-Keeps :
        (r : Result (Unit {0})) (t : String) (n : ℕ)
        → Triple (Either (λ u. P) (λ e. P) r) (counted host.unmount r t n) (λ m. P) Never
    unfolding counted
    counted-Keeps (ok u) t n = Triple-pure _ (λ m. P)
    counted-Keeps (err e) t n = Triple-bind {R = λ u. P} (say-Keeps _) λ u. Triple-pure _ (λ m. P)
    counted-Keeps panic t n = record { at = λ w h. absurd h }

    unmount_all-Keeps :
        (n : ℕ) (ts : List String) → Triple P (unmount_all host.unmount n ts) (λ m. P) Never
    unfolding unmount_all
    unmount_all-Keeps n [] = Triple-pure n (λ m. P)
    unmount_all-Keeps n (t ∷ ts) =
        Triple-bind (Triple-attempt (T.unmount t))
          λ r. Triple-bind {R = λ m. P} (counted-Keeps r t n) λ m. unmount_all-Keeps m ts

    unmount_from-Keeps :
        (r : Result String)
        → Triple (Either (λ s. P) (λ e. P) r) (unmount_from host.unmount r) (λ u. P) Never
    unfolding unmount_from
    unmount_from-Keeps (ok raw) =
        Triple-bind {R = λ m. P} (unmount_all-Keeps _ _)
          λ n. Triple-if (ltb 0 n) (λ h. say-Keeps _) (λ h. Triple-pure tt (λ u. P))
    unmount_from-Keeps (err e) = say-Keeps _
    unmount_from-Keeps panic = record { at = λ w h. absurd h }

    pub unmount-Keeps : Triple P (unmount_kubelet_mounts host.unmount) (λ u. P) Never
    unfolding unmount_kubelet_mounts
    unmount-Keeps =
        Triple-bind
          (Triple-attempt {E = λ e. P}
            (Triple-read_file ("proc" ∷ "mounts" ∷ []) (λ t s h e. h) (λ t h e. h) (λ t s h. h)))
          unmount_from-Keeps

    delete_interface-Keeps :
        (n : String) → Triple P (delete_interface host.programs n) (λ u. P) Never
    unfolding delete_interface interface_exists
    delete_interface-Keeps n =
        Triple-bind {R = λ b. P} (after_run _ _ λ o. Triple-pure _ (λ b. P)) λ b.
          Triple-if b
            (λ h. after_run _ _ λ o. if_ran-Keeps o.failure (λ e. say-Keeps _) (say-Keeps _))
            (λ h. Triple-pure tt (λ u. P))

    pub delete_cni-Keeps : Triple P (delete_cni_interfaces host.programs) (λ u. P) Never
    unfolding delete_cni_interfaces
    delete_cni-Keeps = if_there "ip" _ (Triple-for_each cni_interfaces _ delete_interface-Keeps)

    flush_table-Keeps :
        (args : List String) → Triple P (flush_table host.programs args) (λ u. P) Never
    unfolding flush_table
    flush_table-Keeps args =
        after_run _ _ λ o. if_ran-Keeps o.failure (λ e. say-Keeps _) (Triple-pure tt (λ u. P))

    pub flush_iptables-Keeps : Triple P (flush_iptables host.programs) (λ u. P) Never
    unfolding flush_iptables
    flush_iptables-Keeps = if_there "iptables" _ (
        Triple-bind {R = λ u. P} (Triple-for_each iptables_runs _ flush_table-Keeps)
          λ u. say-Keeps "flushed iptables (filter/nat/mangle)")

    pub flush_ipvs-Keeps : Triple P (flush_ipvs host.programs) (λ u. P) Never
    unfolding flush_ipvs
    flush_ipvs-Keeps = if_there "ipvsadm" _ (
        after_run _ _
          λ o. if_ran-Keeps o.failure (λ e. say-Keeps _) (say-Keeps "flushed IPVS rules"))
