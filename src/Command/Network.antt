-- ===== src/Command/Network.antt =====
-- cmd/nanok8s/reset.go: the interfaces, the iptables and the IPVS rules are removed.
use nanok8s.Base.{String, ◌<>◌, Bool, true, false, none, some, List, [], ◌∷◌, if◌then◌else◌}
use nanok8s.Base.Text.{trim_space}
use nanok8s.Base.Lines.{join}
use nanok8s.Os.World.{M, pure, ◌>>=◌, ◌>>◌, attempt, for_each}
use nanok8s.Os.Programs.{Programs}
use nanok8s.Command.Running.{say, if_ran, if_found}

abbrev pub cni_interfaces : List String
cni_interfaces =
    "cni0" ∷ "flannel.1" ∷ "cilium_host" ∷ "cilium_net" ∷ "cilium_vxlan" ∷ "kube-ipvs0" ∷ "dummy0"
    ∷ "weave" ∷ "vxlan.calico" ∷ []

abbrev pub iptables_runs : List (List String)
iptables_runs =
    ("-t" ∷ "filter" ∷ "-F" ∷ [])
    ∷ ("-t" ∷ "filter" ∷ "-X" ∷ [])
    ∷ ("-t" ∷ "nat" ∷ "-F" ∷ [])
    ∷ ("-t" ∷ "nat" ∷ "-X" ∷ [])
    ∷ ("-t" ∷ "mangle" ∷ "-F" ∷ [])
    ∷ ("-t" ∷ "mangle" ∷ "-X" ∷ [])
    ∷ []

module _ (programs : Programs) where
  unfoldable pub interface_exists : String → M Bool
  interface_exists name = do
    o ← programs.exec "ip" ("link" ∷ "show" ∷ name ∷ [])
    pure (elim o.failure [ none ↦ true | some e ↦ false ])

  -- One round of the loop over the interfaces
  unfoldable pub delete_interface : String → M (Unit {0})
  unfolding say if_ran interface_exists
  delete_interface name = do
    present ← interface_exists name
    if present
        then (do
          o ← programs.exec "ip" ("link" ∷ "delete" ∷ name ∷ [])
          if_ran o.failure
              (λ e. say (
                "ip link delete "
                <> name
                <> " (continuing): "
                <> e.text
                <> ": "
                <> trim_space o.combined))
              (say ("deleted interface " <> name)))
        else pure tt

  unfoldable pub delete_cni_interfaces : M (Unit {0})
  unfolding if_found delete_interface
  delete_cni_interfaces = do
    found ← attempt (programs.look_path "ip")
    if_found found "iproute2 `ip` not found, skipping CNI interface cleanup"
        (for_each cni_interfaces delete_interface)

  -- One round of the two loops over the tables and the operations
  unfoldable pub flush_table : List String → M (Unit {0})
  unfolding say if_ran
  flush_table args = do
    o ← programs.exec "iptables" args
    if_ran o.failure
        (λ e. say (
          "iptables "
          <> join " " args
          <> " (continuing): "
          <> e.text
          <> ": "
          <> trim_space o.combined))
        (pure tt)

  unfoldable pub flush_iptables : M (Unit {0})
  unfolding if_found flush_table say
  flush_iptables = do
    found ← attempt (programs.look_path "iptables")
    if_found found "iptables not found, skipping iptables flush"
        (do for_each iptables_runs flush_table; say "flushed iptables (filter/nat/mangle)")

  unfoldable pub flush_ipvs : M (Unit {0})
  unfolding if_found if_ran say
  flush_ipvs = do
    found ← attempt (programs.look_path "ipvsadm")
    if_found found "ipvsadm not found, skipping IPVS flush" (do
      o ← programs.exec "ipvsadm" ("-C" ∷ [])
      if_ran o.failure
          (λ e. say ("ipvsadm -C (continuing): " <> e.text <> ": " <> trim_space o.combined))
          (say "flushed IPVS rules"))
