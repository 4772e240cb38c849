-- ===== src/Lifecycle/Boot/Reported.antt =====
-- internal/lifecycle/boot.go: what the cluster has answered when a boot succeeds.
use nanok8s.Base.{ℕ, zero, suc, String, ◌≡◌, Option}
use nanok8s.Os.World.{Error, Result, ok, err, panic, World, M}
use nanok8s.Os.Spec.Values.{
  Yields, Shows, Known, Gives-pure, Gives-throw, Gives-crash, Gives-on_error, Gives-attempt,
  Gives-bind, Gives-itself, Gives-weaken, Gives-both, Shows-first, Shows-next,
}
use nanok8s.State.{LastBoot}
use nanok8s.Api.{NanoK8sConfig}
use nanok8s.Kubeclient.{poll_from, wait_for_api_server}
use nanok8s.Kubeclient.Wait.Reported.{AllReported, wait_for_control_plane-Gives}
use nanok8s.Lifecycle.Boot.{
  Platform, boot_failed, wait_readyz, wait_control_plane, or_failed, bring_up, proceed, boot,
}

module _ {Rest Client : Type 0} (p : Platform Rest Client) where
  -- The API server has answered one request at /readyz.
  abbrev pub Served : Type 0
  Served = (c : Client) × ((k : ℕ) × ((w w' : World) × (p.api.readyz c k w ≡ (ok tt, w'))))

  -- The node and its static pods have been reported ready to one client.
  abbrev pub Reported : String → Type 0
  Reported node_name = (c : Client) × AllReported p.api c node_name

  asked : (c : Client) (k : ℕ) → Shows Served (p.api.readyz c k)
  asked c k = Gives-weaken (λ u g. (c, (k, g))) (λ e h. h) (Gives-itself (p.api.readyz c k))

  poll_from-Served :
      (c : Client) (cause : Error) (k n : ℕ) (r : Result (Unit {0}))
      → Known (λ u. Served) (λ e. Unit) r
      → Shows Served (poll_from (p.api.readyz c) cause k n r)
  unfolding poll_from
  poll_from-Served c cause k n (ok u) s = Gives-pure tt s
  poll_from-Served c cause k zero (err e) s = Gives-throw _ tt
  poll_from-Served c cause k (suc n) (err e) s =
      Gives-bind (Gives-weaken (λ a h. h) (λ e h. absurd h) (Gives-attempt (asked c (suc k))))
        λ r h. poll_from-Served c cause (suc k) n r h
  poll_from-Served c cause k n panic s = Gives-crash

  wait_readyz-Served : Shows Served (wait_readyz p)
  unfolding wait_readyz wait_for_api_server
  wait_readyz-Served = Shows-next _ λ u. Shows-next _ λ c. Shows-first _ (
      Gives-bind (Gives-weaken (λ a h. h) (λ e h. absurd h) (Gives-attempt (asked c zero)))
        λ r h. poll_from-Served c p.readyz.cause zero p.readyz.rounds r h)

  wait_control_plane-Reported :
      (c : Client) (n : String) → Shows (Reported n) (wait_control_plane p c n)
  unfolding wait_control_plane
  wait_control_plane-Reported c n = Shows-next _ λ u. Shows-first _ (
      Gives-weaken (λ a h. (c, h)) (λ e h. tt)
        (wait_for_control_plane-Gives p.api c p.schedule p.control_plane n))

  module _ (cfg : NanoK8sConfig) (node_name self : String) where
    -- A step that fails ends the boot.
    or_failed-Shows :
        {A : Type 0} {C : Type 0} {m : M A} (prev : Option LastBoot)
        → Shows C m
        → Shows C (or_failed p cfg node_name self prev m)
    unfolding or_failed boot_failed
    or_failed-Shows prev g = Gives-on_error g (λ e h. Shows-next _ λ u. Gives-throw e tt)

    bring_up-Served : (prev : Option LastBoot) → Shows Served (bring_up p cfg node_name self prev)
    unfolding bring_up
    bring_up-Served prev =
        Shows-next _ λ u. Shows-next _ λ u. Shows-first _ (or_failed-Shows prev wait_readyz-Served)

    bring_up-Reported :
        (prev : Option LastBoot) → Shows (Reported node_name) (bring_up p cfg node_name self prev)
    unfolding bring_up
    bring_up-Reported prev = Shows-next _ λ u. Shows-next _ λ u. Shows-next _ λ u.
        Shows-next _
          λ c. Shows-first _ (or_failed-Shows prev (wait_control_plane-Reported c node_name))

    boot-Shows :
        {C : Type 0}
        → ((prev : Option LastBoot) → Shows C (bring_up p cfg node_name self prev))
        → Shows C (boot p cfg node_name self)
    unfolding boot proceed
    boot-Shows k = Shows-next _ λ b. Shows-next _ λ d. Shows-next _ λ now.
        Shows-next _
          λ u. Shows-next _ λ prev. Shows-next _ λ u. Shows-next _ λ u. Shows-first _ (k prev)

-- Boot returns without an error only where the API server has answered a request at /readyz, and has
-- reported, to one client, the node and each of its three static pods ready: in some state the
-- request for it is answered with a condition of type Ready and status True. This holds whichever
-- calls fail, and in whatever order the goroutines take their turns.
pub boot-Reported :
    {Rest Client : Type 0} (p : Platform Rest Client) (cfg : NanoK8sConfig)
    (node_name self : String) (w : World)
    → Yields (λ u. Served p × Reported p node_name) (λ e. Unit) (boot p cfg node_name self w)
boot-Reported p cfg node_name self w =
    (Gives-weaken (λ u h. h) (λ e h. tt)
        (Gives-both (boot-Shows p cfg node_name self (bring_up-Served p cfg node_name self))
          (boot-Shows p cfg node_name self (bring_up-Reported p cfg node_name self)))).at
      w
