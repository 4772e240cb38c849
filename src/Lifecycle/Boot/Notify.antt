-- ===== src/Lifecycle/Boot/Notify.antt =====
-- internal/lifecycle/boot.go: when systemd is told that the boot is done.
use nanok8s.Base.{String, ◌≡◌, Bool, true, false, Option}
use nanok8s.Os.World.{continue, Error, Result, ok, err, panic, World, M, ◌>>=◌}
use nanok8s.Os.Spec.Values.{
  NeverErrs, NeverErrs-logf, NeverErrs-attempt, Gives-pure, Gives-crash, Gives-bind, Gives-err,
}
use nanok8s.State.{LastBoot}
use nanok8s.Api.{NanoK8sConfig}
use nanok8s.Lifecycle.{log}
use nanok8s.Lifecycle.Boot.{Platform, notified, notify_ready, proceed, boot}

-- What the first action returns as an error, in whatever state, the second one does too.
record Follows {A : Type 0} (f g : M A) : Type 0 where
  pub at : (w w' : World) (e : Error) → f w ≡ (err e, w') → g w ≡ (err e, w')

module _ {A B : Type 0} where
  continue-Follows :
      (r : Result A) (v w' : World) (e : Error) (f g : A → M B)
      → ((a : A) → Follows (f a) (g a))
      → continue r f v ≡ (err e, w')
      → continue r g v ≡ (err e, w')
  continue-Follows (ok a) v w' e f g k h = (k a).at v w' e h
  continue-Follows (err x) v w' e f g k h = h
  continue-Follows panic v w' e f g k h = h

  Follows-bind :
      (m : M A) {f g : A → M B} → ((a : A) → Follows (f a) (g a)) → Follows (m >>= f) (m >>= g)
  unfolding ◌>>=◌
  Follows-bind m {f} {g} k = record {
    at = λ w w' e. let (r, v) = m w in continue-Follows r v w' e f g k;
  }

NeverErrs-notified : (r : Result Bool) → NeverErrs (notified r)
unfolding notified log
NeverErrs-notified (ok true) = NeverErrs-logf _
NeverErrs-notified (ok false) = Gives-pure tt tt
NeverErrs-notified (err e) = NeverErrs-logf _
NeverErrs-notified panic = Gives-crash

pub NeverErrs-notify_ready : (s : M Bool) → NeverErrs (notify_ready s)
unfolding notify_ready
NeverErrs-notify_ready s = Gives-bind (NeverErrs-attempt s) (λ r p. NeverErrs-notified r)

Follows-errorless : {A : Type 0} {f g : M A} → NeverErrs f → Follows f g
Follows-errorless n = record { at = λ w w' e h. absurd (Gives-err w w' e n h) }

module _ {Rest Client : Type 0} (p : Platform Rest Client) (other : M Bool) (cfg : NanoK8sConfig)
    (node_name self : String) where
  abbrev q : Platform Rest Client
  q = record p { sd_notify = other }

  proceed-Follows :
      (b : Bool) (d now : String) (prev : Option LastBoot)
      → Follows
          (proceed p cfg node_name self b d now prev)
          (proceed q cfg node_name self b d now prev)
  unfolding proceed log
  proceed-Follows b d now prev = Follows-bind _ λ u. Follows-bind _ λ u. Follows-bind _ λ u.
      Follows-bind _ λ u. Follows-bind _ λ u.
        Follows-bind _
          λ u. Follows-errorless (Gives-bind (NeverErrs-notify_ready _) λ u p. NeverErrs-logf _)

  boot-Follows : Follows (boot p cfg node_name self) (boot q cfg node_name self)
  unfolding boot
  boot-Follows = Follows-bind _ λ b. Follows-bind _ λ d.
      Follows-bind _ λ now. Follows-bind _ λ u. Follows-bind _ λ prev. proceed-Follows b d now prev

-- A boot that returns an error has not told systemd that it is ready: with any other notification
-- in the place of sd_notify it returns the same error in the same state.
pub failed_boot_never_notifies :
    {Rest Client : Type 0} (p : Platform Rest Client) (other : M Bool) (cfg : NanoK8sConfig)
    (node_name self : String) (w w' : World) (e : Error)
    → boot p cfg node_name self w ≡ (err e, w')
    → boot (record p { sd_notify = other }) cfg node_name self w ≡ (err e, w')
failed_boot_never_notifies p other cfg node_name self w w' e h =
    (boot-Follows p other cfg node_name self).at w w' e h
