-- ===== src/Lifecycle/Boot/Opening.antt =====
-- internal/lifecycle/boot.go: the steps of Boot up to its read of the record, and what follows them.
use nanok8s.Base.{String, ◌≡◌, refl, Bool, Option}
use nanok8s.Os.World.{continue, Result, ok, err, panic, World, M, ◌>>=◌, ◌>>◌, wrapped, when}
use nanok8s.State.{LastBoot, read_last_boot}
use nanok8s.Backup.{boot_id}
use nanok8s.Ostree.{is_ostree}
use nanok8s.Api.{NanoK8sConfig}
use nanok8s.Lifecycle.{maybe_restore}
use nanok8s.Lifecycle.Boot.{Platform, current_deployment, proceed, boot}

-- The first steps of Boot, up to the read of the record of the last boot
abbrev pub opening : {Rest Client : Type 0} → Platform Rest Client → M (Option LastBoot)
opening p = do
  use_backups ← wrapped "detect ostree" is_ostree
  deployment ← current_deployment p use_backups
  current_boot ← boot_id
  when use_backups (wrapped "restore" (maybe_restore p.cp p.json deployment))
  read_last_boot p.json

-- What an action comes to, given what its first steps give: their error, or one of the actions that
-- are allowed for their value, in the world that they leave.
abbrev pub Onward :
    {A B : Type 0} → (A → M B → Type 0) → Result A × World → Result B × World → Type 0
Onward {A} {B} F (ok a, v) o = (g : M B) × (F a g × (o ≡ g v))
Onward F (err e, v) o = o ≡ (err e, v)
Onward F (panic, v) o = o ≡ (panic, v)

module _ {A B : Type 0} (F : A → M B → Type 0) where
  Onward-bind :
      {C : Type 0} (x : M C) (f : C → M A) (g : C → M B)
      → ((c : C) (w : World) → Onward F (f c w) (g c w))
      → (w : World) → Onward F ((x >>= f) w) ((x >>= g) w)
  unfolding ◌>>=◌
  Onward-bind {C} x f g h w = from (x w)
    where
      from : (o : Result C × World) → Onward F (continue o.0 f o.1) (continue o.0 g o.1)
      from (ok c, v) = h c v
      from (err e, v) = refl
      from (panic, v) = refl

  Onward-last :
      (x : M A) (g : A → M B) → ((a : A) → F a (g a)) → (w : World) → Onward F (x w) ((x >>= g) w)
  unfolding ◌>>=◌
  Onward-last x g h w = from (x w)
    where
      from : (o : Result A × World) → Onward F o (continue o.0 g o.1)
      from (ok a, v) = (g a, (h a, refl))
      from (err e, v) = refl
      from (panic, v) = refl

-- The rest of Boot, after the record that it has read
abbrev pub IsRest :
    {Rest Client : Type 0}
    → Platform Rest Client
    → NanoK8sConfig
    → String
    → String
    → Option LastBoot
    → M (Unit {0})
    → Type 0
IsRest p cfg node_name self prev rest =
    (b : Bool) × ((d : String) × ((now : String) × (rest
          ≡ proceed p cfg node_name self b d now prev)))

-- Boot is its first steps, and if they give a record, its rest after that record.
pub boot-opening :
    {Rest Client : Type 0} (p : Platform Rest Client) (cfg : NanoK8sConfig)
    (node_name self : String) (w : World)
    → Onward (IsRest p cfg node_name self) (opening p w) (boot p cfg node_name self w)
unfolding boot
boot-opening p cfg node_name self w =
    Onward-bind _ (wrapped "detect ostree" is_ostree) _ _
      (λ b. Onward-bind _ (current_deployment p b) _ _ λ d. Onward-bind _ boot_id _ _ λ now.
        Onward-bind _ (when b (wrapped "restore" (maybe_restore p.cp p.json d))) _ _
          λ u. Onward-last _ (read_last_boot p.json) _ λ prev. (b, (d, (now, refl))))
      w
