-- ===== src/Lifecycle/Boot/Next.antt =====
-- internal/lifecycle/boot.go: what the boot after a healthy one finds.
use nanok8s.Base.{
  String, ◌≡◌, Bool, [], ◌∷◌, refl, ◌∙◌, ap, inl, true, false, not, Option, none, some, ◌==◌,
}
use nanok8s.Os.Tree.{Node, file, get}
use nanok8s.Os.World.{Result, ok, err, panic, World, M, ◌>>◌, wrapped, when, attempt}
use nanok8s.Os.Calls.{read_file}
use nanok8s.Os.Spec.Runs.{
  Run, RunPost, Keeps, Run-wrapped, Run-Triple, Run-pure, Run-throw, Run-bind, Run-if, Run-weaken,
}
use nanok8s.Os.Spec.Rules.{Either, Triple-attempt, Triple-weaken}
use nanok8s.Os.Spec.Steps.{Triple-read_file}
use nanok8s.Paths.{last_boot_file, restore_marker}
use nanok8s.State.{IsLawfulJson, LastBoot, decoded, last_boot_from, read_last_boot}
use nanok8s.Backup.Copying.{IsLawfulCp}
use nanok8s.Api.{NanoK8sConfig}
use nanok8s.Lifecycle.Boot.{Platform, boot, had, is_upgrading}
use nanok8s.Lifecycle.{maybe_restore}
use nanok8s.Lifecycle.Boot.Steps
use nanok8s.Lifecycle.Boot.Aside
use nanok8s.Lifecycle.Boot.Retry
use nanok8s.Lifecycle.Boot.Opening.{opening, Onward, IsRest, boot-opening}
use nanok8s.Lifecycle.Boot.Reading.{Keeps-is_ostree, Keeps-boot_id}
use nanok8s.Lifecycle.Boot.Confined.{IsConfined}
use nanok8s.Lifecycle.Boot.Record.{Recorded, boot-Recorded}

-- What is done to the machine between two boots
abbrev pub between : (World → World) → M (Unit {0})
between interim w = (ok tt, interim w)

abbrev Any : Node → Type 0
Any t = Unit

module _ {Rest Client : Type 0} (p : Platform Rest Client) (J : IsLawfulJson p.json)
    (L : IsLawfulCp p.cp) (C : IsConfined p) (cfg : NanoK8sConfig) (node_name self : String)
    (v : Option Node) where
  abbrev Mine : LastBoot → Type 0
  Mine m = m.version ≡ self

  -- What a read of the record gives
  abbrev Text : Result String → Type 0
  Text (ok s) = (m : LastBoot) × (Mine m × (s ≡ p.json.marshal m))
  Text (err e) = e.not_exist ≡ false
  Text panic = ⊥

  abbrev R : Node → Type 0
  R = Recorded p L C v cfg node_name self

  attempt-Text : Run R (attempt (read_file last_boot_file)) (λ r u. Text r) Any
  attempt-Text = Run-Triple (
      Triple-weaken (λ u h. h) text (λ e u h. h)
        (Triple-attempt {Q = λ s u. Text (ok s)} {E = λ e u. e.not_exist ≡ false} {F = λ e. Any} (
          Triple-read_file last_boot_file (λ u s h e. written u s h e)
            (λ u h e. absurd (cc (h.2, e))) (λ u s h. refl))))
    where
      written : (u : Node) (s : String) → R u → get last_boot_file u ≡ some (file s) → Text (ok s)
      written u s (d, b, h) e =
          let m : LastBoot = record { version = self; deployment_id = d; boot_id = b } in
          (m, (refl, cc (h, e)))

      text :
          (r : Result String) (u : Node)
          → Either (λ s u. Text (ok s)) (λ e u. e.not_exist ≡ false) r u
          → Text r
      text (ok s) u h = h
      text (err e) u h = h
      text panic u h = h

  abbrev Found : Option LastBoot → Type 0
  Found none = ⊥
  Found (some m) = Mine m

  last_boot_from-Found :
      (r : Result String) → Text r → Run Any (last_boot_from p.json r) (λ o u. Found o) Any
  unfolding last_boot_from decoded
  last_boot_from-Found (ok s) (m, (own, e)) =
      rw (ap p.json.unmarshal e ∙ J.unmarshal-marshal m)
        (Run-weaken (λ u h. own) (λ o u h. h) (λ u h. h) (Run-pure {Q = λ o u. Found o} (some m)))
  last_boot_from-Found (err e) h = Run-if e.not_exist (λ y. absurd (cc (h, y))) (λ n. Run-throw _)
  last_boot_from-Found panic h = absurd h

  read_Found : Run R (read_last_boot p.json) (λ o u. Found o) Any
  unfolding read_last_boot
  read_Found = Run-bind attempt-Text λ r. record { at = λ w h. (last_boot_from-Found r h).at w tt }

  -- The next boot's steps leave the record of the boot before alone, and read it.
  opening_of :
      (text : Option Node)
      → ((t : Node) → get last_boot_file t ≡ text → R t)
      → Run
          (λ t. (get restore_marker t ≡ none) × (get last_boot_file t ≡ text))
          (opening p)
          (λ o u. Found o)
          Any
  opening_of text own = Run-bind (wide (Run-wrapped "detect ostree" Keeps-is_ostree)) λ b.
      Run-bind
        (wide (
          Retry.Keeps-path p L C cfg node_name self text
            (Steps.Keeps-current_deployment "backups" ("restore" ∷ []) none p C b)
            (Aside.Keeps-current_deployment text p L C b)))
        λ d. Run-bind (wide Keeps-boot_id) λ now. Run-bind (asked b d) λ u. read_Found
    where
      wide :
          {A : Type 0} {m : M A}
          → Keeps (λ t. (get restore_marker t ≡ none) × (get last_boot_file t ≡ text)) m
          → Run
              (λ t. (get restore_marker t ≡ none) × (get last_boot_file t ≡ text))
              m
              (λ a t. (get restore_marker t ≡ none) × (get last_boot_file t ≡ text))
              Any
      wide k = Run-weaken (λ t h. h) (λ a t h. h) (λ t h. tt) k

      asked :
          (b : Bool) (d : String)
          → Run
              (λ t. (get restore_marker t ≡ none) × (get last_boot_file t ≡ text))
              (when b (wrapped "restore" (maybe_restore p.cp p.json d)))
              (λ u. R)
              Any
      asked true d =
          Run-weaken (λ t h. h) (λ a t h. own t h) (λ t h. tt)
            (Run-wrapped "restore" (Retry.maybe_restore-Same p L C cfg node_name self text d))
      asked false d = Run-weaken (λ t h. own t h.1) (λ a t h. h) (λ t h. h) (Run-pure tt)

  next_Found :
      (interim : World → World)
      → ((u : World) → get last_boot_file (interim u).fs ≡ get last_boot_file u.fs)
      → ((u : World) → get restore_marker (interim u).fs ≡ none)
      → Run
          (λ u. get last_boot_file u ≡ v)
          (boot p cfg node_name self >> between interim >> opening p)
          (λ o u. Found o)
          Any
  next_Found interim same unasked =
      Run-bind
        (Run-bind
          (Run-weaken (λ u h. inl h) (λ a u h. h) (λ u h. tt)
            (boot-Recorded p L C v cfg node_name self))
          λ u. passed)
        λ u. record {
          at = λ w h. (opening_of (get last_boot_file w.fs) (λ t. own w.fs t h.1)).at w (h.0, refl);
        }
    where
      passed : Run R (between interim) (λ u t. (get restore_marker t ≡ none) × R t) Any
      passed = record { at = λ w (d, b, h). (unasked w, (d, b, same w ∙ h)) }

      own : (u t : Node) → R u → get last_boot_file t ≡ get last_boot_file u → R t
      own u t (d, b, h) e = (d, b, e ∙ h)

  upgrading_of :
      (next : String) (o : Option LastBoot)
      → Found o
      → (had o ≡ true) × (is_upgrading o next ≡ not (self == next))
  unfolding had is_upgrading
  upgrading_of next none h = absurd h
  upgrading_of next (some m) h = (refl, rw h refl)

-- After a boot that succeeds, whatever is done to the machine until the next one, if it leaves
-- last-boot.json as it is and asks for no restoration: the steps of the next boot up to its read of
-- the record, if they succeed, give that record, and by it the boot of a version is an upgrade if and
-- only if that version is another one. A boot is these steps: if they fail it returns their error,
-- and if not its rest goes on with the record that they give. `cp` must be a lawful copier, json must
-- read back what it wrote, and what the platform runs must leave the files below /var/lib/nanok8s
-- alone.
pub is_upgrading-boot :
    {Rest Client : Type 0} (p : Platform Rest Client) (J : IsLawfulJson p.json)
    (L : IsLawfulCp p.cp) (C : IsConfined p) (cfg : NanoK8sConfig) (node_name self next : String)
    (interim : World → World) (w : World)
    → ((u : World) → get last_boot_file (interim u).fs ≡ get last_boot_file u.fs)
    → ((u : World) → get restore_marker (interim u).fs ≡ none)
    → RunPost
        (λ prev t. (had prev ≡ true) × (is_upgrading prev next ≡ not (self == next)))
        (λ t. Unit)
        ((boot p cfg node_name self >> between interim >> opening p) w)
      × ((u : World)
          → Onward (IsRest p cfg node_name next) (opening p u) (boot p cfg node_name next u))
is_upgrading-boot p J L C cfg node_name self next interim w same unasked = (
  (Run-weaken (λ u h. h)
        (λ o u h. upgrading_of p J L C cfg node_name self (get last_boot_file w.fs) next o h)
        (λ u h. h)
        (next_Found p J L C cfg node_name self (get last_boot_file w.fs) interim same unasked)).at
      w refl,
  boot-opening p cfg node_name next,
)
