-- ===== src/Command/Mounts/Detached.antt =====
-- cmd/nanok8s/reset.go: what unmountKubeletMounts detaches, and in which order.
use nanok8s.Base.{String, ◌≡◌, Option, none, some, List, [], ◌∷◌, ◌++◌}
use nanok8s.Os.FilePath.{FilePath}
use nanok8s.Os.World.{Error, Result, ok, err, panic, World, M}

abbrev pub answered : Option Error → Result (Unit {0})
answered none = ok tt
answered (some e) = err e

-- An unmount that fails or works as `answers` has it, and writes down what it is asked to detach.
abbrev pub recording : (String → Option Error) → String → M (Unit {0})
recording answers t w = (answered (answers t), record w { calls = w.calls ++ t ∷ [] })

-- The action succeeds with such a value and asks for these, in this order.
record Asks {A : Type 0} (P : A → Type 0) (m : M A) (ts : List String) : Type 0 where
  pub at :
      (w : World)
      → (a : A) × ((v : World) × ((m w ≡ (ok a, v)) × ((v.calls ≡ w.calls ++ ts) × P a)))

abbrev Any : {A : Type 0} → A → Type 0
Any a = Unit

module _ (answers : String → Option Error) where
  abbrev unmount : String → M (Unit {0})
  unmount = recording answers

  abbrev Settled : Result (Unit {0}) → Type 0
  Settled (ok u) = Unit
  Settled (err e) = Unit
  Settled panic = ⊥
