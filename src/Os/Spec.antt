-- ===== src/Os/Spec.antt =====
-- Triples: what holds of the file tree before an action and after it, in success and on an error.
-- An action that has a triple does not panic.
pub mod Rules
pub mod Steps
pub mod Outside
pub mod Runs
pub mod Values
use nanok8s.Base.{ℕ, String, ◌≡◌, refl, Bool, true, false, Option, none, some, List, [], ◌∷◌}
use nanok8s.Os.Tree.{Node}
use nanok8s.Os.World.{
  Error, wrap, Result, ok, err, panic, Fault, World, M, pure, throw, ◌>>=◌, ◌>>◌, on_error, wrapped,
  attempt, logf, when, for_each,
}

abbrev pub Post :
    {A : Type 0} → (A → Node → Type 0) → (Error → Node → Type 0) → Result A × World → Type 0
Post Q E (ok a, w) = Q a w.fs
Post Q E (err e, w) = E e w.fs
Post Q E (panic, w) = ⊥

pub record Triple {A : Type 0} (P : Node → Type 0) (m : M A) (Q : A → Node → Type 0)
    (E : Error → Node → Type 0) : Type 0 where
  pub at : (w : World) → P w.fs → Post Q E (m w)

-- A success has what is promised of one.
pub post_ok :
    (Q : Unit {0} → Node → Type 0) (E : Error → Node → Type 0) (r : Result Unit) (w : World)
    → r ≡ ok tt
    → Post Q E (r, w)
    → Q tt w.fs
post_ok Q E (ok u) w e h = h
post_ok Q E (err x) w e h = cc
post_ok Q E panic w e h = absurd h
