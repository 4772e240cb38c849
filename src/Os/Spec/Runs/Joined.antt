-- ===== src/Os/Spec/Runs/Joined.antt =====
-- Several conditions of one action.
use nanok8s.Os.Tree.{Node}
use nanok8s.Os.World.{Result, ok, err, panic, World, M}
use nanok8s.Os.Spec.Runs.Core.{RunPost, Run}

module _ {C : Type 0} (Q R : C → Node → Type 0) (X Y : Node → Type 0) where
  both_post :
      (r : Result C) (w : World)
      → RunPost Q X (r, w)
      → RunPost R Y (r, w)
      → RunPost (λ c t. Q c t × R c t) (λ t. X t × Y t) (r, w)
  both_post (ok c) w h k = (h, k)
  both_post (err e) w h k = (h, k)
  both_post panic w h k = (h, k)

module _ {C : Type 0} {Q R : C → Node → Type 0} {X Y : Node → Type 0} where
  -- What two runs of rules show of one action
  pub Run-both :
      {A B : Node → Type 0} {m : M C}
      → Run A m Q X
      → Run B m R Y
      → Run (λ t. A t × B t) m (λ c t. Q c t × R c t) (λ t. X t × Y t)
  Run-both {m} h k = record {
    at = λ w p. let (r, w') = m w in both_post Q R X Y r w' (h.at w p.0) (k.at w p.1);
  }

module _ {A C : Type 0} {P : Node → Type 0} {Q : C → A → Node → Type 0}
    {X : C → Node → Type 0} where
  -- What rules show for each of a type
  pub Run-all :
      {m : M A}
      → ((c : C) → Run P m (Q c) (X c))
      → Run P m (λ a t. (c : C) → Q c a t) (λ t. (c : C) → X c t)
  Run-all {m} k = record { at = λ w p. let (r, w') = m w in every r w' (λ c. (k c).at w p) }
    where
      every :
          (r : Result A) (w : World)
          → ((c : C) → RunPost (Q c) (X c) (r, w))
          → RunPost (λ a t. (c : C) → Q c a t) (λ t. (c : C) → X c t) (r, w)
      every (ok a) w h = h
      every (err e) w h = h
      every panic w h = h
