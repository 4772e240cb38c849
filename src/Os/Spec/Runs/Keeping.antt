-- ===== src/Os/Spec/Runs/Keeping.antt =====
-- What an action keeps, whatever its outcome is.
use nanok8s.Base.{String, ◌≡◌, refl, Bool, true, false, List, [], ◌∷◌}
use nanok8s.Os.Tree.{Node}
use nanok8s.Os.World.{tried, Result, ok, err, panic, World, M, attempt, logf, for_each, defer, when}
use nanok8s.Os.Spec.Runs.Core.{RunPost, Keeps, Run-pure, Run-bind}

kept_tried :
    {A : Type 0} (P : Node → Type 0) (r : Result A) (w : World)
    → RunPost (λ a. P) P (r, w)
    → RunPost (λ a. P) P (tried r w)
kept_tried P (ok a) w h = h
kept_tried P (err e) w h = h
kept_tried P panic w h = h

module _ {P : Node → Type 0} where
  pub Keeps-logf : (s : String) → Keeps P (logf s)
  unfolding logf
  Keeps-logf s = record { at = λ w h. h }

  pub Keeps-attempt : {A : Type 0} {m : M A} → Keeps P m → Keeps P (attempt m)
  unfolding attempt
  Keeps-attempt {m} t = record { at = λ w h. let (r, w') = m w in kept_tried P r w' (t.at w h) }

  pub Keeps-for_each :
      {A : Type 0} (xs : List A) (f : A → M (Unit {0}))
      → ((a : A) → Keeps P (f a))
      → Keeps P (for_each xs f)
  unfolding for_each
  Keeps-for_each [] f k = Run-pure tt
  Keeps-for_each (x ∷ xs) f k = Run-bind (k x) (λ u. Keeps-for_each xs f k)

  pub Keeps-when : (b : Bool) {m : M (Unit {0})} → (b ≡ true → Keeps P m) → Keeps P (when b m)
  Keeps-when true k = k refl
  Keeps-when false k = Run-pure tt

  -- A deferred call's outcome is dropped, and what it keeps is kept.
  pub Keeps-defer :
      {A : Type 0} {m : M A} {d : M (Unit {0})} → Keeps P d → Keeps P m → Keeps P (defer d m)
  unfolding defer
  Keeps-defer {m} {d} k h = record { at = λ w p. let (r, w') = m w in after r w' (h.at w p) }
    where
      left : {B : Type 0} (r : Result B) (w : World) → RunPost (λ a. P) P (r, w) → P w.fs
      left (ok a) w h = h
      left (err e) w h = h
      left panic w h = h

      same : {B : Type 0} (r : Result B) (w : World) → P w.fs → RunPost (λ a. P) P (r, w)
      same (ok a) w h = h
      same (err e) w h = h
      same panic w h = h

      after :
          {B : Type 0} (r : Result B) (w : World)
          → RunPost (λ a. P) P (r, w)
          → RunPost (λ a. P) P (r, (attempt d w).1)
      after r w p =
          same r (attempt d w).1
            (let (r', w') = attempt d w in left r' w' ((Keeps-attempt k).at w (left r w p)))

nothing_known :
    {A : Type 0} (r : Result A) (w : World) → RunPost (λ a t. Unit {0}) (λ t. Unit {0}) (r, w)
nothing_known (ok a) w = tt
nothing_known (err e) w = tt
nothing_known panic w = tt

pub Keeps-nothing : {A : Type 0} (m : M A) → Keeps (λ t. Unit {0}) m
Keeps-nothing m = record { at = λ w h. let (r, w') = m w in nothing_known r w' }
