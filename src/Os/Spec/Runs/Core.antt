-- ===== src/Os/Spec/Runs/Core.antt =====
-- A condition before an action, one after its success, and one after an error or a panic.
use nanok8s.Base.{String, ◌≡◌, refl, subst, Bool, true, false, if◌then◌else◌}
use nanok8s.Os.Tree.{Node}
use nanok8s.Os.World.{
  continue, caught, Error, Result, ok, err, panic, World, M, pure, throw, crash, ◌>>=◌, on_error,
  wrapped,
}
use nanok8s.Os.Spec.{Post, Triple}

abbrev pub RunPost :
    {A : Type 0} → (A → Node → Type 0) → (Node → Type 0) → Result A × World → Type 0
RunPost Q X (ok a, w) = Q a w.fs
RunPost Q X (err e, w) = X w.fs
RunPost Q X (panic, w) = X w.fs

pub record Run {A : Type 0} (P : Node → Type 0) (m : M A) (Q : A → Node → Type 0)
    (X : Node → Type 0) : Type 0 where
  pub at : (w : World) → P w.fs → RunPost Q X (m w)

-- The action keeps a condition, whatever its outcome is.
abbrev pub Keeps : {A : Type 0} → (Node → Type 0) → M A → Type 0
Keeps P m = Run P m (λ a. P) P

module _ {A : Type 0} (Q : A → Node → Type 0) (X : Node → Type 0) where
  run_of_Post : (r : Result A) (w : World) → Post Q (λ e. X) (r, w) → RunPost Q X (r, w)
  run_of_Post (ok a) w h = h
  run_of_Post (err e) w h = h
  run_of_Post panic w h = absurd h

  -- What is known of an outcome
  pub run_ok : (r : Result A) (w : World) (a : A) → r ≡ ok a → RunPost Q X (r, w) → Q a w.fs
  run_ok r w a e h = subst (λ (o : Result A). RunPost Q X (o, w)) e h

  pub run_err : (r : Result A) (w : World) (x : Error) → r ≡ err x → RunPost Q X (r, w) → X w.fs
  run_err r w x e h = subst (λ (o : Result A). RunPost Q X (o, w)) e h

module _ {A : Type 0} {Q : A → Node → Type 0} {X : Node → Type 0} where
  pub Run-Triple : {P : Node → Type 0} {m : M A} → Triple P m Q (λ e. X) → Run P m Q X
  Run-Triple {m} t = record { at = λ w h. let (r, w') = m w in run_of_Post Q X r w' (t.at w h) }

  pub Run-pure : (a : A) → Run (Q a) (pure a) Q X
  unfolding pure
  Run-pure a = record { at = λ w h. h }

  pub Run-throw : (e : Error) → Run X (throw e) Q X
  unfolding throw
  Run-throw e = record { at = λ w h. h }

  pub Run-crash : Run X crash Q X
  unfolding crash
  Run-crash = record { at = λ w h. h }

  pub Run-if :
      {P : Node → Type 0} (b : Bool) {m n : M A}
      → (b ≡ true → Run P m Q X)
      → (b ≡ false → Run P n Q X)
      → Run P (if b then m else n) Q X
  Run-if true k l = k refl
  Run-if false k l = l refl

  -- Each tree that the action may begin with
  pub Run-from :
      {P : Node → Type 0} {m : M A} → ((t : Node) → P t → Run (λ u. u ≡ t) m Q X) → Run P m Q X
  Run-from k = record { at = λ w h. (k w.fs h).at w refl }

  run_caught :
      (r : Result A) (w : World) (h : Error → M A)
      → RunPost Q X (r, w)
      → ((e : Error) → Run X (h e) Q X)
      → RunPost Q X (caught h r w)
  run_caught (ok a) w h p k = p
  run_caught (err e) w h p k = (k e).at w p
  run_caught panic w h p k = p

  pub Run-on_error :
      {P : Node → Type 0} {m : M A} {h : Error → M A}
      → Run P m Q X
      → ((e : Error) → Run X (h e) Q X)
      → Run P (on_error h m) Q X
  unfolding on_error
  Run-on_error {m} {h} t k = record {
    at = λ w p. let (r, w') = m w in run_caught r w' h (t.at w p) k;
  }

  pub Run-wrapped :
      {P : Node → Type 0} {m : M A} (prefix : String) → Run P m Q X → Run P (wrapped prefix m) Q X
  unfolding wrapped throw
  Run-wrapped prefix t = Run-on_error t (λ e. record { at = λ w h. h })

  -- A fact about no state
  pub Run-given :
      {P : Node → Type 0} {m : M A} {F : Type 0} → (F → Run P m Q X) → Run (λ t. P t × F) m Q X
  Run-given k = record { at = λ w h. (k h.1).at w h.0 }

module _ {A B : Type 0} {R : A → Node → Type 0} {Q : B → Node → Type 0} {X : Node → Type 0} where
  run_continue :
      (r : Result A) (w : World) (f : A → M B)
      → RunPost R X (r, w)
      → ((a : A) → Run (R a) (f a) Q X)
      → RunPost Q X (continue r f w)
  run_continue (ok a) w f h k = (k a).at w h
  run_continue (err e) w f h k = h
  run_continue panic w f h k = h

  pub Run-bind :
      {P : Node → Type 0} {m : M A} {f : A → M B}
      → Run P m R X
      → ((a : A) → Run (R a) (f a) Q X)
      → Run P (m >>= f) Q X
  unfolding ◌>>=◌
  Run-bind {m} {f} t k = record {
    at = λ w h. let (r, w') = m w in run_continue r w' f (t.at w h) k;
  }

module _ {A : Type 0} {Q Q' : A → Node → Type 0} {X X' : Node → Type 0} where
  run_weaken :
      (r : Result A) (w : World)
      → ((a : A) (t : Node) → Q a t → Q' a t)
      → ((t : Node) → X t → X' t)
      → RunPost Q X (r, w)
      → RunPost Q' X' (r, w)
  run_weaken (ok a) w q x h = q a w.fs h
  run_weaken (err e) w q x h = x w.fs h
  run_weaken panic w q x h = x w.fs h

  pub Run-weaken :
      {P P' : Node → Type 0} {m : M A}
      → ((t : Node) → P' t → P t)
      → ((a : A) (t : Node) → Q a t → Q' a t)
      → ((t : Node) → X t → X' t)
      → Run P m Q X
      → Run P' m Q' X'
  Run-weaken {m} p q x h = record {
    at = λ w k. let (r, w') = m w in run_weaken r w' q x (h.at w (p w.fs k));
  }
