-- ===== src/Os/Spec/Rules.antt =====
-- A rule for each way to build an action.
use nanok8s.Base.{
  ℕ, String, ◌≡◌, refl, Bool, true, false, Option, none, some, List, [], ◌∷◌, if◌then◌else◌,
}
use nanok8s.Os.Tree.{Node}
use nanok8s.Os.World.{
  continue, caught, tried, Error, new_error, wrap, Result, ok, err, panic, Fault, World, M, pure,
  throw, ◌>>=◌, ◌>>◌, on_error, wrapped, attempt, logf, for_each, defer,
}
use nanok8s.Os.Calls.{syscall, perform, random_name}
use nanok8s.Os.Spec.{Post, Triple}

module _ {A : Type 0} {E : Error → Node → Type 0} where
  pub Triple-pure : (a : A) (Q : A → Node → Type 0) → Triple (Q a) (pure a) Q E
  unfolding pure
  Triple-pure a Q = record { at = λ w h. h }

  pub Triple-throw : (e : Error) {Q : A → Node → Type 0} → Triple (E e) (throw e) Q E
  unfolding throw
  Triple-throw e = record { at = λ w h. h }

module _ {A B : Type 0} {R : A → Node → Type 0} {Q : B → Node → Type 0}
    {E : Error → Node → Type 0} where
  Post-continue :
      (r : Result A) (w : World) (f : A → M B)
      → Post R E (r, w)
      → ((a : A) → Triple (R a) (f a) Q E)
      → Post Q E (continue r f w)
  Post-continue (ok a) w f h k = (k a).at w h
  Post-continue (err e) w f h k = h
  Post-continue panic w f h k = absurd h

  pub Triple-bind :
      {P : Node → Type 0} {m : M A} {f : A → M B}
      → Triple P m R E
      → ((a : A) → Triple (R a) (f a) Q E)
      → Triple P (m >>= f) Q E
  unfolding ◌>>=◌
  Triple-bind {m} {f} t k = record {
    at = λ w h. let (r, w') = m w in Post-continue r w' f (t.at w h) k;
  }

module _ {A : Type 0} {Q : A → Node → Type 0} {E F : Error → Node → Type 0} where
  Post-caught :
      (r : Result A) (w : World) (h : Error → M A)
      → Post Q E (r, w)
      → ((e : Error) → Triple (E e) (h e) Q F)
      → Post Q F (caught h r w)
  Post-caught (ok a) w h p k = p
  Post-caught (err e) w h p k = (k e).at w p
  Post-caught panic w h p k = absurd p

  pub Triple-on_error :
      {P : Node → Type 0} {m : M A} {h : Error → M A}
      → Triple P m Q E
      → ((e : Error) → Triple (E e) (h e) Q F)
      → Triple P (on_error h m) Q F
  unfolding on_error
  Triple-on_error {m} {h} t k = record {
    at = λ w p. let (r, w') = m w in Post-caught r w' h (t.at w p) k;
  }

module _ {A : Type 0} {Q Q' : A → Node → Type 0} {E E' : Error → Node → Type 0} where
  Post-weaken :
      (r : Result A) (w : World)
      → ((a : A) (t : Node) → Q a t → Q' a t)
      → ((e : Error) (t : Node) → E e t → E' e t)
      → Post Q E (r, w)
      → Post Q' E' (r, w)
  Post-weaken (ok a) w q e h = q a w.fs h
  Post-weaken (err x) w q e h = e x w.fs h
  Post-weaken panic w q e h = h

  pub Triple-weaken :
      {P P' : Node → Type 0} {m : M A}
      → ((t : Node) → P' t → P t)
      → ((a : A) (t : Node) → Q a t → Q' a t)
      → ((e : Error) (t : Node) → E e t → E' e t)
      → Triple P m Q E
      → Triple P' m Q' E'
  Triple-weaken {m} p q e h = record {
    at = λ w x. let (r, w') = m w in Post-weaken r w' q e (h.at w (p w.fs x));
  }

-- What an action leaves, as a condition on the outcome that the caller looks at.
abbrev pub Either :
    {A : Type 0} → (A → Node → Type 0) → (Error → Node → Type 0) → Result A → Node → Type 0
Either Q E (ok a) t = Q a t
Either Q E (err e) t = E e t
Either Q E panic t = ⊥

module _ {A : Type 0} (Q : A → Node → Type 0) (E F : Error → Node → Type 0) where
  Post-tried : (r : Result A) (w : World) → Post Q E (r, w) → Post (Either Q E) F (tried r w)
  Post-tried (ok a) w h = h
  Post-tried (err e) w h = h
  Post-tried panic w h = h

module _ {A : Type 0} {Q : A → Node → Type 0} {E F : Error → Node → Type 0} where
  pub Triple-attempt :
      {P : Node → Type 0} {m : M A} → Triple P m Q E → Triple P (attempt m) (Either Q E) F
  unfolding attempt
  Triple-attempt {m} t = record {
    at = λ w h. let (r, w') = m w in Post-tried Q E F r w' (t.at w h);
  }

module _ {A : Type 0} {Q : A → Node → Type 0} {E : Node → Type 0} where
  pub Triple-wrapped :
      {P : Node → Type 0} {m : M A} (prefix : String)
      → Triple P m Q (λ e. E)
      → Triple P (wrapped prefix m) Q (λ e. E)
  unfolding wrapped
  Triple-wrapped prefix t = Triple-on_error t (λ e. Triple-throw (wrap prefix e))

module _ {P : Node → Type 0} {E : Error → Node → Type 0} where
  pub Triple-logf : (s : String) → Triple P (logf s) (λ u. P) E
  unfolding logf
  Triple-logf s = record { at = λ w h. h }

  pub Triple-random_name : Triple P random_name (λ u. P) E
  unfolding random_name
  Triple-random_name = record { at = λ w h. h }

  -- A loop keeps what each round keeps.
  pub Triple-for_each :
      {A : Type 0} (xs : List A) (f : A → M (Unit {0}))
      → ((a : A) → Triple P (f a) (λ u. P) E)
      → Triple P (for_each xs f) (λ u. P) E
  unfolding for_each
  Triple-for_each [] f k = Triple-pure tt (λ u. P)
  Triple-for_each (x ∷ xs) f k = Triple-bind (k x) (λ u. Triple-for_each xs f k)

module _ {A : Type 0} (Q : A → Node → Type 0) (E : Error → Node → Type 0) where
  Post-answer : (r : Result A) (w : World) → Either Q E r w.fs → Post Q E (r, w)
  Post-answer (ok a) w h = h
  Post-answer (err e) w h = h
  Post-answer panic w h = h

module _ {A : Type 0} (act : ℕ → Node → Result A × Node) (spoil : ℕ → Fault → Node → Node)
    (Q : A → Node → Type 0) (E : Error → Node → Type 0) where
  Post-perform :
      (faults : List (Option Fault)) (w : World)
      → Either Q E (act w.now w.fs).0 (act w.now w.fs).1
      → ((f : Fault) → E (new_error f.text) (spoil w.now f w.fs))
      → Post Q E (perform act spoil faults w)
  Post-perform [] w good bad =
      let (r, t) = act w.now w.fs in Post-answer Q E r (record w { fs = t; faults = [] }) good
  Post-perform (none ∷ faults) w good bad =
      let (r, t) = act w.now w.fs in Post-answer Q E r (record w { fs = t; faults = faults }) good
  Post-perform (some f ∷ faults) w good bad = bad f

module _ {A : Type 0} (act : ℕ → Node → Result A × Node) (spoil : ℕ → Fault → Node → Node)
    {Q : A → Node → Type 0} {E : Error → Node → Type 0} where
  -- A system call does what it does, or fails with an error that is not os.ErrNotExist.
  pub Triple-syscall :
      {P : Node → Type 0}
      → ((now : ℕ) (t : Node) → P t → Either Q E (act now t).0 (act now t).1)
      → ((now : ℕ) (f : Fault) (t : Node) → P t → E (new_error f.text) (spoil now f t))
      → Triple P (syscall act spoil) Q E
  unfolding syscall
  Triple-syscall good bad = record {
    at = λ w h. Post-perform act spoil Q E w.faults w (good w.now w.fs h) (λ f. bad w.now f w.fs h);
  }

module _ {A : Type 0} (Q : A → Node → Type 0) (E : Error → Node → Type 0) (d : M (Unit {0})) where
  abbrev Kept : (Node → Type 0) → Type 0
  Kept P = Triple P d (λ u. P) (λ e. P)

  Post-kept : (P : Node → Type 0) → Kept P → (w : World) → P w.fs → P (attempt d w).1.fs
  unfolding attempt
  Post-kept P k w h = let (r, w') = d w in go r w' (k.at w h)
    where
      go : (r : Result Unit) (w : World) → Post (λ u. P) (λ e. P) (r, w) → P (tried r w).1.fs
      go (ok u) w h = h
      go (err e) w h = h
      go panic w h = absurd h

  Post-defer :
      (r : Result A) (w : World)
      → Post Q E (r, w)
      → ((a : A) → Kept (Q a))
      → ((e : Error) → Kept (E e))
      → Post Q E (r, (attempt d w).1)
  Post-defer (ok a) w h q e = Post-kept (Q a) (q a) w h
  Post-defer (err x) w h q e = Post-kept (E x) (e x) w h
  Post-defer panic w h q e = h

  -- A deferred call that keeps what is known leaves the outcome as it is.
  pub Triple-defer :
      {P : Node → Type 0} {m : M A}
      → Triple P m Q E
      → ((a : A) → Kept (Q a))
      → ((e : Error) → Kept (E e))
      → Triple P (defer d m) Q E
  unfolding defer
  Triple-defer {m} t q e = record {
    at = λ w h. let (r, w') = m w in Post-defer r w' (t.at w h) q e;
  }

Either-same :
    {A : Type 0} (P : Node → Type 0) (r : Result A) (t : Node) → Either (λ a. P) (λ e. P) r t → P t
Either-same P (ok a) t h = h
Either-same P (err e) t h = h
Either-same P panic t h = absurd h

-- `_ = m()`, and then the rest
pub Triple-ignored :
    {A B : Type 0} {P R : Node → Type 0} {Q : B → Node → Type 0} {E : Error → Node → Type 0}
    {m : M A} {k : M B}
    → Triple P m (λ a. R) (λ e. R)
    → Triple R k Q E
    → Triple P (attempt m >> k) Q E
Triple-ignored {R} t k =
    Triple-bind (Triple-attempt t)
      (λ r. Triple-weaken (λ u h. Either-same R r u h) (λ a u h. h) (λ e u h. h) k)

-- A fact that comes before the action, with the value that it speaks of
pub Triple-given :
    {A B : Type 0} {P : B → Node → Type 0} {Q : A → Node → Type 0} {E : Error → Node → Type 0}
    {m : M A}
    → ((b : B) → Triple (P b) m Q E)
    → Triple (λ t. (b : B) × P b t) m Q E
Triple-given k = record { at = λ w h. (k h.0).at w h.1 }

module _ {A : Type 0} {Q : A → Node → Type 0} {E : Error → Node → Type 0} {m : M A} where
  -- Each tree that the action may begin with
  pub Triple-from :
      {P : Node → Type 0} → ((t : Node) → P t → Triple (λ u. u ≡ t) m Q E) → Triple P m Q E
  Triple-from k = record { at = λ w h. (k w.fs h).at w refl }

module _ {A : Type 0} {P : Node → Type 0} {Q : A → Node → Type 0} {E : Error → Node → Type 0} where
  pub Triple-if :
      (b : Bool) {m n : M A}
      → (b ≡ true → Triple P m Q E)
      → (b ≡ false → Triple P n Q E)
      → Triple P (if b then m else n) Q E
  Triple-if true k l = k refl
  Triple-if false k l = l refl

pub Triple-absurd :
    {A : Type 0} {Q : A → Node → Type 0} {E : Error → Node → Type 0} {m : M A}
    → Triple (λ t. ⊥) m Q E
Triple-absurd = record { at = λ w h. absurd h }
