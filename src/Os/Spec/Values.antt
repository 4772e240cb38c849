-- ===== src/Os/Spec/Values.antt =====
-- What is known of the value that an action comes to, and of its error, in whatever world it runs.
use nanok8s.Base.{String, ◌≡◌, refl, subst}
use nanok8s.Os.World.{
  continue, caught, tried, Error, Result, ok, err, panic, World, M, pure, throw, crash, ◌>>=◌,
  on_error, attempt, logf,
}

abbrev pub Yields : {A : Type 0} → (A → Type 0) → (Error → Type 0) → Result A × World → Type 0
Yields P E (ok a, w) = P a
Yields P E (err e, w) = E e
Yields P E (panic, w) = Unit

-- Of a panic nothing is said.
pub record Gives {A : Type 0} (P : A → Type 0) (E : Error → Type 0) (m : M A) : Type 0 where
  pub at : (w : World) → Yields P E (m w)

-- An action that never returns an error
abbrev pub NeverErrs : {A : Type 0} → M A → Type 0
NeverErrs m = Gives (λ a. Unit) (λ e. ⊥) m

-- The outcome as a value
abbrev pub Known : {A : Type 0} → (A → Type 0) → (Error → Type 0) → Result A → Type 0
Known P E (ok a) = P a
Known P E (err e) = E e
Known P E panic = ⊥

module _ {A : Type 0} {P : A → Type 0} {E : Error → Type 0} where
  pub Gives-pure : (a : A) → P a → Gives P E (pure a)
  unfolding pure
  Gives-pure a p = record { at = λ w. p }

  pub Gives-throw : (e : Error) → E e → Gives P E (throw e)
  unfolding throw
  Gives-throw e p = record { at = λ w. p }

  pub Gives-crash : Gives P E crash
  unfolding crash
  Gives-crash = record { at = λ w. tt }

  pub Gives-ok : {m : M A} (w w' : World) (a : A) → Gives P E m → m w ≡ (ok a, w') → P a
  Gives-ok w w' a g h = subst (Yields P E) h (g.at w)

  pub Gives-err : {m : M A} (w w' : World) (e : Error) → Gives P E m → m w ≡ (err e, w') → E e
  Gives-err w w' e g h = subst (Yields P E) h (g.at w)

  pub Gives-on_error :
      {F : Error → Type 0} {m : M A} {h : Error → M A}
      → Gives P F m
      → ((e : Error) → F e → Gives P E (h e))
      → Gives P E (on_error h m)
  unfolding on_error
  Gives-on_error {F} {m} {h} g k = record { at = λ w. let (r, v) = m w in go r v (g.at w) }
    where
      go : (r : Result A) (v : World) → Yields P F (r, v) → Yields P E (caught h r v)
      go (ok a) v p = p
      go (err e) v p = (k e p).at v
      go panic v p = tt

  pub Gives-attempt : {m : M A} → Gives P E m → Gives (Known P E) (λ e. ⊥) (attempt m)
  unfolding attempt
  Gives-attempt {m} g = record { at = λ w. let (r, v) = m w in go r v (g.at w) }
    where
      go : (r : Result A) (v : World) → Yields P E (r, v) → Yields (Known P E) (λ e. ⊥) (tried r v)
      go (ok b) v p = p
      go (err x) v p = p
      go panic v p = tt

  pub Gives-weaken :
      {Q : A → Type 0} {F : Error → Type 0} {m : M A}
      → ((a : A) → Q a → P a)
      → ((e : Error) → F e → E e)
      → Gives Q F m
      → Gives P E m
  Gives-weaken {Q} {F} {m} k l g = record { at = λ w. let (r, v) = m w in go r v (g.at w) }
    where
      go : (r : Result A) (v : World) → Yields Q F (r, v) → Yields P E (r, v)
      go (ok a) v q = k a q
      go (err e) v q = l e q
      go panic v q = tt

pub Gives-any : {A : Type 0} (m : M A) → Gives (λ a. Unit) (λ e. Unit) m
Gives-any m = record { at = λ w. let (r, v) = m w in go r v }
  where
    go : {A : Type 0} (r : Result A) (v : World) → Yields (λ a. Unit) (λ e. Unit) (r, v)
    go (ok a) v = tt
    go (err e) v = tt
    go panic v = tt

module _ {A : Type 0} {P Q : A → Type 0} {E F : Error → Type 0} where
  pub Gives-both : {m : M A} → Gives P E m → Gives Q F m → Gives (λ a. P a × Q a) (λ e. E e × F e) m
  Gives-both {m} g h = record { at = λ w. let (r, v) = m w in go r v (g.at w) (h.at w) }
    where
      go :
          (r : Result A) (v : World)
          → Yields P E (r, v)
          → Yields Q F (r, v)
          → Yields (λ a. P a × Q a) (λ e. E e × F e) (r, v)
      go (ok a) v p q = (p, q)
      go (err e) v p q = (p, q)
      go panic v p q = tt

module _ {A B : Type 0} {P : A → Type 0} {Q : B → Type 0} {E : Error → Type 0} where
  pub Gives-bind :
      {m : M A} {f : A → M B}
      → Gives P E m
      → ((a : A) → P a → Gives Q E (f a))
      → Gives Q E (m >>= f)
  unfolding ◌>>=◌
  Gives-bind {m} {f} g k = record { at = λ w. let (r, v) = m w in go r v (g.at w) }
    where
      go : (r : Result A) (v : World) → Yields P E (r, v) → Yields Q E (continue r f v)
      go (ok a) v p = (k a p).at v
      go (err e) v p = p
      go panic v p = tt

-- What an action has shown once it succeeds, apart from its value
abbrev pub Shows : {A : Type 0} → Type 0 → M A → Type 0
Shows C m = Gives (λ a. C) (λ e. Unit) m

module _ {A B : Type 0} {C : Type 0} where
  pub Shows-first : {m : M A} (f : A → M B) → Shows C m → Shows C (m >>= f)
  Shows-first f g = Gives-bind g λ a c. Gives-weaken (λ b u. c) (λ e u. u) (Gives-any (f a))

  pub Shows-next : (m : M A) {f : A → M B} → ((a : A) → Shows C (f a)) → Shows C (m >>= f)
  Shows-next m k = Gives-bind (Gives-any m) (λ a u. k a)

module _ {A : Type 0} where
  -- The state and the value that it comes to
  pub Gives-itself : (m : M A) → Gives (λ a. (w w' : World) × (m w ≡ (ok a, w'))) (λ e. Unit) m
  Gives-itself m = record { at = λ w. from w (m w) refl }
    where
      from :
          (w : World) (r : Result A × World)
          → m w ≡ r
          → Yields (λ a. (w w' : World) × (m w ≡ (ok a, w'))) (λ e. Unit) r
      from w (ok a, v) e = (w, v, e)
      from w (err x, v) e = tt
      from w (panic, v) e = tt

pub NeverErrs-logf : (s : String) → NeverErrs (logf s)
unfolding logf
NeverErrs-logf s = record { at = λ w. tt }

pub NeverErrs-attempt : {A : Type 0} (m : M A) → NeverErrs (attempt m)
NeverErrs-attempt m = Gives-weaken (λ r p. tt) (λ e p. p) (Gives-attempt (Gives-any m))
