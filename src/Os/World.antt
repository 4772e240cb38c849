-- ===== src/Os/World.antt =====
-- Go's error values, and the machine that a command runs on.
use nanok8s.Base.{ℕ, String, ◌<>◌, Bool, true, false, Option, List, [], ◌∷◌, ◌++◌}
use nanok8s.Os.Tree.{Node}

-- An error's text, and what `errors.Is(err, os.ErrNotExist)` says of it.
pub record Error : Type 0 where
  pub not_exist : Bool
  pub text : String

-- errors.New
abbrev pub new_error : String → Error
new_error s = record { not_exist = false; text = s }

-- fmt.Errorf("prefix: %w", err)
abbrev pub wrap : String → Error → Error
wrap prefix e = record e { text = prefix <> ": " <> e.text }

-- errors.Join(a, b)
abbrev pub join_errors : Error → Error → Error
join_errors a b = record { not_exist = or a.not_exist b.not_exist; text = a.text <> "\n" <> b.text }
  where
    or : Bool → Bool → Bool
    or true b = true
    or false b = b

-- A value, a returned error, or a run-time panic.
pub data Result {ℓ} (A : Type ℓ) : Type ℓ where
  ok : A → Result A
  err : Error → Result A
  panic : Result A

-- A system call that fails: the message, what it leaves at the path it worked on, and how many
-- directories os.MkdirAll had made. Such an error is never os.ErrNotExist.
pub record Fault : Type 0 where
  pub text : String
  pub leaves : Option Node
  pub depth : ℕ

-- `faults` has an entry for each system call to come, `some` where it fails; past its end none
-- fails. The clock has one value during a command. `random` is what os.CreateTemp draws.
pub record World : Type 0 where
  pub fs : Node
  pub now : ℕ
  pub random : String
  pub faults : List (Option Fault)
  pub calls : List String
  pub logs : List String

abbrev pub M : Type 0 → Type 0
M A = World → Result A × World

module _ {A : Type 0} where
  unfoldable pub pure : A → M A
  pure a w = (ok a, w)

  unfoldable pub throw : Error → M A
  throw e w = (err e, w)

  unfoldable pub crash : M A
  crash w = (panic, w)

module _ {A B : Type 0} where
  abbrev pub continue : Result A → (A → M B) → M B
  continue (ok a) f w = f a w
  continue (err e) f w = (err e, w)
  continue panic f w = (panic, w)

  infixl 10 ◌>>=◌ ◌>>◌
  unfoldable pub ◌>>=◌ : M A → (A → M B) → M B
  ◌>>=◌ m f w = let (r, w') = m w in continue r f w'

  abbrev pub ◌>>◌ : M A → M B → M B
  m >> n = m >>= λ _. n

module _ {A : Type 0} where
  abbrev pub caught : (Error → M A) → Result A → M A
  caught h (ok a) w = (ok a, w)
  caught h (err e) w = h e w
  caught h panic w = (panic, w)

  -- `if err := m(); err != nil { return h(err) }`
  unfoldable pub on_error : (Error → M A) → M A → M A
  on_error h m w = let (r, w') = m w in caught h r w'

  -- The same where the error is only wrapped.
  unfoldable pub wrapped : String → M A → M A
  unfolding on_error throw
  wrapped prefix = on_error (λ e. throw (wrap prefix e))

  abbrev pub tried : Result A → M (Result A)
  tried (ok a) w = (ok (ok a), w)
  tried (err e) w = (ok (err e), w)
  tried panic w = (panic, w)

  -- `_ = m()`, and an error that the caller looks at: the error is a value.
  unfoldable pub attempt : M A → M (Result A)
  attempt m w = let (r, w') = m w in tried r w'

-- `defer d()` before the rest, m: d's error is dropped.
unfoldable pub defer : {A : Type 0} → M (Unit {0}) → M A → M A
unfolding attempt
defer d m w = let (r, w') = m w in let (r', w'') = attempt d w' in (r, w'')

-- fmt.Fprintf to the command's output
unfoldable pub logf : String → M (Unit {0})
logf s w = (ok tt, record w { logs = w.logs ++ s ∷ [] })

-- `if test { … }` without an else
abbrev pub when : Bool → M (Unit {0}) → M (Unit {0})
when true m = m
when false m = pure tt

-- `for _, x := range xs { … }`
unfoldable pub for_each : {A : Type 0} → List A → (A → M (Unit {0})) → M (Unit {0})
unfolding pure ◌>>=◌
for_each [] f = pure tt
for_each (x ∷ xs) f = f x >> for_each xs f
