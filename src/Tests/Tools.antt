-- ===== src/Tests/Tools.antt =====
-- A `cp`, an encoding of the boot's record and an address parser, for the tests.
use Prim.Native.Char.{Char, code}
use Prim.Native.Nat.{compare, Ordering}
use nanok8s.Base.{
  ℕ, String, ◌≡◌, ◌≢◌, refl, Bool, true, false, Option, none, some, [], ◌∷◌, ◌++◌, ◌==◌, ◌||◌,
  if◌then◌else◌,
}
use nanok8s.Os.FilePath.{FilePath, parent, parent-child}
use nanok8s.Os.Tree.{Node, get, alter, is_dir}
use nanok8s.Os.Tree.Laws.{get-alter_self}
use nanok8s.Os.World.{new_error, Result, ok, err, panic, M}
use nanok8s.Os.Calls.{syscall, spoiled}
use nanok8s.Os.Spec.Rules.{Triple-syscall, Either}
use nanok8s.Os.Spec.Steps.{Changed, Changed-refl, Changed-alter}
use nanok8s.Backup.Copying.{Cp, IsLawfulCp, Copies}
use nanok8s.State.{LastBoot, Json, IsLawfulJson}
use nanok8s.Api.Validate.{Net}

abbrev copied : Bool → FilePath → ℕ → Option Node → Node → Result (Unit {0}) × Node
copied false p now o t = (err (new_error "no such directory"), t)
copied true p now none t = (err (new_error "no such file"), t)
copied true p now (some n) t = (ok tt, alter (λ _. now) p (some n) t)

abbrev run_copy : FilePath → FilePath → M (Unit {0})
run_copy src dst =
    syscall (λ now t. copied (is_dir (parent dst) t) dst now (get src t) t) (spoiled dst)

abbrev pub plain_cp : Cp
plain_cp = record { run = λ flags. run_copy }

run_copy-Copies :
    (src d : FilePath) (x : String) → Copies (run_copy src (d ++ x ∷ [])) src (d ++ x ∷ [])
run_copy-Copies src d x t off gone =
    Triple-syscall (λ now u. copied (is_dir (parent p) u) p now (get src u) u) (spoiled p)
      (λ now u h. rw h (rw parent-child (tried now (get src t) (is_dir d t) refl refl)))
      (λ now f u h. rw h (Changed-alter (λ _. now) p f.leaves t))
  where
    p : FilePath
    p = d ++ x ∷ []

    tried :
        (now : ℕ) (o : Option Node) (b : Bool)
        → get src t ≡ o
        → is_dir d t ≡ b
        → Either
            (λ (a : Unit {0}) u. Changed p t u × (get p u ≡ get src t))
            (λ e u. Changed p t u)
            (copied b p now o t).0
            (copied b p now o t).1
    tried now o false h k = Changed-refl p t
    tried now none true h k = Changed-refl p t
    tried now (some n) true h k =
        (Changed-alter _ p _ t, rw h (get-alter_self (λ _. now) d x (some n) t k))

pub plain_cp-IsLawful : IsLawfulCp plain_cp
plain_cp-IsLawful = record { copies_tree = run_copy-Copies; copies_file = run_copy-Copies }

-- A text, its characters marked, before what follows
unfoldable pub encode : String → String → String
encode String.[] t = String.◌∷◌ "." t
encode (String.◌∷◌ c s) t = String.◌∷◌ "-" (String.◌∷◌ c (encode s t))

abbrev is_end : Char → Bool
is_end c = elim (compare (code c) 46) [ Ordering.eq ↦ true | _ ↦ false ]

abbrev prefixed : Char → Option (String × String) → Option (String × String)
prefixed c none = none
prefixed c (some (s, t)) = some (String.◌∷◌ c s, t)

unfoldable pub decode : String → Option (String × String)
decode String.[] = none
decode (String.◌∷◌ c String.[]) = if is_end c then some (String.[], String.[]) else none
decode (String.◌∷◌ c (String.◌∷◌ e s)) =
    let rest = decode s in if is_end c then some (String.[], String.◌∷◌ e s) else prefixed e rest

decode-encode : (s t : String) → decode (encode s t) ≡ some (s, t)
unfolding encode decode
decode-encode String.[] String.[] = refl
decode-encode String.[] (String.◌∷◌ c t) = refl
decode-encode (String.◌∷◌ c s) t = rw (decode-encode s t) refl

abbrev third : String → String → Option (String × String) → Result LastBoot
third v d none = err (new_error "no boot id")
third v d (some (b, rest)) = ok (record { version = v; deployment_id = d; boot_id = b })

abbrev second : String → Option (String × String) → Result LastBoot
second v none = err (new_error "no deployment id")
second v (some (d, rest)) = third v d (decode rest)

abbrev first : Option (String × String) → Result LastBoot
first none = err (new_error "no version")
first (some (v, rest)) = second v (decode rest)

abbrev pub plain_json : Json
plain_json = record {
  marshal = λ lb. encode lb.version (encode lb.deployment_id (encode lb.boot_id ""));
  unmarshal = λ s. first (decode s);
}

third_returns : (v d : String) (o : Option (String × String)) → third v d o ≢ panic
third_returns v d none = λ e. cc
third_returns v d (some p) = λ e. cc

second_returns : (v : String) (o : Option (String × String)) → second v o ≢ panic
second_returns v none = λ e. cc
second_returns v (some p) = third_returns v p.0 (decode p.1)

first_returns : (o : Option (String × String)) → first o ≢ panic
first_returns none = λ e. cc
first_returns (some p) = second_returns p.0 (decode p.1)

pub plain_json-IsLawful : IsLawfulJson plain_json
plain_json-IsLawful = record {
  unmarshal_returns = λ s. first_returns (decode s);
  unmarshal-marshal = λ lb.
      rw (decode-encode lb.version)
        (rw (decode-encode lb.deployment_id) (rw (decode-encode lb.boot_id) refl));
}

-- The addresses and subnets that are tested with
abbrev pub few_addresses : Net
few_addresses = record {
  is_ip = λ s. s == "0.0.0.0" || s == "10.96.0.10";
  is_cidr = λ s. s == "10.96.0.0/12" || s == "10.244.0.0/16";
}
