-- ===== src/Base/Text.antt =====
-- The functions of Go's `strings` package that the source calls, on texts of characters.
use Prim.Native.Nat.{ℕ, compare, Ordering}
use Prim.Native.Char.{Char, code}
use Prim.Native.String.{String, ◌++◌ as ◌<>◌}
use mathlib.Core.Path.{◌≡◌, refl, ap, ◌∙◌, sym}
use mathlib.Core.Logic.{◌≢◌, inl, inr}
use mathlib.Core.Bool.{Bool, true, false, ◌||◌, ◌&&◌}
use mathlib.Core.Option.{Option, none, some}
use text.Mathlib.Text.{◌==◌}
use text.Mathlib.TextEquality.{eq_iff, codes_equal}
use text.Mathlib.TextLemmas.{
  nil≢cons, append_cancel_left, append-nil, cons-append, nil-append, head-eq_of_cons-eq,
}
use package.nanok8s.Base.Tests.{if◌then◌else◌, leb, Bool-cases}

-- strings.HasSuffix
unfoldable pub has_suffix : String → String → Bool
has_suffix String.[] t = String.[] == t
has_suffix (String.◌∷◌ c s) t = String.◌∷◌ c s == t || has_suffix s t

abbrev is_underscore : Char → Bool
is_underscore c = elim (compare (code c) b'_') [ Ordering.eq ↦ true | _ ↦ false ]

abbrev extend : Char → Option (String × String) → Option (String × String)
extend c none = none
extend c (some (before, after)) = some (String.◌∷◌ c before, after)

-- strings.Cut(s, "_"): the text around the first separator
unfoldable pub cut : String → Option (String × String)
cut String.[] = none
cut (String.◌∷◌ c s) =
    let rest = cut s in if is_underscore c then some (String.[], s) else extend c rest

abbrev same : ℕ → ℕ → Bool
same m n = elim (compare m n) [ Ordering.eq ↦ true | _ ↦ false ]

-- unicode.IsSpace
abbrev is_space : Char → Bool
is_space c =
    let n = code c in
    (leb 9 n && leb n 13)
    || same n 32
    || same n 0x85
    || same n 0xA0
    || same n 0x1680
    || (leb 0x2000 n && leb n 0x200A)
    || same n 0x2028
    || same n 0x2029
    || same n 0x202F
    || same n 0x205F
    || same n 0x3000

unfoldable pub trim_left : String → String
trim_left String.[] = String.[]
trim_left (String.◌∷◌ c s) = let rest = trim_left s in if is_space c then rest else String.◌∷◌ c s

unfoldable pub trim_right : String → String
trim_right String.[] = String.[]
trim_right (String.◌∷◌ c s) =
    let rest = trim_right s in if is_space c && rest == "" then String.[] else String.◌∷◌ c rest

-- strings.TrimSpace
unfoldable pub trim_space : String → String
unfolding trim_left trim_right
trim_space s = trim_right (trim_left s)

-- Texts with different first characters differ.
pub heads_differ :
    (c e : Char) (l r s : String)
    → code c ≢ code e
    → ((String.◌∷◌ c l <> r) == String.◌∷◌ e s) ≡ false
heads_differ c e l r s h = elim (Bool-cases ((String.◌∷◌ c l <> r) == String.◌∷◌ e s)) [
  | inl p ↦ absurd (
      h (
        ap code (
          head-eq_of_cons-eq
            (sym (cons-append c l r) ∙ (eq_iff (String.◌∷◌ c l <> r) (String.◌∷◌ e s)).0 p))))
  | inr p ↦ p
]

trim_right-newline : (s : String) → trim_right (s <> "\n") ≡ trim_right s
unfolding trim_right
trim_right-newline String.[] = refl
trim_right-newline (String.◌∷◌ c s) = rw cons-append (rw (trim_right-newline s))

-- A line's end is no part of the trimmed text.
pub trim_space-newline : (s : String) → trim_space (s <> "\n") ≡ trim_space s
unfolding trim_space
trim_space-newline String.[] = refl
trim_space-newline (String.◌∷◌ c s) = rw cons-append (elim (Bool-cases (is_space c)) [
  | inl e ↦ rw e (trim_space-newline s)
  | inr e ↦ rw e (rw (trim_right-newline s))
])

-- A text with something behind it is another text.
pub suffixed_differs : (s : String) (c : Char) (t : String) → (s == s <> String.◌∷◌ c t) ≡ false
suffixed_differs s c t = elim (Bool-cases (s == s <> String.◌∷◌ c t)) [
  | inl p ↦ absurd (
      nil≢cons (
        append_cancel_left s String.[] (String.◌∷◌ c t)
          (append-nil s ∙ (eq_iff s (s <> String.◌∷◌ c t)).0 p)))
  | inr p ↦ p
]

underscore : (c : Char) → is_underscore c ≡ true → String.◌∷◌ c String.[] ≡ "_"
underscore c h =
    ap (λ (d : Char). String.◌∷◌ d String.[]) (codes_equal c "_" (equal (compare (code c) b'_') h))
  where
    equal : (o : Ordering) → elim o [ Ordering.eq ↦ true | _ ↦ false ] ≡ true → o ≡ Ordering.eq
    equal Ordering.lt e = absurd (cc e)
    equal Ordering.eq e = refl
    equal Ordering.gt e = absurd (cc e)

extended :
    (c : Char) (r : Option (String × String)) (a b : String)
    → extend c r ≡ some (a, b)
    → (p : String) × ((r ≡ some (p, b)) × (a ≡ String.◌∷◌ c p))
extended c none a b h = absurd (cc h)
extended c (some (p, q)) a b h =
    let e : String.◌∷◌ c p ≡ a = cc h in
    let k : q ≡ b = cc h in (p, (ap (λ (z : String). some (p, z)) k, sym e))

cut_yes :
    (c : Char) (s : String) → is_underscore c ≡ true → cut (String.◌∷◌ c s) ≡ some (String.[], s)
unfolding cut
cut_yes c s y = rw y refl

cut_no : (c : Char) (s : String) → is_underscore c ≡ false → cut (String.◌∷◌ c s) ≡ extend c (cut s)
unfolding cut
cut_no c s n = rw n refl

-- What strings.Cut finds lies around a separator.
pub cut_around : (s a b : String) → cut s ≡ some (a, b) → s ≡ a <> "_" <> b
unfolding cut
cut_around String.[] a b h = absurd (cc h)
cut_around (String.◌∷◌ c s) a b h = elim (Bool-cases (is_underscore c)) [
  | inl y ↦
      let q : ◌≡◌ {A = Option (String × String)} (some (String.[], s)) (some (a, b)) =
        sym (cut_yes c s y) ∙ h in
      let ea : String.[] ≡ a = cc q in
      let eb : s ≡ b = cc q in
      ap (String.◌∷◌ c) (sym (nil-append s))
      ∙ sym (cons-append c String.[] s)
      ∙ ap (λ (z : String). z <> s) (underscore c y)
      ∙ ap (λ (z : String). "_" <> z) eb
      ∙ sym (nil-append ("_" <> b))
      ∙ ap (λ (z : String). z <> "_" <> b) ea
  | inr n ↦
      let (p, (e, k)) = extended c (cut s) a b (sym (cut_no c s n) ∙ h) in
      ap (String.◌∷◌ c) (cut_around s p b e)
      ∙ sym (cons-append c p ("_" <> b))
      ∙ ap (λ (z : String). z <> "_" <> b) (sym k)
]

extend-none : (c : Char) (r : Option (String × String)) → extend c r ≡ none → r ≡ none
extend-none c none h = refl
extend-none c (some (p, q)) h = absurd (cc h)

-- A text without a separator, one, and any text: it is cut there.
pub cut-append : (a b : String) → cut a ≡ none → cut (a <> "_" <> b) ≡ some (a, b)
cut-append String.[] b h =
    ap cut
      (nil-append ("_" <> b) ∙ cons-append "_" String.[] b ∙ ap (String.◌∷◌ "_") (nil-append b))
    ∙ cut_yes "_" b refl
cut-append (String.◌∷◌ c a) b h = elim (Bool-cases (is_underscore c)) [
  | inl y ↦ absurd (cc (sym (cut_yes c a y) ∙ h))
  | inr n ↦
      ap cut (cons-append c a ("_" <> b))
      ∙ cut_no c (a <> "_" <> b) n
      ∙ ap (extend c) (cut-append a b (extend-none c (cut a) (sym (cut_no c a n) ∙ h)))
]

extend_kept :
    (c : Char) (o : Option (String × String)) (r : String × String)
    → o ≡ some r
    → (q : String × String) × (extend c o ≡ some q)
extend_kept c none r h = absurd (cc h)
extend_kept c (some (p, q)) r h = ((String.◌∷◌ c p, q), refl)

-- A text with a separator is cut somewhere.
pub cut_found : (a b : String) → (r : String × String) × (cut (a <> "_" <> b) ≡ some r)
cut_found String.[] b = ((String.[], b), cut-append String.[] b (unfold cut in refl))
cut_found (String.◌∷◌ c a) b = elim (Bool-cases (is_underscore c)) [
  | inl y ↦ (_, ap cut (cons-append c a ("_" <> b)) ∙ cut_yes c (a <> "_" <> b) y)
  | inr n ↦
      let (r, e) = cut_found a b in
      let (q, k) = extend_kept c (cut (a <> "_" <> b)) r e in
      (q, ap cut (cons-append c a ("_" <> b)) ∙ cut_no c (a <> "_" <> b) n ∙ k)
]

or_right : (x : Bool) → (x || true) ≡ true
or_right true = refl
or_right false = refl

or_cases : (x y : Bool) → x ≡ false → (x || y) ≡ true → y ≡ true
or_cases true y n h = absurd (cc n)
or_cases false y n h = h

own_suffix : (t : String) → has_suffix t t ≡ true
unfolding has_suffix
own_suffix String.[] = refl
own_suffix (String.◌∷◌ c t) = rw ((eq_iff (String.◌∷◌ c t) (String.◌∷◌ c t)).1 refl) refl

has_suffix_later :
    (c : Char) (s t : String) → has_suffix s t ≡ true → has_suffix (String.◌∷◌ c s) t ≡ true
unfolding has_suffix
has_suffix_later c s t h = rw h (or_right (String.◌∷◌ c s == t))

pub has_suffix-append : (s t : String) → has_suffix (s <> t) t ≡ true
has_suffix-append String.[] t = ap (λ (z : String). has_suffix z t) (nil-append t) ∙ own_suffix t
has_suffix-append (String.◌∷◌ c s) t =
    ap (λ (z : String). has_suffix z t) (cons-append c s t)
    ∙ has_suffix_later c (s <> t) t (has_suffix-append s t)

pub has_suffix_split : (s t : String) → has_suffix s t ≡ true → (r : String) × (s ≡ r <> t)
unfolding has_suffix
has_suffix_split String.[] t h = (String.[], (eq_iff String.[] t).0 h ∙ sym (nil-append t))
has_suffix_split (String.◌∷◌ c s) t h = elim (Bool-cases (String.◌∷◌ c s == t)) [
  | inl y ↦ (String.[], (eq_iff (String.◌∷◌ c s) t).0 y ∙ sym (nil-append t))
  | inr n ↦
      let (r, e) = has_suffix_split s t (or_cases (String.◌∷◌ c s == t) (has_suffix s t) n h) in
      (String.◌∷◌ c r, ap (String.◌∷◌ c) e ∙ sym (cons-append c r t))
]
