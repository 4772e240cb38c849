-- ===== src/Base/Lines.antt =====
-- The functions of Go's `strings`, `strconv` and `sort` packages that the commands call.
use Prim.Native.Nat.{ℕ, zero, suc, ◌-◌, ◌/◌, ◌%◌, compare, Ordering}
use Prim.Native.Char.{Char, code}
use Prim.Native.String.{String, ◌++◌ as ◌<>◌, slice, char_at}
use mathlib.Core.Bool.{Bool, true, false, ◌&&◌}
use mathlib.Core.List.{List, [], ◌∷◌}
use package.nanok8s.Base.Tests.{if◌then◌else◌, ltb, leb}

abbrev is_char : Char → Char → Bool
is_char c d = elim (compare (code c) (code d)) [ Ordering.eq ↦ true | _ ↦ false ]

-- A character before the first of the pieces
abbrev grown : Char → List String → List String
grown c [] = String.◌∷◌ c String.[] ∷ []
grown c (p ∷ ps) = String.◌∷◌ c p ∷ ps

-- strings.Split with a separator of one character
unfoldable pub split : Char → String → List String
split d String.[] = String.[] ∷ []
split d (String.◌∷◌ c s) =
    let rest = split d s in if is_char c d then String.[] ∷ rest else grown c rest

-- strings.Join
unfoldable pub join : String → List String → String
join sep [] = ""
join sep (s ∷ []) = s
join sep (s ∷ t ∷ ss) = s <> sep <> join sep (t ∷ ss)

abbrev digits : ℕ → ℕ → String → String
digits zero n s = s
digits (suc fuel) n s =
    let t = slice "0123456789" (n % 10) (suc (n % 10)) <> s in
    let rest = digits fuel (n / 10) t in if ltb n 10 then t else rest

-- `%d` of a natural number, which has no more digits than it counts
unfoldable pub decimal : ℕ → String
decimal n = digits (suc n) n ""

-- unicode.ToLower, whose table beyond ASCII is a parameter
unfoldable pub lower : (Char → Char) → Char → Char
lower table c =
    let n = code c in
    if leb n 127
    then (if leb 65 n && leb n 90 then char_at "abcdefghijklmnopqrstuvwxyz" (n - 65) else c)
    else table c

-- strings.ToLower
unfoldable pub to_lower : (Char → Char) → String → String
unfolding lower
to_lower table String.[] = String.[]
to_lower table (String.◌∷◌ c s) = String.◌∷◌ (lower table c) (to_lower table s)
