-- ===== src/Os/FilePath.antt =====
-- Absolute paths as lists of components. `filepath.Join(p, x)` is `p ++ x ∷ []`: the names that the
-- source joins are single components.
use nanok8s.Base.{
  String, ◌<>◌, ◌≡◌, ◌∙◌, refl, Bool, true, false, ◌&&◌, List, [], ◌∷◌, ◌++◌, arith, ◌==◌, eq_iff,
  eq_refl, if◌then◌else◌,
}

abbrev pub FilePath : Type 0
FilePath = List String

-- `under p q`: q is p, or lies below it.
unfoldable pub under : FilePath → FilePath → Bool
under [] q = true
under (x ∷ p) [] = false
under (x ∷ p) (y ∷ q) = x == y && under p q

-- Neither of two paths lies at or below the other.
unfoldable pub apart : FilePath → FilePath → Bool
apart [] q = false
apart (x ∷ p) [] = false
apart (x ∷ p) (y ∷ q) = if x == y then apart p q else true

-- filepath.Dir
unfoldable pub parent : FilePath → FilePath
parent [] = []
parent (x ∷ []) = []
parent (x ∷ y ∷ p) = x ∷ parent (y ∷ p)

pub apart_sym : (p q : FilePath) → apart p q ≡ apart q p
unfolding apart
apart_sym [] [] = refl
apart_sym [] (y ∷ q) = refl
apart_sym (x ∷ p) [] = refl
apart_sym (x ∷ p) (y ∷ q) = ground (arith, eq_iff x y, eq_iff y x, apart_sym p q)

-- Paths below one of two that are apart are apart from the other.
pub apart-append : (p q r : FilePath) → apart p q ≡ true → apart p (q ++ r) ≡ true
unfolding apart
apart-append [] q r h = cc
apart-append (x ∷ p) [] r h = cc
apart-append (x ∷ p) (y ∷ q) r h = ground (arith, apart-append p q r)

pub apart-append_left : (p q r : FilePath) → apart (r ++ p) (r ++ q) ≡ apart p q
unfolding apart
apart-append_left p q [] = refl
apart-append_left p q (x ∷ r) = rw (eq_refl x) (apart-append_left p q r)

pub apart-child :
    (p : FilePath) (x y : String) → (x == y) ≡ false → apart (p ++ x ∷ []) (p ++ y ∷ []) ≡ true
unfolding apart
apart-child [] x y h = rw h
apart-child (z ∷ p) x y h = rw (eq_refl z) (apart-child p x y h)

pub under-of-apart : (p q : FilePath) → apart p q ≡ true → under p q ≡ false
unfolding apart under
under-of-apart [] q h = cc
under-of-apart (x ∷ p) [] h = refl
under-of-apart (x ∷ p) (y ∷ q) h = ground (arith, under-of-apart p q)

pub under-append : (p r : FilePath) → under p (p ++ r) ≡ true
unfolding under
under-append [] r = refl
under-append (x ∷ p) r = rw (eq_refl x) (under-append p r)

-- Nothing lies above its own parent directory.
pub under-child : (p r : FilePath) (x : String) → under (p ++ x ∷ r) p ≡ false
unfolding under
under-child [] r x = refl
under-child (y ∷ p) r x = rw (eq_refl y) (under-child p r x)

pub parent-child : (p : FilePath) (x : String) → parent (p ++ x ∷ []) ≡ p
unfolding parent
parent-child [] x = refl
parent-child (y ∷ []) x = refl
parent-child (y ∷ z ∷ p) x = rw (parent-child (z ∷ p) x)

-- `path + suffix`, on the text of a path
unfoldable pub with_suffix : String → FilePath → FilePath
with_suffix s [] = []
with_suffix s (x ∷ []) = (x <> s) ∷ []
with_suffix s (x ∷ y ∷ p) = x ∷ with_suffix s (y ∷ p)

pub with_suffix-child :
    (s : String) (p : FilePath) (x : String) → with_suffix s (p ++ x ∷ []) ≡ p ++ (x <> s) ∷ []
unfolding with_suffix
with_suffix-child s [] x = refl
with_suffix-child s (y ∷ []) x = refl
with_suffix-child s (y ∷ z ∷ p) x = rw (with_suffix-child s (z ∷ p) x)

-- The text of a path
unfoldable pub show : FilePath → String
show [] = ""
show (x ∷ p) = "/" <> x <> show p

-- What is apart from a directory's entry lies neither at the directory nor above it.
pub under-of-apart_child :
    (d : FilePath) (x : String) (q : FilePath) → apart (d ++ x ∷ []) q ≡ true → under q d ≡ false
unfolding apart under
under-of-apart_child [] x [] h = cc
under-of-apart_child [] x (y ∷ q) h = refl
under-of-apart_child (z ∷ d) x [] h = cc
under-of-apart_child (z ∷ d) x (y ∷ q) h =
    ground (arith, eq_iff z y, eq_iff y z, under-of-apart_child d x q)

pub under-append_left : (p q r : FilePath) → under (r ++ p) (r ++ q) ≡ under p q
unfolding under
under-append_left p q [] = refl
under-append_left p q (x ∷ r) = rw (eq_refl x) (under-append_left p q r)

pub apart-append_below : (p q r : FilePath) → apart p q ≡ true → apart (p ++ r) q ≡ true
apart-append_below p q r h = apart_sym (p ++ r) q ∙ apart-append q p r (apart_sym q p ∙ h)
