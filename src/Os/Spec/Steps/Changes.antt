-- ===== src/Os/Spec/Steps/Changes.antt =====
-- What a call changes of the file tree.
use nanok8s.Base.{
  ℕ, zero, suc, String, ◌≡◌, refl, ◌∙◌, true, false, Option, none, [], ◌∷◌, ◌++◌, arith,
}
use nanok8s.Os.FilePath.{FilePath, under, apart}
use nanok8s.Os.Tree.{Node, get, alter, is_dir}
use nanok8s.Os.Tree.Laws.{get-alter-apart, get-alter-none, is_dir-alter_above}
use nanok8s.Os.Calls.{take}

-- Nothing changes but at a path and below it, and the directories above it remain.
pub record Changed (p : FilePath) (t u : Node) : Type 0 where
  pub apart_same : (q : FilePath) → apart p q ≡ true → get q u ≡ get q t
  pub above_same : (q r : FilePath) (x : String) → q ++ x ∷ r ≡ p → is_dir q u ≡ is_dir q t

pub Changed-refl : (p : FilePath) (t : Node) → Changed p t t
Changed-refl p t = record { apart_same = λ q h. refl; above_same = λ q r x e. refl }

pub Changed-trans : {p : FilePath} {t u v : Node} → Changed p t u → Changed p u v → Changed p t v
Changed-trans c d = record {
  apart_same = λ q h. d.apart_same q h ∙ c.apart_same q h;
  above_same = λ q r x e. d.above_same q r x e ∙ c.above_same q r x e;
}

pub Changed-alter :
    (f : ℕ → ℕ) (p : FilePath) (v : Option Node) (t : Node) → Changed p t (alter f p v t)
Changed-alter f p v t = record {
  apart_same = λ q h. get-alter-apart f p q v t h;
  above_same = λ q r x e. rw (← e) (is_dir-alter_above f q r x v t);
}

pub under-take : (n : ℕ) (p q : FilePath) → under q p ≡ false → under q (take n p) ≡ false
unfolding under
under-take n p [] h = cc
under-take zero p (y ∷ q) h = refl
under-take (suc n) [] (y ∷ q) h = refl
under-take (suc n) (x ∷ p) (y ∷ q) h = ground (arith, under-take n p q)

pub get-alter_gone :
    (f : ℕ → ℕ) (d : FilePath) (x : String) (t : Node)
    → get (d ++ x ∷ []) (alter f (d ++ x ∷ []) none t) ≡ none
get-alter_gone f [] x t = get-alter-none f [] x t
get-alter_gone f (y ∷ d) x t = get-alter-none f (d ++ x ∷ []) y t
