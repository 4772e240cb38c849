-- ===== src/Backup/Facts.antt =====
-- What stands at some paths below a directory, and how it lasts.
use nanok8s.Base.{
  ◌≡◌, ◌∙◌, sym, ap, Bool, true, false, Option, List, [], ◌∷◌, ◌++◌, ◌&&◌, not, arith, bind,
}
use nanok8s.Os.FilePath.{FilePath, under, apart, apart-append_left, under-append_left}
use nanok8s.Os.Tree.{Node, get}
use nanok8s.Os.Tree.Laws.{get-append}
use nanok8s.Os.Spec.Steps.{Changed}

abbrev pub Facts : Type 0
Facts = List (FilePath × Option Node)

-- The facts hold of the tree at `d`.
abbrev pub Holds : FilePath → Facts → Node → Type 0
Holds d [] u = Unit
Holds d ((r, v) ∷ fs) u = (get (d ++ r) u ≡ v) × Holds d fs u

-- A path is apart from all that the facts speak of.
unfoldable pub is_clear : FilePath → Facts → Bool
is_clear r [] = true
is_clear r ((q, v) ∷ fs) = apart r q && is_clear r fs

-- Nothing that the facts speak of lies at a path or above it.
unfoldable pub is_below : FilePath → Facts → Bool
is_below r [] = true
is_below r ((q, v) ∷ fs) = not (under q r) && is_below r fs

pub Holds-Changed :
    (d r : FilePath) (fs : Facts) (t u : Node)
    → is_clear r fs ≡ true
    → Changed (d ++ r) t u
    → Holds d fs t
    → Holds d fs u
unfolding is_clear
Holds-Changed d r [] t u c k h = tt
Holds-Changed d r ((q, v) ∷ fs) t u c k h = (
  k.apart_same (d ++ q) (apart-append_left r q d ∙ ground arith) ∙ h.0,
  Holds-Changed d r fs t u (ground arith) k h.1,
)

pub Holds-dirs :
    (d r : FilePath) (fs : Facts) (t u : Node)
    → is_below r fs ≡ true
    → ((q : FilePath) → under q (d ++ r) ≡ false → get q u ≡ get q t)
    → Holds d fs t
    → Holds d fs u
unfolding is_below
Holds-dirs d r [] t u c k h = tt
Holds-dirs d r ((q, v) ∷ fs) t u c k h = (
  k (d ++ q) (under-append_left q r d ∙ ground arith) ∙ h.0,
  Holds-dirs d r fs t u (ground arith) k h.1,
)

-- The facts of a directory that is moved as a whole
pub Holds-moved :
    (d e : FilePath) (fs : Facts) (t u : Node) → get e u ≡ get d t → Holds d fs t → Holds e fs u
Holds-moved d e [] t u m h = tt
Holds-moved d e ((r, v) ∷ fs) t u m h = (
  get-append e r u ∙ ap (λ (o : Option Node). bind o (get r)) m ∙ sym (get-append d r t) ∙ h.0,
  Holds-moved d e fs t u m h.1,
)

pub Holds-rotate :
    (d r : FilePath) (v : Option Node) (fs : Facts) (t : Node)
    → Holds d ((r, v) ∷ fs) t
    → Holds d (fs ++ (r, v) ∷ []) t
Holds-rotate d r v [] t h = h
Holds-rotate d r v ((q, w) ∷ fs) t h = (h.1.0, Holds-rotate d r v fs t (h.0, h.1.1))
