-- ===== src/Backup/Copying.antt =====
-- The program `cp`, as the source runs it.
use nanok8s.Base.{String, ◌≡◌, true, none, List, [], ◌∷◌, ◌++◌}
use nanok8s.Os.FilePath.{FilePath, apart}
use nanok8s.Os.Tree.{Node, get}
use nanok8s.Os.World.{M}
use nanok8s.Os.Spec.{Triple}
use nanok8s.Os.Spec.Steps.{Changed}

abbrev pub tree_flags : List String
tree_flags =
    "--recursive" ∷ "--no-target-directory" ∷ "--preserve=mode,ownership,timestamps,links"
    ∷ "--reflink=auto" ∷ []

abbrev pub file_flags : List String
file_flags = "--preserve=mode,ownership,timestamps,links" ∷ "--reflink=auto" ∷ []

-- `cp FLAGS SRC DST`: an exit status other than 0 is an error.
pub record Cp : Type 0 where
  pub run : List String → FilePath → FilePath → M (Unit {0})

-- What cp documents of a destination that does not exist: it writes there and nowhere else, and
-- when it succeeds the destination has the source's contents, kinds and times.
abbrev pub Copies : M (Unit {0}) → FilePath → FilePath → Type 0
Copies m src dst =
    (t : Node)
    → apart src dst ≡ true
    → get dst t ≡ none
    → Triple (λ u. u ≡ t) m (λ a u. Changed dst t u × (get dst u ≡ get src t))
        (λ e u. Changed dst t u)

pub record IsLawfulCp (cp : Cp) : Type 0 where
  pub copies_tree :
      (src d : FilePath) (x : String)
      → Copies (cp.run tree_flags src (d ++ x ∷ [])) src (d ++ x ∷ [])
  pub copies_file :
      (src d : FilePath) (x : String)
      → Copies (cp.run file_flags src (d ++ x ∷ [])) src (d ++ x ∷ [])
