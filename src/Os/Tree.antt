-- ===== src/Os/Tree.antt =====
-- The file tree: a file with its bytes, or a directory with its modification time and entries.
pub mod Laws
use nanok8s.Base.{
  ℕ, String, Bool, true, false, Option, none, some, List, [], ◌∷◌, ◌==◌, if◌then◌else◌, bind,
  or_else,
}
use nanok8s.Os.FilePath.{FilePath}
use mathlib.Core.Option

mutual
  pub data Node : Type 0 where
    file : String → Node
    dir : ℕ → Entries → Node

  pub data Entries : Type 0 where
    nil : Entries
    cons : String → Node → Entries → Entries

unfoldable pub find : String → Entries → Option Node
find x nil = none
find x (cons y n es) = if x == y then some n else find x es

unfoldable pub set : String → Node → Entries → Entries
set x n nil = cons x n nil
set x n (cons y m es) = let rest = set x n es in if x == y then cons x n es else cons y m rest

-- A directory has one entry of a name. All of it go, so that the law needs no such hypothesis.
unfoldable pub delete : String → Entries → Entries
delete x nil = nil
delete x (cons y m es) = let rest = delete x es in if x == y then rest else cons y m rest

unfoldable pub update : String → Option Node → Entries → Entries
unfolding set delete
update x none es = delete x es
update x (some n) es = set x n es

-- The entry of a name, if there is one, goes through a function.
unfoldable pub store : String → (Node → Node) → Option Node → Entries → Entries
unfolding set
store x f none es = es
store x f (some n) es = set x (f n) es

unfoldable pub change : String → (Node → Node) → Entries → Entries
unfolding store find
change x f es = store x f (find x es) es

-- What stands at a path.
unfoldable pub get : FilePath → Node → Option Node
get [] n = some n
get (x ∷ p) (file s) = none
get (x ∷ p) (dir m es) = bind (find x es) (get p)

-- The tree with another thing, or nothing, at a path. Where the parent is no directory, nothing
-- happens. The parent's modification time goes through `stamp`.
unfoldable pub alter : (ℕ → ℕ) → FilePath → Option Node → Node → Node
alter stamp [] none t = t
alter stamp [] (some n) t = n
alter stamp (x ∷ p) v (file s) = file s
alter stamp (x ∷ []) v (dir m es) = dir (stamp m) (update x v es)
alter stamp (x ∷ y ∷ p) v (dir m es) = dir m (change x (alter stamp (y ∷ p) v) es)

unfoldable pub is_dir_node : Option Node → Bool
is_dir_node (some (dir m es)) = true
is_dir_node _ = false

unfoldable pub is_dir : FilePath → Node → Bool
unfolding is_dir_node get
is_dir p t = is_dir_node (get p t)

unfoldable pub fresh_dirs : ℕ → FilePath → Node
fresh_dirs now [] = dir now nil
fresh_dirs now (x ∷ p) = dir now (cons x (fresh_dirs now p) nil)

-- The tree after os.MkdirAll. Where a component is a file, it is left alone.
unfoldable pub make_dirs : ℕ → FilePath → Node → Node
unfolding fresh_dirs set find
make_dirs now [] t = t
make_dirs now (x ∷ p) (file s) = file s
make_dirs now (x ∷ p) (dir m es) =
    let old = find x es in
    let made = or_else (Option.map (make_dirs now p) old) (fresh_dirs now p) in
    dir (or_else (Option.map (λ _. m) old) now) (set x made es)
