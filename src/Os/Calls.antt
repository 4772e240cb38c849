-- ===== src/Os/Calls.antt =====
-- The system calls of package os that the source makes, over the file tree.
use Prim.Native.String.{compare}
use Prim.Native.Nat.{Ordering}
use nanok8s.Base.{
  ℕ, zero, suc, String, ◌<>◌, Bool, true, false, Option, none, some, List, [], ◌∷◌, ◌++◌, ◌&&◌,
  if◌then◌else◌,
}
use nanok8s.Os.FilePath.{FilePath, apart, parent}
use nanok8s.Os.Tree.{
  Node, file, dir, Entries, nil, cons, get, alter, is_dir, is_dir_node, make_dirs,
}
use nanok8s.Os.World.{
  Error, new_error, Result, ok, err, Fault, World, M, pure, throw, crash, panic, ◌>>=◌, ◌>>◌,
  attempt,
}

module _ {A : Type 0} (act : ℕ → Node → Result A × Node) (spoil : ℕ → Fault → Node → Node) where
  abbrev run : List (Option Fault) → World → Result A × World
  run faults w = let (r, t) = act w.now w.fs in (r, record w { fs = t; faults = faults })

  abbrev pub perform : List (Option Fault) → World → Result A × World
  perform [] w = run [] w
  perform (none ∷ faults) w = run faults w
  perform (some f ∷ faults) w =
      (err (new_error f.text), record w { fs = spoil w.now f w.fs; faults = faults })

  -- One call: it works, or fails as the world has it.
  unfoldable pub syscall : M A
  syscall w = perform w.faults w

abbrev pub missing : Error
missing = record { not_exist = true; text = "file does not exist" }

-- A failing call that only reads.
abbrev pub unspoiled : ℕ → Fault → Node → Node
unspoiled now f t = t

-- A failing call that writes at a path leaves anything there.
abbrev pub spoiled : FilePath → ℕ → Fault → Node → Node
spoiled p now f t = alter (λ _. now) p f.leaves t

abbrev pub found : Option Node → Result Node
found none = err missing
found (some n) = ok n

unfoldable pub stat : FilePath → M Node
unfolding syscall
stat p = syscall (λ now t. (found (get p t), t)) unspoiled

abbrev pub content : Option Node → Result String
content none = err missing
content (some (file s)) = ok s
content (some (dir m es)) = err (new_error "is a directory")

unfoldable pub read_file : FilePath → M String
unfolding syscall
read_file p = syscall (λ now t. (content (get p t), t)) unspoiled

abbrev pub listing : Entries → List (String × Bool)
listing nil = []
listing (cons x n es) = (x, is_dir_node (some n)) ∷ listing es

-- The order of os.ReadDir: by name
abbrev pub before : String → String → Bool
before x y = elim (compare x y) [ Ordering.gt ↦ false | _ ↦ true ]

abbrev pub insert_entry : String × Bool → List (String × Bool) → List (String × Bool)
insert_entry e [] = e ∷ []
insert_entry e (f ∷ es) =
    let rest = insert_entry e es in if before e.0 f.0 then e ∷ f ∷ es else f ∷ rest

abbrev pub sort_entries : List (String × Bool) → List (String × Bool)
sort_entries [] = []
sort_entries (e ∷ es) = insert_entry e (sort_entries es)

-- The entries' names, with whether each is a directory.
abbrev pub entries_of : Option Node → Result (List (String × Bool))
entries_of none = err missing
entries_of (some (file s)) = err (new_error "not a directory")
entries_of (some (dir m es)) = ok (sort_entries (listing es))

unfoldable pub read_dir : FilePath → M (List (String × Bool))
unfolding syscall is_dir_node
read_dir p = syscall (λ now t. (entries_of (get p t), t)) unspoiled

abbrev pub take : ℕ → FilePath → FilePath
take zero p = []
take (suc n) [] = []
take (suc n) (x ∷ p) = x ∷ take n p

abbrev pub mkdir_all_act : FilePath → ℕ → Node → Result (Unit {0}) × Node
mkdir_all_act p now t =
    let u = make_dirs now p t in
    (if is_dir p u then ok tt else err (new_error "not a directory"), u)

unfoldable pub mkdir_all : FilePath → M (Unit {0})
unfolding syscall
mkdir_all p = syscall (mkdir_all_act p) (λ now f t. make_dirs now (take f.depth p) t)

abbrev pub remove_all_act : FilePath → ℕ → Option Node → Node → Node
remove_all_act p now none t = t
remove_all_act p now (some n) t = alter (λ _. now) p none t

unfoldable pub remove_all : FilePath → M (Unit {0})
unfolding syscall
remove_all p = syscall (λ now t. (ok tt, remove_all_act p now (get p t) t)) (spoiled p)

abbrev pub remove_act : FilePath → ℕ → Option Node → Node → Result (Unit {0}) × Node
remove_act p now none t = (err missing, t)
remove_act p now (some (dir m (cons x n es))) t = (err (new_error "directory not empty"), t)
remove_act p now (some n) t = (ok tt, alter (λ _. now) p none t)

-- os.Remove. A file or an empty directory goes as a whole, or the call fails and it stays.
unfoldable pub remove : FilePath → M (Unit {0})
unfolding syscall
remove p = syscall (λ now t. remove_act p now (get p t) t) unspoiled

-- What rename(2) allows to stand at the new name.
abbrev pub replaceable : Node → Option Node → Bool
replaceable n none = true
replaceable (file s) (some (file s')) = true
replaceable (dir m es) (some (dir m' nil)) = true
replaceable _ _ = false

abbrev pub moved : Bool → FilePath → FilePath → ℕ → Node → Node → Result (Unit {0}) × Node
moved false p q now n t = (err (new_error "cannot rename"), t)
moved true p q now n t = (ok tt, alter (λ _. now) q (some n) (alter (λ _. now) p none t))

abbrev pub rename_act : FilePath → FilePath → ℕ → Option Node → Node → Result (Unit {0}) × Node
rename_act p q now none t = (err missing, t)
rename_act p q now (some n) t =
    moved (apart p q && (is_dir (parent q) t && replaceable n (get q t))) p q now n t

-- os.Rename is atomic: a call that fails changes nothing.
unfoldable pub rename : FilePath → FilePath → M (Unit {0})
unfolding syscall
rename p q = syscall (λ now t. rename_act p q now (get p t) t) unspoiled

-- A new file is a change of its directory; new bytes in an old one are not.
abbrev pub write_stamp : Option Node → ℕ → ℕ → ℕ
write_stamp none now m = now
write_stamp (some n) now m = m

abbrev pub written : Bool → FilePath → String → ℕ → Option Node → Node → Result (Unit {0}) × Node
written false p s now o t = (err missing, t)
written true p s now (some (dir m es)) t = (err (new_error "is a directory"), t)
written true p s now o t = (ok tt, alter (write_stamp o now) p (some (file s)) t)

unfoldable pub write_file : FilePath → String → M (Unit {0})
unfolding syscall
write_file p s = syscall (λ now t. written (is_dir (parent p) t) p s now (get p t) t) (spoiled p)

-- os.CreateTemp creates a file that was not there.
abbrev pub created : Bool → FilePath → ℕ → Option Node → Node → Result (Unit {0}) × Node
created false p now o t = (err missing, t)
created true p now none t = (ok tt, alter (λ _. now) p (some (file "")) t)
created true p now (some n) t = (err (new_error "file exists"), t)

unfoldable pub random_name : M String
random_name w = (ok w.random, w)

unfoldable pub create : FilePath → M (Unit {0})
unfolding syscall
create p = syscall (λ now t. created (is_dir (parent p) t) p now (get p t) t) (spoiled p)

unfoldable pub create_temp : FilePath → String → M FilePath
unfolding ◌>>=◌ pure random_name create
create_temp d prefix = do name ← random_name; let p = d ++ (prefix <> name) ∷ []; create p; pure p

-- `f.Sync`, `f.Close`: these can fail, and change nothing that is read back.
unfoldable pub flush : M (Unit {0})
unfolding syscall
flush = syscall (λ now t. (ok tt, t)) unspoiled

-- `_, err := os.Stat(p)`, with os.ErrNotExist as the answer no
unfoldable pub exists_from : Result Node → M Bool
unfolding pure throw crash
exists_from (ok n) = pure true
exists_from (err e) = if e.not_exist then pure false else throw e
exists_from panic = crash

unfoldable pub probe : FilePath → M Bool
unfolding exists_from stat attempt ◌>>=◌
probe p = do r ← attempt (stat p); exists_from r
