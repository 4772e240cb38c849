-- ===== src/Backup/Listing.antt =====
-- internal/backup/backup.go: which backups there are, which one a restoration takes, which ones are
-- pruned, and the restore marker. sort.Slice is an insertion sort, as Go's is up to twelve elements.
pub mod Laws
pub mod Newest
pub mod Marker
pub mod Reads
pub mod Latest
pub mod Sorting
pub mod Grouping
pub mod Pruned
pub mod Spared
pub mod Membership
pub mod Removed
pub mod Pruning
use nanok8s.Base.{
  ℕ, String, ◌<>◌, Bool, true, false, not, ◌&&◌, ◌||◌, Option, none, some, List, [], ◌∷◌, ◌++◌,
  ◌==◌, if◌then◌else◌, ltb, starts_with, or_else,
}
use nanok8s.Base.Text.{has_suffix, cut}
use nanok8s.Os.Tree.{Node, file, dir}
use nanok8s.Os.World.{
  Error, wrap, Result, ok, err, panic, M, pure, throw, crash, ◌>>=◌, ◌>>◌, wrapped, attempt,
  for_each,
}
use nanok8s.Os.Calls.{stat, probe, read_file, read_dir, remove_all}
use nanok8s.Paths.{backups_dir, restore_marker}
use nanok8s.State.{LastBoot, Json}
use nanok8s.Backup.{meta_file_name, backup_path, remove_if_there}

unfoldable pub parsed : String → Result LastBoot → M LastBoot
parsed n (ok meta) = pure meta
parsed n (err e) = throw (wrap ("parse " <> n <> " meta") e)
parsed n panic = crash

unfoldable pub read_meta : Json → String → M LastBoot
unfolding parsed
read_meta json n = do
  s ← wrapped ("read " <> n <> " meta") (read_file (backup_path n ++ meta_file_name ∷ []))
  parsed n (json.unmarshal s)

unfoldable pub has_separator : Option (String × String) → Bool
has_separator none = false
has_separator (some r) = true

-- The three tests on a directory's name
unfoldable pub is_backup_name : String → Bool
unfolding has_suffix cut has_separator
is_backup_name n = not (has_suffix n ".tmp" || has_suffix n ".restoring") && has_separator (cut n)

-- The loop over the entries
unfoldable pub backups_of : List (String × Bool) → List String
unfolding is_backup_name
backups_of [] = []
backups_of ((n, is_directory) ∷ es) =
    let rest = backups_of es in if is_directory && is_backup_name n then n ∷ rest else rest

unfoldable pub names_from : Result (List (String × Bool)) → M (List String)
unfolding backups_of
names_from (ok es) = pure (backups_of es)
names_from (err e) = if e.not_exist then pure [] else throw e
names_from panic = crash

unfoldable pub list : M (List String)
unfolding names_from
list = do r ← attempt (read_dir backups_dir); names_from r

-- info.ModTime() of a directory. Of a file, which `list` does not return, it is not modelled.
abbrev pub mod_time : Node → ℕ
mod_time (file s) = 0
mod_time (dir m es) = m

-- A backup with its modification time
abbrev pub Stamped : Type 0
Stamped = String × ℕ

unfoldable pub candidates : String → List String → M (List Stamped)
candidates prefix [] = pure []
candidates prefix (n ∷ ns) =
    let rest = candidates prefix ns in
    if starts_with n prefix
    then (do info ← stat (backup_path n); cs ← rest; pure ((n, mod_time info) ∷ cs))
    else rest

-- The inner loop of the insertion sort: `c` moves left past those that are older. The sorted part
-- is kept from its end.
unfoldable pub insert_stamped : Stamped → List Stamped → List Stamped
insert_stamped c [] = c ∷ []
insert_stamped c (d ∷ ds) =
    let rest = insert_stamped c ds in if ltb d.1 c.1 then d ∷ rest else c ∷ d ∷ ds

unfoldable pub sort_stamped : List Stamped → List Stamped → List Stamped
unfolding insert_stamped
sort_stamped done [] = done
sort_stamped done (c ∷ cs) = sort_stamped (insert_stamped c done) cs

-- candidates[0] of what is sorted, the last of the list that is kept from its end
unfoldable pub last_name : List Stamped → String
last_name [] = ""
last_name (c ∷ []) = c.0
last_name (c ∷ d ∷ ds) = last_name (d ∷ ds)

unfoldable pub latest_for_deployment : String → M String
unfolding candidates sort_stamped last_name
latest_for_deployment deployment_id = do
  names ← list
  cs ← candidates (deployment_id <> "_") names
  pure (last_name (sort_stamped [] cs))

-- `ii, _ := os.Stat(…)` and `ii.ModTime()`: the error is dropped, and the nil FileInfo panics.
unfoldable pub time_of : Result Node → M ℕ
time_of (ok n) = pure (mod_time n)
time_of (err e) = crash
time_of panic = crash

-- The comparison, which asks the file system for both times
unfoldable pub is_newer : String → String → M Bool
unfolding time_of
is_newer a b = do
  ii ← attempt (stat (backup_path a))
  jj ← attempt (stat (backup_path b))
  x ← time_of ii
  y ← time_of jj
  pure (ltb y x)

unfoldable pub insert_name : String → List String → M (List String)
unfolding is_newer
insert_name a [] = pure (a ∷ [])
insert_name a (b ∷ bs) =
    let rest = insert_name a bs in
    do newer ← is_newer a b; if newer then (do cs ← rest; pure (b ∷ cs)) else pure (a ∷ b ∷ bs)

unfoldable pub sort_names : List String → List String → M (List String)
unfolding insert_name
sort_names done [] = pure done
sort_names done (a ∷ rest) = do more ← insert_name a done; sort_names more rest

unfoldable pub reverse_onto : List String → List String → List String
reverse_onto [] ys = ys
reverse_onto (x ∷ xs) ys = reverse_onto xs (x ∷ ys)

-- group[1:]
unfoldable pub tail : List String → List String
tail [] = []
tail (x ∷ xs) = xs

unfoldable pub prune_one : String → M (Unit {0})
prune_one n = wrapped ("prune " <> n) (remove_all (backup_path n))

unfoldable pub prune_group : String × List String → M (Unit {0})
unfolding sort_names prune_one reverse_onto tail
prune_group (deploy, []) = pure tt
prune_group (deploy, n ∷ []) = pure tt
prune_group (deploy, n ∷ m ∷ ns) = do
  sorted ← sort_names [] (n ∷ m ∷ ns)
  for_each (tail (reverse_onto sorted [])) prune_one

abbrev pub Groups : Type 0
Groups = List (String × List String)

-- byDeploy[deploy] = append(byDeploy[deploy], n)
unfoldable pub add_to : String → String → Groups → Groups
add_to deploy n [] = (deploy, n ∷ []) ∷ []
add_to deploy n ((d, ns) ∷ gs) =
    let rest = add_to deploy n gs in if d == deploy then (d, ns ++ n ∷ []) ∷ gs else (d, ns) ∷ rest

unfoldable pub member : String → List String → Bool
member x [] = false
member x (y ∷ ys) = x == y || member x ys

-- The text before the separator, all of it if there is none
unfoldable pub deployment_of : String → String
unfolding cut
deployment_of n = or_else (before_of (cut n)) n
  where
    before_of : Option (String × String) → Option String
    before_of none = none
    before_of (some r) = some r.0

-- The first loop: the backups of unknown deployments go, the others are grouped.
unfoldable pub prune_unknown : List String → List String → Groups → M Groups
unfolding prune_one add_to deployment_of member
prune_unknown known [] gs = pure gs
prune_unknown known (n ∷ ns) gs =
    let dropped = prune_unknown known ns gs in
    let kept = prune_unknown known ns (add_to (deployment_of n) n gs) in
    if member (deployment_of n) known then kept else prune_one n >> dropped

-- Go visits a map in any order: `order` is the one it takes.
unfoldable pub prune : (Groups → Groups) → List String → M (Unit {0})
unfolding prune_unknown prune_group
prune order known = do
  names ← list
  groups ← prune_unknown known names []
  for_each (order groups) prune_group

unfoldable pub restore_requested : M Bool
restore_requested = probe restore_marker

unfoldable pub clear_restore_marker : M (Unit {0})
clear_restore_marker = remove_if_there restore_marker
