-- ===== src/Backup/Listing/Reads.antt =====
-- internal/backup/backup.go: the listing and the sorts only read, whatever it is that is kept; and
-- Prune removes nothing but backups.
use nanok8s.Base.{Option, none, some, String, Bool, List, [], ◌∷◌, starts_with}
use nanok8s.Os.FilePath.{FilePath}
use nanok8s.Os.Tree.{Node, file, dir, get}
use nanok8s.Os.World.{Result, ok, err, panic}
use nanok8s.Os.Calls.{stat, read_file, read_dir, entries_of, unspoiled}
use nanok8s.Os.Spec.Rules.{Triple-syscall, Either}
use nanok8s.Os.Spec.Runs.{
  Keeps, Run-Triple, Run-pure, Run-throw, Run-crash, Run-bind, Run-if, Run-wrapped, Keeps-attempt,
  Keeps-for_each,
}
use nanok8s.Os.Spec.Steps.{Triple-stat, Triple-read_file, Triple-remove_all, Changed}
use nanok8s.Paths.{backups_dir}
use nanok8s.State.{LastBoot, Json}
use nanok8s.Backup.{backup_path}
use nanok8s.Backup.Listing.{
  parsed, read_meta, names_from, list, candidates, latest_for_deployment, time_of, is_newer,
  insert_name, sort_names, prune_one, prune_group, prune_unknown, prune, Groups, member,
  deployment_of,
}

module _ {P : Node → Type 0} where
  pub Keeps-stat : (p : FilePath) → Keeps P (stat p)
  Keeps-stat p = Run-Triple (Triple-stat p (λ t m h e. h) (λ t h e. h) (λ t s h. h))

  pub Keeps-read_file : (p : FilePath) → Keeps P (read_file p)
  Keeps-read_file p = Run-Triple (Triple-read_file p (λ t s h e. h) (λ t h e. h) (λ t s h. h))

  Keeps-parsed : (n : String) (a : Result LastBoot) → Keeps P (parsed n a)
  unfolding parsed
  Keeps-parsed n (ok meta) = Run-pure meta
  Keeps-parsed n (err e) = Run-throw _
  Keeps-parsed n panic = Run-crash

  pub Keeps-read_meta : (json : Json) (n : String) → Keeps P (read_meta json n)
  unfolding read_meta
  Keeps-read_meta json n =
      Run-bind (Run-wrapped _ (Keeps-read_file _)) λ s. Keeps-parsed n (json.unmarshal s)

  Keeps-read_dir : Keeps P (read_dir backups_dir)
  unfolding read_dir
  Keeps-read_dir = Run-Triple (
      Triple-syscall (λ now t. (entries_of (get backups_dir t), t)) unspoiled
        (λ now t h. same t (get backups_dir t) h) (λ now f t h. h))
    where
      same : (t : Node) (o : Option Node) → P t → Either (λ es. P) (λ e. P) (entries_of o) t
      same t none h = h
      same t (some (file s)) h = h
      same t (some (dir m es)) h = h

  Keeps-names_from : (a : Result (List (String × Bool))) → Keeps P (names_from a)
  unfolding names_from
  Keeps-names_from (ok es) = Run-pure _
  Keeps-names_from (err e) = Run-if e.not_exist (λ h. Run-pure _) (λ h. Run-throw _)
  Keeps-names_from panic = Run-crash

  pub Keeps-list : Keeps P list
  unfolding list
  Keeps-list = Run-bind (Keeps-attempt Keeps-read_dir) Keeps-names_from

  Keeps-candidates : (prefix : String) (ns : List String) → Keeps P (candidates prefix ns)
  unfolding candidates
  Keeps-candidates prefix [] = Run-pure _
  Keeps-candidates prefix (m ∷ ns) =
      Run-if (starts_with m prefix)
        (λ h.
          Run-bind (Keeps-stat _) λ info. Run-bind (Keeps-candidates prefix ns) λ cs. Run-pure _)
        (λ h. Keeps-candidates prefix ns)

  pub Keeps-latest_for_deployment : (d : String) → Keeps P (latest_for_deployment d)
  unfolding latest_for_deployment
  Keeps-latest_for_deployment d =
      Run-bind Keeps-list λ ns. Run-bind (Keeps-candidates _ ns) λ cs. Run-pure _

  Keeps-time_of : (a : Result Node) → Keeps P (time_of a)
  unfolding time_of
  Keeps-time_of (ok n) = Run-pure _
  Keeps-time_of (err e) = Run-crash
  Keeps-time_of panic = Run-crash

  Keeps-is_newer : (a b : String) → Keeps P (is_newer a b)
  unfolding is_newer
  Keeps-is_newer a b = Run-bind (Keeps-attempt (Keeps-stat _)) λ ii.
      Run-bind (Keeps-attempt (Keeps-stat _))
        λ jj. Run-bind (Keeps-time_of ii) λ x. Run-bind (Keeps-time_of jj) λ y. Run-pure _

  Keeps-insert_name : (a : String) (bs : List String) → Keeps P (insert_name a bs)
  unfolding insert_name
  Keeps-insert_name a [] = Run-pure _
  Keeps-insert_name a (b ∷ bs) = Run-bind (Keeps-is_newer a b) λ newer.
      Run-if newer (λ h. Run-bind (Keeps-insert_name a bs) λ cs. Run-pure _) (λ h. Run-pure _)

  pub Keeps-sort_names : (done names : List String) → Keeps P (sort_names done names)
  unfolding sort_names
  Keeps-sort_names done [] = Run-pure _
  Keeps-sort_names done (a ∷ names) =
      Run-bind (Keeps-insert_name a done) λ more. Keeps-sort_names more names

module _ (P : Node → Type 0)
    (aside : (n : String) (t u : Node) → P t → Changed (backup_path n) t u → P u) where
  Keeps-prune_one : (n : String) → Keeps P (prune_one n)
  unfolding prune_one
  Keeps-prune_one n = Run-wrapped _ (
      Run-Triple (
        Triple-remove_all backups_dir n (λ t u h c g. aside n t u h c)
          (λ t u e h c. aside n t u h c)))

  Keeps-prune_group : (g : String × List String) → Keeps P (prune_group g)
  unfolding prune_group
  Keeps-prune_group (d, []) = Run-pure tt
  Keeps-prune_group (d, n ∷ []) = Run-pure tt
  Keeps-prune_group (d, n ∷ m ∷ ns) =
      Run-bind (Keeps-sort_names [] (n ∷ m ∷ ns)) λ sorted. Keeps-for_each _ _ Keeps-prune_one

  Keeps-prune_unknown :
      (known names : List String) (gs : Groups) → Keeps P (prune_unknown known names gs)
  unfolding prune_unknown
  Keeps-prune_unknown known [] gs = Run-pure gs
  Keeps-prune_unknown known (n ∷ ns) gs =
      Run-if (member (deployment_of n) known) (λ h. Keeps-prune_unknown known ns _)
        (λ h. Run-bind (Keeps-prune_one n) λ u. Keeps-prune_unknown known ns gs)

  -- Whatever a change of one backup leaves alone, Prune leaves alone.
  pub Keeps-prune : (order : Groups → Groups) (known : List String) → Keeps P (prune order known)
  unfolding prune
  Keeps-prune order known = Run-bind Keeps-list λ ns.
      Run-bind (Keeps-prune_unknown known ns []) λ gs. Keeps-for_each (order gs) _ Keeps-prune_group
