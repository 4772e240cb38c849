-- ===== src/Backup/Listing/Latest.antt =====
-- Which backup LatestForDeployment returns, as a function of the file tree.
use nanok8s.Base.{
  ℕ, String, ◌<>◌, ◌≡◌, ◌⊎◌, subst, refl, sym, ◌∙◌, ap, inl, inr, Bool, true, Option, none, some,
  List, [], ◌∷◌, if◌then◌else◌, starts_with,
}
use nanok8s.Os.Tree.{Node, file, dir, get}
use nanok8s.Os.World.{Result, ok, err, panic, World, attempt}
use nanok8s.Os.Calls.{read_dir, entries_of, unspoiled}
use nanok8s.Os.Spec.{Triple, Post}
use nanok8s.Os.Spec.Rules.{
  Triple-bind, Triple-pure, Triple-throw, Triple-attempt, Triple-weaken, Triple-if, Triple-syscall,
  Triple-absurd, Either, Triple-from,
}
use nanok8s.Os.Spec.Steps.{Triple-stat}
use nanok8s.Paths.{backups_dir}
use nanok8s.Backup.{backup_path}
use nanok8s.Backup.Listing.{
  names_from, backups_of, list, candidates, latest_for_deployment, last_name, sort_stamped,
  mod_time, Stamped,
}
use nanok8s.Backup.Listing.Newest.{IsNewest, last_name-IsNewest}

abbrev or_nothing : Result (List (String × Bool)) → List (String × Bool)
or_nothing (ok es) = es
or_nothing (err e) = []
or_nothing panic = []

-- The backups in a tree, in the order of their names
abbrev pub backups_in : Node → List String
backups_in t = backups_of (or_nothing (entries_of (get backups_dir t)))

abbrev pub time_in : Option Node → ℕ
time_in none = 0
time_in (some n) = mod_time n

-- Those of a deployment, with their modification times
unfoldable pub stamps : Node → String → List String → List Stamped
stamps t prefix [] = []
stamps t prefix (n ∷ ns) =
    let rest = stamps t prefix ns in
    if starts_with n prefix then (n, time_in (get (backup_path n) t)) ∷ rest else rest

module _ (t : Node) where
  abbrev pub Same : Node → Type 0
  Same u = u ≡ t

  abbrev pub Names : List String → Node → Type 0
  Names ns u = Same u × (ns ≡ backups_in t)

  abbrev Read : Result (List (String × Bool)) → Node → Type 0
  Read =
      Either (λ es u. Same u × (es ≡ or_nothing (entries_of (get backups_dir t))))
        (λ e u. Same u × (e.not_exist ≡ true → backups_in t ≡ []))

  look_at_dir : Triple Same (attempt (read_dir backups_dir)) Read (λ e. Same)
  unfolding read_dir backups_of
  look_at_dir = Triple-attempt (
      Triple-syscall (λ now u. (entries_of (get backups_dir u), u)) unspoiled
        (λ now u h. seen u (get backups_dir u) h (ap (get backups_dir) (sym h)))
        (λ now f u h. (h, λ p. cc)))
    where
      seen : (u : Node) (o : Option Node) → Same u → get backups_dir t ≡ o → Read (entries_of o) u
      seen u none h e = (h, λ p. rw e refl)
      seen u (some (file s)) h e = (h, λ p. cc)
      seen u (some (dir m es)) h e = (h, rw e refl)

  names_from-Names :
      (r : Result (List (String × Bool))) → Triple (Read r) (names_from r) Names (λ e. Same)
  unfolding names_from
  names_from-Names (ok es) =
      Triple-weaken (λ u h. (h.0, ap backups_of h.1)) (λ a u h. h) (λ e u h. h)
        (Triple-pure (backups_of es) Names)
  names_from-Names (err e) =
      Triple-if e.not_exist
        (λ p.
          Triple-weaken (λ u h. (h.0, sym (h.1 p))) (λ a u h. h) (λ e u h. h)
            (Triple-pure [] Names))
        (λ p. Triple-weaken (λ u h. h.0) (λ a u h. h) (λ e u h. h) (Triple-throw e))
  names_from-Names panic = Triple-absurd

  pub list_lem : Triple Same list Names (λ e. Same)
  unfolding list
  list_lem = Triple-bind look_at_dir names_from-Names

  module _ (prefix : String) where
    abbrev Found : List String → List Stamped → Node → Type 0
    Found ns cs u = Same u × (cs ≡ stamps t prefix ns)

    candidates_lem : (ns : List String) → Triple Same (candidates prefix ns) (Found ns) (λ e. Same)
    unfolding candidates stamps
    candidates_lem [] =
        Triple-weaken (λ u h. (h, refl)) (λ a u h. h) (λ e u h. h) (Triple-pure [] (Found []))
    candidates_lem (n ∷ ns) =
        Triple-if (starts_with n prefix)
          (λ p.
            Triple-bind {R = λ info u. Same u × (get (backup_path n) t ≡ some info)}
              (Triple-stat (backup_path n) (λ u m h e. (h, ap (get (backup_path n)) (sym h) ∙ e))
                (λ u h e. h) (λ u s h. h))
              λ info. Triple-from λ v k.
                Triple-bind {R = Found ns}
                  (Triple-weaken (λ u e. e ∙ k.0) (λ a u h. h) (λ e u h. h) (candidates_lem ns))
                  λ cs.
                    Triple-weaken
                      (λ u h. (
                        h.0,
                        rw p (rw k.1 (ap (λ (c : List Stamped). (n, mod_time info) ∷ c) h.1)),
                      ))
                      (λ a u h. h) (λ e u h. h)
                      (Triple-pure ((n, mod_time info) ∷ cs) (Found (n ∷ ns))))
          (λ p.
            Triple-weaken (λ u h. h) (λ cs u h. (h.0, rw p h.1)) (λ e u h. h) (candidates_lem ns))

-- The deployment has no backup and the name is empty, or it has the name of its newest one.
abbrev pub IsLatest : Node → String → String → Type 0
IsLatest t deployment n =
    let cs = stamps t (deployment <> "_") (backups_in t) in ((cs ≡ []) × (n ≡ "")) ⊎ IsNewest n cs

first_or_none :
    (cs : List Stamped)
    → ((cs ≡ []) × (last_name (sort_stamped [] cs) ≡ ""))
      ⊎ IsNewest (last_name (sort_stamped [] cs)) cs
unfolding last_name sort_stamped
first_or_none [] = inl (refl, refl)
first_or_none (c ∷ cs) = inr (last_name-IsNewest c cs)

latest_lem :
    (t : Node) (deployment : String)
    → Triple
        (λ u. u ≡ t)
        (latest_for_deployment deployment)
        (λ n u. (u ≡ t) × IsLatest t deployment n)
        (λ e u. u ≡ t)
unfolding latest_for_deployment
latest_lem t deployment = Triple-bind (list_lem t) λ names.
    Triple-bind {R = Found t (deployment <> "_") (backups_in t)}
      (Triple-from λ v k. rw k.1 (
        Triple-weaken (λ u e. e ∙ k.0) (λ cs u h. h) (λ e u h. h)
          (candidates_lem t (deployment <> "_") (backups_in t))))
      λ cs.
        Triple-weaken (λ u h. (h.0, subst (Latest) (sym h.1) (first_or_none _))) (λ a u h. h)
          (λ e u h. h) (Triple-pure _ (λ n u. (u ≡ t) × IsLatest t deployment n))
  where
    Latest : List Stamped → Type 0
    Latest cs = IsLatest t deployment (last_name (sort_stamped [] cs))

-- LatestForDeployment does not panic and changes nothing. If it succeeds, it returns the empty name
-- and the deployment has no backup, or it returns the name of one of the deployment's backups, and
-- no other of them has a later modification time.
pub latest_for_deployment-IsLatest :
    (deployment : String) (w : World)
    → Post
        (λ n u. (u ≡ w.fs) × IsLatest w.fs deployment n)
        (λ e u. u ≡ w.fs)
        (latest_for_deployment deployment w)
latest_for_deployment-IsLatest deployment w = (latest_lem w.fs deployment).at w refl
