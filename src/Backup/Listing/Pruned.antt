-- ===== src/Backup/Listing/Pruned.antt =====
-- internal/backup/backup.go: Prune, while the times of what it has not removed do not change.
use nanok8s.Base.{
  ℕ, String, ◌≡◌, ◌≢◌, ◌⊎◌, inl, inr, refl, sym, ◌∙◌, ap, subst, true, false, none, some, List, [],
  ◌∷◌, ◌==◌, eq_iff, ltb, Bool-cases,
}
use mathlib.Core.List.{Memᴰ}
use mathlib.Core.List.Memᴰ.{head, tail}
use nanok8s.Os.FilePath.{apart}
use nanok8s.Os.Tree.{Node, get}
use nanok8s.Os.World.{Result, ok, err, panic, M, attempt, for_each}
use nanok8s.Os.Calls.{stat}
use nanok8s.Os.Spec.Rules.{Either, Triple-attempt, Triple-weaken}
use nanok8s.Os.Spec.Runs.{
  Run, Run-Triple, Run-pure, Run-crash, Run-bind, Run-if, Run-wrapped, Run-weaken, Run-given,
}
use nanok8s.Os.Spec.Steps.{Triple-stat, Triple-remove_all, Changed}
use nanok8s.Paths.{backups_dir}
use nanok8s.Backup.{backup_path}
use nanok8s.Backup.Listing.{mod_time, time_of, is_newer, insert_name, sort_names, prune_one}
use nanok8s.Backup.Listing.Latest.{time_in}
use nanok8s.Backup.Listing.Sorting.{insert_by, sort_by}

pub apart-backup_path :
    (y z : String) → (y == z) ≡ false → apart (backup_path y) (backup_path z) ≡ true
unfolding apart
apart-backup_path y z h = rw h refl

pub differ : (y z : String) → y ≢ z → (y == z) ≡ false
differ y z h = elim (Bool-cases (y == z)) [ inl p ↦ absurd (h ((eq_iff y z).0 p)) | inr q ↦ q ]

-- What is done for each of a list keeps a condition, in success.
pub Run-for_each :
    {A : Type 0} {P X : Node → Type 0} (xs : List A) (f : A → M (Unit {0}))
    → ((a : A) → Memᴰ a xs → Run P (f a) (λ u. P) X)
    → Run P (for_each xs f) (λ u. P) X
unfolding for_each
Run-for_each [] f k = Run-pure tt
Run-for_each (x ∷ xs) f k = Run-bind (k x (head refl)) λ u. Run-for_each xs f λ a m. k a (tail m)

module _ (t : Node) where
  -- The modification time of a backup, as it was
  abbrev pub time : String → ℕ
  time y = time_in (get (backup_path y) t)

  module _ (x : String) where
    abbrev pub Kept : Node → Type 0
    Kept u = get (backup_path x) u ≡ get (backup_path x) t

    abbrev SameOrGone : String → Node → Type 0
    SameOrGone y u =
        (get (backup_path y) u ≡ get (backup_path y) t) ⊎ (get (backup_path y) u ≡ none)

    abbrev pub Inv : Node → Type 0
    Inv u = Kept u × ((y : String) → SameOrGone y u)

    -- What is read is what was there.
    abbrev Read : String → Result Node → Type 0
    Read y (ok n) = mod_time n ≡ time y
    Read y (err e) = Unit
    Read y panic = Unit

    as_it_was :
        (y : String) (u n : Node)
        → SameOrGone y u
        → get (backup_path y) u ≡ some n
        → mod_time n ≡ time y
    as_it_was y u n (inl e) h = sym (ap time_in (sym e ∙ h))
    as_it_was y u n (inr e) h = absurd (cc (sym e ∙ h))

    read_lem :
        (y : String) → Run Inv (attempt (stat (backup_path y))) (λ r u. Inv u × Read y r) Kept
    read_lem y = Run-Triple (
        Triple-weaken (λ u h. h) read (λ e u h. h)
          (Triple-attempt {Q = λ n u. Inv u × (mod_time n ≡ time y)} {E = λ e. Inv} {F = λ e. Kept}
            (Triple-stat (backup_path y) (λ u n h e. (h, as_it_was y u n (h.1 y) e)) (λ u h e. h)
              (λ u s h. h))))
      where
        read :
            (r : Result Node) (u : Node)
            → Either (λ n u. Inv u × (mod_time n ≡ time y)) (λ e. Inv) r u
            → Inv u × Read y r
        read (ok n) u h = h
        read (err e) u h = (h, tt)
        read panic u h = absurd h

    time_of-Read :
        (y : String) (r : Result Node)
        → Read y r
        → Run Inv (time_of r) (λ m u. Inv u × (m ≡ time y)) Kept
    unfolding time_of
    time_of-Read y (ok n) h =
        Run-weaken (λ u i. (i, h)) (λ m u i. i) (λ u i. i) (Run-pure (mod_time n))
    time_of-Read y (err e) h = Run-weaken (λ u i. i.0) (λ m u i. i) (λ u i. i) Run-crash
    time_of-Read y panic h = Run-weaken (λ u i. i.0) (λ m u i. i) (λ u i. i) Run-crash

    is_newer-time :
        (a b : String) → Run Inv (is_newer a b) (λ r u. Inv u × (r ≡ ltb (time b) (time a))) Kept
    unfolding is_newer
    is_newer-time a b = Run-bind (read_lem a) λ ii. Run-given λ i. Run-bind (read_lem b) λ jj.
        Run-given λ j. Run-bind (time_of-Read a ii i) λ m. Run-given λ p.
          Run-bind (time_of-Read b jj j) λ n. Run-given λ q.
            Run-weaken (λ u h. (h, rw p (rw q refl))) (λ r u h. h) (λ u h. h) (Run-pure (ltb n m))

    insert_name-time :
        (a : String) (bs : List String)
        → Run Inv (insert_name a bs) (λ r u. Inv u × (r ≡ insert_by time a bs)) Kept
    unfolding insert_name insert_by
    insert_name-time a [] = Run-weaken (λ u h. (h, refl)) (λ r u h. h) (λ u h. h) (Run-pure _)
    insert_name-time a (b ∷ bs) = Run-bind (is_newer-time a b) λ newer. Run-given λ e.
        Run-if newer
          (λ y. Run-bind (insert_name-time a bs) λ cs. Run-given λ k.
            Run-weaken (λ u h. (h, rw (sym e ∙ y) (rw k refl))) (λ r u h. h) (λ u h. h)
              (Run-pure (b ∷ cs)))
          (λ z.
            Run-weaken (λ u h. (h, rw (sym e ∙ z) refl)) (λ r u h. h) (λ u h. h)
              (Run-pure (a ∷ b ∷ bs)))

    pub sort_names-time :
        (done ns : List String)
        → Run Inv (sort_names done ns) (λ r u. Inv u × (r ≡ sort_by time done ns)) Kept
    unfolding sort_names sort_by
    sort_names-time done [] = Run-weaken (λ u h. (h, refl)) (λ r u h. h) (λ u h. h) (Run-pure done)
    sort_names-time done (n ∷ ns) =
        Run-bind (insert_name-time n done)
          λ more. Run-given λ e. rw (sym e) (sort_names-time more ns)

    pub prune_one-Inv : (y : String) → y ≢ x → Run Inv (prune_one y) (λ u. Inv) Kept
    unfolding prune_one
    prune_one-Inv y d = Run-wrapped _ (
        Run-Triple (
          Triple-remove_all backups_dir y
            (λ u v h c g. (kept u v h.0 c, λ z. same_or_gone z u v (h.1 z) c g))
            (λ u v e h c. kept u v h.0 c)))
      where
        kept : (u v : Node) → Kept u → Changed (backup_path y) u v → Kept v
        kept u v h c = c.apart_same (backup_path x) (apart-backup_path y x (differ y x d)) ∙ h

        moved :
            (z : String) (u v : Node)
            → get (backup_path z) v ≡ get (backup_path z) u
            → SameOrGone z u
            → SameOrGone z v
        moved z u v e (inl s) = inl (e ∙ s)
        moved z u v e (inr n) = inr (e ∙ n)

        same_or_gone :
            (z : String) (u v : Node)
            → SameOrGone z u
            → Changed (backup_path y) u v
            → get (backup_path y) v ≡ none
            → SameOrGone z v
        same_or_gone z u v s c g = elim (Bool-cases (y == z)) [
          | inl p ↦ inr (subst (λ n. get (backup_path n) v ≡ none) ((eq_iff y z).0 p) g)
          | inr q ↦ moved z u v (c.apart_same (backup_path z) (apart-backup_path y z q)) s
        ]
