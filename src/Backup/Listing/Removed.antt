-- ===== src/Backup/Listing/Removed.antt =====
-- internal/backup/backup.go: what Prune removes.
use nanok8s.Base.{
  String, ◌≡◌, inl, inr, refl, ◌∙◌, ap, subst, false, none, List, [], ◌∷◌, ◌==◌, eq_iff, Bool-cases,
}
use mathlib.Core.List.{Memᴰ}
use mathlib.Core.List.Memᴰ.{head, tail}
use nanok8s.Os.Tree.{Node, get}
use nanok8s.Os.World.{M, for_each}
use nanok8s.Os.Spec.Runs.{
  Run, Run-Triple, Run-pure, Run-bind, Run-if, Run-wrapped, Run-weaken, Keeps-nothing,
}
use nanok8s.Os.Spec.Steps.{Triple-remove_all, Changed}
use nanok8s.Paths.{backups_dir}
use nanok8s.Backup.{backup_path}
use nanok8s.Backup.Listing.{prune_one, prune_group, prune_unknown, Groups, member, deployment_of}
use nanok8s.Backup.Listing.Reads.{Keeps-sort_names}
use nanok8s.Backup.Listing.Membership.{group_by}
use nanok8s.Backup.Listing.Pruned.{Run-for_each, apart-backup_path}

-- For each of a list something is done, and what that does for one of them stays.
pub Run-for_each-at :
    {A : Type 0} {P S X : Node → Type 0} (xs : List A) (f : A → M (Unit {0})) (a : A)
    → Memᴰ a xs
    → ((b : A) → Memᴰ b xs → Run P (f b) (λ u. P) X)
    → Run P (f a) (λ u. S) X
    → ((b : A) → Run S (f b) (λ u. S) X)
    → Run P (for_each xs f) (λ u. S) X
unfolding for_each
Run-for_each-at [] f a m k h l = elim m [ ]
Run-for_each-at {P} {S} {X} (x ∷ xs) f a m k h l = elim m [
  | head e ↦ Run-bind (subst (λ b. Run P (f b) (λ u. S) X) e h) λ u. Run-for_each xs f (λ b j. l b)
  | tail j ↦ Run-bind (k x (head refl)) λ u. Run-for_each-at xs f a j (λ b i. k b (tail i)) h l
]

-- Nothing is said of what fails.
abbrev pub Any : Node → Type 0
Any u = Unit

module _ (y : String) where
  abbrev pub Gone : Node → Type 0
  Gone u = get (backup_path y) u ≡ none

  pub prune_one_removes : Run Any (prune_one y) (λ u. Gone) Any
  unfolding prune_one
  prune_one_removes =
      Run-wrapped _
        (Run-Triple (Triple-remove_all backups_dir y (λ u v h c g. g) (λ u v e h c. tt)))

  pub prune_one-Gone : (z : String) → Run Gone (prune_one z) (λ u. Gone) Any
  unfolding prune_one
  prune_one-Gone z = Run-wrapped _ (
      Run-Triple (Triple-remove_all backups_dir z (λ u v h c g. still u v h c g) (λ u v e h c. tt)))
    where
      still :
          (u v : Node)
          → Gone u
          → Changed (backup_path z) u v
          → get (backup_path z) v ≡ none
          → Gone v
      still u v h c g = elim (Bool-cases (z == y)) [
        | inl p ↦ subst (λ n. get (backup_path n) v ≡ none) ((eq_iff z y).0 p) g
        | inr q ↦ c.apart_same (backup_path y) (apart-backup_path z y q) ∙ h
      ]

  pub prune_group-Gone : (g : String × List String) → Run Gone (prune_group g) (λ u. Gone) Any
  unfolding prune_group
  prune_group-Gone (d, []) = Run-pure tt
  prune_group-Gone (d, n ∷ []) = Run-pure tt
  prune_group-Gone (d, n ∷ m ∷ ns) =
      Run-bind (Run-weaken (λ u h. h) (λ b u h. h) (λ u h. tt) (Keeps-sort_names [] (n ∷ m ∷ ns)))
        λ sorted. Run-for_each _ prune_one (λ z j. prune_one-Gone z)

  pub prune_unknown-Gone :
      (known ns : List String) (gs : Groups) → Run Gone (prune_unknown known ns gs) (λ g. Gone) Any
  unfolding prune_unknown
  prune_unknown-Gone known [] gs = Run-pure gs
  prune_unknown-Gone known (n ∷ ns) gs =
      Run-if (member (deployment_of n) known) (λ p. prune_unknown-Gone known ns _)
        (λ q. Run-bind (prune_one-Gone n) λ u. prune_unknown-Gone known ns gs)

  -- A backup of an unknown deployment
  pub prune_unknown_removes :
      (known ns : List String) (gs : Groups)
      → member (deployment_of y) known ≡ false
      → Memᴰ y ns
      → Run Any (prune_unknown known ns gs) (λ g. Gone) Any
  unfolding prune_unknown
  prune_unknown_removes known [] gs k m = elim m [ ]
  prune_unknown_removes known (n ∷ ns) gs k m =
      Run-if (member (deployment_of n) known)
        (λ p. elim m [
          | head e ↦ absurd (cc (ap (λ (z : String). member (deployment_of z) known) e, k, p))
          | tail j ↦ prune_unknown_removes known ns _ k j
        ])
        (λ q. elim m [
          | head e ↦
              Run-bind (subst (λ z. Run Any (prune_one z) (λ u. Gone) Any) e prune_one_removes)
                λ u. prune_unknown-Gone known ns gs
          | tail j ↦
              Run-bind (Keeps-nothing (prune_one n)) λ u. prune_unknown_removes known ns gs k j
        ])

-- The groups that the first loop comes to
pub prune_unknown-group_by :
    (known ns : List String) (gs : Groups)
    → Run (λ u. Unit) (prune_unknown known ns gs) (λ g u. g ≡ group_by known ns gs) (λ u. Unit)
unfolding prune_unknown group_by
prune_unknown-group_by known [] gs =
    Run-weaken (λ u h. refl) (λ a u h. h) (λ u h. tt)
      (Run-pure {Q = λ g u. g ≡ gs} {X = λ u. Unit} gs)
prune_unknown-group_by known (n ∷ ns) gs = elim (Bool-cases (member (deployment_of n) known)) [
  | inl p ↦ rw p (prune_unknown-group_by known ns _)
  | inr q ↦ rw q (Run-bind (Keeps-nothing (prune_one n)) λ u. prune_unknown-group_by known ns gs)
]
