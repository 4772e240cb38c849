-- ===== src/Backup/Listing/Grouping.antt =====
-- internal/backup/backup.go: the groups that Prune makes of the backups' names.
use nanok8s.Base.{
  ℕ, String, ◌≡◌, ◌≢◌, ◌⊎◌, inl, inr, refl, sym, ◌∙◌, ap, List, [], ◌∷◌, ◌++◌, ◌==◌, eq_iff,
  Bool-cases, All,
}
use nanok8s.Backup.Listing.{Groups, add_to, deployment_of}
use nanok8s.Backup.Listing.Sorting.{Older, Older-differs, Newest, here, there}

All-append :
    (P : String → Type 0) (ns : List String) (y : String) → All P ns → P y → All P (ns ++ y ∷ [])
All-append P [] y a h = (h, tt)
All-append P (n ∷ ns) y a h = (a.0, All-append P ns y a.1 h)

module _ (time : String → ℕ) (x : String) where
  Newest-append :
      (ns : List String) (y : String)
      → Newest time x ns
      → Older time x y
      → Newest time x (ns ++ y ∷ [])
  Newest-append [] y k h = elim k [ ]
  Newest-append (n ∷ ns) y (here a) h = here (All-append _ ns y a h)
  Newest-append (n ∷ ns) y (there o k) h = there o (Newest-append ns y k h)

  Newest-last : (ns : List String) → All (Older time x) ns → Newest time x (ns ++ x ∷ [])
  Newest-last [] a = here tt
  Newest-last (n ∷ ns) a = there a.0 (Newest-last ns a.1)

  abbrev Others : List String → Type 0
  Others ns = All (λ y. y ≢ x) ns

  -- A group before x is added to any
  abbrev pub Free : String × List String → Type 0
  Free (d, ns) = Others ns × (d ≡ deployment_of x → All (Older time x) ns)

  -- A group that x is the newest of, or that it is not in
  abbrev pub Safe : String × List String → Type 0
  Safe (d, ns) = ((d ≡ deployment_of x) × Newest time x ns) ⊎ Others ns

  -- A backup of the same deployment is older.
  abbrev pub Rival : String → Type 0
  Rival y = deployment_of y ≡ deployment_of x → Older time x y

  pub Rival-differs : (y : String) → Rival y → y ≢ x
  Rival-differs y r e = Older-differs time x y (r (ap deployment_of e)) e

  module _ (y : String) (r : Rival y) where
    pub add_to-Free : (gs : Groups) → All Free gs → All Free (add_to (deployment_of y) y gs)
    unfolding add_to
    add_to-Free [] a = (((Rival-differs y r, tt), λ e. (r e, tt)), tt)
    add_to-Free ((d, ns) ∷ gs) a = elim (Bool-cases (d == deployment_of y)) [
      | inl p ↦ rw p (
          let same : d ≡ deployment_of y = (eq_iff d (deployment_of y)).0 p in
          (
            (
              All-append _ ns y a.0.0 (Rival-differs y r),
              λ e. All-append _ ns y (a.0.1 e) (r (sym same ∙ e)),
            ),
            a.1,
          ))
      | inr q ↦ rw q (a.0, add_to-Free gs a.1)
    ]

    pub add_to-Safe : (gs : Groups) → All Safe gs → All Safe (add_to (deployment_of y) y gs)
    unfolding add_to
    add_to-Safe [] a = (inr (Rival-differs y r, tt), tt)
    add_to-Safe ((d, ns) ∷ gs) a = elim (Bool-cases (d == deployment_of y)) [
      | inl p ↦ rw p (grown a.0 ((eq_iff d (deployment_of y)).0 p), a.1)
      | inr q ↦ rw q (a.0, add_to-Safe gs a.1)
    ]
      where
        grown : Safe (d, ns) → d ≡ deployment_of y → Safe (d, ns ++ y ∷ [])
        grown (inl k) e = inl (k.0, Newest-append ns y k.1 (r (sym e ∙ k.0)))
        grown (inr o) e = inr (All-append _ ns y o (Rival-differs y r))

  Free-Safe : (gs : Groups) → All Free gs → All Safe gs
  Free-Safe [] a = tt
  Free-Safe (g ∷ gs) a = (inr a.0.0, Free-Safe gs a.1)

  pub add_to-newest : (gs : Groups) → All Free gs → All Safe (add_to (deployment_of x) x gs)
  unfolding add_to
  add_to-newest [] a = (inl (refl, here tt), tt)
  add_to-newest ((d, ns) ∷ gs) a = elim (Bool-cases (d == deployment_of x)) [
    | inl p ↦ rw p (
        let same : d ≡ deployment_of x = (eq_iff d (deployment_of x)).0 p in
        (inl (same, Newest-last ns (a.0.1 same)), Free-Safe gs a.1))
    | inr q ↦ rw q (inr a.0.0, add_to-newest gs a.1)
  ]
