-- ===== src/Backup/Listing/Membership.antt =====
-- internal/backup/backup.go: which names are in a group that Prune makes, and which of a group it
-- drops.
use nanok8s.Base.{
  ℕ, String, ◌≡◌, ◌≢◌, ◌⊎◌, inl, inr, refl, sym, subst, ap, Bool, true, false, List, [], ◌∷◌, ◌++◌,
  ◌==◌, eq_iff, eq_refl, ltb, Bool-cases, if◌then◌else◌,
}
use mathlib.Core.List.{Memᴰ}
use mathlib.Core.List.Memᴰ.{head, tail}
use nanok8s.Backup.Listing.{Groups, add_to, member, deployment_of, reverse_onto}
use nanok8s.Backup.Listing as Listing
use nanok8s.Backup.Listing.Sorting.{insert_by, sort_by, Newest, Ends, last, more, Ends-sort_by}

Mem-left : (y : String) (ns : List String) (n : String) → Memᴰ y ns → Memᴰ y (ns ++ n ∷ [])
Mem-left y [] n m = elim m [ ]
Mem-left y (k ∷ ns) n m = elim m [ head e ↦ head e | tail j ↦ tail (Mem-left y ns n j) ]

Mem-last : (ns : List String) (n : String) → Memᴰ n (ns ++ n ∷ [])
Mem-last [] n = head refl
Mem-last (k ∷ ns) n = tail (Mem-last ns n)

-- byDeploy[d]
unfoldable pub group_of : String → Groups → List String
group_of d [] = []
group_of d ((e, ns) ∷ gs) = let rest = group_of d gs in if e == d then ns else rest

-- The groups that the first loop of Prune makes
unfoldable pub group_by : List String → List String → Groups → Groups
group_by known [] gs = gs
group_by known (n ∷ ns) gs =
    let dropped = group_by known ns gs in
    let kept = group_by known ns (add_to (deployment_of n) n gs) in
    if member (deployment_of n) known then kept else dropped

pub Mem-group_of :
    (y d : String) (gs : Groups) → Memᴰ y (group_of d gs) → Memᴰ (d, group_of d gs) gs
unfolding group_of
Mem-group_of y d [] m = elim m [ ]
Mem-group_of y d ((e, ns) ∷ gs) m = elim (Bool-cases (e == d)) [
  | inl p ↦ rw p (head (ap (λ (x : String). (x, ns)) (sym ((eq_iff e d).0 p))))
  | inr q ↦
      rw q (tail (Mem-group_of y d gs (subst (λ b. Memᴰ y (if b then ns else group_of d gs)) q m)))
]

add_to-there : (d n : String) (gs : Groups) → Memᴰ n (group_of d (add_to d n gs))
unfolding group_of add_to
add_to-there d n [] = rw (eq_refl d) (head refl)
add_to-there d n ((e, ns) ∷ gs) = elim (Bool-cases (e == d)) [
  | inl p ↦ rw p (rw p (Mem-last ns n))
  | inr q ↦ rw q (rw q (add_to-there d n gs))
]

add_to-stays :
    (y d e n : String) (gs : Groups) → Memᴰ y (group_of d gs) → Memᴰ y (group_of d (add_to e n gs))
unfolding group_of add_to
add_to-stays y d e n [] m = elim m [ ]
add_to-stays y d e n ((f, ns) ∷ gs) m =
    let at : (b : Bool) → (f == d) ≡ b → Memᴰ y (if b then ns else group_of d gs) =
      λ b q. subst (λ c. Memᴰ y (if c then ns else group_of d gs)) q m in
    elim (Bool-cases (f == e)) [
      | inl p ↦ rw p (elim (Bool-cases (f == d)) [
        | inl q ↦ rw q (Mem-left y ns n (at true q))
        | inr q ↦ rw q (at false q)
      ])
      | inr p ↦ rw p (elim (Bool-cases (f == d)) [
        | inl q ↦ rw q (at true q)
        | inr q ↦ rw q (add_to-stays y d e n gs (at false q))
      ])
    ]

group_by-stays :
    (y d : String) (known ns : List String) (gs : Groups)
    → Memᴰ y (group_of d gs)
    → Memᴰ y (group_of d (group_by known ns gs))
unfolding group_by
group_by-stays y d known [] gs m = m
group_by-stays y d known (n ∷ ns) gs m = elim (Bool-cases (member (deployment_of n) known)) [
  | inl p ↦ rw p (group_by-stays y d known ns _ (add_to-stays y d (deployment_of n) n gs m))
  | inr q ↦ rw q (group_by-stays y d known ns gs m)
]

-- A backup of a known deployment is in the deployment's group.
pub group_by-there :
    (y : String) (known ns : List String) (gs : Groups)
    → member (deployment_of y) known ≡ true
    → Memᴰ y ns
    → Memᴰ y (group_of (deployment_of y) (group_by known ns gs))
unfolding group_by
group_by-there y known [] gs k m = elim m [ ]
group_by-there y known (n ∷ ns) gs k m = elim (Bool-cases (member (deployment_of n) known)) [
  | inl p ↦ rw p (elim m [
    | head e ↦ group_by-stays y (deployment_of y) known ns _ (
        subst (λ z. Memᴰ y (group_of (deployment_of y) (add_to (deployment_of z) z gs))) e
          (add_to-there (deployment_of y) y gs))
    | tail j ↦ group_by-there y known ns _ k j
  ])
  | inr q ↦ rw q (elim m [
    | head e ↦ absurd (cc (ap (λ (z : String). member (deployment_of z) known) e, k, q))
    | tail j ↦ group_by-there y known ns gs k j
  ])
]

module _ (time : String → ℕ) where
  Mem-insert_by :
      (y a : String) (bs : List String) → (y ≡ a) ⊎ Memᴰ y bs → Memᴰ y (insert_by time a bs)
  unfolding insert_by
  Mem-insert_by y a [] (inl e) = head e
  Mem-insert_by y a [] (inr m) = elim m [ ]
  Mem-insert_by y a (b ∷ bs) m =
      let ih = Mem-insert_by y a bs in
      elim (Bool-cases (ltb (time b) (time a))) [
        | inl p ↦ rw p (elim m [
          | inl e ↦ tail (ih (inl e))
          | inr j ↦ elim j [ head e ↦ head e | tail k ↦ tail (ih (inr k)) ]
        ])
        | inr q ↦ rw q (elim m [ inl e ↦ head e | inr k ↦ tail k ])
      ]

  Mem-sort_by :
      (y : String) (done ns : List String) → Memᴰ y done ⊎ Memᴰ y ns → Memᴰ y (sort_by time done ns)
  unfolding sort_by
  Mem-sort_by y done [] (inl m) = m
  Mem-sort_by y done [] (inr m) = elim m [ ]
  Mem-sort_by y done (n ∷ ns) (inl m) =
      Mem-sort_by y (insert_by time n done) ns (inl (Mem-insert_by y n done (inr m)))
  Mem-sort_by y done (n ∷ ns) (inr m) = elim m [
    | head e ↦ Mem-sort_by y (insert_by time n done) ns (inl (Mem-insert_by y n done (inl e)))
    | tail k ↦ Mem-sort_by y (insert_by time n done) ns (inr k)
  ]

  module _ (x y : String) where
    Mem-reversed :
        (ns acc : List String)
        → Ends time x ns
        → Memᴰ y acc
        → Memᴰ y (Listing.tail (reverse_onto ns acc))
    unfolding reverse_onto Listing.tail
    Mem-reversed [] acc e m = elim e [ ]
    Mem-reversed (n ∷ ns) acc last m = m
    Mem-reversed (n ∷ ns) acc (more h e) m = Mem-reversed ns (n ∷ acc) e (tail m)

    Mem-dropped :
        (ns acc : List String)
        → Ends time x ns
        → y ≢ x
        → Memᴰ y ns
        → Memᴰ y (Listing.tail (reverse_onto ns acc))
    unfolding reverse_onto Listing.tail
    Mem-dropped [] acc e d m = elim e [ ]
    Mem-dropped (n ∷ ns) acc last d m = elim m [ head p ↦ absurd (d p) | tail k ↦ elim k [ ] ]
    Mem-dropped (n ∷ ns) acc (more h e) d m = elim m [
      | head p ↦ Mem-reversed ns (n ∷ acc) e (head p)
      | tail k ↦ Mem-dropped ns (n ∷ acc) e d k
    ]

    -- All of a group but its newest are dropped.
    pub Mem-sorted :
        (ns : List String)
        → Newest time x ns
        → y ≢ x
        → Memᴰ y ns
        → Memᴰ y (Listing.tail (reverse_onto (sort_by time [] ns) []))
    Mem-sorted ns k d m =
        Mem-dropped (sort_by time [] ns) [] (Ends-sort_by time x [] ns tt k) d
          (Mem-sort_by y [] ns (inr m))
