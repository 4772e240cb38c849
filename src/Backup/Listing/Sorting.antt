-- ===== src/Backup/Listing/Sorting.antt =====
-- internal/backup/backup.go: the sort of Prune by modification times that do not change, and what of
-- a group it leaves aside.
use nanok8s.Base.{
  ℕ, ◌<◌, String, ◌≢◌, subst, List, [], ◌∷◌, ltb, arith, Bool-cases, inl, inr, All, if◌then◌else◌,
}
use nanok8s.Backup.Listing.{reverse_onto, tail}

module _ (time : String → ℕ) where
  -- insert_name and sort_names, where the times are known
  unfoldable pub insert_by : String → List String → List String
  insert_by a [] = a ∷ []
  insert_by a (b ∷ bs) =
      let rest = insert_by a bs in if ltb (time b) (time a) then b ∷ rest else a ∷ b ∷ bs

  unfoldable pub sort_by : List String → List String → List String
  unfolding insert_by
  sort_by done [] = done
  sort_by done (a ∷ rest) = sort_by (insert_by a done) rest

  -- What holds of each name holds of each that is sorted, and of each that is dropped.
  module _ (P : String → Type 0) where
    All-insert_by : (y : String) (ns : List String) → P y → All P ns → All P (insert_by y ns)
    unfolding insert_by
    All-insert_by y [] h a = (h, tt)
    All-insert_by y (b ∷ bs) h a = elim (Bool-cases (ltb (time b) (time y))) [
      | inl p ↦ rw p (a.0, All-insert_by y bs h a.1)
      | inr q ↦ rw q (h, a)
    ]

    All-sort_by : (done ns : List String) → All P done → All P ns → All P (sort_by done ns)
    unfolding sort_by
    All-sort_by done [] d a = d
    All-sort_by done (n ∷ ns) d a =
        All-sort_by (insert_by n done) ns (All-insert_by n done a.0 d) a.1

    All-reverse_onto : (ns acc : List String) → All P ns → All P acc → All P (reverse_onto ns acc)
    unfolding reverse_onto
    All-reverse_onto [] acc a h = h
    All-reverse_onto (n ∷ ns) acc a h = All-reverse_onto ns (n ∷ acc) a.1 (a.0, h)

    All-tail : (ns : List String) → All P ns → All P (tail ns)
    unfolding tail
    All-tail [] a = tt
    All-tail (n ∷ ns) a = a.1

    pub All-dropped : (ns : List String) → All P ns → All P (tail (reverse_onto (sort_by [] ns) []))
    All-dropped ns a = All-tail _ (All-reverse_onto _ [] (All-sort_by [] ns tt a) tt)

  module _ (x : String) where
    abbrev pub Older : String → Type 0
    Older y = time y < time x

    -- x stands in a list once, and is the newest.
    pub data Newest : List String → Type 0 where
      here : {ns : List String} → All Older ns → Newest (x ∷ ns)
      there : {y : String} {ns : List String} → Older y → Newest ns → Newest (y ∷ ns)

    -- And it stands at the end.
    pub data Ends : List String → Type 0 where
      last : Ends (x ∷ [])
      more : {y : String} {ns : List String} → Older y → Ends ns → Ends (y ∷ ns)

    pub Older-differs : (y : String) → Older y → y ≢ x
    Older-differs y h e = absurd (omega (arith, h, subst (λ z. time z < time x) e h))

    Ends-insert_by : (y : String) (ns : List String) → Older y → Ends ns → Ends (insert_by y ns)
    unfolding insert_by
    Ends-insert_by y [] h e = elim e [ ]
    Ends-insert_by y (b ∷ bs) h last = elim (Bool-cases (ltb (time x) (time y))) [
      | inl p ↦ absurd (ground arith)
      | inr q ↦ rw q (more h last)
    ]
    Ends-insert_by y (b ∷ bs) h (more k e) = elim (Bool-cases (ltb (time b) (time y))) [
      | inl p ↦ rw p (more k (Ends-insert_by y bs h e))
      | inr q ↦ rw q (more h (more k e))
    ]

    Ends-newest : (ns : List String) → All Older ns → Ends (insert_by x ns)
    unfolding insert_by
    Ends-newest [] a = last
    Ends-newest (b ∷ bs) a = elim (Bool-cases (ltb (time b) (time x))) [
      | inl p ↦ rw p (more a.0 (Ends-newest bs a.1))
      | inr q ↦ absurd (let h = a.0 in ground arith)
    ]

    Ends-after : (done ns : List String) → Ends done → All Older ns → Ends (sort_by done ns)
    unfolding sort_by
    Ends-after done [] e a = e
    Ends-after done (n ∷ ns) e a =
        Ends-after (insert_by n done) ns (Ends-insert_by n done a.0 e) a.1

    pub Ends-sort_by : (done ns : List String) → All Older done → Newest ns → Ends (sort_by done ns)
    unfolding sort_by
    Ends-sort_by done [] d k = elim k [ ]
    Ends-sort_by done (n ∷ ns) d (here a) = Ends-after (insert_by x done) ns (Ends-newest done d) a
    Ends-sort_by done (n ∷ ns) d (there h k) =
        Ends-sort_by (insert_by n done) ns (All-insert_by Older n done h d) k

    Older-reverse_onto :
        (ns acc : List String) → Ends ns → All Older acc → All Older (tail (reverse_onto ns acc))
    unfolding reverse_onto tail
    Older-reverse_onto [] acc e a = elim e [ ]
    Older-reverse_onto (n ∷ ns) acc last a = a
    Older-reverse_onto (n ∷ ns) acc (more h e) a = Older-reverse_onto ns (n ∷ acc) e (h, a)

    -- What Prune removes of a group in which x is the newest is older than x.
    pub Older-dropped :
        (ns : List String) → Newest ns → All Older (tail (reverse_onto (sort_by [] ns) []))
    Older-dropped ns k = Older-reverse_onto _ [] (Ends-sort_by [] ns tt k) tt
