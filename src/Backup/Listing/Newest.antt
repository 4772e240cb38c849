-- ===== src/Backup/Listing/Newest.antt =====
-- Which backup is the latest: the sort of LatestForDeployment.
use mathlib.Core.List.{Memᴰ}
use mathlib.Core.List.Memᴰ.{head, tail}
use nanok8s.Base.{
  ℕ, ◌<◌, ◌≤◌, String, ◌≡◌, ◌↔◌, ◌⊎◌, refl, sym, subst, ap, ◌∙◌, inl, inr, true, false, List, [],
  ◌∷◌, ltb, arith, Bool-cases,
}
use nanok8s.Backup.Listing.{Stamped, insert_stamped, sort_stamped, last_name}

-- None is newer than the one that has the name.
pub record IsNewest (n : String) (cs : List Stamped) : Type 0 where
  pub time : ℕ
  pub there : Memᴰ (n, time) cs
  pub newest : (d : Stamped) → Memᴰ d cs → d.1 ≤ time

Mem-insert :
    (d c : Stamped) (cs : List Stamped) → Memᴰ d (insert_stamped c cs) ↔ ((d ≡ c) ⊎ Memᴰ d cs)
unfolding insert_stamped
Mem-insert d c [] = (
  λ m. elim m [ head e ↦ inl e | tail k ↦ inr k ],
  λ m. elim m [ inl e ↦ head e | inr k ↦ tail k ],
)
Mem-insert d c (x ∷ cs) =
    let ih = Mem-insert d c cs in
    elim (Bool-cases (ltb x.1 c.1)) [
      | inl y ↦ rw y (
        λ m. elim m [
          | head e ↦ inr (head e)
          | tail k ↦ elim (ih.0 k) [ inl e ↦ inl e | inr j ↦ inr (tail j) ]
        ],
        λ m. elim m [
          | inl e ↦ tail (ih.1 (inl e))
          | inr j ↦ elim j [ head e ↦ head e | tail k ↦ tail (ih.1 (inr k)) ]
        ],
      )
      | inr z ↦ rw z (
        λ m. elim m [ head e ↦ inl e | tail k ↦ inr k ],
        λ m. elim m [ inl e ↦ head e | inr k ↦ tail k ],
      )
    ]

-- What the insertion sort keeps: the last element is newer than all.
record Ends (ds : List Stamped) : Type 0 where
  name : String
  time : ℕ
  last : last_name ds ≡ name
  there : Memᴰ (name, time) ds
  newest : (d : Stamped) → Memᴰ d ds → d.1 ≤ time

last-cons :
    (x c : Stamped) (ds : List Stamped)
    → last_name (x ∷ insert_stamped c ds) ≡ last_name (insert_stamped c ds)
unfolding insert_stamped last_name
last-cons x c [] = refl
last-cons x c (d ∷ ds) = elim (Bool-cases (ltb d.1 c.1)) [ inl y ↦ rw y refl | inr z ↦ rw z refl ]

last-more : (x d : Stamped) (ds : List Stamped) → Memᴰ d ds → last_name (x ∷ ds) ≡ last_name ds
unfolding last_name
last-more x d [] m = elim m [ ]
last-more x d (e ∷ ds) m = refl

ltb-true : (a b : ℕ) → a < b → ltb a b ≡ true
ltb-true a b h = ground arith

ltb-false : (a b : ℕ) → b ≤ a → ltb a b ≡ false
ltb-false a b h = ground arith

not_ltb : (a b : ℕ) → ltb a b ≡ false → b ≤ a
not_ltb a b h = ground arith

is_ltb : (a b : ℕ) → ltb a b ≡ true → a < b
is_ltb a b h = ground arith

last-insert_new :
    (c : Stamped) (ds : List Stamped)
    → ((d : Stamped) → Memᴰ d ds → d.1 < c.1)
    → last_name (insert_stamped c ds) ≡ c.0
unfolding insert_stamped last_name
last-insert_new c [] h = refl
last-insert_new c (d ∷ ds) h =
    rw (ltb-true d.1 c.1 (h d (head refl)))
      (last-cons d c ds ∙ last-insert_new c ds (λ e m. h e (tail m)))

last-insert_old :
    (c : Stamped) (ds : List Stamped) (d : Stamped)
    → Memᴰ d ds
    → c.1 ≤ d.1
    → last_name (insert_stamped c ds) ≡ last_name ds
unfolding insert_stamped last_name
last-insert_old c [] d m h = elim m [ ]
last-insert_old c (x ∷ ds) d m h = elim (Bool-cases (ltb x.1 c.1)) [
  | inl y ↦ rw y (elim m [
    | head e ↦ absurd (cc (sym y ∙ ap (λ (p : Stamped). ltb p.1 c.1) (sym e) ∙ ltb-false d.1 c.1 h))
    | tail k ↦ last-cons x c ds ∙ last-insert_old c ds d k h ∙ sym (last-more x d ds k)
  ])
  | inr z ↦ rw z refl
]

Ends-insert : (c : Stamped) (ds : List Stamped) → Ends ds → Ends (insert_stamped c ds)
Ends-insert c ds h = elim (Bool-cases (ltb h.time c.1)) [
  | inl y ↦ record {
    name = c.0;
    time = c.1;
    last = last-insert_new c ds (λ d m. omega (arith, h.newest d m, is_ltb h.time c.1 y));
    there = (Mem-insert c c ds).1 (inl refl);
    newest = λ d m. elim ((Mem-insert d c ds).0 m) [
      | inl e ↦ rw e (omega arith)
      | inr k ↦ omega (arith, h.newest d k, is_ltb h.time c.1 y)
    ];
  }
  | inr z ↦ record {
    name = h.name;
    time = h.time;
    last = last-insert_old c ds (h.name, h.time) h.there (not_ltb h.time c.1 z) ∙ h.last;
    there = (Mem-insert (h.name, h.time) c ds).1 (inr h.there);
    newest = λ d m. elim ((Mem-insert d c ds).0 m) [
      | inl e ↦ rw e (not_ltb h.time c.1 z)
      | inr k ↦ h.newest d k
    ];
  }
]

Ends-sort :
    (ds cs : List Stamped)
    → Ends ds
    → Ends (sort_stamped ds cs)
      × ((d : Stamped) → Memᴰ d (sort_stamped ds cs) ↔ (Memᴰ d ds ⊎ Memᴰ d cs))
unfolding sort_stamped
Ends-sort ds [] h = (h, λ d. (λ m. inl m, λ m. elim m [ inl k ↦ k | inr k ↦ elim k [ ] ]))
Ends-sort ds (c ∷ cs) h =
    let ih = Ends-sort (insert_stamped c ds) cs (Ends-insert c ds h) in
    (
      ih.0,
      λ d. (
        λ m. elim ((ih.1 d).0 m) [
          | inl k ↦ elim ((Mem-insert d c ds).0 k) [ inl e ↦ inr (head e) | inr j ↦ inl j ]
          | inr k ↦ inr (tail k)
        ],
        λ m. elim m [
          | inl k ↦ (ih.1 d).1 (inl ((Mem-insert d c ds).1 (inr k)))
          | inr k ↦ elim k [
            | head e ↦ (ih.1 d).1 (inl ((Mem-insert d c ds).1 (inl e)))
            | tail j ↦ (ih.1 d).1 (inr j)
          ]
        ],
      ),
    )

-- Of one candidate or more, the one that comes first in LatestForDeployment's order is a
-- candidate, and no candidate has a later modification time.
pub last_name-IsNewest :
    (c : Stamped) (cs : List Stamped) → IsNewest (last_name (sort_stamped [] (c ∷ cs))) (c ∷ cs)
unfolding sort_stamped insert_stamped last_name
last_name-IsNewest c cs =
    let (h, all) = Ends-sort (c ∷ []) cs one in
    record {
      time = h.time;
      there = from _ (
          (all _).0 (
            subst (λ n. Memᴰ {A = Stamped} (n, h.time) (sort_stamped (c ∷ []) cs)) (sym h.last)
              h.there));
      newest = λ d m. h.newest d ((all d).1 (to d m));
    }
  where
    one : Ends (c ∷ [])
    one = record {
      name = c.0;
      time = c.1;
      last = refl;
      there = head refl;
      newest = λ d m. elim m [ head e ↦ rw e (omega arith) | tail k ↦ elim k [ ] ];
    }

    from : (d : Stamped) → Memᴰ d (c ∷ []) ⊎ Memᴰ d cs → Memᴰ d (c ∷ cs)
    from d (inl (head e)) = head e
    from d (inl (tail k)) = elim k [ ]
    from d (inr k) = tail k

    to : (d : Stamped) → Memᴰ d (c ∷ cs) → Memᴰ d (c ∷ []) ⊎ Memᴰ d cs
    to d (head e) = inl (head e)
    to d (tail k) = inr k
