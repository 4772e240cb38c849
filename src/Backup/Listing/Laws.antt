-- ===== src/Backup/Listing/Laws.antt =====
-- What `List` lists.
use mathlib.Core.List.{Memᴰ}
use mathlib.Core.List.Memᴰ.{head, tail}
use nanok8s.Base.{
  String, ◌<>◌, ◌≡◌, Option, none, some, ◌↔◌, sym, ap, ◌∙◌, inl, inr, Bool, true, false, refl, not,
  ◌&&◌, ◌||◌, List, [], ◌∷◌, Bool-cases,
}
use nanok8s.Base.Text.{has_suffix, cut, cut_around, cut_found, has_suffix-append, has_suffix_split}
use nanok8s.Backup.Listing.{backups_of, is_backup_name, has_separator}

Mem_names :
    (n : String) (es : List (String × Bool))
    → Memᴰ n (backups_of es) ↔ (Memᴰ (n, true) es × (is_backup_name n ≡ true))
unfolding backups_of
Mem_names n [] = (λ m. elim m [ ], λ m. elim m.0 [ ])
Mem_names n ((x, false) ∷ es) =
    let ih = Mem_names n es in
    (
      λ m. (tail (ih.0 m).0, (ih.0 m).1),
      λ m. ih.1 (elim m.0 [ head e ↦ cc (ap (λ (p : String × Bool). p.1) e) | tail k ↦ k ], m.1),
    )
Mem_names n ((x, true) ∷ es) =
    let ih = Mem_names n es in
    elim (Bool-cases (is_backup_name x)) [
      | inl y ↦ rw y (
        λ m. elim m [
          | head e ↦ (head (ap (λ (s : String). (s, true)) e), ap is_backup_name e ∙ y)
          | tail k ↦ (tail (ih.0 k).0, (ih.0 k).1)
        ],
        λ m. elim m.0 [
          | head e ↦ head (ap (λ (p : String × Bool). p.0) e)
          | tail k ↦ tail (ih.1 (k, m.1))
        ],
      )
      | inr z ↦ rw z (
        λ m. (tail (ih.0 m).0, (ih.0 m).1),
        λ m. elim m.0 [
          | head e ↦ cc (sym z ∙ ap is_backup_name (sym (ap (λ (p : String × Bool). p.0) e)) ∙ m.1)
          | tail k ↦ ih.1 (k, m.1)
        ],
      )
    ]

-- The name of a whole backup: that of no half-made copy, of no set-aside directory, and with an
-- underscore somewhere.
abbrev pub IsWhole : String → Type 0
IsWhole n =
    (¬ ((r : String) × (n ≡ r <> ".tmp")) × ¬ ((r : String) × (n ≡ r <> ".restoring")))
    × ((a : String) × ((b : String) × (n ≡ a <> "_" <> b)))

ends : (n t : String) → has_suffix n t ≡ false → ¬ ((r : String) × (n ≡ r <> t))
ends n t h (r, e) = absurd (cc (h, ap (λ z. has_suffix z t) e ∙ has_suffix-append r t))

ends_not : (n t : String) → ¬ ((r : String) × (n ≡ r <> t)) → has_suffix n t ≡ false
ends_not n t h = elim (Bool-cases (has_suffix n t)) [
  | inl y ↦ absurd (h (has_suffix_split n t y))
  | inr z ↦ z
]

separated :
    (n : String) (o : Option (String × String))
    → cut n ≡ o
    → has_separator o ≡ true
    → (a : String) × ((b : String) × (n ≡ a <> "_" <> b))
unfolding has_separator
separated n none e h = absurd (cc h)
separated n (some (a, b)) e h = (a, (b, cut_around n a b e))

tests_hold : (x y z : Bool) → (not (x || y) && z) ≡ true → ((x ≡ false) × (y ≡ false)) × (z ≡ true)
tests_hold true y z h = absurd (cc h)
tests_hold false true z h = absurd (cc h)
tests_hold false false z h = ((refl, refl), h)

is_backup_name-IsWhole : (n : String) → (is_backup_name n ≡ true) ↔ IsWhole n
unfolding is_backup_name
is_backup_name-IsWhole n = (
  λ h.
      let ((x, y), z) =
        tests_hold (has_suffix n ".tmp") (has_suffix n ".restoring") (has_separator (cut n)) h in
      ((ends n ".tmp" x, ends n ".restoring" y), separated n (cut n) refl z),
  λ w. rw (ends_not n ".tmp" w.0.0) (rw (ends_not n ".restoring" w.0.1) (found w.1)),
)
  where
    found : (a : String) × ((b : String) × (n ≡ a <> "_" <> b)) → has_separator (cut n) ≡ true
    found (a, (b, e)) =
        let (r, k) = cut_found a b in
        ap (λ z. has_separator (cut z)) e ∙ ap has_separator k ∙ unfold has_separator in refl

-- The loop of List returns a name exactly if a directory has it, it is no text with .tmp and none
-- with .restoring behind it, and it is two texts around an underscore.
pub Mem-backups_of :
    (n : String) (es : List (String × Bool))
    → Memᴰ n (backups_of es) ↔ (Memᴰ (n, true) es × IsWhole n)
Mem-backups_of n es = (
  λ m. (((Mem_names n es).0 m).0, (is_backup_name-IsWhole n).0 ((Mem_names n es).0 m).1),
  λ m. (Mem_names n es).1 (m.0, (is_backup_name-IsWhole n).1 m.1),
)
