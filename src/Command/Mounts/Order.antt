-- ===== src/Command/Mounts/Order.antt =====
-- cmd/nanok8s/reset.go: mounts that are nested are detached from the inside.
use Prim.Native.Nat.{compare as compare_ℕ, Ordering}
use Prim.Native.Char.{Char, code}
use Prim.Native.String.{compare, then}
use Prim.Native.String.compare as compare_text
use nanok8s.Base.{
  ℕ, String, ◌<>◌, ◌≡◌, ◌≢◌, ◌⊎◌, inl, inr, refl, sym, ◌∙◌, subst, List, [], ◌∷◌, ◌++◌, arith,
}
use text.Mathlib.TextLemmas.{cons-append, nil-append}
use mathlib.Core.List.{Permᴰ}
use mathlib.Core.List.Permᴰ.{refl as Perm_refl}
use nanok8s.Command.Mounts.{insert_target, sort_targets}

-- The first text does not come before the second.
abbrev AtLeast : String → String → Type 0
AtLeast s t = compare s t ≢ Ordering.lt

then_trans :
    (x y z : ℕ) (a b c : Ordering)
    → (a ≢ Ordering.lt → b ≢ Ordering.lt → c ≢ Ordering.lt)
    → then (compare_ℕ x y) a ≢ Ordering.lt
    → then (compare_ℕ y z) b ≢ Ordering.lt
    → then (compare_ℕ x z) c ≢ Ordering.lt
then_trans x y z a b c k h l = ground arith

-- One text comes before another, or it does not and then the other comes no later.
then_asym :
    (x y : ℕ) (a b : Ordering)
    → (a ≡ Ordering.lt → b ≢ Ordering.lt)
    → then (compare_ℕ x y) a ≡ Ordering.lt
    → then (compare_ℕ y x) b ≢ Ordering.lt
then_asym x y a b k h = ground arith

AtLeast-nil : (s : String) → AtLeast s ""
AtLeast-nil String.[] h = cc (sym compare_text.nil-nil ∙ h)
AtLeast-nil (String.◌∷◌ c s) h = cc (sym (compare_text.cons-nil c s) ∙ h)

AtLeast-trans : (s t u : String) → AtLeast s t → AtLeast t u → AtLeast s u
AtLeast-trans s t String.[] h k = AtLeast-nil s
AtLeast-trans String.[] String.[] (String.◌∷◌ d u) h k = k
AtLeast-trans (String.◌∷◌ c s) String.[] (String.◌∷◌ d u) h k =
    absurd (k (compare_text.nil-cons d u))
AtLeast-trans String.[] (String.◌∷◌ d t) (String.◌∷◌ e u) h k =
    absurd (h (compare_text.nil-cons d t))
AtLeast-trans (String.◌∷◌ c s) (String.◌∷◌ d t) (String.◌∷◌ e u) h k = λ p.
    then_trans (code c) (code d) (code e) _ _ _ (AtLeast-trans s t u)
      (λ q. h (compare_text.cons-cons c d s t ∙ q)) (λ q. k (compare_text.cons-cons d e t u ∙ q))
      (sym (compare_text.cons-cons c e s u) ∙ p)

AtLeast-flip : (s t : String) → compare s t ≡ Ordering.lt → AtLeast t s
AtLeast-flip String.[] t h = AtLeast-nil t
AtLeast-flip (String.◌∷◌ c s) String.[] h = absurd (AtLeast-nil _ h)
AtLeast-flip (String.◌∷◌ c s) (String.◌∷◌ d t) h = λ p.
    then_asym (code c) (code d) _ _ (AtLeast-flip s t) (sym (compare_text.cons-cons c d s t) ∙ h)
      (sym (compare_text.cons-cons d c t s) ∙ p)

then_same : (x : ℕ) (a : Ordering) → then (compare_ℕ x x) a ≡ a
then_same x a = ground arith

-- A path comes before those that lie below it.
longer : (s : String) (c : Char) (t : String) → compare s (s <> String.◌∷◌ c t) ≡ Ordering.lt
longer String.[] c t = rw nil-append (compare_text.nil-cons c t)
longer (String.◌∷◌ d s) c t =
    rw cons-append (compare_text.cons-cons d d s _ ∙ then_same (code d) _ ∙ longer s c t)

-- Every text of a list comes no later than the first one given.
abbrev AllBelow : String → List String → Type 0
AllBelow s [] = Unit
AllBelow s (t ∷ ts) = AtLeast s t × AllBelow s ts

abbrev Descending : List String → Type 0
Descending [] = Unit
Descending (s ∷ ss) = AllBelow s ss × Descending ss

AllBelow-weaken : (s t : String) (us : List String) → AtLeast s t → AllBelow t us → AllBelow s us
AllBelow-weaken s t [] h k = tt
AllBelow-weaken s t (u ∷ us) h k = (AtLeast-trans s t u h k.0, AllBelow-weaken s t us h k.1)

-- Where the sort puts a text: behind the first one, or before it, and then it comes no earlier.
inserted :
    (t u : String) (us : List String)
    → ((compare t u ≡ Ordering.lt) × (insert_target t (u ∷ us) ≡ u ∷ insert_target t us))
      ⊎ (AtLeast t u × (insert_target t (u ∷ us) ≡ t ∷ u ∷ us))
unfolding insert_target
inserted t u us = from (compare t u) refl
  where
    from :
        (o : Ordering)
        → compare t u ≡ o
        → ((compare t u ≡ Ordering.lt) × (insert_target t (u ∷ us) ≡ u ∷ insert_target t us))
          ⊎ (AtLeast t u × (insert_target t (u ∷ us) ≡ t ∷ u ∷ us))
    from Ordering.lt e = inl (e, rw (insert_target, e) refl)
    from Ordering.eq e = inr (λ p. cc (sym e ∙ p), rw (insert_target, e) refl)
    from Ordering.gt e = inr (λ p. cc (sym e ∙ p), rw (insert_target, e) refl)

AllBelow-insert :
    (s t : String) (us : List String)
    → AtLeast s t
    → AllBelow s us
    → AllBelow s (insert_target t us)
AllBelow-insert s t [] h k = unfold insert_target in (h, tt)
AllBelow-insert s t (u ∷ us) h k = elim (inserted t u us) [
  | inl (e, i) ↦ rw i (k.0, AllBelow-insert s t us h k.1)
  | inr (n, i) ↦ rw i (h, k)
]

Descending-insert :
    (t : String) (us : List String) → Descending us → Descending (insert_target t us)
Descending-insert t [] h = unfold insert_target in (tt, tt)
Descending-insert t (u ∷ us) h = elim (inserted t u us) [
  | inl (e, i) ↦ rw i (AllBelow-insert u t us (AtLeast-flip t u e) h.0, Descending-insert t us h.1)
  | inr (n, i) ↦ rw i ((n, AllBelow-weaken t u us n h.0), h)
]

Descending-sort : (ts : List String) → Descending (sort_targets ts)
unfolding sort_targets
Descending-sort [] = tt
Descending-sort (t ∷ ts) = Descending-insert t _ (Descending-sort ts)

insert-Perm : (t : String) (us : List String) → Permᴰ (insert_target t us) (t ∷ us)
insert-Perm t [] = unfold insert_target in Perm_refl _
insert-Perm t (u ∷ us) = elim (inserted t u us) [
  | inl (e, i) ↦ rw i (Permᴰ.trans (Permᴰ.cons refl (insert-Perm t us)) (Permᴰ.swap refl refl))
  | inr (n, i) ↦ rw i (Perm_refl _)
]

pub sort-Perm : (ts : List String) → Permᴰ (sort_targets ts) ts
unfolding sort_targets
sort-Perm [] = Permᴰ.nil
sort-Perm (t ∷ ts) = Permᴰ.trans (insert-Perm t _) (Permᴰ.cons refl (sort-Perm ts))

later_no_longer :
    (s : String) (c : Char) (r : String) (ys zs : List String)
    → ¬ AllBelow s (ys ++ (s <> String.◌∷◌ c r) ∷ zs)
later_no_longer s c r [] zs h = h.0 (longer s c r)
later_no_longer s c r (y ∷ ys) zs h = later_no_longer s c r ys zs h.1

split_no_longer :
    (xs ys zs : List String) (s : String) (c : Char) (r : String)
    → ¬ Descending (xs ++ s ∷ ys ++ (s <> String.◌∷◌ c r) ∷ zs)
split_no_longer [] ys zs s c r h = later_no_longer s c r ys zs h.0
split_no_longer (x ∷ xs) ys zs s c r h = split_no_longer xs ys zs s c r h.1

-- No path that lies below another one's comes after that one.
abbrev pub NestedFirst : List String → Type 0
NestedFirst ts =
    (xs ys zs : List String) (s : String) (c : Char) (r : String)
    → ts ≢ xs ++ s ∷ ys ++ (s <> String.◌∷◌ c r) ∷ zs

pub sort-NestedFirst : (ts : List String) → NestedFirst (sort_targets ts)
sort-NestedFirst ts xs ys zs s c r e =
    split_no_longer xs ys zs s c r (subst Descending e (Descending-sort ts))
