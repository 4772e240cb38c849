-- ===== src/Backup/Listing/Spared.antt =====
-- internal/backup/backup.go: which backups Prune spares, and which it removes.
use nanok8s.Base.{
  String, ◌≡◌, ◌≢◌, ◌↔◌, inl, inr, sym, ◌∙◌, ap, subst, true, List, [], ◌∷◌, ◌++◌, All,
}
use mathlib.Core.List.{Memᴰ}
use mathlib.Core.List.Memᴰ.{head, tail}
use nanok8s.Os.Tree.{Node, get}
use nanok8s.Os.Spec.Runs.{Run, Run-Triple, Run-pure, Run-bind, Run-if, Run-weaken, Run-given}
use nanok8s.Os.Spec.Rules.{Triple-weaken}
use nanok8s.Backup.{backup_path}
use nanok8s.Backup.Listing as Listing
use nanok8s.Backup.Listing.{
  prune_one, prune_group, prune_unknown, prune, Groups, add_to, member, deployment_of, reverse_onto,
  sort_names,
}
use nanok8s.Backup.Listing.Latest.{backups_in, list_lem}
use nanok8s.Backup.Listing.Sorting.{sort_by, Older, Older-differs, Older-dropped, All-dropped}
use nanok8s.Backup.Listing.Grouping.{
  Safe, Free, Rival, Rival-differs, add_to-Free, add_to-Safe, add_to-newest,
}
use nanok8s.Backup.Listing.Pruned.{time, Kept, Inv, Run-for_each, sort_names-time, prune_one-Inv}

pub All-Mem : {A : Type 0} (P : A → Type 0) (xs : List A) (a : A) → All P xs → Memᴰ a xs → P a
All-Mem P [] a h m = elim m [ ]
All-Mem P (x ∷ xs) a h m = elim m [ head e ↦ subst P (sym e) h.0 | tail k ↦ All-Mem P xs a h.1 k ]

All-map :
    {A : Type 0} (P Q : A → Type 0) (xs : List A) → ((a : A) → P a → Q a) → All P xs → All Q xs
All-map P Q [] k h = tt
All-map P Q (x ∷ xs) k h = (k x h.0, All-map P Q xs k h.1)

module _ (t : Node) (x : String) where
  pub dropped-differs :
      (g : String × List String)
      → Safe (time t) x g
      → All (λ y. y ≢ x) (Listing.tail (reverse_onto (sort_by (time t) [] g.1) []))
  dropped-differs (d, ns) (inl k) =
      All-map (Older (time t) x) (λ y. y ≢ x) _ (Older-differs (time t) x)
        (Older-dropped (time t) x ns k.1)
  dropped-differs (d, ns) (inr o) = All-dropped (time t) (λ y. y ≢ x) ns o

  pub prune_group-Inv :
      (g : String × List String)
      → Safe (time t) x g
      → Run (Inv t x) (prune_group g) (λ u. Inv t x) (Kept t x)
  unfolding prune_group
  prune_group-Inv (d, []) s = Run-weaken (λ u h. h) (λ a u h. h) (λ u h. h) (Run-pure tt)
  prune_group-Inv (d, n ∷ []) s = Run-weaken (λ u h. h) (λ a u h. h) (λ u h. h) (Run-pure tt)
  prune_group-Inv (d, n ∷ m ∷ ns) s = Run-bind (sort_names-time t x [] (n ∷ m ∷ ns)) λ sorted.
      Run-given λ e. Run-for_each _ prune_one λ y k. prune_one-Inv t x y (
        All-Mem (λ z. z ≢ x) _ y (dropped-differs (d, n ∷ m ∷ ns) s)
          (subst (λ l. Memᴰ y (Listing.tail (reverse_onto l []))) e k))

  module _ (known : List String) (is_known : member (deployment_of x) known ≡ true) where
    abbrev pub Grouped : Groups → Node → Type 0
    Grouped gs u = Inv t x u × All (Safe (time t) x) gs

    after-newest :
        (ns : List String) (gs : Groups)
        → All (Rival (time t) x) ns
        → All (Safe (time t) x) gs
        → Run (Inv t x) (prune_unknown known ns gs) Grouped (Kept t x)
    unfolding prune_unknown
    after-newest [] gs r s = Run-weaken (λ u h. (h, s)) (λ a u h. h) (λ u h. h) (Run-pure gs)
    after-newest (n ∷ ns) gs r s =
        Run-if (member (deployment_of n) known)
          (λ y. after-newest ns _ r.1 (add_to-Safe (time t) x n r.0 gs s))
          (λ z.
            Run-bind (prune_one-Inv t x n (Rival-differs (time t) x n r.0))
              λ u. after-newest ns gs r.1 s)

    pub up_to-newest :
        (before after : List String) (gs : Groups)
        → All (Rival (time t) x) before
        → All (Rival (time t) x) after
        → All (Free (time t) x) gs
        → Run (Inv t x) (prune_unknown known (before ++ x ∷ after) gs) Grouped (Kept t x)
    unfolding prune_unknown
    up_to-newest [] after gs b a f =
        rw is_known (after-newest after _ a (add_to-newest (time t) x gs f))
    up_to-newest (n ∷ ns) after gs b a f =
        Run-if (member (deployment_of n) known)
          (λ y. up_to-newest ns after _ b.1 a (add_to-Free (time t) x n b.0 gs f))
          (λ z.
            Run-bind (prune_one-Inv t x n (Rival-differs (time t) x n b.0))
              λ u. up_to-newest ns after gs b.1 a f)

-- The listing reads the names of all backups.
pub list-Inv :
    (t : Node) (x : String)
    → Run (λ u. u ≡ t) Listing.list (λ ns u. Inv t x u × (ns ≡ backups_in t)) (Kept t x)
list-Inv t x =
    Run-Triple (
      Triple-weaken (λ u e. e) (λ ns u h. (begin u h.0, h.1)) (λ e u h. (begin u h).0) (list_lem t))
  where
    begin : (u : Node) → u ≡ t → Inv t x u
    begin u e =
        let at : (y : String) → get (backup_path y) u ≡ get (backup_path y) t =
          λ y. ap (get (backup_path y)) e in
        (at x, λ y. inl (at y))

-- Prune visits each group, in some order, and no other.
abbrev pub Reorders : (Groups → Groups) → Type 0
Reorders order = (gs : Groups) (g : String × List String) → Memᴰ g (order gs) ↔ Memᴰ g gs

-- Of the backups in a tree, x is the newest of its deployment.
pub record NewestBackup (t : Node) (x : String) : Type 0 where
  pub before : List String
  pub after : List String
  pub names : backups_in t ≡ before ++ x ∷ after
  pub older_before : All (Rival (time t) x) before
  pub older_after : All (Rival (time t) x) after

module _ (order : Groups → Groups) (O : Reorders order) (known : List String) (t : Node) where
  pub spared :
      (x : String)
      → member (deployment_of x) known ≡ true
      → NewestBackup t x
      → Run (λ u. u ≡ t) (prune order known) (λ u. Kept t x) (Kept t x)
  unfolding prune
  spared x is_known N = Run-bind (list-Inv t x) λ names. Run-given λ e.
      Run-bind
        (rw (e ∙ N.names)
          (up_to-newest t x known is_known N.before N.after [] N.older_before N.older_after tt))
        λ gs. Run-given λ safe.
          Run-weaken (λ u h. h) (λ a u h. h.0) (λ u h. h)
            (Run-for_each (order gs) prune_group
              λ g m. prune_group-Inv t x g (All-Mem (Safe (time t) x) gs g safe ((O gs g).0 m)))
