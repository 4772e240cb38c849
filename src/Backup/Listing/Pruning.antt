-- ===== src/Backup/Listing/Pruning.antt =====
-- internal/backup/backup.go: what Prune comes to.
use nanok8s.Base.{
  ℕ, String, ◌<>◌, Option, some, ap, ◌≡◌, ◌≢◌, ◌⊎◌, inl, inr, refl, sym, ◌∙◌, subst, true, false,
  none, List, [], ◌∷◌, ◌++◌, All,
}
use mathlib.Core.List.{Memᴰ}
use mathlib.Core.List.Memᴰ.{head, tail}
use nanok8s.Os.Tree.{Node, get}
use nanok8s.Os.World.{World, for_each}
use nanok8s.Os.Spec.Runs.{Run, RunPost, Run-bind, Run-weaken, Run-given, Run-both, Keeps-nothing}
use text.Mathlib.TextLemmas.{append_cancel_left}
use nanok8s.Base.Text.{cut, cut_around, cut-append}
use nanok8s.State.{LastBoot}
use nanok8s.Backup.{name, backup_path}
use nanok8s.Backup.Listing as Listing
use nanok8s.Backup.Listing.{
  prune_one, prune_group, prune_unknown, prune, Groups, member, deployment_of, reverse_onto,
}
use nanok8s.Backup.Listing.Latest.{backups_in}
use nanok8s.Backup.Listing.Sorting.{Newest, here, there}
use nanok8s.Backup.Listing.Grouping.{Safe}
use nanok8s.Backup.Listing.Membership.{group_of, group_by, group_by-there, Mem-group_of, Mem-sorted}
use nanok8s.Backup.Listing.Pruned.{time, Kept, Inv, Run-for_each, sort_names-time}
use nanok8s.Backup.Listing.Spared.{
  NewestBackup, Reorders, spared, All-Mem, list-Inv, up_to-newest, prune_group-Inv,
}
use nanok8s.Backup.Listing.Removed.{
  Gone, Any, Run-for_each-at, prune_one_removes, prune_one-Gone, prune_group-Gone,
  prune_unknown_removes, prune_unknown-group_by,
}

Newest-Mem : (time : String → ℕ) (x : String) (ns : List String) → Newest time x ns → Memᴰ x ns
Newest-Mem time x [] k = elim k [ ]
Newest-Mem time x (n ∷ ns) (here a) = head refl
Newest-Mem time x (n ∷ ns) (there h k) = tail (Newest-Mem time x ns k)

only : (z n : String) → Memᴰ z (n ∷ []) → z ≡ n
only z n m = elim m [ head e ↦ e | tail k ↦ elim k [ ] ]

Mem-middle : (x : String) (before after : List String) → Memᴰ x (before ++ x ∷ after)
Mem-middle x [] after = head refl
Mem-middle x (n ∷ ns) after = tail (Mem-middle x ns after)

module _ (t : Node) (x y : String) (older : y ≢ x) where
  prune_group_removes :
      (d : String) (ns : List String)
      → Newest (time t) x ns
      → Memᴰ y ns
      → Run (Inv t x) (prune_group (d, ns)) (λ u. Gone y) Any
  unfolding prune_group
  prune_group_removes d [] k m = elim m [ ]
  prune_group_removes d (n ∷ []) k m =
      absurd (older (only y n m ∙ sym (only x n (Newest-Mem (time t) x (n ∷ []) k))))
  prune_group_removes d (n ∷ l ∷ ns) k m =
      Run-bind
        (Run-weaken (λ u h. h) (λ a u h. h) (λ u h. tt) (sort_names-time t x [] (n ∷ l ∷ ns)))
        λ sorted. Run-given λ e.
          Run-weaken (λ u h. tt) (λ a u h. h) (λ u h. h)
            (Run-for_each-at _ prune_one y
              (subst (λ s. Memᴰ y (Listing.tail (reverse_onto s []))) (sym e)
                (Mem-sorted (time t) x y (n ∷ l ∷ ns) k older m))
              (λ z j. Keeps-nothing (prune_one z)) (prune_one_removes y) (prune_one-Gone y))

-- A backup of a known deployment that is not the newest
module _ (order : Groups → Groups) (O : Reorders order) (known : List String) (t : Node)
    (x y : String) (N : NewestBackup t x) (is_known : member (deployment_of x) known ≡ true)
    (older : y ≢ x) (same : deployment_of y ≡ deployment_of x)
    (listed : Memᴰ y (backups_in t)) where
  abbrev g : Groups → String × List String
  g gs = (deployment_of x, group_of (deployment_of x) gs)

  in_group : Memᴰ y (group_of (deployment_of x) (group_by known (backups_in t) []))
  in_group =
      subst (λ d. Memᴰ y (group_of d (group_by known (backups_in t) []))) same
        (group_by-there y known (backups_in t) []
          (subst (λ d. member d known ≡ true) (sym same) is_known) listed)

  newest_in_group : Memᴰ x (group_of (deployment_of x) (group_by known (backups_in t) []))
  newest_in_group =
      group_by-there x known (backups_in t) [] is_known
        (subst (Memᴰ x) (sym N.names) (Mem-middle x N.before N.after))

  grouped :
      Run
        (Inv t x)
        (prune_unknown known (backups_in t) [])
        (λ gs u. Inv t x u × (All (Safe (time t) x) gs × (gs ≡ group_by known (backups_in t) [])))
        Any
  grouped =
      Run-weaken (λ u h. (h, tt)) (λ gs u h. (h.0.0, (h.0.1, h.1))) (λ u h. tt)
        (Run-both {Q = λ gs u. Inv t x u × All (Safe (time t) x) gs}
          {R = λ gs u. gs ≡ group_by known (backups_in t) []} {X = Kept t x} {Y = Any}
          (rw N.names
            (up_to-newest t x known is_known N.before N.after [] N.older_before N.older_after tt))
          (prune_unknown-group_by known (backups_in t) []))

  removed_rival : Run (λ u. u ≡ t) (prune order known) (λ u. Gone y) Any
  unfolding prune
  removed_rival =
      Run-bind (Run-weaken (λ u h. h) (λ a u h. h) (λ u h. tt) (list-Inv t x))
        λ names. Run-given λ e. rw e (Run-bind grouped λ gs. Run-given λ k. visited gs k.0 k.1)
    where
      visited :
          (gs : Groups)
          → All (Safe (time t) x) gs
          → gs ≡ group_by known (backups_in t) []
          → Run (Inv t x) (for_each (order gs) prune_group) (λ u. Gone y) Any
      visited gs safe e =
          let there = subst (λ h. Memᴰ y (group_of (deployment_of x) h)) (sym e) in_group in
          let found = subst (λ h. Memᴰ x (group_of (deployment_of x) h)) (sym e) newest_in_group in
          let mem = Mem-group_of y (deployment_of x) gs there in
          Run-for_each-at (order gs) prune_group (g gs) ((O gs (g gs)).1 mem)
            (λ h m.
              Run-weaken (λ u i. i) (λ a u i. i) (λ u i. tt)
                (prune_group-Inv t x h (All-Mem (Safe (time t) x) gs h safe ((O gs h).0 m))))
            (dropped (All-Mem (Safe (time t) x) gs (g gs) safe mem) found there)
            (prune_group-Gone y)
        where
          dropped :
              Safe (time t) x (g gs)
              → Memᴰ x (group_of (deployment_of x) gs)
              → Memᴰ y (group_of (deployment_of x) gs)
              → Run (Inv t x) (prune_group (g gs)) (λ u. Gone y) Any
          dropped (inl k) f m =
              prune_group_removes t x y older (deployment_of x) (group_of (deployment_of x) gs) k.1
                m
          dropped (inr o) f m =
              absurd (All-Mem (λ z. z ≢ x) (group_of (deployment_of x) gs) x o f refl)

-- A backup of an unknown deployment
removed_unknown :
    (order : Groups → Groups) (known : List String) (t : Node) (y : String)
    → member (deployment_of y) known ≡ false
    → Memᴰ y (backups_in t)
    → Run (λ u. u ≡ t) (prune order known) (λ u. Gone y) Any
unfolding prune
removed_unknown order known t y unknown m =
    Run-bind (Run-weaken (λ u h. h) (λ a u h. (tt, h.1)) (λ u h. tt) (list-Inv t y)) λ names.
      Run-given {P = Any} λ e.
        Run-bind (prune_unknown_removes y known names [] unknown (subst (Memᴰ y) (sym e) m))
          λ gs. Run-for_each (order gs) prune_group (λ g i. prune_group-Gone y g)

spared_and_removed :
    (order : Groups → Groups) (known : List String) (w : World) (x y : String)
    → Reorders order
    → member (deployment_of x) known ≡ true
    → NewestBackup w.fs x
    → Memᴰ y (backups_in w.fs)
    → (member (deployment_of y) known ≡ false) ⊎ ((deployment_of y ≡ deployment_of x) × (y ≢ x))
    → RunPost
        (λ u v. (get (backup_path x) v ≡ get (backup_path x) w.fs) × (get (backup_path y) v ≡ none))
        (λ v. get (backup_path x) v ≡ get (backup_path x) w.fs)
        (prune order known w)
spared_and_removed order known w x y O is_known N m useless =
    (Run-weaken (λ u h. (h, h)) (λ a u h. h) (λ u h. h.0)
        (Run-both (spared order O known w.fs x is_known N) (removed useless))).at
      w refl
  where
    removed :
        (member (deployment_of y) known ≡ false) ⊎ ((deployment_of y ≡ deployment_of x) × (y ≢ x))
        → Run (λ u. u ≡ w.fs) (prune order known) (λ u. Gone y) Any
    removed (inl unknown) = removed_unknown order known w.fs y unknown m
    removed (inr rival) = removed_rival order O known w.fs x y N is_known rival.1 rival.0 m

-- No underscore stands in the text.
abbrev pub IsPlain : String → Type 0
IsPlain id = ¬ ((a : String) × ((b : String) × (id ≡ a <> "_" <> b)))

uncut : (id : String) (o : Option (String × String)) → IsPlain id → cut id ≡ o → o ≡ none
uncut id none plain e = refl
uncut id (some (a, b)) plain e = absurd (plain (a, (b, cut_around id a b e)))

-- A backup's directory is grouped under the deployment whose backup it is.
deployment_of-name :
    (m : LastBoot) → IsPlain m.deployment_id → deployment_of (name m) ≡ m.deployment_id
unfolding deployment_of name
deployment_of-name m plain =
    rw
      (cut-append m.deployment_id m.boot_id
        (uncut m.deployment_id (cut m.deployment_id) plain refl))
      refl

other_boot :
    (m l : LastBoot) → l.deployment_id ≡ m.deployment_id → l.boot_id ≢ m.boot_id → name l ≢ name m
unfolding name
other_boot m l d b e = b (
    append_cancel_left "_" l.boot_id m.boot_id (
      append_cancel_left m.deployment_id ("_" <> l.boot_id) ("_" <> m.boot_id)
        (ap (λ z. z <> "_" <> l.boot_id) (sym d) ∙ e)))

-- Where no deployment's id has an underscore: Prune keeps, as it is, the newest backup of a known
-- deployment, whatever fails on the way and wherever it stops. If it succeeds, no backup of an
-- unknown deployment is left, and none of the known deployment but the newest. Newest means that it
-- stands once in the directory, and that the deployment's other backups have an earlier
-- modification time. Go visits the groups, each of them and no other, in any order. An id with an
-- underscore is outside: its backups count as those of the text before the underscore.
pub prune-newest :
    (order : Groups → Groups) (known : List String) (w : World) (m l : LastBoot)
    → Reorders order
    → IsPlain m.deployment_id
    → IsPlain l.deployment_id
    → member m.deployment_id known ≡ true
    → NewestBackup w.fs (name m)
    → Memᴰ (name l) (backups_in w.fs)
    → (member l.deployment_id known ≡ false)
      ⊎ ((l.deployment_id ≡ m.deployment_id) × (l.boot_id ≢ m.boot_id))
    → RunPost
        (λ u v.
          (get (backup_path (name m)) v ≡ get (backup_path (name m)) w.fs)
          × (get (backup_path (name l)) v ≡ none))
        (λ v. get (backup_path (name m)) v ≡ get (backup_path (name m)) w.fs)
        (prune order known w)
prune-newest order known w m l O plain_m plain_l is_known N listed useless =
    spared_and_removed order known w (name m) (name l) O (ap (λ d. member d known) dm ∙ is_known) N
      listed (of useless)
  where
    dm : deployment_of (name m) ≡ m.deployment_id
    dm = deployment_of-name m plain_m

    dl : deployment_of (name l) ≡ l.deployment_id
    dl = deployment_of-name l plain_l

    of :
        (member l.deployment_id known ≡ false)
          ⊎ ((l.deployment_id ≡ m.deployment_id) × (l.boot_id ≢ m.boot_id))
        → (member (deployment_of (name l)) known ≡ false)
          ⊎ ((deployment_of (name l) ≡ deployment_of (name m)) × (name l ≢ name m))
    of (inl unknown) = inl (ap (λ d. member d known) dl ∙ unknown)
    of (inr (d, b)) = inr (dl ∙ d ∙ sym dm, other_boot m l d b)
