-- ===== src/Tests/Pruning.antt =====
-- A machine with three backups, of which one is of an unknown deployment, and another is old.
use nanok8s.Base.{
  String, ap, ◌≡◌, ◌≢◌, inr, refl, sym, subst, ◌∙◌, ◌==◌, false, true, none, [], ◌∷◌, arith, eq_iff,
}
use mathlib.Core.List.{Memᴰ}
use mathlib.Core.List.Memᴰ.{head}
use nanok8s.Os.Tree.{Node, dir, nil, cons, get, find, is_dir_node}
use nanok8s.Os.World.{World}
use nanok8s.Os.Spec.Runs.{RunPost}
use nanok8s.State.{LastBoot}
use nanok8s.Base.Text.{cut, cut_found}
use nanok8s.Backup.{name, backup_path}
use nanok8s.Backup.Listing.{Groups, prune, deployment_of, member, backups_of}
use nanok8s.Backup.Listing.Latest.{backups_in}
use nanok8s.Backup.Listing.Pruned.{time}
use nanok8s.Backup.Listing.Spared.{NewestBackup, Reorders}
use nanok8s.Backup.Listing.Pruning.{prune-newest, IsPlain}
use nanok8s.Tests.Machine.{before}

abbrev backups : Node
backups =
    dir 9 (cons "os-1_b1" (dir 3 nil) (cons "os-1_b2" (dir 5 nil) (cons "os-2_b1" (dir 4 nil) nil)))

abbrev three : World
three = record before {
  fs = dir 1 (
      cons "var"
        (dir 1 (cons "lib" (dir 1 (cons "nanok8s" (dir 1 (cons "backups" backups nil)) nil)) nil))
        nil);
}

abbrev same_order : Groups → Groups
same_order gs = gs

same_order-Reorders : Reorders same_order
same_order-Reorders gs g = (λ m. m, λ m. m)

known : member "os-1" ("os-1" ∷ []) ≡ true
unfolding member
known = refl

names : backups_in three.fs ≡ "os-1_b1" ∷ "os-1_b2" ∷ "os-2_b1" ∷ []
unfolding backups_of get find is_dir_node
names = refl

-- What the names' prefixes and the directories' times come to
prefix : (deployment_of "os-2_b1" ≡ "os-2") × (deployment_of "os-1_b2" ≡ "os-1")
unfolding deployment_of
prefix = (refl, refl)

times : (time three.fs "os-1_b1" ≡ 3) × (time three.fs "os-1_b2" ≡ 5)
unfolding get find is_dir_node
times = (refl, refl)

unlike : (s t : String) → (s == t) ≡ false → s ≢ t
unlike s t h e = absurd (cc ((eq_iff s t).1 e, h))

newest : NewestBackup three.fs "os-1_b2"
newest = record {
  before = "os-1_b1" ∷ [];
  after = "os-2_b1" ∷ [];
  names = names;
  older_before = ((λ e. omega (arith, times.0, times.1)), tt);
  older_after = ((λ e. absurd (unlike "os-2" "os-1" refl (sym prefix.0 ∙ e ∙ prefix.1))), tt);
}

abbrev boot_two : LastBoot
boot_two = record { version = "v1"; deployment_id = "os-1"; boot_id = "b2" }

abbrev boot_one : LastBoot
boot_one = record { version = "v1"; deployment_id = "os-1"; boot_id = "b1" }

uncut : cut "os-1" ≡ none
unfolding cut
uncut = refl

os_unsplit : IsPlain "os-1"
os_unsplit (a, (b, e)) = absurd (cc (uncut, ap cut e, (cut_found a b).1))

prune-newest_example :
    RunPost
      (λ u v.
        (get (backup_path (name boot_two)) v ≡ get (backup_path (name boot_two)) three.fs)
        × (get (backup_path (name boot_one)) v ≡ none))
      (λ v. get (backup_path (name boot_two)) v ≡ get (backup_path (name boot_two)) three.fs)
      (prune same_order ("os-1" ∷ []) three)
unfolding name
prune-newest_example =
    prune-newest same_order ("os-1" ∷ []) three boot_two boot_one same_order-Reorders os_unsplit
      os_unsplit known newest (subst (Memᴰ "os-1_b1") (sym names) (head refl))
      (inr (refl, unlike "b1" "b2" refl))
