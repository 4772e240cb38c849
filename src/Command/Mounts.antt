-- ===== src/Command/Mounts.antt =====
-- cmd/nanok8s/reset.go: the mounts below the kubelet's directory are detached.
pub mod Order
pub mod Detached
use Prim.Native.String.{compare, len}
use Prim.Native.Nat.{Ordering}
use nanok8s.Base.{
  ℕ, zero, suc, String, ◌<>◌, Bool, true, false, Option, none, some, List, [], ◌∷◌, ◌++◌, ◌==◌,
  if◌then◌else◌, ltb, leb, length, starts_with,
}
use nanok8s.Base.Text.{trim_space, has_suffix}
use nanok8s.Base.Lines.{split, join, decimal}
use nanok8s.Os.FilePath.{FilePath, show}
use nanok8s.Os.World.{
  Error, new_error, wrap, Result, ok, err, panic, M, pure, throw, crash, ◌>>=◌, ◌>>◌, on_error,
  wrapped, attempt, for_each, logf,
}
use nanok8s.Os.Calls.{read_file, remove_all}
use nanok8s.Os.Programs.{Output, Programs, Host}
use nanok8s.Paths.{kubernetes_dir, etcd_data_dir, kubelet_dir, nanok8s_var_dir}
use nanok8s.Command.Running.{say, if_ran, if_found, run_error}

-- `fields[1]`, if there is one that begins with the prefix
unfoldable pub target_of : String → List String → List String
target_of prefix (a ∷ b ∷ fields) = if starts_with b prefix then b ∷ [] else []
target_of prefix (a ∷ []) = []
target_of prefix [] = []

unfoldable pub targets_of : String → List String → List String
unfolding target_of
targets_of prefix [] = []
targets_of prefix (l ∷ ls) = target_of prefix (split " " l) ++ targets_of prefix ls

unfoldable pub insert_target : String → List String → List String
insert_target t [] = t ∷ []
insert_target t (u ∷ us) =
    let rest = insert_target t us in elim (compare t u) [ Ordering.lt ↦ u ∷ rest | _ ↦ t ∷ u ∷ us ]

-- sort.Sort(sort.Reverse(sort.StringSlice(targets))). Texts that the sort cannot tell apart are
-- equal, so every sort gives this list.
unfoldable pub sort_targets : List String → List String
unfolding insert_target
sort_targets [] = []
sort_targets (t ∷ ts) = insert_target t (sort_targets ts)

-- paths.KubeletDir, with a slash at its end
unfoldable pub mount_prefix : String
unfolding show has_suffix
mount_prefix =
    let prefix = show kubelet_dir in if has_suffix prefix "/" then prefix else prefix <> "/"

module _ (unmount : String → M (Unit {0})) where
  unfoldable pub counted : Result (Unit {0}) → String → ℕ → M ℕ
  unfolding say
  counted (ok u) t n = pure (suc n)
  counted (err e) t n = say ("unmount " <> t <> " (continuing): " <> e.text) >> pure n
  counted panic t n = crash

  -- The loop over the targets, with how many are unmounted
  unfoldable pub unmount_all : ℕ → List String → M ℕ
  unfolding counted
  unmount_all n [] = pure n
  unmount_all n (t ∷ ts) = do r ← attempt (unmount t); m ← counted r t n; unmount_all m ts

  unfoldable pub unmount_from : Result String → M (Unit {0})
  unfolding sort_targets targets_of unmount_all mount_prefix say
  unmount_from (ok raw) = do
    n ← unmount_all 0 (sort_targets (targets_of mount_prefix (split "\n" raw)))
    if ltb 0 n
        then say ("unmounted " <> decimal n <> " kubelet mounts under " <> show kubelet_dir)
        else pure tt
  unmount_from (err e) = say ("read /proc/mounts (continuing): " <> e.text)
  unmount_from panic = crash

  unfoldable pub unmount_kubelet_mounts : M (Unit {0})
  unfolding unmount_from
  unmount_kubelet_mounts = do raw ← attempt (read_file ("proc" ∷ "mounts" ∷ [])); unmount_from raw
