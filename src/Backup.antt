-- ===== src/Backup.antt =====
-- internal/backup/backup.go: snapshots of the state trees, and their restoration. `cp` and
-- encoding/json come as parameters.
pub mod Copying
pub mod Swap
pub mod Restore
pub mod Facts
pub mod Stage
pub mod Snapshot
pub mod Create
pub mod Listing
pub mod Promises
use nanok8s.Base.{
  ℕ, String, ◌<>◌, ◌≡◌, Bool, true, false, not, ◌&&◌, ◌||◌, Option, none, some, List, [], ◌∷◌, ◌++◌,
  ◌==◌, if◌then◌else◌, leb, ltb,
}
use nanok8s.Base.Text.{trim_space, has_suffix, cut}
use nanok8s.Os.FilePath.{FilePath, parent, with_suffix, show}
use nanok8s.Os.Tree.{Node, file, dir}
use nanok8s.Os.World.{
  Error, new_error, wrap, join_errors, Result, ok, err, panic, World, M, pure, throw, crash, ◌>>=◌,
  ◌>>◌, on_error, wrapped, attempt, for_each, when,
}
use nanok8s.Os.Calls.{
  stat, probe, read_file, read_dir, mkdir_all, remove_all, remove, rename, write_file,
}
use nanok8s.Paths.{backups_dir, etcd_data_dir, kubernetes_dir, kubelet_dir, restore_marker}
use nanok8s.State.{LastBoot, Json}
use nanok8s.Backup.Copying.{Cp, tree_flags, file_flags}

abbrev pub kubelet_state_files : List String
kubelet_state_files = "config.yaml" ∷ "instance-config.yaml" ∷ "kubeadm-flags.env" ∷ []

abbrev pub meta_file_name : String
meta_file_name = "meta.json"

unfoldable pub boot_id : M String
boot_id = do
  b ← wrapped "read boot_id" (read_file ("proc" ∷ "sys" ∷ "kernel" ∷ "random" ∷ "boot_id" ∷ []))
  pure (trim_space b)

unfoldable pub name : LastBoot → String
name meta = meta.deployment_id <> "_" <> meta.boot_id

-- filepath.Join(paths.BackupsDir, name)
abbrev pub backup_path : String → FilePath
backup_path n = backups_dir ++ n ∷ []

unfoldable pub exists : String → M Bool
exists n = probe (backup_path n)

-- A clean-up that fails too adds its error to the cause.
unfoldable pub rollback_tmp : FilePath → Error → M (Unit {0})
rollback_tmp tmp cause =
    on_error (λ e. throw (join_errors cause (wrap "rollback cleanup" e))) (remove_all tmp)
    >> throw cause

-- `os.Stat(src)`: nothing if src is missing, and the rest if it is there
unfoldable pub if_present : Result Node → M (Unit {0}) → M (Unit {0})
if_present (ok n) m = m
if_present (err e) m = if e.not_exist then pure tt else throw e
if_present panic m = crash

-- os.Remove, where a missing file is no error
unfoldable pub remove_from : Result (Unit {0}) → M (Unit {0})
remove_from (ok u) = pure tt
remove_from (err e) = if e.not_exist then pure tt else throw e
remove_from panic = crash

unfoldable pub remove_if_there : FilePath → M (Unit {0})
remove_if_there p = do r ← attempt (remove p); remove_from r

words : List String → String
words [] = ""
words (x ∷ xs) = x <> " " <> words xs

module _ (cp : Cp) where
  unfoldable pub run_cp : FilePath → FilePath → List String → M (Unit {0})
  unfolding words
  run_cp src dst flags =
      wrapped ("cp [" <> words flags <> show src <> " " <> show dst <> "]") (cp.run flags src dst)

  unfoldable pub copy_tree : FilePath → FilePath → M (Unit {0})
  copy_tree src dst = run_cp src dst tree_flags

  unfoldable pub copy_file : FilePath → FilePath → M (Unit {0})
  copy_file src dst = run_cp src dst file_flags

  unfoldable pub copy_dir_if_exists : FilePath → FilePath → M (Unit {0})
  copy_dir_if_exists src dst = do r ← attempt (stat src); if_present r (copy_tree src dst)

  unfoldable pub copy_file_if_exists : FilePath → FilePath → M (Unit {0})
  copy_file_if_exists src dst = do
    r ← attempt (stat src)
    if_present r (mkdir_all (parent dst) >> copy_file src dst)

  unfoldable pub restore_dir_from : Result Node → FilePath → FilePath → FilePath → M (Unit {0})
  restore_dir_from (err e) src dst staged =
      if e.not_exist then wrapped ("remove live " <> show dst) (remove_all dst) else throw e
  restore_dir_from (ok n) src dst staged = do
    mkdir_all (parent dst)
    remove_all staged
    on_error (λ e. attempt (remove_all staged) >> throw e) (copy_tree src staged)
    on_error (λ e. attempt (remove_all staged) >> throw e) (remove_all dst)
    wrapped ("rename " <> show staged <> " -> " <> show dst) (rename staged dst)
  restore_dir_from panic src dst staged = crash

  unfoldable pub restore_dir : FilePath → FilePath → M (Unit {0})
  restore_dir src dst = do
    r ← attempt (stat src)
    restore_dir_from r src dst (with_suffix ".restoring" dst)

  unfoldable pub replace_file : FilePath → FilePath → M (Unit {0})
  replace_file src dst =
      let staged = with_suffix ".restoring" dst in
      do
        mkdir_all (parent dst)
        remove_if_there staged
        on_error (λ e. attempt (remove staged) >> throw e) (copy_file src staged)
        rename staged dst

  -- One round of the loop over the kubelet's files
  unfoldable pub restore_file_from : Result Node → String → FilePath → FilePath → M (Unit {0})
  restore_file_from (err e) f src dst =
      if e.not_exist then wrapped ("remove live " <> f) (remove_if_there dst) else throw e
  restore_file_from (ok n) f src dst = wrapped ("restore kubelet/" <> f) (replace_file src dst)
  restore_file_from panic f src dst = crash

  unfoldable pub restore_file : FilePath → String → M (Unit {0})
  restore_file src f =
      let from = src ++ "kubelet" ∷ f ∷ [] in
      do r ← attempt (stat from); restore_file_from r f from (kubelet_dir ++ f ∷ [])

  unfoldable pub restore : String → M (Unit {0})
  restore n = do
    wrapped ("stat backup " <> n) (stat (backup_path n))
    wrapped "restore etcd" (restore_dir (backup_path n ++ "etcd" ∷ []) etcd_data_dir)
    wrapped "restore kubernetes" (restore_dir (backup_path n ++ "kubernetes" ∷ []) kubernetes_dir)
    mkdir_all kubelet_dir
    for_each kubelet_state_files (restore_file (backup_path n))

  module _ (json : Json) where
    unfoldable pub write_meta : FilePath → LastBoot → M (Unit {0})
    write_meta d meta = write_file (d ++ meta_file_name ∷ []) (json.marshal meta)

    -- One round of the loop over the kubelet's files
    unfoldable pub snapshot_file : FilePath → String → M (Unit {0})
    snapshot_file to f =
        wrapped ("copy kubelet/" <> f) (copy_file_if_exists (kubelet_dir ++ f ∷ []) (to ++ f ∷ []))

    -- Everything that is rolled back if it fails
    unfoldable pub snapshot : FilePath → FilePath → LastBoot → M (Unit {0})
    snapshot tmp final meta = do
      wrapped "copy etcd" (copy_dir_if_exists etcd_data_dir (tmp ++ "etcd" ∷ []))
      wrapped "copy kubernetes" (copy_dir_if_exists kubernetes_dir (tmp ++ "kubernetes" ∷ []))
      mkdir_all (tmp ++ "kubelet" ∷ [])
      for_each kubelet_state_files (snapshot_file (tmp ++ "kubelet" ∷ []))
      wrapped "write meta" (write_meta tmp meta)
      wrapped ("rename " <> show tmp <> " -> " <> show final) (rename tmp final)

    unfoldable pub create_new : String → LastBoot → M (Unit {0})
    create_new n meta =
        let final = backup_path n in
        let tmp = with_suffix ".tmp" final in
        do
          wrapped ("clean stale " <> show tmp) (remove_all tmp)
          mkdir_all tmp
          on_error (rollback_tmp tmp) (snapshot tmp final meta)

    unfoldable pub create : LastBoot → M (Unit {0})
    create meta =
        if meta.deployment_id == "" || meta.boot_id == ""
        then throw (new_error "backup requires DeploymentID and BootID")
        else do
          mkdir_all backups_dir
          found ← exists (name meta)
          if found then pure tt else create_new (name meta) meta
