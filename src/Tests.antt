-- ===== src/Tests.antt =====
-- The guarantees on a small machine.
mod Tools
mod Machine
mod Rules
mod Rollback
mod Cluster
mod Boots
mod Waits
mod Temp
mod Pruning
mod Commands
use nanok8s.Base.{String, ◌<>◌, ◌≡◌, ◌↔◌, refl, true, none, some, List, [], ◌∷◌, ◌++◌}
use nanok8s.Base.Text.{trim_space}
use nanok8s.Os.Tree.{
  get, find, set, delete, update, store, change, alter, is_dir_node, is_dir, fresh_dirs, make_dirs,
}
use nanok8s.Os.World.{ok, pure, throw, ◌>>=◌, on_error, wrapped, attempt, defer, for_each}
use nanok8s.Os.FilePath.{parent, with_suffix, apart}
use nanok8s.Os.Calls.{
  syscall, stat, read_file, mkdir_all, remove_all, remove, rename, write_file, create_temp,
  random_name, flush, exists_from, probe,
}
use nanok8s.Os.Calls
use nanok8s.Os.Spec.{Post}
use nanok8s.Paths.{state_dir, etcd_data_dir}
use nanok8s.Os.Tree.Laws.{get-alter-apart}
use nanok8s.State.{
  write_last_boot, read_last_boot, write_last_event, read_last_event, write_atomic, exists,
}
use nanok8s.State.Atomic.{Written, Staging}
use nanok8s.State.Promises.{write_last_boot_atomic, write_last_event_atomic}
use nanok8s.State.Recall.{
  quiet, read_last_boot-write_last_boot, read_last_event-write_last_event, exists-write_last_event,
}
use nanok8s.Backup.{
  name, create, create_new, snapshot, snapshot_file, write_meta, copy_dir_if_exists,
  copy_file_if_exists, copy_tree, copy_file, run_cp, if_present, restore, restore_dir,
  restore_dir_from, restore_file, restore_file_from, replace_file, remove_if_there, remove_from,
  backup_path,
}
use nanok8s.Backup
use nanok8s.Backup.Stage.{Untouched}
use nanok8s.Backup.Create.{Backed}
use nanok8s.Backup.Restore.{Restored, Spares}
use nanok8s.Backup.Promises.{create_all_or_nothing, restore_replaces, restore-create, SameState}
use nanok8s.Tests.Tools.{
  plain_cp, plain_cp-IsLawful, plain_json, plain_json-IsLawful, encode, decode,
}
use nanok8s.Tests.Machine.{sample, before, backed_up, damaged}

create_all_or_nothing_example :
    Post
      (λ u. Backed plain_cp plain_cp-IsLawful plain_json sample before.fs)
      (λ e. Untouched (name sample) before.fs)
      (create plain_cp plain_json sample before)
create_all_or_nothing_example =
    create_all_or_nothing plain_cp plain_cp-IsLawful plain_json sample before

restore_replaces_example :
    Post
      (λ u. Restored (name sample) damaged.fs)
      (λ e. Spares (name sample) damaged.fs)
      (restore plain_cp (name sample) damaged)
restore_replaces_example = restore_replaces plain_cp plain_cp-IsLawful (name sample) damaged

create_works : (create plain_cp plain_json sample before).0 ≡ ok tt
unfolding create Backup.exists probe mkdir_all syscall make_dirs is_dir ◌>>=◌ pure throw wrapped
    on_error attempt for_each create_new name snapshot snapshot_file write_meta write_file
    copy_dir_if_exists copy_file_if_exists copy_tree copy_file run_cp if_present stat remove_all
    rename get find set delete update store change alter is_dir_node fresh_dirs exists_from encode
    decode parent with_suffix apart
create_works = refl

absent_before : get (backup_path (name sample)) before.fs ≡ none
unfolding get find name
absent_before = refl

backup_apart : apart etcd_data_dir (backup_path (name sample)) ≡ true
unfolding apart name
backup_apart = refl

backup_kept :
    get (backup_path (name sample)) damaged.fs
    ≡ get (backup_path (name sample)) (create plain_cp plain_json sample before).1.fs
backup_kept = get-alter-apart (λ m. m) etcd_data_dir _ none backed_up.fs backup_apart

restore_works : (restore plain_cp (name sample) damaged).0 ≡ ok tt
unfolding create Backup.exists probe mkdir_all syscall make_dirs is_dir ◌>>=◌ pure throw wrapped
    on_error attempt for_each create_new name snapshot snapshot_file write_meta write_file
    copy_dir_if_exists copy_file_if_exists copy_tree copy_file run_cp if_present stat remove_all
    rename get find set delete update store change alter is_dir_node fresh_dirs exists_from encode
    decode parent with_suffix apart restore restore_dir restore_dir_from restore_file
    restore_file_from replace_file remove_if_there remove_from remove
restore_works = refl

restore-create_example : SameState before.fs (restore plain_cp (name sample) damaged).1.fs
restore-create_example =
    restore-create plain_cp plain_cp-IsLawful plain_json sample before damaged absent_before
      create_works backup_kept restore_works

write_last_boot_atomic_example :
    Post
      (λ u. Written state_dir before.fs "last-boot.json" (plain_json.marshal sample))
      (λ e. Staging state_dir before.fs)
      (write_last_boot plain_json sample before)
write_last_boot_atomic_example = write_last_boot_atomic plain_json sample before

write_last_event_atomic_example :
    Post
      (λ u. Written state_dir before.fs "last-event" ("READY" <> "\n"))
      (λ e. Staging state_dir before.fs)
      (write_last_event "READY" before)
write_last_event_atomic_example = write_last_event_atomic "READY" before

write_last_boot_works : (write_last_boot plain_json sample before).0 ≡ ok tt
unfolding write_last_boot write_atomic mkdir_all syscall make_dirs is_dir ◌>>=◌ create_temp
    random_name Calls.create defer attempt write_file flush rename remove get find set delete update
    store change alter is_dir_node fresh_dirs pure throw on_error parent encode apart
write_last_boot_works = refl

write_last_event_works : (write_last_event "READY" before).0 ≡ ok tt
unfolding write_last_event write_atomic mkdir_all syscall make_dirs is_dir ◌>>=◌ create_temp
    random_name Calls.create defer attempt write_file flush rename remove get find set delete update
    store change alter is_dir_node fresh_dirs pure throw on_error parent apart
write_last_event_works = refl

read_last_boot-write_last_boot_example :
    (read_last_boot plain_json (quiet (write_last_boot plain_json sample before).1)).0
    ≡ ok (some sample)
read_last_boot-write_last_boot_example =
    read_last_boot-write_last_boot plain_json plain_json-IsLawful sample before
      write_last_boot_works

read_last_event-write_last_event_example :
    (read_last_event (quiet (write_last_event "READY" before).1)).0 ≡ ok (trim_space "READY")
read_last_event-write_last_event_example =
    read_last_event-write_last_event "READY" before write_last_event_works

exists-write_last_event_example : (exists (quiet (write_last_event "READY" before).1)).0 ≡ ok true
exists-write_last_event_example = exists-write_last_event "READY" before write_last_event_works
