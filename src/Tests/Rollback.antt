-- ===== src/Tests/Rollback.antt =====
-- A boot after a rollback, with the marker set.
use nanok8s.Base.{◌≡◌, some}
use nanok8s.Os.Tree.{file, get, alter}
use nanok8s.Os.World.{World}
use nanok8s.Os.Spec.{Post}
use nanok8s.Paths.{restore_marker}
use nanok8s.Backup.{backup_path}
use nanok8s.Backup.Listing.{latest_for_deployment}
use nanok8s.Backup.Listing.Latest.{latest_for_deployment-IsLatest, IsLatest}
use nanok8s.Lifecycle.{maybe_restore}
use nanok8s.Lifecycle.Backups.{maybe_restore_keeps_backups}
use nanok8s.Tests.Tools.{plain_cp, plain_cp-IsLawful, plain_json, plain_json-IsLawful}
use nanok8s.Tests.Machine.{damaged}

abbrev rolled_back : World
rolled_back = record damaged { fs = alter (λ m. m) restore_marker (some (file "")) damaged.fs }

maybe_restore_keeps_backups_example :
    Post
      (λ u t. get (backup_path "os-1.0_b1") t ≡ get (backup_path "os-1.0_b1") rolled_back.fs)
      (λ e t. get (backup_path "os-1.0_b1") t ≡ get (backup_path "os-1.0_b1") rolled_back.fs)
      (maybe_restore plain_cp plain_json "os-1.0" rolled_back)
maybe_restore_keeps_backups_example =
    maybe_restore_keeps_backups plain_cp plain_cp-IsLawful plain_json plain_json-IsLawful "os-1.0"
      "os-1.0_b1" rolled_back (λ e. cc)

latest_for_deployment-IsLatest_example :
    Post
      (λ n u. (u ≡ rolled_back.fs) × IsLatest rolled_back.fs "os-1.0" n)
      (λ e u. u ≡ rolled_back.fs)
      (latest_for_deployment "os-1.0" rolled_back)
latest_for_deployment-IsLatest_example = latest_for_deployment-IsLatest "os-1.0" rolled_back
