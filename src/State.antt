-- ===== src/State.antt =====
-- internal/state/state.go: the two files that describe the last healthy boot. encoding/json comes
-- as a parameter.
pub mod Atomic
pub mod Recall
pub mod Promises
use nanok8s.Base.{
  ◌≢◌, ◌≡◌, if◌then◌else◌, String, ◌<>◌, Bool, true, false, Option, none, some, List, [], ◌∷◌, ◌++◌,
}
use nanok8s.Base.Text.{trim_space}
use nanok8s.Os.FilePath.{FilePath, parent}
use nanok8s.Os.Tree.{Node}
use nanok8s.Os.World.{
  Error, wrap, Result, ok, err, panic, M, pure, throw, crash, ◌>>=◌, ◌>>◌, on_error, attempt, defer,
}
use nanok8s.Os.Calls.{
  mkdir_all, read_file, write_file, create_temp, flush, rename, remove, exists_from, probe,
}
use nanok8s.Paths.{last_boot_file, last_event_file, manifests_dir}

pub record LastBoot : Type 0 where
  pub version : String
  pub deployment_id : String
  pub boot_id : String

-- json.Marshal and json.Unmarshal at LastBoot
pub record Json : Type 0 where
  pub marshal : LastBoot → String
  pub unmarshal : String → Result LastBoot

-- What was marshalled is read back, and no text makes json.Unmarshal panic.
pub record IsLawfulJson (json : Json) : Type 0 where
  pub unmarshal_returns : (s : String) → json.unmarshal s ≢ panic
  pub unmarshal-marshal : (lb : LastBoot) → json.unmarshal (json.marshal lb) ≡ ok lb

-- `tmp.Write(data)`; on an error the file is closed and the error returned
write_close : FilePath → String → M (Unit {0})
unfolding on_error
write_close tmp s = on_error (λ e. attempt flush >> throw e) (write_file tmp s)

-- `tmp.Sync()`, which closes the file on an error
sync_close : M (Unit {0})
sync_close = on_error (λ e. attempt flush >> throw e) flush

write_temp : FilePath → FilePath → String → M (Unit {0})
unfolding write_close sync_close ◌>>=◌
write_temp tmp path s = do write_close tmp s; sync_close; flush; rename tmp path

unfoldable pub write_atomic : FilePath → String → M (Unit {0})
unfolding write_temp
write_atomic path s = do
  mkdir_all (parent path)
  tmp ← create_temp (parent path) ".tmp-"
  defer (remove tmp) (write_temp tmp path s)

unfoldable pub write_last_event : String → M (Unit {0})
unfolding write_atomic
write_last_event msg = write_atomic last_event_file (msg <> "\n")

event_from : Result String → M String
event_from (ok s) = pure (trim_space s)
event_from (err e) = if e.not_exist then pure "" else throw e
event_from panic = crash

unfoldable pub read_last_event : M String
unfolding event_from ◌>>=◌
read_last_event = do r ← attempt (read_file last_event_file); event_from r

unfoldable pub file_exists : FilePath → M Bool
unfolding probe
file_exists p = probe p

unfoldable pub any_exists : List FilePath → M Bool
unfolding file_exists ◌>>=◌
any_exists [] = pure false
any_exists (p ∷ ps) =
    let rest = any_exists ps in do found ← file_exists p; if found then pure true else rest

unfoldable pub exists : M Bool
unfolding any_exists
exists =
    any_exists
      (last_boot_file ∷ last_event_file ∷ (manifests_dir ++ "kube-apiserver.yaml" ∷ []) ∷ [])

module _ (json : Json) where
  unfoldable pub write_last_boot : LastBoot → M (Unit {0})
  unfolding write_atomic
  write_last_boot lb = write_atomic last_boot_file (json.marshal lb)

  unfoldable pub decoded : String → Result LastBoot → M (Option LastBoot)
  decoded prefix (ok lb) = pure (some lb)
  decoded prefix (err e) = throw (wrap prefix e)
  decoded prefix panic = crash

  -- The Boolean of the source is whether the result is `some`.
  unfoldable pub last_boot_from : Result String → M (Option LastBoot)
  unfolding decoded
  last_boot_from (ok s) = decoded "parse last-boot" (json.unmarshal s)
  last_boot_from (err e) = if e.not_exist then pure none else throw (wrap "read last-boot" e)
  last_boot_from panic = crash

  unfoldable pub read_last_boot : M (Option LastBoot)
  unfolding last_boot_from ◌>>=◌
  read_last_boot = do r ← attempt (read_file last_boot_file); last_boot_from r
