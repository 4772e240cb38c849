-- ===== src/Command/Containers.antt =====
-- cmd/nanok8s/reset.go: the kubelet is stopped, and the containers are removed.
use Prim.Native.String.{len}
use nanok8s.Base.{
  ℕ, String, ◌<>◌, Option, none, some, List, [], ◌∷◌, ◌==◌, if◌then◌else◌, leb, length,
}
use nanok8s.Base.Text.{trim_space}
use nanok8s.Base.Lines.{split, join, decimal}
use nanok8s.Os.World.{
  Error, new_error, Result, ok, err, panic, M, pure, throw, crash, ◌>>=◌, ◌>>◌, on_error, attempt,
}
use nanok8s.Os.Programs.{Output, Programs}
use nanok8s.Command.Running.{say, if_ran, if_found, run_error}

-- The size from which a line is too long for a bufio.Scanner
abbrev pub max_token : ℕ
max_token = 65536

-- The loop over the scanner's lines. A last line that is empty is none to the scanner, and an empty
-- line is none to the loop.
unfoldable pub scan_ids : List String → M (List String)
scan_ids [] = pure []
scan_ids (l ∷ ls) =
    if leb max_token (len l)
    then throw (new_error "bufio.Scanner: token too long")
    else do ids ← scan_ids ls; let id = trim_space l; pure (if id == "" then ids else id ∷ ids)

unfoldable pub listed : Option Error → Output → M (List String)
unfolding run_error scan_ids
listed none o = scan_ids (split "\n" o.stdout)
listed (some e) o = throw (run_error "crictl ps" e o.stderr)

module _ (programs : Programs) where
  unfoldable pub stop_kubelet : M (Unit {0})
  unfolding say if_ran
  stop_kubelet = do
    o ← programs.exec "systemctl" ("stop" ∷ "kubelet.service" ∷ [])
    if_ran o.failure
        (λ e. say (
          "systemctl stop kubelet.service (continuing): "
          <> e.text
          <> ": "
          <> trim_space o.combined))
        (say "stopped kubelet.service")

  unfoldable pub crictl_list_containers : M (List String)
  unfolding listed
  crictl_list_containers = do
    o ← programs.exec "crictl" ("ps" ∷ "--all" ∷ "--quiet" ∷ [])
    listed o.failure o

  unfoldable pub crictl_run : List String → M (Unit {0})
  unfolding if_ran run_error
  crictl_run args = do
    o ← programs.exec "crictl" args
    if_ran o.failure (λ e. throw (run_error ("crictl " <> join " " args) e o.stderr)) (pure tt)

  unfoldable pub clean_containers : Result (List String) → M (Unit {0})
  unfolding say crictl_run
  clean_containers (ok []) = say "no CRI containers to remove"
  clean_containers (ok (i ∷ ids)) = do
    on_error (λ e. say ("crictl stop (continuing): " <> e.text))
        (crictl_run ("stop" ∷ "--timeout" ∷ "5" ∷ i ∷ ids))
    on_error (λ e. say ("crictl rm (continuing): " <> e.text))
        (crictl_run ("rm" ∷ "--force" ∷ i ∷ ids))
    say ("removed " <> decimal (length (i ∷ ids)) <> " CRI containers")
  clean_containers (err e) = say ("list CRI containers (continuing): " <> e.text)
  clean_containers panic = crash

  unfoldable pub cleanup_cri_containers : M (Unit {0})
  unfolding if_found clean_containers crictl_list_containers
  cleanup_cri_containers = do
    found ← attempt (programs.look_path "crictl")
    if_found found "crictl not found, skipping container cleanup"
        (do ids ← attempt crictl_list_containers; clean_containers ids)
