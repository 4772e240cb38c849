-- ===== src/Command/Running.antt =====
-- cmd/nanok8s/reset.go: the log, and what follows a run of another program.
use nanok8s.Base.{String, ◌<>◌, Option, none, some}
use nanok8s.Base.Text.{trim_space}
use nanok8s.Os.World.{Error, Result, ok, err, panic, M, crash, logf}

unfoldable pub say : String → M (Unit {0})
say s = logf ("[reset] " <> s <> "\n")

-- What follows a run of which only the failure matters: `failed` logs it with the run's output.
unfoldable pub if_ran : Option Error → (Error → M (Unit {0})) → M (Unit {0}) → M (Unit {0})
if_ran none failed next = next
if_ran (some e) failed next = failed e

-- `if _, err := exec.LookPath(…); err != nil { logf(…); return }`
unfoldable pub if_found : Result (Unit {0}) → String → M (Unit {0}) → M (Unit {0})
unfolding say
if_found (ok u) message next = next
if_found (err e) message next = say message
if_found panic message next = crash

-- fmt.Errorf("%s: %w: %s", what, err, strings.TrimSpace(output))
unfoldable pub run_error : String → Error → String → Error
run_error what e output = record e { text = what <> ": " <> e.text <> ": " <> trim_space output }
