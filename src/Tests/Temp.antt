-- ===== src/Tests/Temp.antt =====
-- A test that moves the program's paths twice, and assigns one of them.
use nanok8s.Base.{◌≡◌, List, [], ◌∷◌}
use nanok8s.Os.FilePath.{FilePath}
use nanok8s.Testutil.{
  initial, TestState, TestStep, use_paths, cleanup, set, use_temp_paths, test_body, run_cleanups,
}
use nanok8s.Testutil.Restored.{below, use_temp_paths-restored}

abbrev root : FilePath
root = "tmp" ∷ "001" ∷ []

abbrev body : List TestStep
body =
    set (λ v. record v { state_dir = "nowhere" ∷ [] })
    ∷ cleanup (λ v. record v { kubelet_dir = [] })
    ∷ use_paths ("tmp" ∷ "002" ∷ [])
    ∷ []

abbrev begun : TestState
begun = use_temp_paths root (record { vars = initial; cleanups = [] })

use_temp_paths-restored_example :
    (begun.vars ≡ below root)
    × (run_cleanups (test_body body begun).cleanups (test_body body begun).vars ≡ initial)
use_temp_paths-restored_example = use_temp_paths-restored root body initial
