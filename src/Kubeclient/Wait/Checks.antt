-- ===== src/Kubeclient/Wait/Checks.antt =====
-- internal/kubeclient/kubeclient.go: what is the case of each check of a list.
use nanok8s.Base.{ℕ, zero, suc, ◌≡◌, Bool, some, subst, List, [], ◌∷◌}
use nanok8s.Os.World.{M}
use nanok8s.Kubeclient.Race.{Worker, polling, passed, stopped}
use nanok8s.Kubeclient.Wait.{ReadyCheck, check_of}

module _ (T : M Bool → Type 0) where
  abbrev pub AllChecks : List ReadyCheck → Type 0
  AllChecks [] = Unit
  AllChecks (c ∷ cs) = T c.1 × AllChecks cs

  pub AllChecks-check_of :
      (cs : List ReadyCheck) (ws : List Worker) (i : ℕ) (m : M Bool)
      → check_of cs ws i ≡ some m
      → AllChecks cs
      → T m
  unfolding check_of
  AllChecks-check_of [] ws i m e a = absurd (cc e)
  AllChecks-check_of (c ∷ cs) [] i m e a = absurd (cc e)
  AllChecks-check_of (c ∷ cs) (polling ∷ ws) zero m e a = subst T (cc e) a.0
  AllChecks-check_of (c ∷ cs) (passed ∷ ws) zero m e a = absurd (cc e)
  AllChecks-check_of (c ∷ cs) (stopped ∷ ws) zero m e a = absurd (cc e)
  AllChecks-check_of (c ∷ cs) (w ∷ ws) (suc i) m e a = AllChecks-check_of cs ws i m e a.1
