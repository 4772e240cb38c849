-- ===== src/Command/Bootstrap/Once.antt =====
-- cmd/nanok8s/bootstrap.go: a node is not initialised twice.
use nanok8s.Base.{
  ◌<>◌, ◌≡◌, ◌≢◌, ◌⊎◌, inl, inr, refl, sym, ◌∙◌, ap, Bool, true, false, not, ◌&&◌, none, some, List,
  [], ◌∷◌, ◌++◌, if◌then◌else◌,
}
use nanok8s.Os.FilePath.{FilePath}
use nanok8s.Os.Tree.{Node, file, get}
use nanok8s.Os.World.{ok, World, throw}
use nanok8s.Os.Programs.{Host}
use nanok8s.Os.Spec.{Post, Triple}
use nanok8s.Os.Spec.Rules.{
  Triple-bind, Triple-pure, Triple-throw, Triple-weaken, Triple-if, Triple-from,
}
use nanok8s.Os.Spec.Runs.{
  Run, Keeps-nothing, Run-Triple, Run-bind, Run-if, Run-throw, Run-wrapped, Run-weaken, Keeps-logf,
  run_ok,
}
use nanok8s.Os.Spec.Steps.{Triple-probe}
use nanok8s.Paths.{last_boot_file, last_event_file, manifests_dir, state_dir}
use nanok8s.State.{exists, any_exists, file_exists, write_last_event}
use nanok8s.State.Atomic.{write_atomic_lem}
use nanok8s.State.Recall.{fresh_event}
use nanok8s.Config.{Reader, load}
use nanok8s.Kubeadm.{Phases, default_layout, ensure}
use nanok8s.Version.{kubernetes_version}
use nanok8s.Command.Bootstrap.{default_node_name, already_there, initialise, bootstrap_command}

abbrev api_server_manifest : FilePath
api_server_manifest = manifests_dir ++ "kube-apiserver.yaml" ∷ []

-- One of the three files is there that say that the node is initialised.
abbrev pub HasState : Node → Type 0
HasState t =
    (get last_boot_file t ≢ none)
    ⊎ (get last_event_file t ≢ none)
    ⊎ (get api_server_manifest t ≢ none)

module _ (t₀ : Node) where
  -- The answer no is only given where none of the files is there.
  abbrev NoneOf : List FilePath → Node → Type 0
  NoneOf [] t = Unit
  NoneOf (p ∷ ps) t = (get p t ≡ none) × NoneOf ps t

  abbrev Answer : List FilePath → Bool → Node → Type 0
  Answer ps b t = (t ≡ t₀) × (b ≡ false → NoneOf ps t₀)

  any_exists_lem :
      (ps : List FilePath) → Triple (λ t. t ≡ t₀) (any_exists ps) (Answer ps) (λ e t. t ≡ t₀)
  unfolding any_exists file_exists
  any_exists_lem [] =
      Triple-weaken (λ t h. (h, λ e. tt)) (λ a t h. h) (λ e t h. h) (Triple-pure false (Answer []))
  any_exists_lem (p ∷ ps) =
      Triple-bind {R = λ b t. (t ≡ t₀) × (b ≡ false → get p t₀ ≡ none)}
        (Triple-probe p (λ t n h e. (h, λ k. cc)) (λ t h e. (h, λ k. ap (get p) (sym h) ∙ e))
          (λ t h. h))
        λ found.
          Triple-if found
            (λ h.
              Triple-weaken (λ t k. (k.0, λ e. cc)) (λ a t h. h) (λ e t h. h)
                (Triple-pure true (Answer (p ∷ ps))))
            (λ h. Triple-from λ t k.
              Triple-weaken (λ u e. e ∙ k.0) (λ b u j. (j.0, λ e. (k.1 h, j.1 e))) (λ e u j. j)
                (any_exists_lem ps))

  exists_lem :
      HasState t₀ → Triple (λ t. t ≡ t₀) exists (λ b t. (t ≡ t₀) × (b ≡ true)) (λ e t. t ≡ t₀)
  unfolding exists
  exists_lem s =
      Triple-weaken (λ t h. h) (λ b t h. (h.0, seen b h.1 s)) (λ e t h. h)
        (any_exists_lem (last_boot_file ∷ last_event_file ∷ api_server_manifest ∷ []))
    where
      seen :
          (b : Bool)
          → (b ≡ false → NoneOf (last_boot_file ∷ last_event_file ∷ api_server_manifest ∷ []) t₀)
          → HasState t₀
          → b ≡ true
      seen true n s = refl
      seen false n (inl k) = absurd (k (n refl).0)
      seen false n (inr (inl k)) = absurd (k (n refl).1.0)
      seen false n (inr (inr k)) = absurd (k (n refl).1.1.0)

module _ {Client : Type 0} (reader : Reader) (phases : Phases Client) (host : Host) where
  -- Without `--force`, a bootstrap on a node that has one of the files that say that it is
  -- initialised returns an error and changes nothing, whichever of its calls fail.
  pub bootstrap_refuses :
      (config_path : FilePath) (w : World)
      → HasState w.fs
      → Post (λ u t. ⊥) (λ e t. t ≡ w.fs) (bootstrap_command reader phases host false config_path w)
  unfolding bootstrap_command
  bootstrap_refuses config_path w s = (Triple-bind (exists_lem w.fs s) refused).at w refl
    where
      refused :
          (b : Bool)
          → Triple
              (λ t. (t ≡ w.fs) × (b ≡ true))
              (if b && not false
                then throw already_there
                else initialise reader phases host config_path)
              (λ u t. ⊥)
              (λ e t. t ≡ w.fs)
      refused true =
          Triple-weaken (λ t h. h.0) (λ a t h. h) (λ e t h. h) (Triple-throw already_there)
      refused false = record { at = λ w h. absurd (cc h.1) }

  abbrev Marked : Node → Type 0
  Marked t = get last_event_file t ≡ some (file ("bootstrapped at " <> kubernetes_version <> "\n"))

  abbrev Any : Node → Type 0
  Any t = Unit

  initialise-Marked : (p : FilePath) → Run Any (initialise reader phases host p) (λ u. Marked) Any
  unfolding initialise write_last_event
  initialise-Marked p = Run-bind (Keeps-nothing (load reader p)) λ cfg.
      Run-bind (Keeps-nothing (default_node_name host)) λ n.
        Run-bind (Keeps-nothing (ensure phases cfg default_layout n)) λ u.
          Run-bind {R = λ u. Marked}
            (Run-wrapped "record bootstrap event" (
              Run-Triple (
                Triple-from λ t h.
                  Triple-weaken (λ u e. e) (λ a u k. k.target) (λ e u k. tt)
                    (write_atomic_lem state_dir t "last-event" _ fresh_event))))
            λ u. Run-weaken (λ t h. h) (λ a t h. h) (λ t h. tt) (Keeps-logf _)

  bootstrap_command-Marked :
      (force : Bool) (p : FilePath)
      → Run Any (bootstrap_command reader phases host force p) (λ u. Marked) Any
  unfolding bootstrap_command
  bootstrap_command-Marked force p =
      Run-bind (Keeps-nothing exists)
        λ b. Run-if (b && not force) (λ h. Run-throw _) (λ h. initialise-Marked p)

  -- Once a bootstrap has succeeded, forced or not, every bootstrap without `--force` that finds the
  -- files as it left them returns an error and changes nothing, whichever of its calls fail.
  pub bootstrap_once :
      (force : Bool) (p q : FilePath) (w v : World)
      → (bootstrap_command reader phases host force p w).0 ≡ ok tt
      → v.fs ≡ (bootstrap_command reader phases host force p w).1.fs
      → Post (λ u t. ⊥) (λ e t. t ≡ v.fs) (bootstrap_command reader phases host false q v)
  bootstrap_once force p q w v e s =
      bootstrap_refuses q v (inr (inl (λ n. cc (sym n ∙ ap (get last_event_file) s ∙ marked))))
    where
      marked : Marked (bootstrap_command reader phases host force p w).1.fs
      marked = run_ok _ _ _ _ _ e ((bootstrap_command-Marked force p).at w tt)
