-- ===== src/State/Atomic.antt =====
-- internal/state/state.go: writeAtomic, by way of a temporary file, step by step.
use nanok8s.Base.{String, ◌<>◌, ◌≡◌, refl, ◌∙◌, sym, ap, true, false, some, [], ◌∷◌, ◌++◌, ◌==◌}
use nanok8s.Os.FilePath.{FilePath, under, apart, parent-child, apart-child}
use nanok8s.Os.Tree.{Node, file, get}
use nanok8s.Os.World.{Error, throw, ◌>>◌, attempt, defer}
use nanok8s.Os.Calls.{create_temp, flush, remove}
use nanok8s.Os.Spec.{Triple}
use nanok8s.Os.Spec.Rules.{
  Triple-bind, Triple-pure, Triple-throw, Triple-on_error, Triple-defer, Triple-random_name,
  Triple-ignored, Triple-given, Triple-weaken,
}
use nanok8s.Os.Spec.Steps.{
  Changed, Triple-mkdir_all, Triple-create, Triple-write_file, Triple-flush, Triple-rename,
  Triple-remove,
}
use nanok8s.State.{write_atomic, write_temp, write_close, sync_close}

abbrev pub temp : String → String
temp r = ".tmp-" <> r

module _ (d : FilePath) (t₀ : Node) where
  -- Only the directory, what lies above it, and temporary files of it can differ.
  pub record Staging (t : Node) : Type 0 where
    pub same :
        (q : FilePath)
        → under q d ≡ false
        → ((r : String) → apart (d ++ temp r ∷ []) q ≡ true)
        → get q t ≡ get q t₀

  -- The file has the new contents, and nothing else differs.
  pub record Written (x s : String) (t : Node) : Type 0 where
    pub target : get (d ++ x ∷ []) t ≡ some (file s)
    pub same :
        (q : FilePath)
        → under q d ≡ false
        → apart (d ++ x ∷ []) q ≡ true
        → ((r : String) → apart (d ++ temp r ∷ []) q ≡ true)
        → get q t ≡ get q t₀

module _ (d : FilePath) (t₀ : Node) (x s : String)
    (fresh : (r : String) → (temp r == x) ≡ false) where
  Staging-Changed :
      (r : String) (t u : Node) → Staging d t₀ t → Changed (d ++ temp r ∷ []) t u → Staging d t₀ u
  Staging-Changed r t u h c = record { same = λ q a b. c.apart_same q (b r) ∙ h.same q a b }

  Written-Changed :
      (r : String) (t u : Node)
      → Written d t₀ x s t
      → Changed (d ++ temp r ∷ []) t u
      → Written d t₀ x s u
  Written-Changed r t u h c = record {
    target = c.apart_same _ (apart-child d (temp r) x (fresh r)) ∙ h.target;
    same = λ q a b e. c.apart_same q (e r) ∙ h.same q a b e;
  }

  closed :
      (e : Error) {R : Unit {0} → Node → Type 0}
      → Triple (Staging d t₀) (attempt flush >> throw e) R (λ e. Staging d t₀)
  closed e = Triple-ignored (Triple-flush (λ t h. h) (λ t e h. h)) (Triple-throw e)

  -- The temporary file has all of the text.
  Filled : String → Node → Type 0
  Filled r t = Staging d t₀ t × (get (d ++ temp r ∷ []) t ≡ some (file s))

  write_close-Filled :
      (r : String)
      → Triple (Staging d t₀) (write_close (d ++ temp r ∷ []) s) (λ u. Filled r) (λ e. Staging d t₀)
  unfolding write_close Filled
  write_close-Filled r =
      Triple-on_error
        (Triple-write_file d (temp r) s (λ t u h c e. (Staging-Changed r t u h c, e))
          (λ t u e h c. Staging-Changed r t u h c))
        (λ e. closed e)

  sync_close-Filled :
      (r : String) → Triple (Filled r) sync_close (λ u. Filled r) (λ e. Staging d t₀)
  unfolding sync_close Filled
  sync_close-Filled r = Triple-on_error (Triple-flush (λ t h. h) (λ t e h. h.0)) (λ e. closed e)

  renamed :
      (r : String) (t u v n : Node)
      → Filled r t
      → get (d ++ temp r ∷ []) t ≡ some n
      → Changed (d ++ temp r ∷ []) t u
      → Changed (d ++ x ∷ []) u v
      → get (d ++ x ∷ []) v ≡ some n
      → Written d t₀ x s v
  unfolding Filled
  renamed r t u v n h e c k f = record {
    target = f ∙ sym e ∙ h.1;
    same = λ q a b w. k.apart_same q b ∙ c.apart_same q (w r) ∙ h.0.same q a w;
  }

  write_temp-Written :
      (r : String)
      → Triple
          (Staging d t₀)
          (write_temp (d ++ temp r ∷ []) (d ++ x ∷ []) s)
          (λ u. Written d t₀ x s)
          (λ e. Staging d t₀)
  unfolding write_temp Filled
  write_temp-Written r = Triple-bind (write_close-Filled r) λ u.
      Triple-bind (sync_close-Filled r) λ u.
        Triple-bind {R = λ u. Filled r} (Triple-flush (λ t h. h) (λ t e h. h.0)) λ u.
          Triple-rename (d ++ temp r ∷ []) d x (λ t u v n h e ap c k f. renamed r t u v n h e c k f)
            (λ t e h. h.0)

  made :
      (t u : Node)
      → t ≡ t₀
      → ((q : FilePath) → under q d ≡ false → get q u ≡ get q t)
      → Staging d t₀ u
  made t u h f = record { same = λ q a b. f q a ∙ ap (get q) h }

  Temporary : FilePath → Node → Type 0
  Temporary tmp t = (r : String) × ((e : tmp ≡ d ++ temp r ∷ []) × Staging d t₀ t)

  create_temp-Staging : Triple (Staging d t₀) (create_temp d ".tmp-") Temporary (λ e. Staging d t₀)
  unfolding create_temp Temporary
  create_temp-Staging = Triple-bind Triple-random_name λ r.
      Triple-bind {R = λ u. Staging d t₀}
        (Triple-create d (temp r) (λ t u h c e f g. Staging-Changed r t u h c)
          (λ t u e h c. Staging-Changed r t u h c))
        (λ u.
          Triple-weaken (λ t h. (r, (refl, h))) (λ a t h. h) (λ e t h. h)
            (Triple-pure (d ++ temp r ∷ []) Temporary))

  through :
      (tmp : FilePath) (r : String)
      → tmp ≡ d ++ temp r ∷ []
      → Triple
          (Staging d t₀)
          (defer (remove tmp) (write_temp tmp (d ++ x ∷ []) s))
          (λ u. Written d t₀ x s)
          (λ e. Staging d t₀)
  through tmp r e = rw e (
      Triple-defer _ _ _ (write_temp-Written r)
        (λ u.
          Triple-remove d (temp r) (λ t v h c g. Written-Changed r t v h c) (λ t h g. h)
            (λ t m h. h))
        (λ f.
          Triple-remove d (temp r) (λ t v h c g. Staging-Changed r t v h c) (λ t h g. h)
            (λ t m h. h)))

  -- A successful write leaves the new text and a failed one leaves the old, whatever system call
  -- fails. Beside the target only temporary files of the directory, and its own existence, change.
  pub write_atomic_lem :
      Triple
        (λ t. t ≡ t₀)
        (write_atomic (d ++ x ∷ []) s)
        (λ u. Written d t₀ x s)
        (λ e. Staging d t₀)
  unfolding write_atomic Temporary
  write_atomic_lem = rw parent-child (
      Triple-bind {R = λ u. Staging d t₀}
        (Triple-mkdir_all d (λ t u h f k l. made t u h f) (λ t u e h f k. made t u h f))
        (λ u.
          Triple-bind create_temp-Staging
            (λ tmp. Triple-given (λ r. Triple-given (λ e. through tmp r e)))))
