-- ===== src/Backup/Swap.antt =====
-- `restoreDir` and `replaceFile`: the live tree is swapped for the backup's by way of a staged copy.
use nanok8s.Base.{String, ◌<>◌, ◌≡◌, ◌∙◌, sym, subst, ap, true, false, none, [], ◌∷◌, ◌++◌}
use nanok8s.Base.Text.{suffixed_differs}
use nanok8s.Os.FilePath.{
  FilePath, under, apart, apart_sym, apart-child, parent-child, with_suffix-child,
}
use nanok8s.Os.Tree.{Node, get}
use nanok8s.Os.World.{Error, Result, ok, err, panic, M, throw, attempt, ◌>>◌, ◌>>=◌}
use nanok8s.Os.Calls.{stat, remove_all, rename}
use nanok8s.Os.Spec.{Triple}
use nanok8s.Os.Spec.Rules.{
  Either, Triple-bind, Triple-throw, Triple-pure, Triple-attempt, Triple-on_error, Triple-ignored,
  Triple-wrapped, Triple-weaken, Triple-from, Triple-if, Triple-absurd,
}
use nanok8s.Os.Spec.Steps.{
  Triple-stat, Triple-mkdir_all, Triple-remove_all, Triple-remove, Triple-rename,
}
use nanok8s.Os.Spec.Outside.{Outside, Outside-refl, Outside-target, Outside-staged, Outside-dirs}
use nanok8s.Backup.{
  restore_dir, restore_dir_from, replace_file, remove_if_there, remove_from, restore_file_from,
  copy_tree, copy_file, run_cp,
}
use nanok8s.Backup.Copying.{Cp, IsLawfulCp, Copies, tree_flags, file_flags}

abbrev pub restoring : String → String
restoring x = x <> ".restoring"

-- `if err := os.Remove(p); err != nil && !errors.Is(err, os.ErrNotExist) { return err }`
pub remove_from_lem :
    (P O : Node → Type 0) (r : Result (Unit {0}))
    → Triple
        (Either (λ u. P) (λ e u. O u × (e.not_exist ≡ true → P u)) r)
        (remove_from r)
        (λ u. P)
        (λ e. O)
unfolding remove_from
remove_from_lem P O (ok u) = Triple-pure tt (λ u. P)
remove_from_lem P O (err e) =
    Triple-if e.not_exist
      (λ p. Triple-weaken (λ t h. h.1 p) (λ a u h. h) (λ e u h. h) (Triple-pure tt (λ u. P)))
      (λ p. Triple-weaken (λ t h. h.0) (λ a u h. h) (λ e u h. h) (Triple-throw e))
remove_from_lem P O panic = Triple-absurd

module _ (cp : Cp) (L : IsLawfulCp cp) (src d : FilePath) (x : String)
    (off_dir : under src d ≡ false) (off_target : apart (d ++ x ∷ []) src ≡ true)
    (off_staged : apart (d ++ restoring x ∷ []) src ≡ true) (t₀ : Node) where
  abbrev pub Out : Node → Type 0
  Out = Outside d x (restoring x) t₀

  -- The target has the source's tree, or is gone as the source is.
  abbrev pub Done : Node → Type 0
  Done u = Out u × (get (d ++ x ∷ []) u ≡ get src t₀)

  -- The staged copy is complete.
  abbrev Staged : Node → Type 0
  Staged u = Out u × (get (d ++ restoring x ∷ []) u ≡ get src t₀)

  source : (u : Node) → Out u → get src u ≡ get src t₀
  source u h = h.same src off_dir off_target off_staged

  beside : apart (d ++ restoring x ∷ []) (d ++ x ∷ []) ≡ true
  beside = apart_sym _ _ ∙ apart-child d x (restoring x) (suffixed_differs x _ "restoring")

  drop_staged : (e : Error) → Triple Out (remove_all (d ++ restoring x ∷ [])) (λ u. Out) (λ e. Out)
  drop_staged e =
      Triple-remove_all d (restoring x) (λ t u h c g. Outside-staged h c)
        (λ t u e h c. Outside-staged h c)

  abbrev Clear : Node → Type 0
  Clear u = Out u × (get (d ++ restoring x ∷ []) u ≡ none)

  staging :
      (m : M (Unit {0}))
      → Copies m src (d ++ restoring x ∷ [])
      → Triple Clear m (λ u. Staged) (λ e. Out)
  staging m copies = Triple-from λ t h.
      Triple-weaken (λ u e. e) (λ a u k. (Outside-staged h.0 k.0, k.1 ∙ source t h.0))
        (λ e u k. Outside-staged h.0 k) (copies t (apart_sym _ _ ∙ off_staged) h.1)

  swap : Triple Staged (rename (d ++ restoring x ∷ []) (d ++ x ∷ [])) (λ u. Done) (λ e. Out)
  swap =
      Triple-rename (d ++ restoring x ∷ []) d x
        (λ t u v n h e a c k f. (Outside-target (Outside-staged h.0 c) k, f ∙ sym e ∙ h.1))
        (λ t e h. h.0)

  -- `_ = os.RemoveAll(staged); return err`
  undo :
      (e : Error) {R : Unit {0} → Node → Type 0}
      → Triple Out (attempt (remove_all (d ++ restoring x ∷ [])) >> throw e) R (λ e. Out)
  undo e = Triple-ignored (drop_staged e) (Triple-throw e)

  drop_target : Triple Staged (remove_all (d ++ x ∷ [])) (λ u. Staged) (λ e. Out)
  drop_target =
      Triple-remove_all d x
        (λ t u h c g. (Outside-target h.0 c, c.apart_same _ (apart_sym _ _ ∙ beside) ∙ h.1))
        (λ t u e h c. Outside-target h.0 c)

  abbrev Seen : Result Node → Node → Type 0
  Seen = Either (λ n u. Out u) (λ e u. Out u × (e.not_exist ≡ true → get src t₀ ≡ none))

  restore_dir_from-Done :
      (r : Result Node)
      → Triple
          (Seen r)
          (restore_dir_from cp r src (d ++ x ∷ []) (d ++ restoring x ∷ []))
          (λ u. Done)
          (λ e. Out)
  unfolding restore_dir_from copy_tree run_cp
  restore_dir_from-Done (ok n) = rw parent-child (
      Triple-bind {R = λ u. Out}
        (Triple-mkdir_all d (λ t u h f k l. Outside-dirs h f) (λ t u e h f k. Outside-dirs h f))
        λ u.
          Triple-bind {R = λ u. Clear}
            (Triple-remove_all d (restoring x) (λ t u h c g. (Outside-staged h c, g))
              (λ t u e h c. Outside-staged h c))
            λ u.
              Triple-bind
                (Triple-on_error
                  (Triple-wrapped _ (
                    staging (cp.run tree_flags src (d ++ restoring x ∷ []))
                      (L.copies_tree src d (restoring x))))
                  (λ e. undo e))
                λ u.
                  Triple-bind (Triple-on_error drop_target (λ e. undo e))
                    λ u. Triple-wrapped _ swap)
  restore_dir_from-Done (err e) =
      Triple-if e.not_exist
        (λ p. Triple-wrapped _ (
          Triple-remove_all d x (λ t u h c g. (Outside-target h.0 c, g ∙ sym (h.1 p)))
            (λ t u e h c. Outside-target h.0 c)))
        (λ p. Triple-weaken (λ t h. h.0) (λ a u h. h) (λ e u h. h) (Triple-throw e))
  restore_dir_from-Done panic = Triple-absurd

  -- A successful call leaves the source's tree at the target, or nothing where there is no source.
  -- Whatever fails, nothing changes but the target, its staged copy and the directories above.
  pub restore_dir_lem :
      Triple (λ t. t ≡ t₀) (restore_dir cp src (d ++ x ∷ [])) (λ u. Done) (λ e. Out)
  unfolding restore_dir
  restore_dir_lem = rw with_suffix-child (
      Triple-bind
        (Triple-attempt (
          Triple-weaken (λ t e. subst Out (sym e) (Outside-refl t₀)) (λ a u h. h) (λ e u h. h)
            (Triple-stat src (λ t n h e. h) (λ t h e. (h, λ p. sym (source t h) ∙ e))
              (λ t s h. (h, λ p. cc)))))
        (λ r. restore_dir_from-Done r))

  remove_staged : Triple Out (remove_if_there (d ++ restoring x ∷ [])) (λ u. Clear) (λ e. Out)
  unfolding remove_if_there
  remove_staged =
      Triple-bind
        (Triple-attempt (
          Triple-remove d (restoring x) (λ t u h c g. (Outside-staged h c, g))
            (λ t h g. (h, λ p. (h, g))) (λ t s h. (h, λ p. cc))))
        (remove_from_lem Clear Out)

  -- The same for one file.
  pub replace_file_lem :
      Triple (λ t. t ≡ t₀) (replace_file cp src (d ++ x ∷ [])) (λ u. Done) (λ e. Out)
  unfolding replace_file copy_file run_cp
  replace_file_lem =
      rw (with_suffix-child, parent-child)
        (Triple-bind {R = λ u. Out}
          (Triple-mkdir_all d (λ t u h f k l. Outside-dirs (subst Out (sym h) (Outside-refl t₀)) f)
            (λ t u e h f k. Outside-dirs (subst Out (sym h) (Outside-refl t₀)) f))
          λ u. Triple-bind remove_staged λ u.
            Triple-bind
              (Triple-on_error
                (Triple-wrapped _ (
                  staging (cp.run file_flags src (d ++ restoring x ∷ []))
                    (L.copies_file src d (restoring x))))
                (λ e.
                  Triple-ignored
                    (Triple-remove d (restoring x) (λ t u h c g. Outside-staged h c) (λ t h g. h)
                      (λ t s h. h))
                    (Triple-throw e)))
              λ u. swap)

  -- os.Remove of the target, where a missing file is no error
  pub remove_target_lem :
      get src t₀ ≡ none → Triple Out (remove_if_there (d ++ x ∷ [])) (λ u. Done) (λ e. Out)
  unfolding remove_if_there
  remove_target_lem gone =
      Triple-bind
        (Triple-attempt (
          Triple-remove d x (λ t u h c g. (Outside-target h c, g ∙ sym gone))
            (λ t h g. (h, λ p. (h, g ∙ sym gone))) (λ t s h. (h, λ p. cc))))
        (remove_from_lem Done Out)

  abbrev Looked : Result Node → Node → Type 0
  Looked = Either (λ n u. u ≡ t₀) (λ e u. (u ≡ t₀) × (e.not_exist ≡ true → get src t₀ ≡ none))

  restore_file_from-Done :
      (r : Result Node) (f : String)
      → Triple (Looked r) (restore_file_from cp r f src (d ++ x ∷ [])) (λ u. Done) (λ e. Out)
  unfolding restore_file_from
  restore_file_from-Done (ok n) f = Triple-wrapped _ replace_file_lem
  restore_file_from-Done (err e) f =
      Triple-if e.not_exist
        (λ p. Triple-wrapped _ (
          Triple-from λ t h.
            Triple-weaken (λ u k. subst Out (sym (k ∙ h.0)) (Outside-refl t₀)) (λ a u k. k)
              (λ e u k. k) (remove_target_lem (h.1 p))))
        (λ p.
          Triple-weaken (λ t h. subst Out (sym h.0) (Outside-refl t₀)) (λ a u h. h) (λ e u h. h)
            (Triple-throw e))
  restore_file_from-Done panic f = Triple-absurd

  -- The restoration of one file: the backup's, or none where the backup has none.
  pub restore_one_lem :
      (f : String)
      → Triple
          (λ t. t ≡ t₀)
          (attempt (stat src) >>= λ r. restore_file_from cp r f src (d ++ x ∷ []))
          (λ u. Done)
          (λ e. Out)
  restore_one_lem f =
      Triple-bind
        (Triple-attempt (
          Triple-stat src (λ t n h e. h) (λ t h e. (h, λ p. ap (get src) (sym h) ∙ e))
            (λ t s h. (h, λ p. cc))))
        (λ r. restore_file_from-Done r f)
