-- ===== src/Os/Spec/Steps/Writes.antt =====
-- The calls that make directories and files.
use nanok8s.Base.{
  ℕ, String, ◌≡◌, refl, ◌∙◌, Bool, true, false, Option, none, some, [], ◌∷◌, ◌++◌, Bool-cases, inl,
  inr,
}
use nanok8s.Os.FilePath.{FilePath, under, parent, parent-child}
use nanok8s.Os.Tree.{Node, file, dir, get, is_dir, make_dirs}
use nanok8s.Os.Tree.Laws.{get-alter_self, is_dir-alter_above, get-make_dirs, is_dir-make_dirs_mono}
use nanok8s.Os.World.{Error, ok}
use nanok8s.Os.Calls.{
  mkdir_all, write_file, create, flush, take, unspoiled, spoiled, mkdir_all_act, written, created,
}
use nanok8s.Os.Spec.{Triple}
use nanok8s.Os.Spec.Rules.{Triple-syscall, Either}
use nanok8s.Os.Spec.Steps.Changes.{Changed, Changed-refl, Changed-alter, under-take}

module _ {Q : Unit {0} → Node → Type 0} {E : Error → Node → Type 0} {P : Node → Type 0} where
  -- os.MkdirAll
  pub Triple-mkdir_all :
      (p : FilePath)
      → ((t u : Node)
          → P t
          → ((q : FilePath) → under q p ≡ false → get q u ≡ get q t)
          → ((q : FilePath) → is_dir q t ≡ true → is_dir q u ≡ true)
          → is_dir p u ≡ true
          → Q tt u)
      → ((t u : Node) (e : Error)
          → P t
          → ((q : FilePath) → under q p ≡ false → get q u ≡ get q t)
          → ((q : FilePath) → is_dir q t ≡ true → is_dir q u ≡ true)
          → E e u)
      → Triple P (mkdir_all p) Q E
  unfolding mkdir_all
  Triple-mkdir_all p made failed =
      Triple-syscall (mkdir_all_act p) (λ now f t. make_dirs now (take f.depth p) t)
        (λ now t h. elim (Bool-cases (is_dir p (make_dirs now p t))) [
          | inl e ↦ rw e (
              made t (make_dirs now p t) h (λ q. get-make_dirs now p q t)
                (λ q. is_dir-make_dirs_mono now p q t) e)
          | inr e ↦ rw e (
              failed t (make_dirs now p t) _ h (λ q. get-make_dirs now p q t)
                (λ q. is_dir-make_dirs_mono now p q t))
        ])
        (λ now f t h.
          failed t (make_dirs now (take f.depth p) t) _ h
            (λ q k. get-make_dirs now (take f.depth p) q t (under-take f.depth p q k))
            (λ q. is_dir-make_dirs_mono now (take f.depth p) q t))

  -- os.WriteFile to a file that is there, or not
  pub Triple-write_file :
      (d : FilePath) (x s : String)
      → ((t u : Node)
          → P t
          → Changed (d ++ x ∷ []) t u
          → get (d ++ x ∷ []) u ≡ some (file s)
          → Q tt u)
      → ((t u : Node) (e : Error) → P t → Changed (d ++ x ∷ []) t u → E e u)
      → Triple P (write_file (d ++ x ∷ []) s) Q E
  unfolding write_file
  Triple-write_file d x s done failed =
      Triple-syscall (λ now t. written (is_dir (parent p) t) p s now (get p t) t) (spoiled p)
        (λ now t h. rw parent-child (tried now t (get p t) (is_dir d t) h refl))
        (λ now f t h. failed t _ _ h (Changed-alter (λ _. now) p f.leaves t))
    where
      p : FilePath
      p = d ++ x ∷ []

      tried :
          (now : ℕ) (t : Node) (o : Option Node) (b : Bool)
          → P t
          → is_dir d t ≡ b
          → Either Q E (written b p s now o t).0 (written b p s now o t).1
      tried now t o false h k = failed t t _ h (Changed-refl p t)
      tried now t none true h k =
          done t _ h (Changed-alter _ p _ t) (get-alter_self (λ _. now) d x _ t k)
      tried now t (some (file b)) true h k =
          done t _ h (Changed-alter _ p _ t) (get-alter_self (λ m. m) d x _ t k)
      tried now t (some (dir m es)) true h k = failed t t _ h (Changed-refl p t)

  -- os.CreateTemp, once its name is drawn
  pub Triple-create :
      (d : FilePath) (x : String)
      → ((t u : Node)
          → P t
          → Changed (d ++ x ∷ []) t u
          → get (d ++ x ∷ []) t ≡ none
          → get (d ++ x ∷ []) u ≡ some (file "")
          → is_dir d u ≡ true
          → Q tt u)
      → ((t u : Node) (e : Error) → P t → Changed (d ++ x ∷ []) t u → E e u)
      → Triple P (create (d ++ x ∷ [])) Q E
  unfolding create
  Triple-create d x done failed =
      Triple-syscall (λ now t. created (is_dir (parent p) t) p now (get p t) t) (spoiled p)
        (λ now t h. rw parent-child (tried now t (get p t) (is_dir d t) h refl refl))
        (λ now f t h. failed t _ _ h (Changed-alter (λ _. now) p f.leaves t))
    where
      p : FilePath
      p = d ++ x ∷ []

      tried :
          (now : ℕ) (t : Node) (o : Option Node) (b : Bool)
          → P t
          → get p t ≡ o
          → is_dir d t ≡ b
          → Either Q E (created b p now o t).0 (created b p now o t).1
      tried now t o false h e k = failed t t _ h (Changed-refl p t)
      tried now t none true h e k =
          done t _ h (Changed-alter _ p _ t) e (get-alter_self (λ _. now) d x _ t k)
            (is_dir-alter_above (λ _. now) d [] x _ t ∙ k)
      tried now t (some n) true h e k = failed t t _ h (Changed-refl p t)

  -- A call that changes nothing that is read back
  pub Triple-flush :
      ((t : Node) → P t → Q tt t) → ((t : Node) (e : Error) → P t → E e t) → Triple P flush Q E
  unfolding flush
  Triple-flush done failed =
      Triple-syscall (λ now t. (ok tt, t)) unspoiled (λ now t h. done t h)
        (λ now f t h. failed t _ h)
