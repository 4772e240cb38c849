-- ===== src/Os/Spec/Steps/Moves.antt =====
-- The calls that remove and rename.
use nanok8s.Base.{
  ℕ, String, ◌≡◌, refl, ◌∙◌, Bool, true, false, Option, none, some, [], ◌∷◌, ◌++◌, ◌&&◌,
}
use nanok8s.Os.FilePath.{FilePath, apart, parent-child}
use nanok8s.Os.Tree.{Node, file, dir, Entries, get, alter, is_dir}
use nanok8s.Os.Tree.Laws.{get-alter_self, is_dir-alter_beside}
use nanok8s.Os.World.{Error, new_error, ok}
use nanok8s.Os.Calls.{
  remove_all, remove, rename, missing, unspoiled, spoiled, remove_all_act, remove_act, moved,
  rename_act,
}
use nanok8s.Os.Spec.{Triple}
use nanok8s.Os.Spec.Rules.{Triple-syscall, Either}
use nanok8s.Os.Spec.Steps.Changes.{Changed, Changed-refl, Changed-alter, get-alter_gone}

module _ {Q : Unit {0} → Node → Type 0} {E : Error → Node → Type 0} {P : Node → Type 0} where
  -- os.RemoveAll. A failing call may leave anything at the path.
  pub Triple-remove_all :
      (d : FilePath) (x : String)
      → ((t u : Node) → P t → Changed (d ++ x ∷ []) t u → get (d ++ x ∷ []) u ≡ none → Q tt u)
      → ((t u : Node) (e : Error) → P t → Changed (d ++ x ∷ []) t u → E e u)
      → Triple P (remove_all (d ++ x ∷ [])) Q E
  unfolding remove_all
  Triple-remove_all d x gone failed =
      Triple-syscall (λ now t. (ok tt, remove_all_act p now (get p t) t)) (spoiled p)
        (λ now t h. removed now t (get p t) h refl)
        (λ now f t h. failed t _ _ h (Changed-alter (λ _. now) p f.leaves t))
    where
      p : FilePath
      p = d ++ x ∷ []

      removed :
          (now : ℕ) (t : Node) (o : Option Node)
          → P t
          → get p t ≡ o
          → Q tt (remove_all_act p now o t)
      removed now t none h e = gone t t h (Changed-refl p t) e
      removed now t (some n) h e =
          gone t _ h (Changed-alter (λ _. now) p none t) (get-alter_gone (λ _. now) d x t)

  -- os.Remove
  pub Triple-remove :
      (d : FilePath) (x : String)
      → ((t u : Node) → P t → Changed (d ++ x ∷ []) t u → get (d ++ x ∷ []) u ≡ none → Q tt u)
      → ((t : Node) → P t → get (d ++ x ∷ []) t ≡ none → E missing t)
      → ((t : Node) (s : String) → P t → E (new_error s) t)
      → Triple P (remove (d ++ x ∷ [])) Q E
  unfolding remove
  Triple-remove d x gone absent failed =
      Triple-syscall (λ now t. remove_act p now (get p t) t) unspoiled
        (λ now t h. removed now t (get p t) h refl) (λ now f t h. failed t _ h)
    where
      p : FilePath
      p = d ++ x ∷ []

      took : (now : ℕ) (t : Node) → P t → Q tt (alter (λ _. now) p none t)
      took now t h =
          gone t _ h (Changed-alter (λ _. now) p none t) (get-alter_gone (λ _. now) d x t)

      removed :
          (now : ℕ) (t : Node) (o : Option Node)
          → P t
          → get p t ≡ o
          → Either Q E (remove_act p now o t).0 (remove_act p now o t).1
      removed now t none h e = absent t h e
      removed now t (some (file s)) h e = took now t h
      removed now t (some (dir m Entries.nil)) h e = took now t h
      removed now t (some (dir m (Entries.cons x n es))) h e = failed t _ h

  -- os.Rename moves the whole tree, or changes nothing.
  pub Triple-rename :
      (p q : FilePath) (y : String)
      → ((t u v n : Node)
          → P t
          → get p t ≡ some n
          → apart p (q ++ y ∷ []) ≡ true
          → Changed p t u
          → Changed (q ++ y ∷ []) u v
          → get (q ++ y ∷ []) v ≡ some n
          → Q tt v)
      → ((t : Node) (e : Error) → P t → E e t)
      → Triple P (rename p (q ++ y ∷ [])) Q E
  unfolding rename
  Triple-rename p q y done failed =
      Triple-syscall (λ now t. rename_act p (q ++ y ∷ []) now (get p t) t) unspoiled
        (λ now t h. renamed now t (get p t) h refl) (λ now f t h. failed t _ h)
    where
      tried :
          (now : ℕ) (t n : Node) (a b c : Bool)
          → P t
          → get p t ≡ some n
          → apart p (q ++ y ∷ []) ≡ a
          → is_dir q t ≡ b
          → Either Q E
              (moved (a && (b && c)) p (q ++ y ∷ []) now n t).0
              (moved (a && (b && c)) p (q ++ y ∷ []) now n t).1
      tried now t n true true true h e beside d =
          done t (alter (λ _. now) p none t) _ n h e beside (Changed-alter (λ _. now) p none t)
            (Changed-alter (λ _. now) (q ++ y ∷ []) (some n) (alter (λ _. now) p none t))
            (get-alter_self (λ _. now) q y (some n) _
              (is_dir-alter_beside (λ _. now) p q [] y none t beside ∙ d))
      tried now t n true true false h e beside d = failed t _ h
      tried now t n true false c h e beside d = failed t _ h
      tried now t n false b c h e beside d = failed t _ h

      renamed :
          (now : ℕ) (t : Node) (o : Option Node)
          → P t
          → get p t ≡ o
          → Either Q E (rename_act p (q ++ y ∷ []) now o t).0 (rename_act p (q ++ y ∷ []) now o t).1
      renamed now t none h e = failed t _ h
      renamed now t (some n) h e = rw parent-child (tried now t n _ _ _ h e refl refl)
