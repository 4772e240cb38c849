-- ===== src/Os/Spec/Outside.antt =====
-- What an operation on two entries of a directory leaves alone: the target, and the name beside it
-- under which the new contents are staged.
use nanok8s.Base.{String, ◌≡◌, refl, ◌∙◌, true, false, [], ◌∷◌, ◌++◌}
use nanok8s.Os.FilePath.{FilePath, under, apart}
use nanok8s.Os.Tree.{Node, get}
use nanok8s.Os.Spec.Steps.{Changed}

pub record Outside (d : FilePath) (x y : String) (t u : Node) : Type 0 where
  pub same :
      (q : FilePath)
      → under q d ≡ false
      → apart (d ++ x ∷ []) q ≡ true
      → apart (d ++ y ∷ []) q ≡ true
      → get q u ≡ get q t

module _ {d : FilePath} {x y : String} where
  pub Outside-refl : (t : Node) → Outside d x y t t
  Outside-refl t = record { same = λ q a b c. refl }

  pub Outside-trans : {t u v : Node} → Outside d x y t u → Outside d x y u v → Outside d x y t v
  Outside-trans f g = record { same = λ q a b c. g.same q a b c ∙ f.same q a b c }

  pub Outside-target :
      {t u v : Node} → Outside d x y t u → Changed (d ++ x ∷ []) u v → Outside d x y t v
  Outside-target f c = record { same = λ q a b e. c.apart_same q b ∙ f.same q a b e }

  pub Outside-staged :
      {t u v : Node} → Outside d x y t u → Changed (d ++ y ∷ []) u v → Outside d x y t v
  Outside-staged f c = record { same = λ q a b e. c.apart_same q e ∙ f.same q a b e }

  pub Outside-dirs :
      {t u v : Node}
      → Outside d x y t u
      → ((q : FilePath) → under q d ≡ false → get q v ≡ get q u)
      → Outside d x y t v
  Outside-dirs f k = record { same = λ q a b e. k q a ∙ f.same q a b e }
