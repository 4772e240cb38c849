-- ===== src/Os/Tree/Laws.antt =====
-- How reading the tree at one path goes with writing it at another.
use nanok8s.Base.{
  ℕ, String, ◌≡◌, refl, true, false, Option, none, some, [], ◌∷◌, ◌++◌, fun_ext, sym, arith, ◌==◌,
  eq_iff, eq_refl, if◌then◌else◌, or_else, bind, Bool-cases, Option-cases, inl, inr,
}
use mathlib.Core.Bool.{false≢true}
use mathlib.Core.Option
use nanok8s.Os.FilePath.{FilePath, under, apart}
use nanok8s.Os.Tree.{
  Node, file, dir, Entries, nil, cons, find, set, delete, update, get, is_dir_node, alter, store,
  change, is_dir, make_dirs, fresh_dirs,
}

pub find-set :
    (x y : String) (n : Node) (es : Entries)
    → find y (set x n es) ≡ (if x == y then some n else find y es)
unfolding find set
find-set x y n nil = ground (arith, eq_iff x y, eq_iff y x)
find-set x y n (cons z m es) =
    ground (arith, eq_iff x y, eq_iff y x, eq_iff x z, eq_iff y z, find-set x y n es)

pub find-delete :
    (x y : String) (es : Entries) → find y (delete x es) ≡ (if x == y then none else find y es)
unfolding find delete
find-delete x y nil = ground arith
find-delete x y (cons z m es) =
    ground (arith, eq_iff x y, eq_iff x z, eq_iff y z, find-delete x y es)

pub find-update :
    (x y : String) (v : Option Node) (es : Entries)
    → find y (update x v es) ≡ (if x == y then v else find y es)
unfolding update
find-update x y none es = find-delete x y es
find-update x y (some n) es = find-set x y n es

find-store :
    (x y : String) (f : Node → Node) (o : Option Node) (es : Entries)
    → find x es ≡ o
    → find y (store x f o es) ≡ (if x == y then Option.map f o else find y es)
unfolding store
find-store x y f none es h = ground (arith, eq_iff x y)
find-store x y f (some n) es h = find-set x y (f n) es

pub find-change :
    (x y : String) (f : Node → Node) (es : Entries)
    → find y (change x f es) ≡ (if x == y then Option.map f (find x es) else find y es)
unfolding change
find-change x y f es = find-store x y f (find x es) es refl

bind-map_keeps :
    (o : Option Node) (f : Node → Node) (k : Node → Option Node)
    → ((n : Node) → k (f n) ≡ k n)
    → bind (Option.map f o) k ≡ bind o k
bind-map_keeps none f k h = refl
bind-map_keeps (some n) f k h = h n

bind-bind :
    (o : Option Node) (f g : Node → Option Node) → bind (bind o f) g ≡ bind o (λ n. bind (f n) g)
bind-bind none f g = refl
bind-bind (some n) f g = refl

pub get-append : (p q : FilePath) (t : Node) → get (p ++ q) t ≡ bind (get p t) (get q)
unfolding get
get-append [] q t = refl
get-append (x ∷ p) q (file s) = refl
get-append (x ∷ p) q (dir m es) =
    rw (fun_ext (get-append p q)) (sym (bind-bind (find x es) (get p) (get q)))

pub get-alter-apart :
    (f : ℕ → ℕ) (p q : FilePath) (v : Option Node) (t : Node)
    → apart p q ≡ true
    → get q (alter f p v t) ≡ get q t
unfolding get alter apart
get-alter-apart f [] q v t h = cc
get-alter-apart f (x ∷ p) [] v t h = cc
get-alter-apart f (x ∷ p) (y ∷ q) v (file s) h = refl
get-alter-apart f (x ∷ []) (y ∷ q) v (dir m es) h = ground (arith, find-update x y v es)
get-alter-apart f (x ∷ z ∷ p) (y ∷ q) v (dir m es) h = elim (Bool-cases (x == y)) [
  | inl e ↦
      rw (find-change, e, ← (eq_iff x y).0 e)
        (bind-map_keeps (find x es) (alter f (z ∷ p) v) (get q)
          (λ n. get-alter-apart f (z ∷ p) q v n (rw e at h)))
  | inr e ↦ rw (find-change, e)
]

-- Where the parent is a directory, a write is read back.
pub get-alter_self :
    (f : ℕ → ℕ) (p : FilePath) (x : String) (v : Option Node) (t : Node)
    → is_dir p t ≡ true
    → get (p ++ x ∷ []) (alter f (p ++ x ∷ []) v t) ≡ v
unfolding get alter is_dir
get-alter_self f [] x v (file s) h = cc
get-alter_self f [] x none (dir m es) h = rw (find-update, eq_refl x)
get-alter_self f [] x (some n) (dir m es) h = rw (find-update, eq_refl x)
get-alter_self f (y ∷ p) x v (file s) h = cc
get-alter_self f (y ∷ []) x v (dir m es) h = elim (Option-cases (find y es)) [
  | inl e ↦ absurd (false≢true (rw e at h))
  | inr (n, e) ↦ rw (find-change, eq_refl y, e) (get-alter_self f [] x v n (rw e at h))
]
get-alter_self f (y ∷ z ∷ p) x v (dir m es) h = elim (Option-cases (find y es)) [
  | inl e ↦ absurd (false≢true (rw e at h))
  | inr (n, e) ↦ rw (find-change, eq_refl y, e) (get-alter_self f (z ∷ p) x v n (rw e at h))
]

-- What is removed is gone, whatever its parent is.
pub get-alter-none :
    (f : ℕ → ℕ) (p : FilePath) (x : String) (t : Node) → get (x ∷ p) (alter f (x ∷ p) none t) ≡ none
unfolding get alter
get-alter-none f p x (file s) = refl
get-alter-none f [] x (dir m es) = rw (find-update, eq_refl x)
get-alter-none f (z ∷ p) x (dir m es) = elim (Option-cases (find x es)) [
  | inl e ↦ rw (find-change, eq_refl x, e)
  | inr (n, e) ↦ rw (find-change, eq_refl x, e) (get-alter-none f p z n)
]

-- The directories above a changed path remain directories.
pub is_dir-alter_above :
    (f : ℕ → ℕ) (p q : FilePath) (x : String) (v : Option Node) (t : Node)
    → is_dir p (alter f (p ++ x ∷ q) v t) ≡ is_dir p t
unfolding get alter is_dir
is_dir-alter_above f [] q x v (file s) = refl
is_dir-alter_above f [] [] x v (dir m es) = refl
is_dir-alter_above f [] (z ∷ q) x v (dir m es) = refl
is_dir-alter_above f (y ∷ p) q x v (file s) = refl
is_dir-alter_above f (y ∷ []) q x v (dir m es) = elim (Option-cases (find y es)) [
  | inl e ↦ rw (find-change, eq_refl y, e)
  | inr (n, e) ↦ rw (find-change, eq_refl y, e) (is_dir-alter_above f [] q x v n)
]
is_dir-alter_above f (y ∷ z ∷ p) q x v (dir m es) = elim (Option-cases (find y es)) [
  | inl e ↦ rw (find-change, eq_refl y, e)
  | inr (n, e) ↦ rw (find-change, eq_refl y, e) (is_dir-alter_above f (z ∷ p) q x v n)
]

get-fresh_dirs : (now : ℕ) (p q : FilePath) → under q p ≡ false → get q (fresh_dirs now p) ≡ none
unfolding get fresh_dirs under find
get-fresh_dirs now p [] h = cc
get-fresh_dirs now [] (y ∷ q) h = refl
get-fresh_dirs now (x ∷ p) (y ∷ q) h =
    ground (arith, eq_iff x y, eq_iff y x, get-fresh_dirs now p q)

is_dir-fresh_dirs : (now : ℕ) (p : FilePath) → is_dir p (fresh_dirs now p) ≡ true
unfolding is_dir fresh_dirs find
is_dir-fresh_dirs now [] = refl
is_dir-fresh_dirs now (x ∷ p) = rw (eq_refl x) (is_dir-fresh_dirs now p)

get-made :
    (now : ℕ) (p q : FilePath) (o : Option Node)
    → under q p ≡ false
    → ((n : Node) → get q (make_dirs now p n) ≡ get q n)
    → get q (or_else (Option.map (make_dirs now p) o) (fresh_dirs now p)) ≡ bind o (get q)
get-made now p q none h ih = get-fresh_dirs now p q h
get-made now p q (some n) h ih = ih n

is_dir-made :
    (now : ℕ) (p q : FilePath) (o : Option Node)
    → ((n : Node) → is_dir q n ≡ true → is_dir q (make_dirs now p n) ≡ true)
    → is_dir_node (bind o (get q)) ≡ true
    → is_dir_node (get q (or_else (Option.map (make_dirs now p) o) (fresh_dirs now p))) ≡ true
unfolding is_dir
is_dir-made now p q none ih h = cc
is_dir-made now p q (some n) ih h = ih n h

-- Making directories changes nothing but the path itself and what lies above it.
pub get-make_dirs :
    (now : ℕ) (p q : FilePath) (t : Node) → under q p ≡ false → get q (make_dirs now p t) ≡ get q t
unfolding get make_dirs under
get-make_dirs now p [] t h = cc
get-make_dirs now [] (y ∷ q) t h = refl
get-make_dirs now (x ∷ p) (y ∷ q) (file s) h = refl
get-make_dirs now (x ∷ p) (y ∷ q) (dir m es) h = elim (Bool-cases (x == y)) [
  | inl e ↦
      let h' : under q p ≡ false = ground (arith, eq_iff x y, eq_refl y) in
      rw (find-set, e, ← (eq_iff x y).0 e)
        (get-made now p q (find x es) h' (λ n. get-make_dirs now p q n h'))
  | inr e ↦ rw (find-set, e)
]

-- What is a directory stays one.
pub is_dir-make_dirs_mono :
    (now : ℕ) (p q : FilePath) (t : Node) → is_dir q t ≡ true → is_dir q (make_dirs now p t) ≡ true
unfolding is_dir make_dirs
is_dir-make_dirs_mono now [] q t h = h
is_dir-make_dirs_mono now (x ∷ p) q (file s) h = h
is_dir-make_dirs_mono now (x ∷ p) [] (dir m es) h = refl
is_dir-make_dirs_mono now (x ∷ p) (y ∷ q) (dir m es) h = elim (Bool-cases (x == y)) [
  | inl e ↦
      rw (is_dir, find-set, e)
        (is_dir-made now p q (find x es) (is_dir-make_dirs_mono now p q)
          (rw (← (eq_iff x y).0 e) at h))
  | inr e ↦ rw (find-set, e) h
]

is_dir_node-map :
    (o : Option Node) (f : Node → Node) (q : FilePath)
    → ((n : Node) → is_dir q (f n) ≡ is_dir q n)
    → is_dir_node (bind (Option.map f o) (get q)) ≡ is_dir_node (bind o (get q))
unfolding is_dir
is_dir_node-map none f q h = refl
is_dir_node-map (some n) f q h = h n

-- The directory that a path lies in remains when something beside the path changes.
pub is_dir-alter_beside :
    (f : ℕ → ℕ) (p q r : FilePath) (y : String) (v : Option Node) (t : Node)
    → apart p (q ++ y ∷ r) ≡ true
    → is_dir q (alter f p v t) ≡ is_dir q t
unfolding get alter is_dir apart
is_dir-alter_beside f [] q r y v t h = cc
is_dir-alter_beside f (x ∷ p) q r y v (file s) h = refl
is_dir-alter_beside f (x ∷ []) [] r y v (dir m es) h = refl
is_dir-alter_beside f (x ∷ w ∷ p) [] r y v (dir m es) h = refl
is_dir-alter_beside f (x ∷ []) (z ∷ q) r y v (dir m es) h = ground (arith, find-update x z v es)
is_dir-alter_beside f (x ∷ w ∷ p) (z ∷ q) r y v (dir m es) h = elim (Bool-cases (x == z)) [
  | inl e ↦
      rw (find-change, e, ← (eq_iff x z).0 e)
        (is_dir_node-map (find x es) (alter f (w ∷ p) v) q
          (λ n. is_dir-alter_beside f (w ∷ p) q r y v n (rw e at h)))
  | inr e ↦ rw (find-change, e)
]
