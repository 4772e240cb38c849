-- ===== src/Os/Spec/Steps/Reads.antt =====
-- What the calls that only read return.
use nanok8s.Base.{String, ◌≡◌, refl, Bool, true, false, Option, none, some}
use nanok8s.Os.FilePath.{FilePath}
use nanok8s.Os.Tree.{Node, file, dir, get}
use nanok8s.Os.World.{Error, new_error, Result, ok, err, panic}
use nanok8s.Os.Calls.{stat, read_file, missing, content, unspoiled, found, probe, exists_from}
use nanok8s.Os.Spec.{Triple}
use nanok8s.Os.Spec.Rules.{
  Triple-syscall, Either, Triple-bind, Triple-pure, Triple-throw, Triple-attempt, Triple-if,
  Triple-weaken, Triple-absurd,
}

module _ {Q : Node → Node → Type 0} {E : Error → Node → Type 0} {P : Node → Type 0} where
  pub Triple-stat :
      (p : FilePath)
      → ((t n : Node) → P t → get p t ≡ some n → Q n t)
      → ((t : Node) → P t → get p t ≡ none → E missing t)
      → ((t : Node) (s : String) → P t → E (new_error s) t)
      → Triple P (stat p) Q E
  unfolding stat
  Triple-stat p found_at absent failed =
      Triple-syscall (λ now t. (found (get p t), t)) unspoiled (λ now t h. seen t (get p t) h refl)
        (λ now f t h. failed t f.text h)
    where
      seen : (t : Node) (o : Option Node) → P t → get p t ≡ o → Either Q E (found o) t
      seen t none h e = absent t h e
      seen t (some n) h e = found_at t n h e

module _ {Q : String → Node → Type 0} {E : Error → Node → Type 0} {P : Node → Type 0} where
  pub Triple-read_file :
      (p : FilePath)
      → ((t : Node) (s : String) → P t → get p t ≡ some (file s) → Q s t)
      → ((t : Node) → P t → get p t ≡ none → E missing t)
      → ((t : Node) (s : String) → P t → E (new_error s) t)
      → Triple P (read_file p) Q E
  unfolding read_file
  Triple-read_file p done absent failed =
      Triple-syscall (λ now t. (content (get p t), t)) unspoiled
        (λ now t h. seen t (get p t) h refl) (λ now f t h. failed t f.text h)
    where
      seen : (t : Node) (o : Option Node) → P t → get p t ≡ o → Either Q E (content o) t
      seen t none h e = absent t h e
      seen t (some (file s)) h e = done t s h e
      seen t (some (dir m es)) h e = failed t _ h

module _ {Q : Bool → Node → Type 0} {E : Node → Type 0} {P : Node → Type 0} where
  -- os.Stat, with a missing file as the answer no
  pub Triple-probe :
      (p : FilePath)
      → ((t n : Node) → P t → get p t ≡ some n → Q true t)
      → ((t : Node) → P t → get p t ≡ none → Q false t)
      → ((t : Node) → P t → E t)
      → Triple P (probe p) Q (λ e. E)
  unfolding probe
  Triple-probe p found_at absent failed =
      Triple-bind {R = Either (λ n. Q true) (λ e t. (e.not_exist ≡ true → Q false t) × E t)}
        (Triple-attempt (
          Triple-stat p found_at (λ t h e. (λ k. absent t h e, failed t h))
            (λ t s h. (λ k. cc, failed t h))))
        answer
    where
      answer :
          (r : Result Node)
          → Triple
              (Either (λ n. Q true) (λ e t. (e.not_exist ≡ true → Q false t) × E t) r)
              (exists_from r)
              Q
              (λ e. E)
      answer (ok n) = Triple-pure true Q
      answer (err e) =
          Triple-if e.not_exist
            (λ k. Triple-weaken (λ t h. h.0 k) (λ a t h. h) (λ e t h. h) (Triple-pure false Q))
            (λ k. Triple-weaken (λ t h. h.1) (λ a t h. h) (λ e t h. h) (Triple-throw e))
      answer panic = Triple-absurd
