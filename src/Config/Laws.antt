-- ===== src/Config/Laws.antt =====
-- internal/config/load.go: what Load returns, and what it does not change.
use nanok8s.Base.{String, ◌≡◌, ◌≢◌, refl, sym, ◌∙◌, ap, some, List, [], ◌∷◌}
use nanok8s.Os.FilePath.{FilePath}
use nanok8s.Os.Tree.{Node, file, get}
use nanok8s.Os.World.{Error, Result, ok, err, panic, World}
use nanok8s.Os.Spec.{Triple, Post}
use nanok8s.Os.Spec.Rules.{
  Triple-bind, Triple-pure, Triple-throw, Triple-wrapped, Triple-weaken, Triple-from,
}
use nanok8s.Os.Spec.Steps.{Triple-read_file}
use nanok8s.Api.{NanoK8sConfig}
use nanok8s.Api.Defaults.{set_defaults}
use nanok8s.Api.Validate.{Problem, validate}
use nanok8s.Api.Validate.Laws.{IsValid, validate-IsValid}
use nanok8s.Config.{Reader, IsTotalYaml, checked, decoded, load}

-- The file decodes to `raw`, and `c` is `raw` with its defaults and is valid.
pub record Loaded (reader : Reader) (path : FilePath) (t : Node) (c : NanoK8sConfig) : Type 0 where
  pub text : String
  pub raw : NanoK8sConfig
  pub read : get path t ≡ some (file text)
  pub decoded : reader.yaml.unmarshal_strict text ≡ ok raw
  pub defaulted : c ≡ set_defaults raw
  pub valid : IsValid reader.net c

module _ (reader : Reader) (path : FilePath) (t : Node) where
  abbrev Good : NanoK8sConfig → Node → Type 0
  Good c u = (u ≡ t) × Loaded reader path t c

  abbrev Same : Error → Node → Type 0
  Same e u = u ≡ t

  checked_lem :
      (s source : String) (raw : NanoK8sConfig) (ps : List Problem)
      → get path t ≡ some (file s)
      → reader.yaml.unmarshal_strict s ≡ ok raw
      → validate reader.net (set_defaults raw) ≡ ps
      → Triple (λ u. u ≡ t) (checked reader ps source (set_defaults raw)) Good Same
  unfolding checked
  checked_lem s source raw [] r d v =
      Triple-weaken
        (λ u h. (
          h,
          record {
            text = s;
            raw = raw;
            read = r;
            decoded = d;
            defaulted = refl;
            valid = (validate-IsValid reader.net (set_defaults raw)).0 v;
          },
        ))
        (λ c u h. h) (λ e u h. h) (Triple-pure (set_defaults raw) Good)
  checked_lem s source raw (p ∷ ps) r d v = Triple-throw _

  decoded_lem :
      (s source : String) (r : Result NanoK8sConfig)
      → get path t ≡ some (file s)
      → reader.yaml.unmarshal_strict s ≡ r
      → r ≢ panic
      → Triple (λ u. u ≡ t) (decoded reader r source) Good Same
  unfolding decoded
  decoded_lem s source (ok raw) g d n = checked_lem s source raw _ g d refl
  decoded_lem s source (err e) g d n = Triple-throw _
  decoded_lem s source panic g d n = absurd (n refl)

-- Load does not panic and changes nothing. A configuration that it returns is what the file decodes
-- to, with the defaults filled in, and meets every rule of Validate. The decoder must not panic.
pub load-Loaded :
    (reader : Reader) (Y : IsTotalYaml reader.yaml) (path : FilePath) (w : World)
    → Post (λ c u. (u ≡ w.fs) × Loaded reader path w.fs c) (λ e u. u ≡ w.fs) (load reader path w)
unfolding load
load-Loaded reader Y path w =
    (Triple-bind {R = λ s u. (u ≡ w.fs) × (get path w.fs ≡ some (file s))}
        (Triple-wrapped _ (
          Triple-read_file path (λ t s h e. (h, ap (get path) (sym h) ∙ e)) (λ t h e. h)
            (λ t s h. h)))
        (λ s. Triple-from λ v h.
          Triple-weaken (λ u e. e ∙ h.0) (λ c u k. k) (λ e u k. k)
            (decoded_lem reader path w.fs s _ _ h.1 refl (Y.returns s)))).at
      w refl
