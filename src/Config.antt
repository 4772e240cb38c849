-- ===== src/Config.antt =====
-- internal/config/load.go: the configuration is read, decoded, given its defaults and validated.
-- sigs.k8s.io/yaml comes as a parameter, and so do the texts of Validate's messages.
pub mod Laws
use nanok8s.Base.{String, ◌<>◌, ◌≡◌, ◌≢◌, List, [], ◌∷◌}
use nanok8s.Os.FilePath.{FilePath, show}
use nanok8s.Os.World.{
  Error, new_error, wrap, Result, ok, err, panic, M, pure, throw, crash, ◌>>=◌, wrapped,
}
use nanok8s.Os.Calls.{read_file}
use nanok8s.Paths.{config_file}
use nanok8s.Api.{NanoK8sConfig}
use nanok8s.Api.Defaults.{set_defaults}
use nanok8s.Api.Validate.{Net, Problem, validate}

-- yaml.UnmarshalStrict into an empty configuration, and yaml.Marshal
pub record Yaml : Type 0 where
  pub unmarshal_strict : String → Result NanoK8sConfig
  pub marshal : NanoK8sConfig → Result String

-- No text makes yaml.UnmarshalStrict panic.
pub record IsTotalYaml (yaml : Yaml) : Type 0 where
  pub returns : (s : String) → yaml.unmarshal_strict s ≢ panic

-- What configurations are read with: the text of errors.Join of some problems is `describe`.
pub record Reader : Type 0 where
  pub yaml : Yaml
  pub net : Net
  pub describe : List Problem → String

module _ (reader : Reader) where
  -- `if err := Validate(c); err != nil { … }` and `return c, nil`
  unfoldable pub checked : List Problem → String → NanoK8sConfig → M NanoK8sConfig
  checked [] source c = pure c
  checked (p ∷ ps) source c =
      throw (wrap ("validate " <> source) (new_error (reader.describe (p ∷ ps))))

  unfoldable pub decoded : Result NanoK8sConfig → String → M NanoK8sConfig
  unfolding checked
  decoded (ok c) source = checked (validate reader.net (set_defaults c)) source (set_defaults c)
  decoded (err e) source = throw (wrap ("parse " <> source) e)
  decoded panic source = crash

  unfoldable pub parse : String → String → M NanoK8sConfig
  unfolding decoded
  parse s source = decoded (reader.yaml.unmarshal_strict s) source

  unfoldable pub load : FilePath → M NanoK8sConfig
  unfolding parse
  load path = do s ← wrapped ("read " <> show path) (read_file path); parse s (show path)

  unfoldable pub load_default : M NanoK8sConfig
  unfolding load
  load_default = load config_file

-- config.Marshal
unfoldable pub marshal : Yaml → NanoK8sConfig → Result String
marshal yaml c = yaml.marshal c
