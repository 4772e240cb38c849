-- ===== src/Ostree.antt =====
-- internal/ostree/ostree.go: the deployments that the system has. rpm-ostree and the decoding of
-- its output come as a parameter.
pub mod Laws
use nanok8s.Base.{
  String, ◌<>◌, ◌≡◌, refl, Bool, true, false, Option, none, some, List, [], ◌∷◌, map, if◌then◌else◌,
  bind,
}
use nanok8s.Os.FilePath.{FilePath}
use nanok8s.Os.Tree.{Node}
use nanok8s.Os.World.{
  Error, new_error, wrap, Result, ok, err, panic, M, pure, throw, crash, ◌>>=◌, on_error, attempt,
}
use nanok8s.Os.Calls.{stat}

abbrev pub ostree_booted_marker : FilePath
ostree_booted_marker = "run" ∷ "ostree-booted" ∷ []

pub record Deployment : Type 0 where
  pub id : String
  pub booted : Bool

-- `rpm-ostree status --json` and json.Unmarshal of what it prints. An error of the command comes
-- with the text that it wrote to its standard error.
pub record RpmOstree : Type 0 where
  pub status : M String
  pub unmarshal : String → Result (List Deployment)

unfoldable pub booted_from : Result Node → M Bool
booted_from (ok n) = pure true
booted_from (err e) = if e.not_exist then pure false else throw (wrap "stat /run/ostree-booted" e)
booted_from panic = crash

unfoldable pub is_ostree : M Bool
unfolding booted_from
is_ostree = do r ← attempt (stat ostree_booted_marker); booted_from r

-- The loop: the first deployment that is booted
unfoldable pub booted : List Deployment → Option String
booted [] = none
booted (d ∷ ds) = if d.booted then some d.id else booted ds

no_booted : Error
no_booted = new_error "no booted deployment in rpm-ostree status output"

unfoldable pub booted_or_error : Option String → M String
unfolding no_booted
booted_or_error none = throw no_booted
booted_or_error (some id) = pure id

unfoldable pub parsed : Result (List Deployment) → M (List Deployment)
parsed (ok ds) = pure ds
parsed (err e) = throw (wrap "parse rpm-ostree status" e)
parsed panic = crash

module _ (rpm : RpmOstree) where
  unfoldable pub all_deployments : M (List Deployment)
  unfolding parsed
  all_deployments = do
    s ← on_error (λ e. throw (new_error ("rpm-ostree status: " <> e.text))) rpm.status
    parsed (rpm.unmarshal s)

  unfoldable pub booted_deployment_id : M String
  unfolding booted booted_or_error all_deployments is_ostree
  booted_deployment_id = do
    present ← is_ostree
    if present then (do ds ← all_deployments; booted_or_error (booted ds)) else pure ""

  unfoldable pub all_deployment_ids : M (List String)
  unfolding all_deployments is_ostree
  all_deployment_ids = do
    present ← is_ostree
    if present then (do ds ← all_deployments; pure (map (λ d. d.id) ds)) else pure []
