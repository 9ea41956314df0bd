-- ===== src/Deploycheck.antt =====
-- Checking that a model's deploy artifact starts that model (internal/deploycheck/deploycheck.go):
-- `Validate` over the files of a tree. The decoder of the artifacts' YAML is an argument.
pub mod Unit
pub mod Yaml
pub mod Lws
pub mod Accepted
use llmops.Prelude.{
  Bool, true, false, Option, none, some, map, List, [], ◌∷◌, ◌++◌, if◌then◌else◌, Result, ok, err,
  wrap, ensure, ◌>>=◌, ◌>>◌, not,
}
use llmops.Floats.{Floats}
use llmops.Strings.{Bytes, codes, equal}
use llmops.Paths.{join_path}
use llmops.Manifest.{Manifest, deploy_mode, deploy_k8s, deploy_bare_metal}
use llmops.Manifest.Load.{LoadError, deploy_artifact, load_dir}
use llmops.Deploycheck.Unit.{UnitError, validate_unit}
use llmops.Deploycheck.Yaml.{Decoded}
use llmops.Deploycheck.Lws.{LwsError, validate_one}

pub data DeployError : Type 0 where
  not_loaded : LoadError → DeployError
  no_models : DeployError
  bad_unit : Bytes → UnitError → DeployError
  bad_lws : Bytes → LwsError → DeployError
  stray : Bytes → DeployError

-- The files that the check reads, what it may ask of them, and the decoders.
pub record Tree : Type 0 where
  pub read : Bytes → Option Bytes
  pub exists : Bytes → Bool
  pub parse : Bytes → Option Manifest
  pub decode : Bytes → List Decoded

abbrev pub decoded_at : Tree → Bytes → Option (List Decoded)
decoded_at t path = elim (t.read path) [ none ↦ none | some content ↦ some (t.decode content) ]

-- `validateArtifact`
unfoldable pub validate_artifact : Tree → Manifest → Bytes → Result DeployError (Unit {0})
unfolding validate_unit validate_one
validate_artifact t m path =
    if equal (deploy_mode m) deploy_bare_metal
    then wrap (bad_unit path) (validate_unit m (t.read path))
    else wrap (bad_lws path) (validate_one m (decoded_at t path))

-- The artifact of the mode that is not the model's.
unfoldable pub other_artifact : Bytes → Manifest → Bytes
unfolding deploy_mode
other_artifact deploy_dir m =
    if equal (deploy_mode m) deploy_k8s
    then join_path (deploy_dir ∷ m.name ∷ (m.name ++ codes ".service") ∷ [])
    else join_path (deploy_dir ∷ m.name ∷ codes "lws.yaml" ∷ [])

-- `checkNoStrayArtifact`
unfoldable pub check_no_stray : Tree → Bytes → Manifest → Result DeployError (Unit {0})
unfolding other_artifact
check_no_stray t deploy_dir m =
    ensure (not (t.exists (other_artifact deploy_dir m))) (stray (other_artifact deploy_dir m))

-- The loop of `Validate`.
unfoldable pub check_models : Tree → Bytes → List Manifest → Result DeployError (Unit {0})
unfolding validate_artifact check_no_stray deploy_artifact
check_models t deploy_dir [] = ok tt
check_models t deploy_dir (m ∷ ms) =
    validate_artifact t m (join_path (deploy_dir ∷ deploy_artifact m ∷ []))
    >> check_no_stray t deploy_dir m
    >> check_models t deploy_dir ms

abbrev pub some_models : Tree → Bytes → List Manifest → Result DeployError (Unit {0})
some_models t deploy_dir [] = err no_models
some_models t deploy_dir (m ∷ ms) = check_models t deploy_dir (m ∷ ms)

-- `Validate`, for the paths of the manifests.
unfoldable pub validate_deploy : Floats → Tree → List Bytes → Bytes → Result DeployError (Unit {0})
unfolding load_dir check_models
validate_deploy F t paths deploy_dir =
    wrap not_loaded (load_dir F t.read t.parse paths) >>= some_models t deploy_dir
