-- ===== src/Manifest/Load.antt =====
-- `Load`, `LoadDir` and `DeployArtifact` of internal/manifest/manifest.go. The YAML decoder behind
-- `Parse`, the reading of a file and filepath.Glob are arguments.
pub mod Laws
use llmops.Prelude.{
  Bool, true, false, Option, none, some, List, [], ◌∷◌, ◌++◌, if◌then◌else◌, Result, ok, err, wrap,
  ◌>>=◌,
}
use llmops.Floats.{Floats}
use llmops.Strings.{Bytes, codes, equal, sort}
use llmops.Paths.{join_path}
use llmops.Manifest.{Manifest, deploy_mode, deploy_bare_metal}
use llmops.Manifest.Problems.{Problem}
use llmops.Manifest.Validate.{validate}

-- `DeployArtifact`
unfoldable pub deploy_artifact : Manifest → Bytes
unfolding deploy_mode
deploy_artifact m =
    if equal (deploy_mode m) deploy_bare_metal
    then join_path (m.name ∷ (m.name ++ codes ".service") ∷ [])
    else join_path (m.name ∷ codes "lws.yaml" ∷ [])

pub data LoadError : Type 0 where
  unread not_parsed : Bytes → LoadError
  invalid : Bytes → List Problem → LoadError

module _ (F : Floats) (read : Bytes → Option Bytes) (parse : Bytes → Option Manifest) where
  abbrev loaded : Bytes → Option Manifest → Result LoadError Manifest
  unfolding validate
  loaded path none = err (not_parsed path)
  loaded path (some m) = wrap (invalid path) (validate F m)

  abbrev opened : Bytes → Option Bytes → Result LoadError Manifest
  unfolding loaded
  opened path none = err (unread path)
  opened path (some data_read) = loaded path (parse data_read)

  -- `Load`
  unfoldable pub load : Bytes → Result LoadError Manifest
  unfolding opened
  load path = opened path (read path)

  -- The loop of `LoadDir`.
  unfoldable pub load_all : List Bytes → Result LoadError (List Manifest)
  unfolding load
  load_all [] = ok []
  load_all (p ∷ ps) = load p >>= λ m. load_all ps >>= λ ms. ok (m ∷ ms)

  -- `LoadDir`, for the paths that the pattern matches.
  unfoldable pub load_dir : List Bytes → Result LoadError (List Manifest)
  unfolding load_all sort
  load_dir paths = load_all (sort paths)
