-- ===== src/Cli/Serving.antt =====
-- The verbs `serve` and `validate` (cmd/fornax/serve.go): what runtime.Serve is called with, and the
-- check of a directory of manifests or of one. What a verb prints before it fails is left out.
pub mod Laws
use llmops.Prelude.{
  ℕ, ℤ, pos, Bool, true, false, ◌||◌, Option, none, some, List, [], ◌∷◌, ◌++◌, if◌then◌else◌,
  Result, ok, err, wrap, length, map, ◌>>=◌, ◌>>◌, ensure,
}
use llmops.Floats.{Floats}
use llmops.Strings.{Bytes, codes, equal, is_empty, fields}
use llmops.Strings.Numbers.{itoa, itoa_int}
use llmops.Paths.{join_path, clean, dir}
use llmops.Manifest.{Manifest, deploy_mode}
use llmops.Manifest.Load.{LoadError, load, load_dir}
use llmops.Deploycheck.{Tree, DeployError, validate_deploy}
use llmops.Cli.{Fault, usage, failure, pop_positional}
use llmops.Cli.Flags.{Scanners, Flag, Kind, parse_flags, string_of, int_of}

pub data ServingError : Type 0 where
  not_there : Bytes → ServingError
  not_loaded : LoadError → ServingError
  no_deploy_dir : Bytes → ServingError
  not_consistent : DeployError → ServingError
  unknown_verb : Bytes → ServingError

abbrev text_flag : Bytes → Flag
text_flag n = record { name = n; kind = Kind.string }

abbrev pub manifest_flag : Bytes
manifest_flag = codes "manifest"

abbrev pub cache_root_flag : Bytes
cache_root_flag = codes "cache-root"

abbrev pub speculator_flag : Bytes
speculator_flag = codes "speculator"

-- The flags of `serve`.
abbrev pub serve_flags : List Flag
serve_flags =
    text_flag manifest_flag
    ∷ record { name = codes "port"; kind = Kind.whole }
    ∷ record { name = codes "engine-port"; kind = Kind.whole }
    ∷ text_flag cache_root_flag
    ∷ text_flag speculator_flag
    ∷ []

-- The path of the manifest and the options for runtime.Serve.
pub record ServeCall : Type 0 where
  pub manifest : Bytes
  pub port : ℤ
  pub engine_port : ℤ
  pub cache_root : Bytes
  pub speculator : Bytes
  pub engine_cmd : List Bytes

-- What `serve` takes from its arguments and FORNAX_ENGINE_CMD.
unfoldable pub serve_args : Scanners → Bytes → List Bytes → Option ServeCall
unfolding parse_flags string_of int_of fields
serve_args sc engine_cmd rest = elim (parse_flags sc serve_flags rest) [
  | none ↦ none
  | some got ↦
      let path = string_of got manifest_flag [] in
      if is_empty path
      then none
      else some (record {
        manifest = path;
        port = int_of sc got (codes "port") (pos 8000);
        engine_port = int_of sc got (codes "engine-port") (pos 30000);
        cache_root = string_of got cache_root_flag (codes "/cache");
        speculator = string_of got speculator_flag [];
        engine_cmd = if is_empty engine_cmd then [] else fields engine_cmd;
      })
]

-- What is at a path, a directory or not, and the files that a directory's manifests are.
pub record Site : Type 0 where
  pub tree : Tree
  pub stat : Bytes → Option Bool
  pub glob : Bytes → List Bytes

-- The directory of the deploy artifacts.
unfoldable pub deploy_dir_of : Bytes → Bytes → Bytes
unfolding dir clean join_path
deploy_dir_of path deploy_dir =
    if is_empty deploy_dir then join_path (dir (clean path) ∷ codes "deploy" ∷ []) else deploy_dir

abbrev pub is_there : Option Bool → Bool
is_there none = false
is_there (some b) = true

abbrev model_line : Manifest → Bytes
unfolding deploy_mode itoa_int
model_line m =
    m.name
    ++ (codes ": ok ("
        ++ (m.runtime
            ++ (codes ", "
                ++ (deploy_mode m
                    ++ (codes ", "
                        ++ (m.format
                            ++ (codes ", "
                                ++ (itoa_int m.gpu.count
                                    ++ (b'x'
                                        ∷ (m.gpu.type
                                            ++ (codes " x"
                                                ++ (itoa_int m.gpu.nodes ++ codes ")"))))))))))))

-- What the check of a directory prints.
unfoldable pub directory_lines : List Manifest → List Bytes
unfolding model_line itoa
directory_lines ms =
    map model_line ms
    ++ (itoa (length ms) ++ codes " manifests valid")
      ∷ (itoa (length ms) ++ codes " deploy artifacts consistent")
      ∷ []

module _ (F : Floats) (site : Site) where
  open site use {tree, stat, glob}

  -- The case `serve`, up to the call of runtime.Serve.
  unfoldable pub run_serve :
      Scanners → Bytes → List Bytes → Result (Fault ServingError) (ServeCall × Manifest)
  unfolding serve_args load
  run_serve sc engine_cmd rest = elim (serve_args sc engine_cmd rest) [
    | none ↦ err usage
    | some call ↦
        wrap (λ e. failure (not_loaded e)) (load F tree.read tree.parse call.manifest) >>= λ m.
        ok (call, m)
  ]

  -- The check of a directory.
  unfoldable pub validate_directory : Bytes → Bytes → Result ServingError (List Bytes)
  unfolding load_dir deploy_dir_of directory_lines validate_deploy
  validate_directory path deploy_dir =
      let at = deploy_dir_of path deploy_dir in
      wrap not_loaded (load_dir F tree.read tree.parse (glob path)) >>= λ ms.
      (ensure (is_there (stat at)) (no_deploy_dir at)
        >> wrap not_consistent (validate_deploy F tree (glob path) at))
      >>= λ checked. ok (directory_lines ms)

  -- The check of one manifest.
  unfoldable pub validate_file : Bytes → Result ServingError (List Bytes)
  unfolding load
  validate_file path =
      wrap not_loaded (load F tree.read tree.parse path) >>= λ m. ok ((m.name ++ codes ": ok") ∷ [])

  -- `validate`
  unfoldable pub validate_path : Bytes → Bytes → Result ServingError (List Bytes)
  unfolding validate_directory validate_file
  validate_path path deploy_dir = elim (stat path) [
    | none ↦ err (not_there path)
    | some is_dir ↦ elim is_dir [
      | true ↦ validate_directory path deploy_dir
      | false ↦ validate_file path
    ]
  ]

  -- The case `validate`
  unfoldable pub run_validate : Scanners → List Bytes → Result (Fault ServingError) (List Bytes)
  unfolding parse_flags string_of pop_positional validate_path
  run_validate sc rest =
      let (target, flags) = pop_positional rest in
      elim (parse_flags sc (text_flag (codes "deploy") ∷ []) flags) [
        | none ↦ err usage
        | some got ↦
            if is_empty target
            then err usage
            else wrap failure (validate_path target (string_of got (codes "deploy") []))
      ]
