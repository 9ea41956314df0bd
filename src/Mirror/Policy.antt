-- ===== src/Mirror/Policy.antt =====
-- `CheckPolicy` and its two tables (internal/mirror/hf.go): only safetensors weights and known
-- companions are mirrored.
use llmops.Prelude.{
  ◌≡◌, refl, ◌↔◌, Bool, true, ◌||◌, List, [], ◌∷◌, arith, if◌then◌else◌, Result, ok, err, All, map,
  ℕ,
}
use llmops.Strings.{Bytes, codes, has_member, to_lower, contains_byte, after_last}
use llmops.Paths.{base}

pub record TreeFile : Type 0 where
  pub path : Bytes
  pub size : ℕ
  pub sha256 : Bytes

pub data PolicyError : Type 0 where
  not_approved : Bytes → PolicyError

-- path.Ext: from the last dot on, if there is one. The name has no "/".
unfoldable pub extension : Bytes → Bytes
unfolding contains_byte after_last
extension name = if contains_byte b'.' name then b'.' ∷ after_last b'.' name else []

-- `allowedMirrorExts`
abbrev pub allowed_mirror_exts : List Bytes
allowed_mirror_exts = map codes (
    ".safetensors" ∷ ".bash" ∷ ".c" ∷ ".cc" ∷ ".cfg" ∷ ".conf" ∷ ".cpp" ∷ ".csv" ∷ ".cu" ∷ ".cuh"
    ∷ ".cxx" ∷ ".dockerignore" ∷ ".editorconfig" ∷ ".gitattributes" ∷ ".gitignore" ∷ ".gitmodules"
    ∷ ".h" ∷ ".hh" ∷ ".hpp" ∷ ".ini" ∷ ".jinja" ∷ ".jinja2" ∷ ".js" ∷ ".json" ∷ ".jsonl" ∷ ".lock"
    ∷ ".md" ∷ ".pdf" ∷ ".py" ∷ ".pyi" ∷ ".rst" ∷ ".sh" ∷ ".svg" ∷ ".toml" ∷ ".ts" ∷ ".tsv" ∷ ".txt"
    ∷ ".xml" ∷ ".yaml" ∷ ".yml" ∷ ".gif" ∷ ".jpeg" ∷ ".jpg" ∷ ".merges" ∷ ".model" ∷ ".mp4" ∷ ".png"
    ∷ ".spm" ∷ ".tiktoken" ∷ ".vocab" ∷ ".webp" ∷ [])

-- `allowedExtensionlessFiles`
abbrev pub allowed_extensionless_files : List Bytes
allowed_extensionless_files = map codes (
    "authors" ∷ "citation" ∷ "code_of_conduct" ∷ "contributors" ∷ "dockerfile" ∷ "license"
    ∷ "makefile" ∷ "notice" ∷ "readme" ∷ "security" ∷ "use_policy" ∷ [])

unfoldable pub is_approved : Bytes → Bool
unfolding base extension to_lower has_member
is_approved path =
    let name = to_lower (base path) in
    has_member allowed_mirror_exts (to_lower (extension name))
    || has_member allowed_extensionless_files name

-- `CheckPolicy`
unfoldable pub check_policy : List TreeFile → Result PolicyError (Unit {0})
check_policy [] = ok tt
check_policy (f ∷ fs) =
    let rest = check_policy fs in if is_approved f.path then rest else err (not_approved f.path)

-- A tree passes exactly when every file of it is approved.
pub check_policy-All :
    (fs : List TreeFile) → (check_policy fs ≡ ok tt) ↔ All (λ f. is_approved f.path ≡ true) fs
unfolding check_policy
check_policy-All [] = (λ _. tt, λ _. refl)
check_policy-All (f ∷ fs) = ground (arith, check_policy-All fs)
