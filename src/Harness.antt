-- ===== src/Harness.antt =====
-- The configuration of coding agents (internal/harness/harness.go). Package text/template is the
-- parameter `execute`.
pub mod Quote
pub mod Discover
pub mod Models
use llmops.Prelude.{
  ℕ, ◌≡◌, refl, Bool, true, false, not, ◌&&◌, ◌||◌, Option, none, some, List, [], ◌∷◌, ◌++◌,
  if◌then◌else◌, map, Result, ok, err, ◌>>=◌, leb, ◌==◌,
}
use llmops.Strings.{Bytes, codes, equal, is_empty, trim_suffix, sort, join, replace_byte}

pub record Endpoint : Type 0 where
  pub base_url : Bytes
  pub model : Bytes
  pub token : Bytes

-- `Var`
pub record Var : Type 0 where
  pub key : Bytes
  pub tmpl : Bytes

pub data Format : Type 0 where
  format_env format_json format_toml : Format

pub record Harness : Type 0 where
  pub name : Bytes
  pub dialect : Bytes
  pub base_suffix : Bytes
  pub env : List Var
  pub config_file : Bytes
  pub config_format : Format
  pub config_tmpl : Bytes

abbrev pub variable : Bytes → Bytes → Var
variable k t = record { key = k; tmpl = t }

-- `Registry`
abbrev pub claude : Harness
claude = record {
  name = codes "claude";
  dialect = codes "anthropic-messages";
  base_suffix = [];
  env =
      variable (codes "ANTHROPIC_BASE_URL") (codes "{{.BaseURL}}")
      ∷ variable (codes "ANTHROPIC_AUTH_TOKEN") (codes "{{.Token}}")
      ∷ variable (codes "ANTHROPIC_MODEL") (codes "{{.Model}}")
      ∷ [];
  config_file = [];
  config_format = Format.format_env;
  config_tmpl = [];
}

abbrev pub codex : Harness
codex = record {
  name = codes "codex";
  dialect = codes "openai-chat";
  base_suffix = codes "/v1";
  env =
      variable (codes "OPENAI_BASE_URL") (codes "{{.BaseURL}}")
      ∷ variable (codes "OPENAI_API_KEY") (codes "{{.Token}}")
      ∷ [];
  config_file = codes "~/.codex/config.toml";
  config_format = Format.format_toml;
  config_tmpl =
      codes "# fornax: {{.Model}}\nmodel = \"{{.Model}}\"\nmodel_provider = \"fornax\"\n\n"
      ++ codes "[model_providers.fornax]\nname = \"fornax\"\nbase_url = \"{{.BaseURL}}\"\n"
      ++ codes "env_key = \"OPENAI_API_KEY\"\nwire_api = \"chat\"\n";
}

abbrev pub opencode : Harness
opencode = record {
  name = codes "opencode";
  dialect = codes "openai-chat";
  base_suffix = codes "/v1";
  env = variable (codes "FORNAX_API_KEY") (codes "{{.Token}}") ∷ [];
  config_file = codes "opencode.json";
  config_format = Format.format_json;
  config_tmpl =
      codes "{\n  \"provider\": {\n    \"fornax\": {\n"
      ++ codes "      \"npm\": \"@ai-sdk/openai-compatible\",\n      \"name\": \"fornax\",\n"
      ++ codes "      \"options\": {\n        \"baseURL\": \"{{.BaseURL}}\",\n"
      ++ codes "        \"apiKey\": \"{env:FORNAX_API_KEY}\"\n      },\n      \"models\": {\n"
      ++ codes "        \"{{.Model}}\": { \"name\": \"{{.Model}}\" }\n      }\n    }\n  }\n}\n";
}

abbrev pub registry : List Harness
registry = claude ∷ codex ∷ opencode ∷ []

-- `Names`
unfoldable pub names : List Bytes
names = sort (map Harness.name registry)

pub data HarnessError : Type 0 where
  unknown_harness : Bytes → List Bytes → HarnessError
  environment_only : Bytes → HarnessError
  bad_template : Bytes → HarnessError

unfoldable pub find_harness : List Harness → Bytes → Option Harness
find_harness [] n = none
find_harness (h ∷ hs) n = let rest = find_harness hs n in if equal h.name n then some h else rest

-- `Lookup`
unfoldable pub lookup_harness : Bytes → Result HarnessError Harness
unfolding find_harness
lookup_harness n = elim (find_harness registry n) [
  | none ↦ err (unknown_harness n names)
  | some h ↦ ok h
]

-- `resolve`
unfoldable pub resolve_endpoint : Harness → Endpoint → Endpoint
resolve_endpoint h e = record {
  base_url = trim_suffix e.base_url (b'/' ∷ []) ++ h.base_suffix;
  model = e.model;
  token = e.token;
}

-- A byte that `shellQuote` leaves as it is.
abbrev pub is_safe : ℕ → Bool
is_safe c =
    c == b'-'
    || c == b'_'
    || c == b'.'
    || c == b'/'
    || c == b':'
    || (leb b'a' c && leb c b'z')
    || (leb b'A' c && leb c b'Z')
    || (leb b'0' c && leb c b'9')

unfoldable pub all_safe : Bytes → Bool
all_safe [] = true
all_safe (c ∷ cs) = is_safe c && all_safe cs

-- The four bytes that stand for a quote inside quotes.
abbrev pub quoted_quote : Bytes
quoted_quote = b'\'' ∷ b'\\' ∷ b'\'' ∷ b'\'' ∷ []

-- `shellQuote`
unfoldable pub shell_quote : Bytes → Bytes
unfolding all_safe
shell_quote s =
    if is_empty s
    then b'\'' ∷ b'\'' ∷ []
    else if all_safe s
    then s
    else b'\'' ∷ (replace_byte b'\'' quoted_quote s ++ b'\'' ∷ [])

module _ (execute : Bytes → Endpoint → Option Bytes) where
  abbrev pub render_env : List Var → Endpoint → Result HarnessError (List (Bytes × Bytes))
  render_env [] e = ok []
  render_env (v ∷ vs) e = elim (execute v.tmpl e) [
    | none ↦ err (bad_template v.key)
    | some val ↦ render_env vs e >>= λ out. ok ((v.key, val) ∷ out)
  ]

  -- `EnvVars`
  unfoldable pub env_vars : Harness → Endpoint → Result HarnessError (List (Bytes × Bytes))
  unfolding resolve_endpoint
  env_vars h e = render_env h.env (resolve_endpoint h e)

  abbrev pub exports : List (Bytes × Bytes) → Bytes
  exports [] = []
  exports ((k, v) ∷ rest) =
      codes "export " ++ (k ++ (b'=' ∷ (shell_quote v ++ (10 ∷ exports rest))))

  -- `Shell`
  unfoldable pub shell : Harness → Endpoint → Result HarnessError Bytes
  unfolding env_vars
  shell h e = env_vars h e >>= λ vars. ok (exports vars)

  -- `Config`
  unfoldable pub config : Harness → Endpoint → Result HarnessError Bytes
  unfolding resolve_endpoint
  config h e =
      if is_empty h.config_tmpl
      then err (environment_only h.name)
      else elim (execute h.config_tmpl (resolve_endpoint h e)) [
        | none ↦ err (bad_template h.name)
        | some out ↦ ok out
      ]

  -- `Default`
  unfoldable pub default_config : Harness → Endpoint → Result HarnessError Bytes
  unfolding shell config
  default_config h e = if is_empty h.config_tmpl then shell h e else config h e
