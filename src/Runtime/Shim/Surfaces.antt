-- ===== src/Runtime/Shim/Surfaces.antt =====
-- The dialect tables and `setDialect` (internal/runtime/shim.go). A codec is named by its dialect.
use llmops.Prelude.{Bool, true, false, Option, none, some, [], ◌∷◌, if◌then◌else◌, map}
use llmops.Strings.{Bytes, codes, equal}
use llmops.Manifest.{
  StringMap, engine_dialect_openai_chat, engine_dialect_anthropic, engine_dialect_openai_responses,
}

-- The dialects of the shared request representation.
pub data Dialect : Type 0 where
  openai_chat anthropic_messages openai_responses : Dialect

unfoldable pub same_dialect : Dialect → Dialect → Bool
same_dialect Dialect.openai_chat Dialect.openai_chat = true
same_dialect Dialect.anthropic_messages Dialect.anthropic_messages = true
same_dialect Dialect.openai_responses Dialect.openai_responses = true
same_dialect _ _ = false

abbrev pub chat_path : Bytes
chat_path = codes "/v1/chat/completions"

abbrev pub messages_path : Bytes
messages_path = codes "/v1/messages"

abbrev pub responses_path : Bytes
responses_path = codes "/v1/responses"

-- `frontends`
abbrev pub frontends : StringMap Dialect
frontends =
    (chat_path, Dialect.openai_chat)
    ∷ (messages_path, Dialect.anthropic_messages)
    ∷ (responses_path, Dialect.openai_responses)
    ∷ []

-- `backends`: the codec and the path of an engine's dialect.
unfoldable pub backends : Bytes → Option (Dialect × Bytes)
backends d =
    if equal d engine_dialect_openai_chat
    then some (Dialect.openai_chat, chat_path)
    else if equal d engine_dialect_anthropic
    then some (Dialect.anthropic_messages, messages_path)
    else if equal d engine_dialect_openai_responses
    then some (Dialect.openai_responses, responses_path)
    else none

-- `surface`: the translator is the pair of its codecs, `none` when the surface is native.
pub record Surface : Type 0 where
  pub dialect : Dialect
  pub translator : Option (Dialect × Dialect)
  pub native : Bool

abbrev pub bind_surface : Dialect → Dialect → Surface
bind_surface front back =
    let native = same_dialect front back in
    record {
      dialect = front;
      translator = if native then none else some (front, back);
      native = native;
    }

-- What `setDialect` sets: the engine's path and the surfaces by path.
pub record Bound : Type 0 where
  pub engine_path : Bytes
  pub surfaces : StringMap Surface

-- `setDialect`
unfoldable pub set_dialect : Bytes → Option Bound
set_dialect d = elim (backends d) [
  | none ↦ none
  | some (back, path) ↦ some (record {
    engine_path = path;
    surfaces = map (λ (p, front). (p, bind_surface front back)) frontends;
  })
]

unfoldable pub surface_at : StringMap Surface → Bytes → Option Surface
surface_at [] p = none
surface_at ((q, s) ∷ rest) p = if equal q p then some s else surface_at rest p
