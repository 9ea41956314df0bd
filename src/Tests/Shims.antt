-- ===== src/Tests/Shims.antt =====
-- Requests to the shim.
use llmops.Prelude.{
  ◌==◌, ◌↔◌, ℕ, ◌+◌, ◌≡◌, ◌⊎◌, refl, Bool, true, false, Option, none, some, List, [], ◌∷◌,
  if◌then◌else◌,
}
use llmops.Strings.{Bytes, codes, equal, has_member}
use llmops.Manifest.{SystemPrompt, engine_dialect_openai_chat}
use llmops.Runtime.Shim.Prompt.{
  Json, Decoded, has_system, without_system, assigned, Injected, inject_system_prompt,
}
use llmops.Runtime.Shim.Prompt.Policy.{
  given, inject_system_prompt-keeps, inject_system_prompt-panics, IsKnownMode,
}
use llmops.Runtime.Shim.Surfaces
use llmops.Runtime.Shim.Surfaces.{Dialect, same_dialect, Surface, Bound, set_dialect, surface_at}
use llmops.Runtime.Shim.Losses.{loss_at, record_loss, occurrences, record_loss-counts}
use llmops.Runtime.Shim.Serve
use llmops.Runtime.Shim.Serve.{
  Shim, Request, Answer, EngineReply, Codecs, probe_paths, route_template, serve_http, post_method,
}
use llmops.Runtime.Shim.Routes.{templates, route_template-bounded}
use llmops.Runtime.Shim.Dispatch.{own, serve_http-translated}

-- A message is its text, and a system message begins with "S".
abbrev is_system_text : Bytes → Bool
is_system_text [] = false
is_system_text (c ∷ cs) = equal (c ∷ []) (codes "S")

abbrev json : Json
json = record {
  Fields = Bytes;
  Message = Bytes;
  is_system = is_system_text;
  system_message = λ t. b'S' ∷ t;
  unmarshal = λ b. Decoded.object [] (b ∷ []);
  marshal = λ fields ms. fields;
}

abbrev brief : SystemPrompt
brief = record { mode = codes "override"; text = codes "brief" }

abbrev conversation : List Bytes
conversation = codes "Sold" ∷ codes "hello" ∷ []

assigned-brief :
    given json (assigned json brief conversation) conversation
    ≡ some (codes "Sbrief" ∷ codes "hello" ∷ [])
unfolding assigned has_system without_system equal codes
assigned-brief = refl

brief_is_system : is_system_text (json.system_message brief.text) ≡ true
unfolding equal codes
brief_is_system = refl

-- A request is its number of tokens and its messages; 0 is a system message, [] is `null`.
abbrev decode_numbers : Bytes → Decoded ℕ ℕ
decode_numbers [] = Decoded.null
decode_numbers (tokens ∷ ms) = Decoded.object tokens ms

abbrev numbers : Json
numbers = record {
  Fields = ℕ;
  Message = ℕ;
  is_system = λ m. m == 0;
  system_message = λ t. 0;
  unmarshal = decode_numbers;
  marshal = λ tokens ms. tokens ∷ ms;
}

injected_brief :
    inject_system_prompt numbers (some brief) (7 ∷ 3 ∷ 5 ∷ []) ≡ Injected.body (7 ∷ 0 ∷ 3 ∷ 5 ∷ [])
unfolding inject_system_prompt assigned has_system without_system equal codes
injected_brief = refl

inject_system_prompt-keeps_example :
    (new : List ℕ) × (decode_numbers (7 ∷ 0 ∷ 3 ∷ 5 ∷ []) ≡ Decoded.object 7 new)
    × (has_system numbers new ≡ true)
    × (without_system numbers new ≡ without_system numbers (3 ∷ 5 ∷ []))
inject_system_prompt-keeps_example =
    inject_system_prompt-keeps numbers brief (7 ∷ 3 ∷ 5 ∷ []) 7 (3 ∷ 5 ∷ []) (7 ∷ 0 ∷ 3 ∷ 5 ∷ [])
      refl (λ fs new. refl) refl injected_brief

inject_system_prompt-panics_example :
    (inject_system_prompt numbers (some brief) [] ≡ Injected.panicked)
    ↔ ((decode_numbers [] ≡ Decoded.null) × IsKnownMode brief)
inject_system_prompt-panics_example = inject_system_prompt-panics numbers brief []

record_loss-counts_example :
    loss_at
      (record_loss [] Dialect.openai_chat (codes "n" ∷ codes "seed" ∷ codes "n" ∷ []))
      (record { dialect = Dialect.openai_chat; field = codes "n" })
    ≡ loss_at [] (record { dialect = Dialect.openai_chat; field = codes "n" })
      + (if same_dialect Dialect.openai_chat Dialect.openai_chat
          then occurrences (codes "n" ∷ codes "seed" ∷ codes "n" ∷ []) (codes "n")
          else 0)
record_loss-counts_example =
    record_loss-counts [] Dialect.openai_chat Dialect.openai_chat
      (codes "n" ∷ codes "seed" ∷ codes "n" ∷ []) (codes "n")

abbrev messages_surface : Surface
messages_surface = record {
  dialect = Dialect.anthropic_messages;
  translator = some (Dialect.anthropic_messages, Dialect.openai_chat);
  native = false;
}

abbrev chat_bound : Bound
chat_bound = record {
  engine_path = codes "/v1/chat/completions";
  surfaces =
      (
        codes "/v1/chat/completions",
        record { dialect = Dialect.openai_chat; translator = none; native = true },
      )
      ∷ (codes "/v1/messages", messages_surface)
      ∷ (
        codes "/v1/responses",
        record {
          dialect = Dialect.openai_responses;
          translator = some (Dialect.openai_responses, Dialect.openai_chat);
          native = false;
        },
      )
      ∷ [];
}

abbrev shim : Shim
shim = record {
  bound = chat_bound;
  system_prompt = none;
  speculator = codes "dspark";
  health_path = [];
  weights_nanoseconds = 7;
}

unfoldable run_route : Bytes → Bytes
unfolding codes equal has_member Surfaces.set_dialect Surfaces.backends same_dialect
    Surfaces.surface_at Serve.route_template
run_route path = route_template shim path

bound_chat : set_dialect engine_dialect_openai_chat ≡ some shim.bound
unfolding run_route
bound_chat = refl

route_template-bounded_example : has_member templates (route_template shim (codes "/x")) ≡ true
route_template-bounded_example =
    route_template-bounded shim engine_dialect_openai_chat (codes "/x") bound_chat

abbrev engine_get : Bytes → Option ℕ
engine_get path = some 200

abbrev engine_post : Bytes → Bytes → Option EngineReply
engine_post path b =
    some
      (record { status = 200; content_type = []; cache_control = []; content = b; complete = true })

abbrev codecs : Codecs
codecs = record {
  request = λ p b. some (record { out = b; lost = []; stream = false });
  response = λ p b. some b;
  stream = λ p b. b;
}

abbrev request_x : Request
request_x = record { method = codes "GET"; path = codes "/x"; content = some [] }

template_x : route_template shim request_x.path ≡ codes "/proxy"
unfolding run_route
template_x = refl

abbrev request_messages : Request
request_messages = record { method = codes "POST"; path = codes "/v1/messages"; content = some [] }

no_probe : has_member probe_paths request_messages.path ≡ false
unfolding run_route
no_probe = refl

messages_found : surface_at shim.bound.surfaces request_messages.path ≡ some messages_surface
unfolding run_route
messages_found = refl

serve_http-translated_example :
    (own (serve_http engine_get engine_post json codecs shim [] request_messages).0.answer ≡ true)
    × ((equal request_messages.method post_method ≡ true)
        ⊎ ((serve_http engine_get engine_post json codecs shim [] request_messages).0.answer
            ≡ Answer.refused 405 []))
serve_http-translated_example =
    serve_http-translated engine_get engine_post json codecs shim [] request_messages
      messages_surface no_probe messages_found refl
