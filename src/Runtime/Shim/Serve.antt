-- ===== src/Runtime/Shim/Serve.antt =====
-- `ServeHTTP`, `dialectSurface`, `forward`, `translated`, `RouteTemplate` and the readiness check
-- (internal/runtime/shim.go). The engine, the codecs and JSON are parameters. An HTTP error is its
-- status; its text is left out.
use llmops.Prelude.{
  ℕ, Bool, true, false, not, ◌&&◌, ◌||◌, Option, none, some, List, [], ◌∷◌, if◌then◌else◌, map, ltb,
  ◌==◌,
}
use llmops.Strings.{Bytes, codes, equal, is_empty, join, has_member}
use llmops.Manifest.{SystemPrompt, or_default}
use llmops.Runtime.Shim.Prompt.{Json, Injected, inject_system_prompt}
use llmops.Runtime.Shim.Surfaces.{Dialect, Surface, Bound, surface_at}
use llmops.Runtime.Shim.Losses.{LossCount, record_loss}

-- What the engine answers, and whether its body can be read to the end.
pub record EngineReply : Type 0 where
  pub status : ℕ
  pub content_type : Bytes
  pub cache_control : Bytes
  pub content : Bytes
  pub complete : Bool

pub record Translated : Type 0 where
  pub out : Bytes
  pub lost : List Bytes
  pub stream : Bool

-- The llmdialect package: a codec pair on requests, responses and streams.
pub record Codecs : Type 0 where
  pub request : Dialect × Dialect → Bytes → Option Translated
  pub response : Dialect × Dialect → Bytes → Option Bytes
  pub stream : Dialect × Dialect → Bytes → Bytes

-- The fields of `Shim` that a request reads. The loaded time is in nanoseconds.
pub record Shim : Type 0 where
  pub bound : Bound
  pub system_prompt : Option SystemPrompt
  pub speculator : Bytes
  pub health_path : Bytes
  pub weights_nanoseconds : ℕ

-- A request; `none` for a body that cannot be read or is over the limit.
pub record Request : Type 0 where
  pub method : Bytes
  pub path : Bytes
  pub content : Option Bytes

pub record Headers : Type 0 where
  pub content_type : Bytes
  pub cache_control : Bytes
  pub loss : Bytes

-- Who answers: the probe handler, the reverse proxy, or the shim itself.
pub data Answer : Type 0 where
  probed : Bytes → Answer
  proxied : Answer
  refused : ℕ → Bytes → Answer
  panicked : Answer
  replied : ℕ → Headers → Bytes → Answer

-- Every response carries the active speculator, if there is one.
pub record Response : Type 0 where
  pub speculator : Option Bytes
  pub answer : Answer

abbrev pub get_method : Bytes
get_method = codes "GET"

abbrev pub post_method : Bytes
post_method = codes "POST"

-- `probePaths`
abbrev pub probe_paths : List Bytes
probe_paths =
    map codes ("/livez" ∷ "/readyz" ∷ "/version" ∷ "/metrics" ∷ "/healthz" ∷ "/ready" ∷ [])

-- `RouteTemplate`
unfoldable pub route_template : Shim → Bytes → Bytes
route_template s path =
    if has_member probe_paths path || equal path (codes "/v1/models")
    then path
    else elim (surface_at s.bound.surfaces path) [ none ↦ codes "/proxy" | some sf ↦ path ]

-- The engine behind the shim: a GET's status, and a POST's reply, which may fail.
module _ (engine_get : Bytes → Option ℕ) (engine_post : Bytes → Bytes → Option EngineReply) where
  -- `EngineHealthy`
  unfoldable pub engine_healthy : Shim → Bool
  engine_healthy s = elim (engine_get (or_default s.health_path (codes "/health"))) [
    | none ↦ false
    | some status ↦ status == 200
  ]

  pub data NotReady : Type 0 where
    weights_loading engine_not_healthy : NotReady

  -- The `Ready` function of `probeHandler`; `none` is no error.
  unfoldable pub ready : Shim → Option NotReady
  unfolding engine_healthy
  ready s =
      if not (ltb 0 s.weights_nanoseconds)
      then some weights_loading
      else if not (engine_healthy s)
      then some engine_not_healthy
      else none

  -- `forward`
  unfoldable pub forward : Bytes → Bytes → Answer
  forward path b = elim (engine_post path b) [
    | none ↦ Answer.refused 502 []
    | some reply ↦
        Answer.replied reply.status
          (record {
            content_type = reply.content_type;
            cache_control = reply.cache_control;
            loss = [];
          })
          reply.content
  ]

  module _ (J : Json) (C : Codecs) where
    -- The end of `translated`, from the engine's reply on.
    unfoldable pub translate_reply : Dialect × Dialect → Translated → Bytes → EngineReply → Answer
    translate_reply pair req loss reply =
        if not (reply.status == 200)
        then Answer.replied reply.status
            (record { content_type = []; cache_control = []; loss = loss }) reply.content
        else if req.stream
        then Answer.replied 200
            (record {
              content_type = codes "text/event-stream";
              cache_control = codes "no-cache";
              loss = loss;
            })
            (C.stream pair reply.content)
        else if not reply.complete
        then Answer.refused 502 loss
        else elim (C.response pair reply.content) [
          | none ↦ Answer.refused 502 loss
          | some b ↦
              Answer.replied 200
                (record {
                  content_type = codes "application/json";
                  cache_control = [];
                  loss = loss;
                })
                b
        ]

    -- `translated` after the translation, with the loss header set.
    unfoldable pub send_translated : Shim → Dialect × Dialect → Translated → Bytes → Answer
    unfolding translate_reply
    send_translated s pair req loss = elim (inject_system_prompt J s.system_prompt req.out) [
      | Injected.rejected ↦ Answer.refused 400 loss
      | Injected.panicked ↦ Answer.panicked
      | Injected.body b ↦ elim (engine_post s.bound.engine_path b) [
        | none ↦ Answer.refused 502 loss
        | some reply ↦ translate_reply pair req loss reply
      ]
    ]

    -- `translated`
    unfoldable pub translated :
        Shim → LossCount → Dialect → Dialect × Dialect → Bytes → Answer × LossCount
    unfolding send_translated
    translated s counts d pair b = elim (C.request pair b) [
      | none ↦ (Answer.refused 400 [], counts)
      | some req ↦
          (send_translated s pair req (join req.lost (b',' ∷ [])), record_loss counts d req.lost)
    ]

    -- The native branch of `dialectSurface` with a body.
    unfoldable pub serve_native : Shim → Bytes → Answer
    unfolding forward
    serve_native s b = elim (inject_system_prompt J s.system_prompt b) [
      | Injected.rejected ↦ Answer.refused 400 []
      | Injected.panicked ↦ Answer.panicked
      | Injected.body injected ↦ forward s.bound.engine_path injected
    ]

    -- `dialectSurface` with a body that is read. A translator that is nil would be dereferenced.
    unfoldable pub serve_body : Shim → LossCount → Surface → Bytes → Answer × LossCount
    unfolding serve_native translated
    serve_body s counts sf b =
        if sf.native then (serve_native s b, counts) else elim sf.translator [
          | none ↦ (Answer.panicked, counts)
          | some pair ↦ translated s counts sf.dialect pair b
        ]

    -- `dialectSurface`
    unfoldable pub dialect_surface : Shim → LossCount → Surface → Option Bytes → Answer × LossCount
    unfolding serve_body
    dialect_surface s counts sf content =
        if sf.native && (elim s.system_prompt [ none ↦ true | some sp ↦ false ])
        then (Answer.proxied, counts)
        else elim content [
          | none ↦ (Answer.refused 400 [], counts)
          | some b ↦ serve_body s counts sf b
        ]

    -- The default branch of the switch in `ServeHTTP`.
    unfoldable pub serve_default : Shim → LossCount → Request → Answer × LossCount
    unfolding dialect_surface
    serve_default s counts r = elim (surface_at s.bound.surfaces r.path) [
      | none ↦ (Answer.proxied, counts)
      | some sf ↦
          if equal r.method post_method
          then dialect_surface s counts sf r.content
          else if sf.native
          then (Answer.proxied, counts)
          else (Answer.refused 405 [], counts)
    ]

    -- `ServeHTTP`
    unfoldable pub serve_http : Shim → LossCount → Request → Response × LossCount
    unfolding serve_default
    serve_http s counts r =
        let (answer, after) =
          if equal r.path (codes "/ready")
          then (Answer.probed (codes "/readyz"), counts)
          else if has_member probe_paths r.path
          then (Answer.probed r.path, counts)
          else serve_default s counts r in
        (
          record {
            speculator = if is_empty s.speculator then none else some s.speculator;
            answer = answer;
          },
          after,
        )
