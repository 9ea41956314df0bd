-- ===== src/Runtime/Shim/Dispatch.antt =====
-- Which component answers a request to the shim.
use llmops.Prelude.{
  ℕ, ◌≡◌, refl, sym, subst, Bool, true, false, Option, none, some, [], ◌∷◌, ◌⊎◌, inl, inr, arith,
  Bool-cases, Option-cases, ◌==◌,
}
use llmops.Strings.{Bytes, codes, equal, has_member, join}
use llmops.Strings.Laws.{equal_iff}
use llmops.Runtime.Shim.Prompt.{Json, Injected, inject_system_prompt}
use llmops.Runtime.Shim.Losses.{LossCount}
use llmops.Runtime.Shim.Surfaces.{Dialect, Surface, set_dialect, surface_at}
use llmops.Runtime.Shim.Serve.{
  Shim, Request, Answer, Translated, EngineReply, Codecs, probe_paths, route_template, post_method,
  serve_http, translate_reply, send_translated, translated, dialect_surface, serve_default,
}
use llmops.Runtime.Shim.Routes.{template-proxy, ready-probe}

-- The six probe paths include "/ready".
not_ready :
    (path : Bytes) → has_member probe_paths path ≡ false → equal path (codes "/ready") ≡ false
not_ready path h = elim (Bool-cases (equal path (codes "/ready"))) [
  | inl e ↦ cc (h, (equal_iff path (codes "/ready")).0 e, ready-probe)
  | inr e ↦ e
]

Injected-cases :
    (i : Injected)
    → (i ≡ Injected.rejected) ⊎ (i ≡ Injected.panicked) ⊎ ((b : Bytes) × (i ≡ Injected.body b))
Injected-cases Injected.rejected = inl refl
Injected-cases Injected.panicked = inr (inl refl)
Injected-cases (Injected.body b) = inr (inr (b, refl))

-- Whether an answer is the shim's own, and not a probe's or the reverse proxy's.
abbrev pub own : Answer → Bool
own (Answer.probed p) = false
own Answer.proxied = false
own (Answer.refused status loss) = true
own Answer.panicked = true
own (Answer.replied status headers b) = true

module _ (engine_get : Bytes → Option ℕ) (engine_post : Bytes → Bytes → Option EngineReply)
    (J : Json) (C : Codecs) (s : Shim) (counts : LossCount) where
  -- What RouteTemplate reports as "/proxy" is answered by the reverse proxy alone, and no loss is
  -- counted.
  pub serve_http-proxied :
      (d : Bytes) (r : Request)
      → set_dialect d ≡ some s.bound
      → route_template s r.path ≡ codes "/proxy"
      → ((serve_http engine_get engine_post J C s counts r).0.answer ≡ Answer.proxied)
        × ((serve_http engine_get engine_post J C s counts r).1 ≡ counts)
  unfolding serve_http
  serve_http-proxied d r bound h =
      let (outside, nowhere) = template-proxy s d r.path bound h in
      (
        rw (not_ready r.path outside, outside, serve_default, nowhere),
        rw (not_ready r.path outside, outside, serve_default, nowhere),
      )

  own-translate_reply :
      (pair : Dialect × Dialect) (req : Translated) (loss : Bytes) (reply : EngineReply)
      → own (translate_reply engine_get engine_post J C pair req loss reply) ≡ true
  unfolding translate_reply
  own-translate_reply pair req loss reply = elim (Bool-cases (reply.status == 200)) [
    | inr bad ↦ rw bad
    | inl good ↦ elim (Bool-cases req.stream) [
      | inl h ↦ rw (good, h)
      | inr h ↦ elim (Bool-cases reply.complete) [
        | inr cut ↦ rw (good, h, cut)
        | inl whole ↦ elim (Option-cases (C.response pair reply.content)) [
          | inl e ↦ rw (good, h, whole, e)
          | inr (b, e) ↦ rw (good, h, whole, e)
        ]
      ]
    ]
  ]

  own-send_translated :
      (pair : Dialect × Dialect) (req : Translated) (loss : Bytes)
      → own (send_translated engine_get engine_post J C s pair req loss) ≡ true
  unfolding send_translated
  own-send_translated pair req loss =
      elim (Injected-cases (inject_system_prompt J s.system_prompt req.out)) [
        | inl h ↦ ground (arith, h)
        | inr (inl h) ↦ ground (arith, h)
        | inr (inr (b, h)) ↦ elim (Option-cases (engine_post s.bound.engine_path b)) [
          | inl e ↦ ground (arith, h, e)
          | inr (reply, e) ↦ ground (arith, h, e, own-translate_reply pair req loss reply)
        ]
      ]

  own-translated :
      (d : Dialect) (pair : Dialect × Dialect) (b : Bytes)
      → own (translated engine_get engine_post J C s counts d pair b).0 ≡ true
  unfolding translated
  own-translated d pair b = elim (Option-cases (C.request pair b)) [
    | inl e ↦ ground (arith, e)
    | inr (req, e) ↦ ground (arith, e, own-send_translated pair req (join req.lost (b',' ∷ [])))
  ]

  own-dialect_surface :
      (sf : Surface) (content : Option Bytes)
      → sf.native ≡ false
      → own (dialect_surface engine_get engine_post J C s counts sf content).0 ≡ true
  unfolding dialect_surface
  own-dialect_surface sf none n = ground (arith, n)
  own-dialect_surface sf (some b) n = elim (Option-cases sf.translator) [
    | inl e ↦ ground (arith, n, e)
    | inr (pair, e) ↦ ground (arith, n, e, own-translated sf.dialect pair b)
  ]

  own-serve_default :
      (r : Request) (sf : Surface)
      → surface_at s.bound.surfaces r.path ≡ some sf
      → sf.native ≡ false
      → (own (serve_default engine_get engine_post J C s counts r).0 ≡ true)
        × ((equal r.method post_method ≡ true)
            ⊎ ((serve_default engine_get engine_post J C s counts r).0 ≡ Answer.refused 405 []))
  unfolding serve_default
  own-serve_default r sf at n = elim (Bool-cases (equal r.method post_method)) [
    | inl h ↦ (ground (arith, at, h, own-dialect_surface sf r.content n), inl h)
    | inr h ↦ (ground (arith, at, h, n), inr (ground (arith, at, h, n)))
  ]

  -- A surface that the engine does not speak is never proxied: a request to it that is not a POST is
  -- refused with 405, and one that is a POST is answered by the shim.
  pub serve_http-translated :
      (r : Request) (sf : Surface)
      → has_member probe_paths r.path ≡ false
      → surface_at s.bound.surfaces r.path ≡ some sf
      → sf.native ≡ false
      → (own (serve_http engine_get engine_post J C s counts r).0.answer ≡ true)
        × ((equal r.method post_method ≡ true)
            ⊎ ((serve_http engine_get engine_post J C s counts r).0.answer ≡ Answer.refused 405 []))
  unfolding serve_http
  serve_http-translated r sf h at n =
      subst
        (λ a. (own a ≡ true) × ((equal r.method post_method ≡ true) ⊎ (a ≡ Answer.refused 405 [])))
        (sym (rw (not_ready r.path h, h))) (own-serve_default r sf at n)
