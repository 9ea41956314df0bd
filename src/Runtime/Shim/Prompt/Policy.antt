-- ===== src/Runtime/Shim/Prompt/Policy.antt =====
-- What the injected prompt does to a conversation.
use llmops.Prelude.{
  ◌≡◌, ◌≢◌, refl, true, false, Option, none, some, List, [], ◌∷◌, ◌⊎◌, ◌↔◌, inl, inr, arith,
  Bool-cases,
}
use llmops.Strings.{Bytes, codes, equal}
use llmops.Strings.Laws.{equal_iff}
use llmops.Manifest.{
  SystemPrompt, system_prompt_default, system_prompt_prepend, system_prompt_override,
}
use llmops.Runtime.Shim.Prompt.{
  Json, Decoded, Injected, has_system, without_system, Assigned, assigned, inject_system_prompt,
}

module _ (J : Json) where
  without_system_idem :
      (ms : List J.Message) → without_system J (without_system J ms) ≡ without_system J ms
  unfolding without_system
  without_system_idem [] = refl
  without_system_idem (m ∷ ms) = elim (Bool-cases (J.is_system m)) [
    | inl h ↦ rw (h, without_system_idem ms)
    | inr h ↦ rw (h, h, without_system_idem ms)
  ]

  -- The conversation that the engine is given for a policy: one of the caller's, or a new one.
  abbrev pub given : Assigned J → List J.Message → Option (List J.Message)
  given Assigned.unchanged ms = some ms
  given (Assigned.messages new) ms = some new
  given Assigned.unknown_mode ms = none

  module _ (sp : SystemPrompt) (ms : List J.Message)
      (ours_system : J.is_system (J.system_message sp.text) ≡ true) where
    abbrev Keeps : List J.Message → Type 0
    Keeps new = (has_system J new ≡ true) × (without_system J new ≡ without_system J ms)

    Keeps-ours : Keeps (J.system_message sp.text ∷ ms)
    unfolding has_system without_system
    Keeps-ours = (rw ours_system, rw ours_system)

    Keeps-only_ours : Keeps (J.system_message sp.text ∷ without_system J ms)
    unfolding has_system without_system
    Keeps-only_ours = (rw ours_system, rw (ours_system, without_system_idem ms))

    default-ne-override : system_prompt_default ≢ system_prompt_override
    unfolding codes
    default-ne-override h = cc h

    prepend-ne-override : system_prompt_prepend ≢ system_prompt_override
    unfolding codes
    prepend-ne-override h = cc h

    -- Whatever the mode, a conversation that is given to the engine has a system message, and the
    -- caller's other messages in their order; with the mode `override` ours is the only one.
    pub assigned-keeps :
        (new : List J.Message)
        → given (assigned J sp ms) ms ≡ some new
        → (has_system J new ≡ true)
          × (without_system J new ≡ without_system J ms)
          × ((equal sp.mode system_prompt_override ≡ false)
              ⊎ (new ≡ J.system_message sp.text ∷ without_system J ms))
    unfolding assigned
    assigned-keeps new h = elim (Bool-cases (equal sp.mode system_prompt_default)) [
      | inl d ↦ ground (
        arith,
        equal_iff sp.mode system_prompt_default,
        equal_iff sp.mode system_prompt_override,
        default-ne-override,
        Keeps-ours,
      )
      | inr d ↦ elim (Bool-cases (equal sp.mode system_prompt_prepend)) [
        | inl p ↦ ground (
          arith,
          equal_iff sp.mode system_prompt_prepend,
          equal_iff sp.mode system_prompt_override,
          prepend-ne-override,
          Keeps-ours,
        )
        | inr p ↦ ground (arith, Keeps-only_ours)
      ]
    ]

-- The mode is one of the three that the schema names.
abbrev pub IsKnownMode : SystemPrompt → Type 0
IsKnownMode sp =
    (sp.mode ≡ system_prompt_default)
    ⊎ (sp.mode ≡ system_prompt_prepend)
    ⊎ (sp.mode ≡ system_prompt_override)

module _ (J : Json) (sp : SystemPrompt) (b : Bytes) where
  Assigned-cases :
      (a : Assigned J)
      → (a ≡ Assigned.unchanged)
        ⊎ ((ms : List J.Message) × (a ≡ Assigned.messages ms))
        ⊎ (a ≡ Assigned.unknown_mode)
  Assigned-cases Assigned.unchanged = inl refl
  Assigned-cases (Assigned.messages ms) = inr (inl (ms, refl))
  Assigned-cases Assigned.unknown_mode = inr (inr refl)

  -- If the JSON of a request decodes to what was encoded and the message of the policy is a system
  -- message, then a request that is injected is given to the engine with its other fields as they
  -- were, with a system message, and with the caller's other messages in their order.
  pub inject_system_prompt-keeps :
      (fields : J.Fields) (ms : List J.Message) (out : Bytes)
      → J.is_system (J.system_message sp.text) ≡ true
      → ((fs : J.Fields) (new : List J.Message)
          → J.unmarshal (J.marshal fs new) ≡ Decoded.object fs new)
      → J.unmarshal b ≡ Decoded.object fields ms
      → inject_system_prompt J (some sp) b ≡ Injected.body out
      → (new : List J.Message) × (J.unmarshal out ≡ Decoded.object fields new)
        × (has_system J new ≡ true)
        × (without_system J new ≡ without_system J ms)
  unfolding inject_system_prompt
  inject_system_prompt-keeps fields ms out ours json decoded h =
      elim (Assigned-cases (assigned J sp ms)) [
        | inl a ↦
            let (some_system, others, _) = assigned-keeps J sp ms ours ms (rw a) in
            (ms, ground (arith, decoded, a, h, json fields ms), some_system, others)
        | inr (inl (new, a)) ↦
            let (some_system, others, _) = assigned-keeps J sp ms ours new (rw a) in
            (new, ground (arith, decoded, a, h, json fields new), some_system, others)
        | inr (inr a) ↦ ground (arith, decoded, a, h)
      ]

  -- With no messages to look at, a known mode assigns ours, and another is refused.
  assigned_nil :
      (IsKnownMode sp × (assigned J sp [] ≡ Assigned.messages (J.system_message sp.text ∷ [])))
      ⊎ ((IsKnownMode sp → ⊥) × (assigned J sp [] ≡ Assigned.unknown_mode))
  unfolding assigned has_system without_system
  assigned_nil = elim (Bool-cases (equal sp.mode system_prompt_default)) [
    | inl d ↦ inl (inl ((equal_iff _ _).0 d), rw d)
    | inr d ↦ elim (Bool-cases (equal sp.mode system_prompt_prepend)) [
      | inl p ↦ inl (inr (inl ((equal_iff _ _).0 p)), rw (d, p))
      | inr p ↦ elim (Bool-cases (equal sp.mode system_prompt_override)) [
        | inl o ↦ inl (inr (inr ((equal_iff _ _).0 o)), rw (d, p, o))
        | inr o ↦ inr (unknown d p o, rw (d, p, o))
      ]
    ]
  ]
    where
      unknown :
          equal sp.mode system_prompt_default ≡ false
          → equal sp.mode system_prompt_prepend ≡ false
          → equal sp.mode system_prompt_override ≡ false
          → IsKnownMode sp
          → ⊥
      unknown d p o (inl e) = cc (d, (equal_iff _ _).1 e)
      unknown d p o (inr (inl e)) = cc (p, (equal_iff _ _).1 e)
      unknown d p o (inr (inr e)) = cc (o, (equal_iff _ _).1 e)

  Decoded-cases :
      (x : Decoded J.Fields J.Message)
      → (x ≡ Decoded.malformed)
        ⊎ (x ≡ Decoded.null)
        ⊎ ((fields : J.Fields) × (ms : List J.Message) × (x ≡ Decoded.object fields ms))
  Decoded-cases Decoded.malformed = inl refl
  Decoded-cases Decoded.null = inr (inl refl)
  Decoded-cases (Decoded.object fields ms) = inr (inr (fields, ms, refl))

  -- Injection panics exactly on the body `null`, if the mode is one of the three.
  pub inject_system_prompt-panics :
      (inject_system_prompt J (some sp) b ≡ Injected.panicked)
      ↔ ((J.unmarshal b ≡ Decoded.null) × IsKnownMode sp)
  unfolding inject_system_prompt
  inject_system_prompt-panics = elim (Decoded-cases (J.unmarshal b)) [
    | inl e ↦ ground (arith, e)
    | inr (inl e) ↦ elim assigned_nil [
      | inl (known, a) ↦ (λ h. (e, known), λ _. ground (arith, e, a))
      | inr (unknown, a) ↦ (λ h. ground (arith, e, a, h), λ (_, known). absurd (unknown known))
    ]
    | inr (inr (fields, ms, e)) ↦ elim (Assigned-cases (assigned J sp ms)) [
      | inl a ↦ (λ h. ground (arith, e, a, h), λ (n, _). cc (e, n))
      | inr (inl (new, a)) ↦ (λ h. ground (arith, e, a, h), λ (n, _). cc (e, n))
      | inr (inr a) ↦ (λ h. ground (arith, e, a, h), λ (n, _). cc (e, n))
    ]
  ]
