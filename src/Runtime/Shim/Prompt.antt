-- ===== src/Runtime/Shim/Prompt.antt =====
-- `injectSystemPrompt` (internal/runtime/shim.go). JSON is a parameter: a request is its messages and
-- its other fields.
pub mod Policy
use llmops.Prelude.{
  ◌≡◌, refl, sym, Bool, true, false, not, Option, none, some, List, [], ◌∷◌, ◌++◌, if◌then◌else◌,
  ◌⊎◌, inl, inr, arith, ℕ, Bool-cases, Option-cases,
}
use llmops.Strings.{Bytes, codes, equal}
use llmops.Strings.Laws.{equal_iff, equal_refl}
use llmops.Manifest.{
  SystemPrompt, system_prompt_default, system_prompt_prepend, system_prompt_override,
}

-- What json.Unmarshal does with a body that is to be a map: `null` leaves the map nil.
pub data Decoded (F M : Type 0) : Type 0 where
  malformed : Decoded F M
  null : Decoded F M
  object : F → List M → Decoded F M

-- The JSON package on request bodies. `is_system` tests the role of a message.
pub record Json : Type 1 where
  pub Fields : Type 0
  pub Message : Type 0
  pub is_system : Message → Bool
  pub system_message : Bytes → Message
  pub unmarshal : Bytes → Decoded Fields Message
  pub marshal : Fields → List Message → Bytes

-- A body, an error, or the panic of an assignment to a nil map.
pub data Injected : Type 0 where
  body : Bytes → Injected
  rejected : Injected
  panicked : Injected

module _ (J : Json) where
  unfoldable pub has_system : List J.Message → Bool
  has_system [] = false
  has_system (m ∷ ms) = if J.is_system m then true else has_system ms

  unfoldable pub without_system : List J.Message → List J.Message
  without_system [] = []
  without_system (m ∷ ms) = let rest = without_system ms in if J.is_system m then rest else m ∷ rest

  -- What the switch assigns to the messages, if it assigns, or that the mode is unknown.
  pub data Assigned : Type 0 where
    unchanged : Assigned
    messages : List J.Message → Assigned
    unknown_mode : Assigned

  unfoldable pub assigned : SystemPrompt → List J.Message → Assigned
  unfolding has_system without_system
  assigned sp msgs =
      let ours = J.system_message sp.text in
      if equal sp.mode system_prompt_default
      then (if has_system msgs then unchanged else messages (ours ∷ msgs))
      else if equal sp.mode system_prompt_prepend
      then messages (ours ∷ msgs)
      else if equal sp.mode system_prompt_override
      then messages (ours ∷ without_system msgs)
      else unknown_mode

  abbrev pub encode_object : J.Fields → List J.Message → Assigned → Injected
  encode_object fields msgs unchanged = body (J.marshal fields msgs)
  encode_object fields msgs (messages ms) = body (J.marshal fields ms)
  encode_object fields msgs unknown_mode = rejected

  abbrev pub encode_null : Assigned → Bytes → Injected
  encode_null unchanged b = body b
  encode_null (messages ms) b = panicked
  encode_null unknown_mode b = rejected

  abbrev pub inject_decoded : SystemPrompt → Bytes → Decoded J.Fields J.Message → Injected
  inject_decoded sp b malformed = rejected
  inject_decoded sp b null = encode_null (assigned sp []) b
  inject_decoded sp b (object fields msgs) = encode_object fields msgs (assigned sp msgs)

  -- `injectSystemPrompt`
  unfoldable pub inject_system_prompt : Option SystemPrompt → Bytes → Injected
  inject_system_prompt none b = body b
  inject_system_prompt (some sp) b = inject_decoded sp b (J.unmarshal b)
