-- ===== src/Harness/Discover.antt =====
-- What `fornax ps` finds out about a model (internal/harness/discover.go). HTTP and JSON are
-- parameters.
use llmops.Prelude.{
  ℕ, leb, ◌≡◌, Bool, true, false, not, ◌&&◌, ◌||◌, Option, none, some, List, [], ◌∷◌, ◌++◌,
  if◌then◌else◌, ◌==◌, arith, Option-cases, inl, inr,
}
use llmops.Strings.{Bytes, codes, is_empty, has_member, cut_prefix, split, trim_space}
use llmops.Strings.Numbers.{itoa, digits_value, is_digit}
use llmops.Floats.{Floats}
use llmops.Harness.{Endpoint}

pub data State : Type 0 where
  ready loading down : State

-- The answer to a GET: status, the speculator header and the body.
pub record Reply : Type 0 where
  pub status : ℕ
  pub speculator : Bytes
  pub content : Bytes

-- What `probe` returns.
pub record Probed (F : Floats) : Type 0 where
  pub state : State
  pub loaded : F.Float
  pub speculator : Bytes

-- The digits that `(\d+)` takes, at the start of a text.
unfoldable pub leading_digits : Bytes → Bytes
leading_digits [] = []
leading_digits (c ∷ cs) = let rest = leading_digits cs in if is_digit c then c ∷ rest else []

-- `--port[= ](\d+)` at the start of a text
unfoldable pub port_here : Bytes → Option Bytes
unfolding leading_digits cut_prefix
port_here s = elim (cut_prefix s (codes "--port")) [
  | none ↦ none
  | some [] ↦ none
  | some (c ∷ rest) ↦
      let ds = leading_digits rest in
      if (c == b'=' || c == b' ') && not (is_empty ds) then some ds else none
]

-- The first match of `portRe`
unfoldable pub find_port : Bytes → Option Bytes
unfolding port_here
find_port [] = none
find_port (c ∷ cs) =
    let later = find_port cs in elim (port_here (c ∷ cs)) [ none ↦ later | some ds ↦ some ds ]

-- Whether a number is out of the range of strconv.Atoi on 64 bits.
abbrev atoi : Bytes → Option ℕ
atoi ds = elim (digits_value 0 ds) [
  | none ↦ none
  | some n ↦ if leb n 9223372036854775807 then some n else none
]

unfoldable pub port_of_lines : ℕ → List Bytes → ℕ
unfolding find_port
port_of_lines default [] = default
port_of_lines default (line ∷ lines) =
    let rest = port_of_lines default lines in
    elim (cut_prefix (trim_space line) (codes "ExecStart=")) [
      | none ↦ rest
      | some command ↦ elim (find_port command) [
        | none ↦ default
        | some ds ↦ elim (atoi ds) [ none ↦ default | some p ↦ p ]
      ]
    ]

-- `portFromUnit`, for the text of the unit file if it can be read.
unfoldable pub port_from_unit : ℕ → Option Bytes → ℕ
unfolding port_of_lines
port_from_unit default none = default
port_from_unit default (some unit) = port_of_lines default (split unit 10)

-- `get` on a path of the endpoint, and the names in a JSON list of models.
module _ (F : Floats) (get : Bytes → Option Reply) (model_ids : Bytes → Option (List Bytes)) where
  -- `serves`
  unfoldable pub serves : Bytes → Bool
  serves name = elim (get (codes "/v1/models")) [
    | none ↦ true
    | some r ↦ if not (r.status == 200) then true else elim (model_ids r.content) [
      | none ↦ true
      | some [] ↦ true
      | some (i ∷ ids) ↦ has_member (i ∷ ids) name
    ]
  ]

  -- A number that does not parse counts as 0.
  unfoldable pub loaded_of_lines : List Bytes → F.Float
  loaded_of_lines [] = F.zero_float
  loaded_of_lines (line ∷ lines) =
      let rest = loaded_of_lines lines in
      elim (cut_prefix line (codes "fornax_weights_load_seconds ")) [
        | none ↦ rest
        | some v ↦ elim (F.parse_float (trim_space v)) [ none ↦ F.zero_float | some x ↦ x ]
      ]

  -- `weightsLoaded`
  unfoldable pub weights_loaded : F.Float
  unfolding loaded_of_lines
  weights_loaded = elim (get (codes "/metrics")) [
    | none ↦ F.zero_float
    | some r ↦ loaded_of_lines (split r.content 10)
  ]

  abbrev pub not_found : Probed F
  not_found = record { state = State.down; loaded = F.zero_float; speculator = [] }

  unfoldable pub state_of_status : ℕ → State
  state_of_status status =
      if status == 200 then State.ready else if status == 503 then State.loading else State.down

  unfoldable pub is_ready : State → Bool
  is_ready State.ready = true
  is_ready State.loading = false
  is_ready State.down = false

  -- `probe`
  unfoldable pub probe : Bytes → Probed F
  unfolding serves weights_loaded state_of_status is_ready
  probe name = elim (get (codes "/readyz")) [
    | none ↦ not_found
    | some r ↦
        let state = state_of_status r.status in
        if is_ready state && not (serves name)
        then not_found
        else record { state = state; loaded = weights_loaded; speculator = r.speculator }
  ]

  serves-member :
      (name : Bytes) (m : Reply) (i : Bytes) (ids : List Bytes)
      → get (codes "/v1/models") ≡ some m
      → m.status ≡ 200
      → model_ids m.content ≡ some (i ∷ ids)
      → serves name ≡ has_member (i ∷ ids) name
  unfolding serves
  serves-member name m i ids h0 h1 h2 = ground (arith, h0, h1, h2)

  -- If an endpoint answers /v1/models with a list that is not empty, a model is reported ready only
  -- when /readyz answers 200 and the list has the model's name.
  pub probe-ready :
      (name : Bytes) (m : Reply) (i : Bytes) (ids : List Bytes)
      → get (codes "/v1/models") ≡ some m
      → m.status ≡ 200
      → model_ids m.content ≡ some (i ∷ ids)
      → (probe name).state ≡ State.ready
      → ((r : Reply) × (get (codes "/readyz") ≡ some r) × (r.status ≡ 200))
        × (has_member (i ∷ ids) name ≡ true)
  unfolding probe
  probe-ready name m i ids h0 h1 h2 h = elim (Option-cases (get (codes "/readyz"))) [
    | inl e ↦ ground (arith, e, h)
    | inr (r, e) ↦ ground (arith, e, h, serves-member name m i ids h0 h1 h2)
  ]

-- `EndpointFor`
unfoldable pub endpoint_for : Bytes → ℕ → Bytes → Bytes → Endpoint
unfolding itoa
endpoint_for name port host token = record {
  base_url =
      codes "http://"
      ++ ((if is_empty host then codes "127.0.0.1" else host) ++ (b':' ∷ itoa port));
  model = name;
  token = token;
}
