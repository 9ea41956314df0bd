-- ===== src/Cli/Ps.antt =====
-- The verb `ps` (cmd/fornax/harness.go), for what a discovery finds. encoding/json, text/tabwriter
-- and fmt's %.1f of a positive number are arguments.
use llmops.Prelude.{
  Bool, Option, none, some, List, [], ◌∷◌, ◌++◌, if◌then◌else◌, Result, ok, err, wrap, ◌>>=◌, map,
}
use llmops.Floats.{Floats}
use llmops.Strings.{Bytes, codes, is_empty}
use llmops.Strings.Numbers.{itoa}
use llmops.Harness.Models.{Model}
use llmops.Cli.{Fault, usage, failure}
use llmops.Cli.Flags.{Scanners, Kind, parse_flags, bool_of}
use llmops.Cli.AgentFlags.{Look, look_of, host_flags, timeout_flag}
use llmops.Cli.Agents.{AgentError, not_discovered, not_encoded, AgentWorld, state_text}

pub record PsArgs : Type 0 where
  pub look : Look
  pub as_json : Bool

-- What `ps` takes from its arguments.
unfoldable pub ps_args : Scanners → List Bytes → Option PsArgs
unfolding parse_flags look_of bool_of
ps_args sc rest =
    elim (parse_flags sc
      (host_flags ++ (record { name = codes "json"; kind = Kind.truth } ∷ timeout_flag ∷ []))
      rest) [
        | none ↦ none
        | some got ↦ some (record { look = look_of sc got; as_json = bool_of got (codes "json") })
      ]

module _ (F : Floats) where
  pub record Printing : Type 0 where
    pub encode : List (Model F) → Option Bytes
    pub align : List (List Bytes) → Bytes
    pub one_digit : F.Float → Bytes

  abbrev or_dash : Bytes → Bytes
  or_dash s = if is_empty s then codes "-" else s

  abbrev header : List Bytes
  header =
      codes "NAME"
      ∷ codes "STATE"
      ∷ codes "PORT"
      ∷ codes "RUNTIME"
      ∷ codes "GPU"
      ∷ codes "SPECULATOR"
      ∷ codes "LOADED"
      ∷ []

  module _ (print : Printing) where
    -- The cells of one model.
    unfoldable pub ps_row : Model F → List Bytes
    unfolding itoa
    ps_row m =
        m.name
        ∷ state_text m.state
        ∷ itoa m.port
        ∷ m.runtime
        ∷ m.gpu
        ∷ or_dash m.speculator
        ∷ (if F.lt_float F.zero_float m.loaded
            then print.one_digit m.loaded ++ codes "s"
            else codes "-")
        ∷ []

    unfoldable pub ps_table : Bytes → List (Model F) → Bytes
    unfolding ps_row
    ps_table config_dir [] = codes "no models installed in " ++ (config_dir ++ codes "\n")
    ps_table config_dir (m ∷ ms) = print.align (header ∷ map ps_row (m ∷ ms))

    abbrev encoded : Option Bytes → Result (Fault AgentError) Bytes
    encoded none = err (failure not_encoded)
    encoded (some out) = ok out

    -- `runPS`
    unfoldable pub run_ps : AgentWorld F → List Bytes → Result (Fault AgentError) Bytes
    unfolding ps_args ps_table
    run_ps w rest = elim (ps_args w.scanners rest) [
      | none ↦ err usage
      | some a ↦ wrap (λ e. failure (not_discovered e)) (w.discover_at 0 a.look) >>= λ models.
          if a.as_json
          then encoded (print.encode models)
          else ok (ps_table a.look.config_dir models)
    ]
