-- ===== src/Runtime/Shim/Metrics.antt =====
-- The text of /metrics (internal/runtime/shim.go). fmt's %g of a float and %q of a string, and the
-- names of the dialects, are arguments; the order of Range does not matter, as the lines are sorted.
pub mod Read
use llmops.Prelude.{ℕ, Option, none, some, List, [], ◌∷◌, ◌++◌, if◌then◌else◌, ◌==◌, map}
use llmops.Floats.{Floats}
use llmops.Strings.{Bytes, codes, is_empty, sort}
use llmops.Strings.Numbers.{itoa}
use llmops.Install.{lines_text}
use llmops.Harness.Discover.{Reply}
use llmops.Runtime.Shim.Surfaces.{Dialect}
use llmops.Runtime.Shim.Losses.{LossKey, LossCount}

pub record Formats (F : Floats) : Type 0 where
  pub format_float : F.Float → Bytes
  pub quote : Bytes → Bytes
  pub dialect_text : Dialect → Bytes

abbrev pub help_line : Bytes
help_line =
    codes "# HELP fornax_weights_load_seconds Time spent preparing weights before engine start."

abbrev pub type_line : Bytes
type_line = codes "# TYPE fornax_weights_load_seconds gauge"

abbrev pub key : Bytes
key = codes "fornax_weights_load_seconds "

-- What the engine answers on its own /metrics, as it is copied.
unfoldable pub engine_text : Option Reply → Bytes
engine_text none = []
engine_text (some r) = if r.status == 200 then r.content else []

module _ (F : Floats) (t : Formats F) where
  open t use {format_float, quote, dialect_text}

  abbrev pub speculator_lines : Bytes → List Bytes
  speculator_lines s =
      if is_empty s
      then []
      else codes
          "# HELP fornax_speculator_info The draft-model configuration the engine is serving with."
        ∷ codes "# TYPE fornax_speculator_info gauge"
        ∷ (codes "fornax_speculator_info{speculator=" ++ (quote s ++ codes "} 1"))
        ∷ []

  abbrev loss_line : LossKey × ℕ → Bytes
  unfolding itoa
  loss_line (k, n) =
      codes "fornax_dialect_loss_total{dialect="
      ++ (quote (dialect_text k.dialect)
          ++ (codes ",field=" ++ (quote k.field ++ (codes "} " ++ itoa n))))

  abbrev headed : List Bytes → List Bytes
  headed [] = []
  headed (l ∷ ls) =
      codes "# HELP fornax_dialect_loss_total Request fields a caller's dialect could not carry."
      ∷ codes "# TYPE fornax_dialect_loss_total counter"
      ∷ l
      ∷ ls

  unfoldable pub loss_lines : LossCount → List Bytes
  unfolding loss_line sort
  loss_lines c = headed (sort (map loss_line c))

  -- `metrics`, for the engine's answer, the seconds of the weights, the speculator and the losses.
  unfoldable pub metrics : Option Reply → F.Float → Bytes → LossCount → Bytes
  unfolding engine_text loss_lines
  metrics engine seconds speculator losses =
      engine_text engine
      ++ lines_text (
          help_line
          ∷ type_line
          ∷ (key ++ format_float seconds)
          ∷ (speculator_lines speculator ++ loss_lines losses))
