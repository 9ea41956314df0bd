-- ===== src/Manifest/Speculators.antt =====
-- The speculators of a manifest and the choice of one: `SpeculatorNames` and `ResolveSpeculator` of
-- internal/manifest/manifest.go.
pub mod Keys
use llmops.Prelude.{Bool, Option, none, some, List, [], ◌∷◌, if◌then◌else◌, Result, ok, err}
use llmops.Strings.{Bytes, equal, is_empty, sort}
use llmops.Manifest.{Manifest, Speculator, StringMap, no_speculator, speculator_none, or_default}

-- A lookup in a Go map.
unfoldable pub find : {A : Type 0} → Bytes → StringMap A → Option A
find k [] = none
find k ((j, v) ∷ rest) = if equal j k then some v else find k rest

unfoldable pub keys : {A : Type 0} → StringMap A → List Bytes
keys [] = []
keys ((k, _) ∷ rest) = k ∷ keys rest

unfoldable pub speculator_names : Manifest → List Bytes
speculator_names m = sort (keys m.speculators)

-- `m.Speculators[name]`, the zero value on a missing key.
unfoldable pub speculator_at : Manifest → Bytes → Speculator
speculator_at m name = elim (find name m.speculators) [ none ↦ no_speculator | some sp ↦ sp ]

pub record Speculation : Type 0 where
  pub name : Bytes
  pub speculator : Speculator

abbrev pub no_speculation : Speculation
no_speculation = record { name = speculator_none; speculator = no_speculator }

unfoldable pub off : Speculation → Bool
off s = equal s.name speculator_none

pub data ResolveError : Type 0 where
  offers_none : ResolveError
  no_such : Bytes → List Bytes → ResolveError

abbrev none_declared : StringMap Speculator → Bytes → List Bytes → ResolveError
none_declared [] name names = offers_none
none_declared (_ ∷ _) name names = no_such name names

-- The choice, once an empty name has been replaced by the default.
unfoldable pub resolve_named : Manifest → Bytes → Result ResolveError Speculation
resolve_named m name =
    if equal name speculator_none then ok no_speculation else elim (find name m.speculators) [
      | some sp ↦ ok (record { name = name; speculator = sp })
      | none ↦ err (none_declared m.speculators name (speculator_names m))
    ]

unfoldable pub resolve_speculator : Manifest → Bytes → Result ResolveError Speculation
resolve_speculator m name =
    resolve_named m
      (if is_empty name then or_default m.default_speculator speculator_none else name)
