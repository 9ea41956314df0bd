-- ===== src/Cli.antt =====
-- The command `fornax` (cmd/fornax): what the verbs share of main.go, how a verb fails, and the
-- arguments it is given.
pub mod Flags
pub mod Weights
pub mod Serving
pub mod Install
pub mod AgentFlags
pub mod Agents
pub mod Ps
pub mod Measure
pub mod Main
use llmops.Prelude.{ℕ, Bool, Option, none, some, List, [], ◌∷◌, if◌then◌else◌, not, ◌==◌}
use llmops.Strings.{Bytes, codes, cut, has_prefix}

-- The error of a verb: a `usageErr`, or any other.
pub data Fault (E : Type 0) : Type 0 where
  usage : Fault E
  failure : E → Fault E

abbrev or_whole : Bytes → Option (Bytes × Bytes) → Bytes × Bytes
or_whole s none = (s, [])
or_whole s (some (a, b)) = (a, b)

-- `splitRepo`
unfoldable pub split_repo : Bytes → Bytes × Bytes
unfolding cut
split_repo arg = or_whole arg (cut arg b'@')

-- `popPositional`
unfoldable pub pop_positional : List Bytes → Bytes × List Bytes
unfolding has_prefix
pop_positional [] = ([], [])
pop_positional (a ∷ rest) = if not (has_prefix a (b'-' ∷ [])) then (a, rest) else ([], a ∷ rest)
