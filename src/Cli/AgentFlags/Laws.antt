-- ===== src/Cli/AgentFlags/Laws.antt =====
-- What `run` leaves to the harness.
use llmops.Prelude.{◌≡◌, refl, inl, inr, false, some, List, [], ◌∷◌, ◌++◌, arith, Option-cases}
use llmops.Strings.{Bytes, codes, has_member}
use llmops.Strings.Laws.{equal_refl}
use llmops.Cli.{pop_positional}
use llmops.Cli.Flags.{Scanners, Settings, parse_flags}
use llmops.Cli.AgentFlags.{RunArgs, run_args, run_of, run_flags, split_dashes}

split_dashes-none :
    (mine : List Bytes) → has_member mine (codes "--") ≡ false → split_dashes mine ≡ (mine, [])
unfolding split_dashes has_member
split_dashes-none [] h = refl
split_dashes-none (a ∷ mine) h = ground (arith, h, split_dashes-none mine)

split_dashes-append :
    (mine theirs : List Bytes)
    → has_member mine (codes "--") ≡ false
    → split_dashes (mine ++ codes "--" ∷ theirs) ≡ (mine, theirs)
unfolding split_dashes has_member
split_dashes-append [] theirs h = rw (equal_refl (codes "--")) refl
split_dashes-append (a ∷ mine) theirs h = ground (arith, h, split_dashes-append mine theirs)

run_of-passthrough :
    (sc : Scanners) (name : Bytes) (p q : List Bytes) (got : Settings) (a : RunArgs)
    → run_of sc name p got ≡ some a
    → run_of sc name q got ≡ some (record a { passthrough = q })
unfolding run_of
run_of-passthrough sc [] p q got a h = cc h
run_of-passthrough sc (c ∷ name) p q got a h = ground (arith, h)

-- What stands behind the first "--" is the harness's alone, whatever it holds: the verb reads the
-- arguments in front of it, which hold none and which it takes, as if they were all.
pub run_args-passthrough :
    (sc : Scanners) (mine theirs : List Bytes) (a : RunArgs)
    → has_member mine (codes "--") ≡ false
    → run_args sc mine ≡ some a
    → run_args sc (mine ++ codes "--" ∷ theirs) ≡ some (record a { passthrough = theirs })
unfolding run_args
run_args-passthrough sc mine theirs a none_there e =
    let flags : List Bytes = (pop_positional mine).1 in
    elim (Option-cases (parse_flags sc run_flags flags)) [
      | inl p ↦ ground (arith, e, p, split_dashes-none mine none_there)
      | inr (got, p) ↦
          let read : run_of sc (pop_positional mine).0 [] got ≡ some a =
            ground (arith, e, p, split_dashes-none mine none_there) in
          ground (
            arith,
            p,
            split_dashes-append mine theirs none_there,
            run_of-passthrough sc (pop_positional mine).0 [] theirs got a read,
          )
    ]
