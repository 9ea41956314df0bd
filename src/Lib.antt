-- ===== src/Lib.antt =====
-- Fornax serves large language models: this library models its Go packages and proves what they are
-- correct by. The program reads a manifest for each model, mirrors the model's weights from the Hub
-- into a store, prepares them on a host, starts an inference engine, and fronts it with a shim.
--
-- Parts, files and code:
-- * Manifest (internal/manifest/manifest.go): the schema is Manifest.antt, flagValue and HasArg are
--   Manifest/Flags, the regular expressions Manifest/Patterns, Validate and its parts
--   Manifest/Validate, with the problems as values in Manifest/Problems; SpeculatorNames and
--   ResolveSpeculator are Manifest/Speculators. Manifest/Validity states independently what a valid
--   manifest is, and Manifest/Overrides relates validation to what a start uses.
-- * Mirror (internal/mirror): the Store interface and its laws are Mirror/Store, LocalStore is
--   Mirror/Store/Local, S5cmdStore is Mirror/Store/S5cmd, Push, ReadManifest and Verify are
--   Mirror/Push, the Hub's Resolve and Tree with verifyLocal, Pull and Freeze are Mirror/Pull,
--   CheckPolicy is Mirror/Policy, the paged fetch is Mirror/Pages, HFClient is Mirror/Client. Operations on a
--   store are functions on its state that may fail (Mirror/Effects): a failed operation also has a
--   state after it.
-- * Runtime (internal/runtime): serve.go's EngineCommand and options are Runtime/Command, prep.go is
--   Runtime/Weights, shim.go is Runtime/Shim (Prompt for injectSystemPrompt, Surfaces for setDialect,
--   Losses for recordLoss, Serve for the handlers, Routes and Dispatch for who answers what),
--   preflight.go is Runtime/Preflight, and Serve of serve.go, as the states that it passes through,
--   is Runtime/Serve.
-- * Install (internal/install/install.go): the unit and the install over a host's files.
-- * Deploycheck (internal/deploycheck/deploycheck.go): validateUnit is Deploycheck/Unit, validateOne is
--   Deploycheck/Lws over the decoded values of Deploycheck/Yaml, Validate is Deploycheck.antt;
--   Deploycheck/Accepted and Deploycheck/Lws/Fits state independently what is accepted. Load and
--   LoadDir of the manifest package are Manifest/Load.
-- * Harness (internal/harness): harness.go is Harness.antt, discover.go is Harness/Discover.
--   Discover itself is Harness/Models.
-- * Bench (internal/bench/bench.go): the aggregation, the percentiles and the scan of a response; the
--   workers of Run are a step relation in Bench/Pool.
-- * Cli (cmd/fornax): main.go is Cli.antt and Cli/Main, package flag Cli/Flags, weights.go Cli/Weights,
--   serve.go Cli/Serving, install.go Cli/Install, harness.go Cli/AgentFlags,
--   Cli/Agents and Cli/Ps, bench.go Cli/Measure.
--   OpenStore and LocalStore's List of internal/mirror/store.go are Mirror/Store/Open, the text of
--   /metrics is Runtime/Shim/Metrics.
-- * Prelude, Strings, Paths and Floats: lists, results, bytes, Go's strings and filepath functions, and
--   the interface of floating-point numbers.
-- * Tests has runs of the definitions and instances of the theorems.
--
-- The parts interact as the code does: Runtime/Command takes a manifest and a resolved speculator,
-- Runtime/Weights reads the manifest that Mirror/Push writes, the shim is bound to the dialect that
-- Manifest states, Runtime/Serve runs these one behind the other while the shim answers, and
-- Deploycheck reads the unit that Install writes. The verbs of Cli run these parts behind each other:
-- a push pulls first, opens the store of its prefix and pushes to it, the command of an installed unit
-- is read back by the flags of serve, and ps reads what the shim writes to /metrics.
--
-- Bounds and fuel: strings are lists of bytes, and numbers are natural numbers, with a sign where the
-- code tests one. The paged fetch runs 1000 rounds as the code does, and is an error beyond. The
-- decimal text of n is written with fuel n + 1, since each round divides by ten. Sums of bytes in the
-- memory check wrap around at 2^64. All other loops are structural.
--
-- Parameters: the program s5cmd, SHA-256, JSON, text/template, text/tabwriter, URL resolution, HTTP, the
-- dialect codecs, the engine, flock, os.MkdirAll, the clock, the listing of directories, wait.Until, the texts
-- of integers and durations that flags take, and floating-point numbers.
--
-- Not modelled: the YAML decoder, telemetry, progress and log lines, what a verb prints before it
-- fails, the texts of HTTP errors, and the rates of the benchmark.
pub mod Prelude
pub mod Strings
pub mod Floats
pub mod Paths
pub mod Manifest
pub mod Mirror
pub mod Runtime
pub mod Install
pub mod Deploycheck
pub mod Harness
pub mod Bench
pub mod Cli
pub mod Tests
