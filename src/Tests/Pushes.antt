-- ===== src/Tests/Pushes.antt =====
-- A push to a directory from the command line.
use llmops.Prelude.{
  ◌≡◌, refl, inr, Option, if◌then◌else◌, true, false, none, some, List, [], ◌∷◌, Result, ok,
}
use llmops.Strings
use llmops.Strings.{Bytes, codes, equal}
use llmops.Mirror.Store.Local.{Files, local_path}
use llmops.Mirror.Store.Open
use llmops.Mirror.Store.Open.{Machine}
use llmops.Mirror.Push.{FileEntry, StoreManifest, manifest_name, manifest_of}
use llmops.Paths.{join_path}
use llmops.Mirror.Pull
use llmops.Mirror.Pull.{Hub, PullError, pull}
use llmops.Cli
use llmops.Cli.Flags
use llmops.Cli.Weights
use llmops.Cli.{Fault}
use llmops.Cli.Weights.{
  World, Target, WeightsError, push_args, remote_prefix, run_weights, pushed_line, verified_line,
}
use llmops.Cli.Weights.Laws.{run_push-verify}
use llmops.Tests.Agents.{no_numbers}
use llmops.Tests.Buckets.{bucket, documented}
use llmops.Tests.Mirrors.{local_files, config_entry, encode, run_freeze, differ}

-- Two files, pulled and pushed one behind the other.
abbrev second_entry : FileEntry
second_entry = record { path = codes "b.json"; size = 2; sha256 = codes "[]" }

abbrev entries : List FileEntry
entries = config_entry ∷ second_entry ∷ []

abbrev hub_of_two : Hub
hub_of_two = record {
  sha_at = λ _. ok (codes "c0");
  entries_at = λ _. ok (
      record { type = codes "file"; path = codes "a.json"; size = 2; lfs_oid = none }
      ∷ record { type = codes "file"; path = codes "b.json"; size = 2; lfs_oid = none }
      ∷ []);
  escape = λ r. r;
}

abbrev two_files : Files
two_files = record local_files {
  read = λ p. if equal p (codes "/d/b.json") then some (codes "[]") else local_files.read p;
}

abbrev decode_two : Bytes → Option StoreManifest
decode_two c =
    if equal c (codes "{}")
    then some (manifest_of (codes "now") (codes "o/r") (codes "c0") entries)
    else none

abbrev world : World
world = record {
  scanners = no_numbers;
  hf_base = [];
  hub_at = λ _. hub_of_two;
  download = λ _ _ _ fs. (true, fs);
  encode = encode;
  decode = decode_two;
  now = codes "now";
  visits = λ _ _. [];
  rel = λ _ p. some p;
}

abbrev machine : Machine bucket
machine = record { files = two_files; buckets = λ _. none }

abbrev words : List Bytes
words = codes "o/r@c0" ∷ codes "--dir" ∷ codes "/d" ∷ codes "--bucket=/b/" ∷ []

abbrev target : Target
target = record { repo = codes "o/r"; revision = codes "c0"; dir = codes "/d" }

unfoldable pushes : Result (Fault WeightsError) (List Bytes) × Machine bucket
unfolding run_freeze run_weights Weights.run_push Weights.push_args Weights.push_pulled
    Weights.remote_prefix Weights.hub Cli.split_repo Cli.pop_positional Flags.accepts Flags.kind_of
    Flags.name_token Flags.token_of Flags.parse_onto Flags.parse_flags Flags.string_of Strings.cut
    Strings.trim_suffix Strings.cut_suffix Pull.pull codes equal
pushes = run_weights bucket world (codes "push") words machine

read_args : push_args no_numbers words ≡ some (target, codes "/b/")
unfolding pushes
read_args = refl

pulled :
    pull bucket.hash
      (Weights.hub bucket world)
      world.download
      target.repo
      target.revision
      target.dir
      machine.files
    ≡ (ok (codes "c0", entries), two_files)
unfolding pushes
pulled = refl

abbrev prefix : Bytes
prefix = remote_prefix (codes "/b/") (codes "o/r") (codes "c0")

abbrev after : Machine bucket
after = pushes.1

pushed :
    run_weights bucket world (codes "push") words machine
    ≡ (ok (pushed_line (codes "o/r") (codes "c0") prefix ∷ []), after)
unfolding pushes
pushed = refl

abbrev object_at : Bytes → Bytes
object_at r = local_path (codes "/b/o/r/c0/") r

first_apart : equal (object_at manifest_name) (object_at (codes "a.json")) ≡ false
unfolding pushes
first_apart = refl

second_apart : equal (object_at manifest_name) (object_at (codes "b.json")) ≡ false
unfolding pushes
second_apart = refl

each_apart : equal (object_at (codes "b.json")) (object_at (codes "a.json")) ≡ false
unfolding pushes
each_apart = refl

second_aside :
    equal (object_at (codes "a.json")) (join_path (codes "/d" ∷ codes "b.json" ∷ [])) ≡ false
unfolding pushes
second_aside = refl

run_push-verify_example :
    (pushed_line (codes "o/r") (codes "c0") prefix ∷ []
      ≡ pushed_line (codes "o/r") (codes "c0") prefix ∷ [])
    × (run_weights bucket world (codes "verify") (prefix ∷ []) after
        ≡ (ok (verified_line prefix ∷ []), after))
unfolding pushes Open.open_store-IsLawful
run_push-verify_example =
    run_push-verify bucket documented world words target (codes "/b/") (codes "c0") entries machine
      after two_files (pushed_line (codes "o/r") (codes "c0") prefix ∷ []) read_args pulled
      ((differ (object_at (codes "b.json")) (object_at (codes "a.json")) each_apart, tt), (tt, tt))
      (
        (
          inr (
              differ (object_at (codes "a.json")) (join_path (codes "/d" ∷ codes "b.json" ∷ []))
                second_aside),
          tt,
        ),
        (tt, tt),
      )
      (
        differ (object_at manifest_name) (object_at (codes "a.json")) first_apart,
        (differ (object_at manifest_name) (object_at (codes "b.json")) second_apart, tt),
      )
      refl pushed

abbrev stored : List Bytes
stored = codes "o/r/c0/a.json" ∷ codes "o/r/c0/_manifest.json" ∷ []
