-- ===== src/Cli/Weights.antt =====
-- The five verbs on weights (cmd/fornax/weights.go) with newMirror of main.go, over the files of the
-- machine and the buckets behind s5cmd. A verb ends with the lines that it prints, or a fault. A push
-- to a directory reads and writes the same files.
pub mod Laws
pub mod Listing
use llmops.Prelude.{
  ℕ, Bool, true, false, ◌||◌, Option, none, some, List, [], ◌∷◌, ◌++◌, if◌then◌else◌, Result, ok,
  err, wrap, length,
}
use llmops.Strings.{Bytes, codes, equal, is_empty, trim_suffix, trim_prefix, cut_suffix}
use llmops.Strings.Numbers.{itoa}
use llmops.Manifest.{or_default}
use llmops.Mirror.Effects.{Eff, pure, throw, reading, ◌>>=◌, guard, ◌>>◌}
use llmops.Mirror.Store.{Store, StoreError}
use llmops.Mirror.Store.Local.{Files}
use llmops.Mirror.Store.S5cmd.{Outside, s5cmd_list}
use llmops.Mirror.Store.Open.{Machine, Visited, open_store, is_bucket, local_list}
use llmops.Mirror.Push.{FileEntry, StoreManifest, MirrorError, manifest_name, push, verify}
use llmops.Mirror.Pull.{Hub, PullError, pull, freeze}
use llmops.Cli.{Fault, usage, failure, split_repo, pop_positional}
use llmops.Cli.Flags.{Scanners, Flag, Kind, parse_flags, string_of, Settings}

pub data WeightsError : Type 0 where
  in_pull : PullError → WeightsError
  in_mirror : MirrorError → WeightsError
  in_listing : StoreError → WeightsError
  not_pinned : WeightsError
  unknown_verb : Bytes → WeightsError

-- What the verbs use of the world beside the machine.
pub record World : Type 0 where
  pub scanners : Scanners
  -- FORNAX_HF_BASE, and the Hub at a base.
  pub hf_base : Bytes
  pub hub_at : Bytes → Hub
  pub download : Bytes → Bytes → Bytes → Files → Bool × Files
  pub encode : StoreManifest → Bytes
  pub decode : Bytes → Option StoreManifest
  pub now : Bytes
  pub visits : Bytes → Files → List Visited
  pub rel : Bytes → Bytes → Option Bytes

abbrev text_flag : Bytes → Flag
text_flag n = record { name = n; kind = Kind.string }

abbrev dir_flag : Bytes
dir_flag = codes "dir"

abbrev bucket_flag : Bytes
bucket_flag = codes "bucket"

abbrev target_flags : List Flag
target_flags = text_flag dir_flag ∷ []

abbrev push_flags : List Flag
push_flags = text_flag dir_flag ∷ text_flag bucket_flag ∷ []

-- The target of a verb, split, and its directory.
pub record Target : Type 0 where
  pub repo : Bytes
  pub revision : Bytes
  pub dir : Bytes

abbrev target_of : Bytes → Bytes → Option Target
unfolding split_repo
target_of target dir =
    let (repo, rev) = split_repo target in
    if is_empty target || is_empty dir
    then none
    else some (record { repo = repo; revision = rev; dir = dir })

-- What `pull` and `freeze` take from their arguments.
unfoldable pub target_args : Scanners → List Bytes → Option Target
unfolding pop_positional parse_flags string_of target_of
target_args sc rest =
    let (target, flags) = pop_positional rest in
    elim (parse_flags sc target_flags flags) [
      | none ↦ none
      | some got ↦ target_of target (string_of got dir_flag [])
    ]

abbrev with_bucket : Bytes → Option Target → Option (Target × Bytes)
with_bucket bucket none = none
with_bucket bucket (some a) = if is_empty bucket then none else some (a, bucket)

-- What `push` takes from its arguments.
unfoldable pub push_args : Scanners → List Bytes → Option (Target × Bytes)
unfolding pop_positional parse_flags string_of target_of
push_args sc rest =
    let (target, flags) = pop_positional rest in
    elim (parse_flags sc push_flags flags) [
      | none ↦ none
      | some got ↦
          with_bucket (string_of got bucket_flag []) (target_of target (string_of got dir_flag []))
    ]

-- What `list` takes from its arguments.
unfoldable pub list_args : Scanners → List Bytes → Option Bytes
unfolding parse_flags string_of
list_args sc rest = elim (parse_flags sc (text_flag bucket_flag ∷ []) rest) [
  | none ↦ none
  | some got ↦
      let bucket = string_of got bucket_flag [] in if is_empty bucket then none else some bucket
]

-- The prefix of a repository at a commit.
unfoldable pub remote_prefix : Bytes → Bytes → Bytes → Bytes
remote_prefix bucket repo sha =
    trim_suffix bucket (b'/' ∷ []) ++ (b'/' ∷ (repo ++ (b'/' ∷ (sha ++ b'/' ∷ []))))

-- The loop of `list`: the prefixes that have a manifest.
unfoldable pub mirrored : List Bytes → List Bytes
unfolding cut_suffix
mirrored [] = []
mirrored (f ∷ fs) =
    let rest = mirrored fs in
    elim (cut_suffix f manifest_name) [ none ↦ rest | some before ↦ before ∷ rest ]

abbrev named : Bytes → Bytes → Bytes
named repo sha = repo ++ b'@' ∷ sha

-- The lines that `push` and `verify` print.
abbrev pub pushed_line : Bytes → Bytes → Bytes → Bytes
pushed_line repo sha prefix = codes "pushed " ++ (named repo sha ++ (codes " to " ++ prefix))

abbrev pub verified_line : Bytes → Bytes
verified_line prefix = codes "verify " ++ (prefix ++ codes ": ok")

module _ (w : Outside) (world : World) where
  open w use {hash}
  open world use {scanners, hf_base, hub_at, download, encode, decode, now, visits, rel}

  abbrev Verb : Type 0 → Type 0
  Verb A = Eff (Machine w) (Fault WeightsError) A

  -- The Hub that `newMirror` asks.
  unfoldable pub hub : Hub
  hub = hub_at (or_default hf_base (codes "https://huggingface.co"))

  abbrev pub on_files : {A : Type 0} → Eff Files PullError A → Verb A
  on_files op m =
      let r = op m.files in (wrap (λ e. failure (in_pull e)) r.0, record m { files = r.1 })

  abbrev pub on_store : Eff (Machine w) MirrorError (Unit {0}) → Verb (Unit {0})
  on_store op m = let r = op m in (wrap (λ e. failure (in_mirror e)) r.0, r.1)

  -- The case `pull`.
  unfoldable pub run_pull : List Bytes → Verb (List Bytes)
  unfolding hub itoa target_args
  run_pull rest = elim (target_args scanners rest) [
    | none ↦ throw usage
    | some a ↦ do
      (sha, files) ← on_files (pull hash hub download a.repo a.revision a.dir)
      pure (
          (named a.repo sha
            ++ (codes ": " ++ (itoa (length files) ++ (codes " files verified in " ++ a.dir))))
          ∷ [])
  ]

  -- The case `freeze`.
  unfoldable pub run_freeze : List Bytes → Verb (List Bytes)
  unfolding hub target_args
  run_freeze rest = elim (target_args scanners rest) [
    | none ↦ throw usage
    | some a ↦ if is_empty a.revision then throw (failure not_pinned) else (do
      sha ← on_files (freeze hash encode hub now a.repo a.revision a.dir)
      pure ((codes "froze " ++ (named a.repo sha ++ (codes " in " ++ a.dir))) ∷ []))
  ]

  -- The push of what has been pulled.
  unfoldable pub push_pulled : Target → Bytes → Bytes × List FileEntry → Verb (List Bytes)
  unfolding remote_prefix
  push_pulled a bucket (sha, files) =
      let prefix = remote_prefix bucket a.repo sha in
      (do
        pushed ←
            on_store
              (push (open_store w prefix) encode (λ n. n.files.read) now a.repo sha a.dir files)
        pure (pushed_line a.repo sha prefix ∷ []))

  -- The case `push`.
  unfoldable pub run_push : List Bytes → Verb (List Bytes)
  unfolding hub push_args push_pulled
  run_push rest = elim (push_args scanners rest) [
    | none ↦ throw usage
    | some (a, bucket) ↦
        if is_empty a.revision
        then throw (failure not_pinned)
        else on_files (pull hash hub download a.repo a.revision a.dir) >>= λ pulled.
            push_pulled a bucket pulled
  ]

  -- The case `verify`.
  unfoldable pub run_verify : List Bytes → Verb (List Bytes)
  run_verify [] = throw usage
  run_verify (a ∷ b ∷ more) = throw usage
  run_verify (prefix ∷ []) =
      on_store (reading (verify (open_store w prefix) decode)) >>= λ verified.
      pure (verified_line prefix ∷ [])

  -- `List` of the store that a prefix is opened to.
  unfoldable pub list_store : Bytes → Machine w → Result StoreError (List Bytes)
  unfolding s5cmd_list local_list
  list_store prefix m =
      if is_bucket prefix
      then s5cmd_list w (trim_suffix prefix (codes "/") ++ codes "/") m.buckets
      else let root = trim_prefix prefix (codes "file://") in
        local_list rel root (visits root m.files)

  -- The case `list`.
  unfoldable pub run_list : List Bytes → Verb (List Bytes)
  unfolding list_args list_store mirrored
  run_list rest = elim (list_args scanners rest) [
    | none ↦ throw usage
    | some bucket ↦
        reading (λ m. wrap (λ e. failure (in_listing e)) (list_store bucket m)) >>= λ files.
        pure (mirrored files)
  ]

  -- `runWeights`
  unfoldable pub run_weights : Bytes → List Bytes → Verb (List Bytes)
  unfolding run_pull run_freeze run_push run_verify run_list
  run_weights cmd rest =
      if equal cmd (codes "pull")
      then run_pull rest
      else if equal cmd (codes "freeze")
      then run_freeze rest
      else if equal cmd (codes "push")
      then run_push rest
      else if equal cmd (codes "verify")
      then run_verify rest
      else if equal cmd (codes "list")
      then run_list rest
      else throw (failure (unknown_verb cmd))
