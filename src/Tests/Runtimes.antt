-- ===== src/Tests/Runtimes.antt =====
-- Runs of weight preparation.
use llmops.Prelude.{◌≡◌, ◌≢◌, ◌⊎◌, refl, subst, true, some, [], ◌∷◌, Result, ok, if◌then◌else◌}
use llmops.Strings
use llmops.Strings.{Bytes, codes, equal}
use llmops.Paths
use llmops.Manifest.{Manifest, load_local, load_s3_stream}
use llmops.Mirror.Push.{FileEntry, StoreManifest, manifest_of}
use llmops.Runtime.Weights
use llmops.Runtime.Weights.{
  Disk, Entry, Fetched, Outside, WeightError, read_remote, prepare_weights,
}
use llmops.Runtime.Weights.Ready.{IsSpread}
use llmops.Runtime.Weights.Prepared.{
  Spreads, artifact_dir, IsStocked, IsLockedFrom, prepare_weights-Matches,
}
use llmops.Tests.Fixtures.{qwen}

abbrev pub cached : Manifest
cached = record qwen { load = codes "nvme-cache"; hf_repo = codes "o/r"; revision = codes "c0" }

abbrev blob : FileEntry
blob = record { path = codes "a"; size = 2; sha256 = codes "xy" }

abbrev listing : StoreManifest
listing = manifest_of (codes "now") (codes "o/r") (codes "c0") (blob ∷ [])

abbrev pub outside : Outside
outside = record {
  hash = λ c. c;
  decode = λ c. some listing;
  fetch = λ n. if equal n (codes "a") then Fetched.got (codes "xy") else Fetched.got (codes "{}");
  can_lock = λ _. true;
  make_all = λ _ d. (true, d);
}

abbrev pub empty_disk : Disk
empty_disk = record { look = λ _. Entry.missing; writable = λ _. true }

unfoldable run_prepare : Result WeightError Bytes × Disk
unfolding codes equal Strings.split Strings.join Paths.clean Paths.join_path Weights.write_file
    Weights.file_matches Weights.get_to Weights.refetch Weights.ensure_file Weights.ensure_files
    Weights.read_remote Weights.lock_dir Weights.fetch_all Weights.sync Weights.prepare_artifact
    Weights.prepare_weights
run_prepare = prepare_weights outside cached (codes "/c") empty_disk

abbrev filled_disk : Disk
filled_disk = run_prepare.1

prepared :
    prepare_weights outside cached (codes "/c") empty_disk ≡ (ok (codes "/c/o/r/c0"), filled_disk)
unfolding run_prepare
prepared = refl

pub spread : (dir : Bytes) → Spreads outside dir
unfolding run_prepare
spread dir sm h =
    let e : listing ≡ sm = cc h in subst (λ x. IsSpread outside dir x.files) e (tt, tt)

prepare_weights-Matches_example :
    ((cached.load ≡ load_s3_stream)
      × (codes "/c/o/r/c0" ≡ cached.s3_prefix)
      × (filled_disk ≡ empty_disk))
    ⊎ (IsStocked outside cached.load (codes "/c/o/r/c0") filled_disk
        × ((cached.load ≢ load_local)
            ⊎ IsLockedFrom outside (codes "/c/o/r/c0") empty_disk filled_disk))
unfolding run_prepare
prepare_weights-Matches_example =
    prepare_weights-Matches outside cached (codes "/c") (codes "/c/o/r/c0") empty_disk filled_disk
      (spread (artifact_dir (codes "/c") (codes "o/r") (codes "c0"))) prepared
