-- ===== src/Tests/Mirrors.antt =====
-- Runs of the mirror's operations on a store in a directory.
use llmops.Prelude.{
  ℕ, ◌≡◌, ◌≢◌, ◌↔◌, ◌⊎◌, refl, sym, true, false, Option, none, some, List, [], ◌∷◌, Result, ok, err,
  All, length, if◌then◌else◌,
}
use llmops.Strings
use llmops.Strings.{Bytes, codes, equal}
use llmops.Strings.Laws.{equal_refl}
use llmops.Paths
use llmops.Paths.{join_path}
use llmops.Mirror.Store.{unwritable}
use llmops.Mirror.Store.Local
use llmops.Mirror.Store.Local.{Files, local_get, local_store, local_store-IsLawful, local_path}
use llmops.Mirror.Policy
use llmops.Mirror.Policy.{TreeFile, is_approved, check_policy, check_policy-All}
use llmops.Mirror.Push
use llmops.Mirror.Push.{
  FileEntry, StoreManifest, MirrorError, in_store, manifest_name, manifest_of, push, push_files,
  verify, read_manifest,
}
use llmops.Mirror.Push.Laws.{Holds}
use llmops.Mirror.Push.Complete.{push-verify, push_failed-manifest, push_files_idem, verify-Holds}
use llmops.Mirror.Pull
use llmops.Mirror.Pull.{Hub, PullError, TreeEntry, freeze, fetch_tree, verify_local}
use llmops.Mirror.Pull.Freeze.{freeze-verify}
use llmops.Mirror.Pages
use llmops.Mirror.Pages.{Url, PageError, next_page_url, get_json_array_paged, max_tree_pages}
use llmops.Mirror.Pages.Laws.{next_page_url-OnSite, get_json_array_paged-AllPages, OnSite, AllPages}

abbrev weights : FileEntry
weights = record { path = codes "a.bin"; size = 2; sha256 = b'x' ∷ b'y' ∷ [] }

abbrev staged_files : Bytes → Option Bytes
staged_files p = if equal p (codes "/d/a.bin") then some (b'x' ∷ b'y' ∷ []) else none

-- The files stay as they are while a store in another directory is written.
abbrev held_files : Files → Bytes → Option Bytes
held_files s = staged_files

-- The content stands for its own sum.
abbrev own_sum : Bytes → Bytes
own_sum c = c

abbrev the_manifest : StoreManifest
the_manifest = manifest_of (codes "now") (codes "o/r") (codes "c0") (weights ∷ [])

abbrev pub encode : StoreManifest → Bytes
encode sm = codes "{}"

abbrev decode : Bytes → Option StoreManifest
decode c = if equal c (codes "{}") then some the_manifest else none

abbrev store_root : Bytes
store_root = codes "/s"

abbrev open_store : Files
open_store = record { read = λ _. none; writable = λ _. true }

abbrev shut_store : Files
shut_store = record { read = λ _. none; writable = λ _. false }

unfoldable run_push : Files → Result MirrorError (Unit {0}) × Files
unfolding codes equal Strings.before Strings.cut_prefix Strings.has_prefix Strings.split
    Strings.join Paths.clean Paths.join_path Local.write Local.local_path Local.local_put
    Local.local_get Local.local_size Local.local_sha256 Push.total_size Push.upload Push.push_file
    Push.push_files Push.write_manifest Push.push Push.read_manifest Push.verify_file
    Push.verify_files Push.verify local_store-IsLawful Pull.verify_entry Pull.verify_local
run_push s =
    push (local_store own_sum store_root) encode held_files (codes "now") (codes "o/r") (codes "c0")
      (codes "/d") (weights ∷ []) s

pub differ : (a b : Bytes) → equal a b ≡ false → a ≢ b
differ a b h e = cc (h, e, equal_refl b)

told_apart :
    equal (local_path store_root manifest_name) (local_path store_root weights.path) ≡ false
unfolding run_push
told_apart = refl

manifest_path-ne-weights : local_path store_root manifest_name ≢ local_path store_root weights.path
manifest_path-ne-weights =
    differ (local_path store_root manifest_name) (local_path store_root weights.path) told_apart

abbrev after_push : Files
after_push = (run_push open_store).1

pushed :
    push
      (local_store own_sum store_root)
      encode
      held_files
      (codes "now")
      (codes "o/r")
      (codes "c0")
      (codes "/d")
      (weights ∷ [])
      open_store
    ≡ (ok tt, after_push)
unfolding run_push
pushed = refl

staged :
    (c : Bytes) × (staged_files (join_path (codes "/d" ∷ weights.path ∷ [])) ≡ some c)
    × (length c ≡ weights.size)
    × (own_sum c ≡ weights.sha256)
unfolding run_push
staged = (b'x' ∷ b'y' ∷ [], refl, refl, refl)

decoded : decode (encode the_manifest) ≡ some the_manifest
unfolding run_push
decoded = refl

push-verify_example : verify (local_store own_sum store_root) decode after_push ≡ ok tt
unfolding local_store-IsLawful
push-verify_example =
    push-verify (local_store own_sum store_root) own_sum length
      (local_store-IsLawful own_sum store_root) encode decode held_files (codes "now") (codes "o/r")
      (codes "c0") (codes "/d") (weights ∷ []) open_store after_push (staged, tt) (tt, tt) (tt, tt)
      (manifest_path-ne-weights, tt) decoded pushed

push_files_idem_example :
    push_files (local_store own_sum store_root) held_files (codes "/d") (weights ∷ []) after_push
    ≡ (ok tt, after_push)
unfolding local_store-IsLawful
push_files_idem_example =
    push_files_idem (local_store own_sum store_root) own_sum length
      (local_store-IsLawful own_sum store_root) encode decode held_files (codes "now") (codes "o/r")
      (codes "c0") (codes "/d") (weights ∷ []) open_store after_push (staged, tt) (tt, tt) (tt, tt)
      (manifest_path-ne-weights, tt) pushed

refused_push :
    push
      (local_store own_sum store_root)
      encode
      held_files
      (codes "now")
      (codes "o/r")
      (codes "c0")
      (codes "/d")
      (weights ∷ [])
      shut_store
    ≡ (err (in_store (unwritable (codes "a.bin"))), shut_store)
unfolding run_push
refused_push = refl

weights-ne-manifest_path : local_path store_root weights.path ≢ local_path store_root manifest_name
weights-ne-manifest_path h = manifest_path-ne-weights (sym h)

push_failed-manifest_example :
    (local_get own_sum store_root manifest_name shut_store
      ≡ local_get own_sum store_root manifest_name shut_store)
    × (read_manifest (local_store own_sum store_root) decode shut_store
        ≡ read_manifest (local_store own_sum store_root) decode shut_store)
unfolding local_store-IsLawful
push_failed-manifest_example =
    push_failed-manifest (local_store own_sum store_root) own_sum length
      (local_store-IsLawful own_sum store_root) encode decode held_files (codes "now") (codes "o/r")
      (codes "c0") (codes "/d") (weights ∷ []) shut_store shut_store
      (in_store (unwritable (codes "a.bin"))) (weights-ne-manifest_path, tt) refused_push

verify-Holds_example : (verify (local_store own_sum store_root) decode after_push ≡ ok tt) ↔ (
    (sm : StoreManifest) × (read_manifest (local_store own_sum store_root) decode after_push
      ≡ ok sm)
    × All
        (Holds
          (local_store own_sum store_root)
          own_sum
          length
          (local_store-IsLawful own_sum store_root)
          after_push)
        sm.files)
verify-Holds_example =
    verify-Holds (local_store own_sum store_root) own_sum length
      (local_store-IsLawful own_sum store_root) decode after_push

-- A tree of one file, frozen where it lies.
abbrev listed : TreeFile
listed = record { path = codes "a.bin"; size = 2; sha256 = b'x' ∷ b'y' ∷ [] }

vouched : verify_local own_sum staged_files (codes "/d") (listed ∷ []) ≡ ok (weights ∷ [])
unfolding run_push
vouched = refl

abbrev config_file : TreeFile
config_file = record { path = codes "a.json"; size = 2; sha256 = [] }

abbrev tree_of_one : List TreeEntry
tree_of_one =
    record { type = codes "file"; path = codes "a.json"; size = 2; lfs_oid = none }
    ∷ record { type = codes "directory"; path = codes "sub"; size = 0; lfs_oid = none }
    ∷ []

abbrev pub hub_of_one : Hub
hub_of_one = record {
  sha_at = λ _. ok (codes "c0");
  entries_at = λ _. ok tree_of_one;
  escape = λ r. r;
}

abbrev pub local_files : Files
local_files = record {
  read = λ p. if equal p (codes "/d/a.json") then some (codes "{}") else none;
  writable = λ _. true;
}

abbrev pub config_entry : FileEntry
config_entry = record { path = codes "a.json"; size = 2; sha256 = codes "{}" }

abbrev pub frozen_manifest : StoreManifest
frozen_manifest = manifest_of (codes "now") (codes "o/r") (codes "c0") (config_entry ∷ [])

abbrev pub decode_frozen : Bytes → Option StoreManifest
decode_frozen c = if equal c (codes "{}") then some frozen_manifest else none

unfoldable pub run_freeze : Result PullError Bytes × Files
unfolding run_push Pull.resolve Pull.tree Pull.tree_files Pull.fetch_tree Pull.freeze
    Policy.extension Policy.is_approved Policy.check_policy Paths.base Strings.has_member
    Strings.to_lower Strings.lower_byte Strings.after_last Strings.contains_byte Strings.trim_prefix
run_freeze =
    freeze own_sum encode hub_of_one (codes "now") (codes "o/r") [] (codes "/d") local_files

abbrev frozen_files : Files
frozen_files = run_freeze.1

freeze_ends :
    freeze own_sum encode hub_of_one (codes "now") (codes "o/r") [] (codes "/d") local_files
    ≡ (ok (codes "c0"), frozen_files)
unfolding run_freeze
freeze_ends = refl

tree_fetched : fetch_tree hub_of_one (codes "o/r") [] ≡ ok (codes "c0", config_file ∷ [])
unfolding run_freeze
tree_fetched = refl

config_vouched :
    verify_local own_sum local_files.read (codes "/d") (config_file ∷ []) ≡ ok (config_entry ∷ [])
unfolding run_freeze
config_vouched = refl

config_apart :
    equal (local_path (codes "/d") manifest_name) (local_path (codes "/d") (codes "a.json")) ≡ false
unfolding run_freeze
config_apart = refl

frozen_decoded : decode_frozen (encode frozen_manifest) ≡ some frozen_manifest
unfolding run_freeze
frozen_decoded = refl

freeze-verify_example :
    (codes "c0" ≡ codes "c0")
    × (verify (local_store own_sum (codes "/d")) decode_frozen frozen_files ≡ ok tt)
freeze-verify_example =
    freeze-verify own_sum (codes "/d") encode decode_frozen hub_of_one (codes "now") (codes "o/r")
      [] (codes "c0") (config_file ∷ []) (config_entry ∷ []) local_files frozen_files (codes "c0")
      tree_fetched config_vouched
      (
        differ (local_path (codes "/d") manifest_name) (local_path (codes "/d") (codes "a.json"))
            config_apart,
        tt,
      )
      frozen_decoded freeze_ends

-- Two pages, the first of which links to the second.
abbrev site : Url
site = record { scheme = codes "https"; host = codes "hf.co"; text = codes "https://hf.co" }

abbrev parse_url : Bytes → Option Url
parse_url raw = some (record { scheme = codes "https"; host = codes "hf.co"; text = raw })

abbrev second_link : Bytes
second_link = codes "</p2>; rel=\"next\""

abbrev fetch_page : Bytes → Result PageError (List ℕ × Bytes)
fetch_page url = if equal url (codes "/p1") then ok (1 ∷ [], second_link) else ok (2 ∷ [], [])

unfoldable next_of_second : Result PageError Bytes
unfolding run_freeze Pages.next_target Pages.same_site Pages.next_in Pages.next_page_url
    Strings.contains Strings.trim_space Strings.cut Strings.trim_left Strings.trim_right
next_of_second = next_page_url parse_url site second_link

linked : next_page_url parse_url site second_link ≡ ok (codes "/p2")
unfolding next_of_second
linked = refl

next_page_url-OnSite_example : (codes "/p2" ≡ []) ⊎ OnSite parse_url site (codes "/p2")
next_page_url-OnSite_example = next_page_url-OnSite parse_url site second_link (codes "/p2") linked

get_json_array_paged-AllPages_example :
    (get_json_array_paged fetch_page parse_url site (codes "/p1") ≡ ok (1 ∷ 2 ∷ []))
    ↔ AllPages parse_url site fetch_page max_tree_pages [] (codes "/p1") (1 ∷ 2 ∷ [])
get_json_array_paged-AllPages_example =
    get_json_array_paged-AllPages parse_url site fetch_page (codes "/p1") (1 ∷ 2 ∷ [])
