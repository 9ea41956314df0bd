-- ===== src/Deploycheck/Lws.antt =====
-- `validateOne`: the LeaderWorkerSet of a model on Kubernetes, from the documents of its file.
pub mod Images
pub mod Fits
pub mod Containers
pub mod Whole
use llmops.Prelude.{
  ℕ, Bool, true, false, not, ◌&&◌, ◌||◌, Option, none, some, List, [], ◌∷◌, ◌++◌, if◌then◌else◌,
  ◌==◌, Result, ok, err, ensure, wrap, ◌>>◌, ◌>>=◌, ℤ, gtz, eq_int,
}
use llmops.Strings.{Bytes, codes, equal, after_last, replace_byte}
use llmops.Strings.Numbers.{itoa_int}
use llmops.Manifest.{Manifest, runtime_custom, engine_image}
use llmops.Deploycheck.Yaml.{
  Yaml, Items, Entries, dict, item, no_item, null, is_null, dig, as_text, as_int, as_items,
  as_entries, print, Decoded, DocsError, split_docs,
}

pub data LwsError : Type 0 where
  unread no_lws wrong_readiness wrong_liveness no_worker : LwsError
  bad_docs : DocsError → LwsError
  wrong_name no_containers wrong_image wrong_engine wrong_gpus : Bytes → LwsError
  wrong_size : ℤ → LwsError

-- `DNSName`
unfoldable pub dns_name : Bytes → Bytes
unfolding replace_byte
dns_name model = replace_byte b'.' (codes "-") model

abbrev pub is_mark : ℕ → Bool
is_mark c = c == b':' || c == b'@'

-- What stands in front of the first ":" or "@".
unfoldable pub before_tag : Bytes → Bytes
before_tag [] = []
before_tag (c ∷ cs) = let rest = before_tag cs in if is_mark c then [] else c ∷ rest

-- `imageName`
unfoldable pub image_name : Bytes → Bytes
unfolding before_tag after_last
image_name ref = before_tag (after_last b'/' ref)

-- The `switch` of `validateContainer` on the runtime.
unfoldable pub check_image : Manifest → Bytes → Bytes → Result LwsError (Unit {0})
unfolding image_name
check_image m template image =
    if equal m.runtime runtime_custom
    then ensure (equal image m.image) (wrong_image template)
    else ensure (equal (image_name image) (engine_image m)) (wrong_engine template)

abbrev pub probe_path : Bytes → List Bytes
probe_path probe = probe ∷ codes "httpGet" ∷ codes "path" ∷ []

-- The probes, which only the leader has.
unfoldable pub check_probes : Yaml → Result LwsError (Unit {0})
unfolding dig
check_probes c =
    ensure (equal (as_text (dig c (probe_path (codes "readinessProbe")))) (codes "/readyz"))
      wrong_readiness
    >> ensure (equal (as_text (dig c (probe_path (codes "livenessProbe")))) (codes "/livez"))
        wrong_liveness

abbrev pub gpu_path : List Bytes
gpu_path = codes "resources" ∷ codes "limits" ∷ codes "nvidia.com/gpu" ∷ []

-- The checks on the first container.
unfoldable pub check_container : Manifest → Bytes → Bool → Yaml → Result LwsError (Unit {0})
unfolding check_image check_probes
check_container m template probes c =
    check_image m template (as_text (dig c (codes "image" ∷ [])))
    >> ensure (equal (print (dig c gpu_path)) (itoa_int m.gpu.count)) (wrong_gpus template)
    >> (if not probes then ok tt else check_probes c)

abbrev pub spec_path : Bytes → List Bytes → List Bytes
spec_path template ks = codes "spec" ∷ codes "leaderWorkerTemplate" ∷ template ∷ ks

abbrev pub first_container : Manifest → Bytes → Bool → Items → Result LwsError (Unit {0})
first_container m template probes no_item = err (no_containers template)
first_container m template probes (item c cs) =
    check_container m template probes (dict (as_entries c))

-- `validateContainer`
unfoldable pub validate_container : Manifest → Entries → Bytes → Bool → Result LwsError (Unit {0})
unfolding check_container dig
validate_container m lws template probes =
    first_container m template probes
      (as_items (dig (dict lws) (spec_path template (codes "spec" ∷ codes "containers" ∷ []))))

-- The loop that looks for the LeaderWorkerSet: the last one is taken.
unfoldable pub find_lws : Option Entries → List Entries → Option Entries
unfolding dig
find_lws lws [] = lws
find_lws lws (d ∷ ds) =
    find_lws
      (if equal (as_text (dig (dict d) (codes "kind" ∷ []))) (codes "LeaderWorkerSet")
        then some d
        else lws)
      ds

-- The checks on the workers, which are there above one node.
unfoldable pub check_worker : Manifest → Entries → Result LwsError (Unit {0})
unfolding validate_container
check_worker m lws =
    if gtz 1 m.gpu.nodes
    then ensure (not (is_null (dig (dict lws) (spec_path (codes "workerTemplate") [])))) no_worker
      >> validate_container m lws (codes "workerTemplate") false
    else ok tt

-- The checks on the LeaderWorkerSet.
unfoldable pub check_lws : Manifest → Entries → Result LwsError (Unit {0})
unfolding check_worker dns_name
check_lws m lws =
    let name = as_text (dig (dict lws) (codes "metadata" ∷ codes "name" ∷ [])) in
    let size = as_int (dig (dict lws) (spec_path (codes "size") [])) in
    ensure (equal name (dns_name m.name)) (wrong_name name)
    >> ensure (eq_int size m.gpu.nodes) (wrong_size size)
    >> validate_container m lws (codes "leaderTemplate") true
    >> check_worker m lws

abbrev pub check_found : Manifest → Option Entries → Result LwsError (Unit {0})
check_found m none = err no_lws
check_found m (some lws) = check_lws m lws

-- `validateOne`; `none` is a file that cannot be read.
unfoldable pub validate_one : Manifest → Option (List Decoded) → Result LwsError (Unit {0})
unfolding split_docs find_lws check_lws
validate_one m none = err unread
validate_one m (some ds) =
    wrap bad_docs (split_docs ds) >>= λ docs. check_found m (find_lws none docs)
