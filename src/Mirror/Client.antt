-- ===== src/Mirror/Client.antt =====
-- `HFClient` (internal/mirror/hf.go): the Hub over HTTP, which is the Hub that Mirror/Pull asks.
-- Requests, JSON and package url are arguments; any error is `hub_failed`.
use llmops.Prelude.{
  ℕ, ◌≡◌, sym, not, Option, none, some, List, [], ◌∷◌, ◌++◌, if◌then◌else◌, ◌==◌, Result, ok, err,
  wrap, inl, inr, arith, Result-cases, Option-cases,
}
use llmops.Strings.{Bytes, codes}
use llmops.Mirror.Policy.{TreeFile}
use llmops.Mirror.Pages.{Url, PageError, request_failed, get_json_array_paged, max_tree_pages}
use llmops.Mirror.Pages.Laws.{AllPages, get_json_array_paged-AllPages}
use llmops.Mirror.Pull.{Hub, PullError, hub_failed, TreeEntry, tree, tree_files, not_empty}

-- The answer to a GET: its status, its Link header and its body.
pub record HttpReply : Type 0 where
  pub status : ℕ
  pub link : Bytes
  pub body : Bytes

-- The base of the client, the transport, the decoders of the two answers, url.Parse of the base with
-- the resolution of links against it, and url.PathEscape.
pub record HfClient : Type 0 where
  pub base : Bytes
  pub send : Bytes → Option HttpReply
  pub decode_sha : Bytes → Option Bytes
  pub decode_entries : Bytes → Option (List TreeEntry)
  pub parse_base : Option Url
  pub resolve_link : Bytes → Option Url
  pub escape : Bytes → Bytes

not_empty-same : (found files : List TreeFile) → not_empty found ≡ ok files → files ≡ found
not_empty-same [] files h = cc h
not_empty-same (f ∷ fs) files h = sym (cc h)

module _ (c : HfClient) where
  open c use {base, send, decode_sha, decode_entries, parse_base, resolve_link, escape}

  abbrev decoded : {A : Type 0} → Option A → Result PullError A
  decoded none = err hub_failed
  decoded (some a) = ok a

  abbrev answered : {A : Type 0} → (Bytes → Option A) → Option HttpReply → Result PullError A
  answered decode none = err hub_failed
  answered decode (some r) =
      if not (r.status == 200) then err hub_failed else decoded (decode r.body)

  -- `getJSON`, for the answer of the model's API.
  unfoldable pub get_json : Bytes → Result PullError Bytes
  get_json path = answered decode_sha (send (base ++ path))

  abbrev page_items : Bytes → Option (List TreeEntry) → Result PageError (List TreeEntry × Bytes)
  page_items link none = err request_failed
  page_items link (some items) = ok (items, link)

  abbrev page_of : Option HttpReply → Result PageError (List TreeEntry × Bytes)
  page_of none = err request_failed
  page_of (some r) =
      if not (r.status == 200)
      then err request_failed
      else page_items r.link (decode_entries r.body)

  -- `getJSONArrayPage`
  unfoldable pub get_json_array_page : Bytes → Result PageError (List TreeEntry × Bytes)
  get_json_array_page raw_url = page_of (send raw_url)

  abbrev in_hub : PageError → PullError
  in_hub _ = hub_failed

  -- The start of `getJSONArrayPaged`.
  unfoldable pub entries_of : Bytes → Result PullError (List TreeEntry)
  unfolding get_json_array_paged get_json_array_page
  entries_of path = elim parse_base [
    | none ↦ err hub_failed
    | some site ↦
        wrap in_hub (get_json_array_paged get_json_array_page resolve_link site (base ++ path))
  ]

  -- The client as the Hub of a pull.
  abbrev pub hub_of : Hub
  hub_of = record { sha_at = get_json; entries_at = entries_of; escape = escape }

  -- The tree that a pull works on lists the files of all pages that the Hub links to, in their
  -- order, and of no others.
  pub tree-AllPages :
      (repo sha : Bytes) (files : List TreeFile)
      → tree hub_of repo sha ≡ ok files
      → (site : Url) × (raw : List TreeEntry) × (parse_base ≡ some site)
        × AllPages resolve_link site get_json_array_page max_tree_pages []
            (base
              ++ (codes "/api/models/"
                  ++ (repo ++ (codes "/tree/" ++ (sha ++ codes "?recursive=true")))))
            raw
        × (files ≡ tree_files raw)
  unfolding tree entries_of
  tree-AllPages repo sha files h =
      let path : Bytes =
        codes "/api/models/" ++ (repo ++ (codes "/tree/" ++ (sha ++ codes "?recursive=true"))) in
      elim (Option-cases parse_base) [
        | inl e ↦ ground (arith, h, e)
        | inr (site, e) ↦
            elim (Result-cases
              (get_json_array_paged get_json_array_page resolve_link site (base ++ path))) [
                | inr (x, k) ↦ ground (arith, h, e, k)
                | inl (raw, k) ↦ (
                  site,
                  raw,
                  e,
                  (get_json_array_paged-AllPages resolve_link site get_json_array_page
                        (base ++ path) raw).0
                      k,
                  not_empty-same (tree_files raw) files (ground (arith, h, e, k)),
                )
              ]
      ]
