-- ===== src/Mirror/Pages.antt =====
-- `getJSONArrayPaged` and `nextPageURL` (internal/mirror/hf.go). Requests, URL resolution and JSON
-- are parameters.
pub mod Laws
use llmops.Prelude.{
  ℕ, zero, suc, Bool, true, false, not, ◌&&◌, ◌||◌, Option, none, some, List, [], ◌∷◌, ◌++◌,
  if◌then◌else◌, Result, ok, err,
}
use llmops.Strings.{Bytes, codes, equal, is_empty, cut, split, contains, to_lower, trim_space}

pub record Url : Type 0 where
  pub scheme : Bytes
  pub host : Bytes
  pub text : Bytes

pub data PageError : Type 0 where
  too_many_pages request_failed bad_link other_host : PageError

abbrev pub max_tree_pages : ℕ
max_tree_pages = 1000

abbrev is_next : Bytes → Bool
is_next params = contains params (codes "rel=\"next\"") || contains params (codes "rel=next")

-- One part of the header: the text between "<" and ">" if what follows says rel=next. A ">" in
-- front of the "<" skips the part.
unfoldable pub next_target : Bytes → Option Bytes
next_target part = elim (cut part b'>') [
  | none ↦ none
  | some (front, params) ↦ elim (cut front b'<') [
    | none ↦ none
    | some (_, raw) ↦ if is_next (to_lower (b'>' ∷ params)) then some (trim_space raw) else none
  ]
]

-- The last step of `nextPageURL`, on the resolved link.
unfoldable pub same_site : Url → Option Url → Result PageError Bytes
same_site base none = err bad_link
same_site base (some u) =
    if not (equal u.host base.host) || not (equal u.scheme base.scheme)
    then err other_host
    else ok u.text

-- The loop of `nextPageURL`; the empty text means that there is no next page. `parse` is
-- `base.Parse`.
unfoldable pub next_in : (Bytes → Option Url) → Url → List Bytes → Result PageError Bytes
unfolding same_site
next_in parse base [] = ok []
next_in parse base (part ∷ parts) =
    let rest = next_in parse base parts in
    elim (next_target part) [ none ↦ rest | some raw ↦ same_site base (parse raw) ]

unfoldable pub next_page_url : (Bytes → Option Url) → Url → Bytes → Result PageError Bytes
unfolding next_in
next_page_url parse base link = next_in parse base (split link b',')

module _ {A : Type 0} (fetch : Bytes → Result PageError (List A × Bytes))
    (parse : Bytes → Option Url) (base : Url) where
  -- The rounds that are left of `maxTreePages`; a page that is asked for beyond them is an error.
  unfoldable pub pages_onto : ℕ → List A → Bytes → Result PageError (List A)
  pages_onto zero all next = if is_empty next then ok all else err too_many_pages
  pages_onto (suc rounds) all next = if is_empty next then ok all else elim (fetch next) [
    | err e ↦ err e
    | ok (items, link) ↦ elim (next_page_url parse base link) [
      | err e ↦ err e
      | ok url ↦ pages_onto rounds (all ++ items) url
    ]
  ]

  -- `getJSONArrayPaged`, from the first page's URL on.
  unfoldable pub get_json_array_paged : Bytes → Result PageError (List A)
  unfolding pages_onto
  get_json_array_paged first = pages_onto max_tree_pages [] first
