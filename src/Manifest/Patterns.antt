-- ===== src/Manifest/Patterns.antt =====
-- The regular expressions of internal/manifest/manifest.go, each as a test.
use llmops.Prelude.{ℕ, Bool, true, false, ◌&&◌, ◌||◌, none, some, [], ◌∷◌, leb, ◌==◌, length}
use llmops.Strings.{Bytes, cut}
use llmops.Strings.Numbers.{is_digit}

abbrev pub all_bytes : (ℕ → Bool) → Bytes → Bool
all_bytes p [] = true
all_bytes p (c ∷ cs) = p c && all_bytes p cs

unfoldable pub is_name_start : ℕ → Bool
is_name_start c = (leb b'a' c && leb c b'z') || is_digit c

unfoldable pub is_name_byte : ℕ → Bool
unfolding is_name_start
is_name_byte c = is_name_start c || c == b'.' || c == b'-'

-- nameRe, ^[a-z0-9][a-z0-9.-]*$
unfoldable pub matches_name : Bytes → Bool
matches_name [] = false
matches_name (c ∷ cs) = is_name_start c && all_bytes is_name_byte cs

unfoldable pub is_hex : ℕ → Bool
is_hex c = is_digit c || (leb b'a' c && leb c b'f')

-- revisionRe, ^[0-9a-f]{40}$
unfoldable pub matches_revision : Bytes → Bool
matches_revision s = length s == 40 && all_bytes is_hex s

unfoldable pub is_repo_byte : ℕ → Bool
is_repo_byte c =
    (leb b'A' c && leb c b'Z')
    || (leb b'a' c && leb c b'z')
    || is_digit c
    || c == b'_'
    || c == b'.'
    || c == b'-'

abbrev is_repo_part : Bytes → Bool
is_repo_part [] = false
is_repo_part (c ∷ cs) = all_bytes is_repo_byte (c ∷ cs)

-- hfRepoRe, ^[A-Za-z0-9_.-]+/[A-Za-z0-9_.-]+$; no part holds a "/", so the first one is the one.
unfoldable pub matches_repo : Bytes → Bool
matches_repo s = elim (cut s b'/') [
  | none ↦ false
  | some (org, name) ↦ is_repo_part org && is_repo_part name
]
