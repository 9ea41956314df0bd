-- ===== src/Tests/Buckets.antt =====
-- A bucket behind s5cmd.
use llmops.Prelude.{
  ℕ, ◌≡◌, ◌≢◌, refl, sym, ap, ◌∙◌, true, none, some, Option, List, [], ◌∷◌, ◌++◌, length, arith,
  if◌then◌else◌,
}
use llmops.Strings.{Bytes, codes, equal, fields, trim_space, trim_left}
use llmops.Strings.Laws.{equal_iff, equal_refl}
use llmops.Strings.Numbers.{itoa, digits_value}
use llmops.Strings.Decimal.{itoa-spaceless, itoa-not_empty, digits_value-itoa}
use llmops.Deploycheck.Unit.Words.{is_word, words_text, fields-words_text, fields-trim_right}
use llmops.Mirror.Store.{IsLawful}
use llmops.Mirror.Store.S5cmd.{
  Ran, printed, exited, Download, downloaded, refused, Outside, IsS5cmd, s5cmd_store,
}
use llmops.Mirror.Store.S5cmd.Lawful.{s5cmd_store-IsLawful}

abbrev pub Bucket : Type 0
Bucket = Bytes → Option Bytes

abbrev row : Bytes → List Bytes
row c = codes "12:00:00" ∷ itoa (length c) ∷ codes "object" ∷ []

abbrev line : Bytes → Bytes
line c = codes "2026/01/01" ++ words_text (row c)

abbrev row_of : Option Bytes → Ran
row_of none = exited (codes "ERROR: no object found")
row_of (some c) = printed (line c)

abbrev fetched : Option Bytes → Download
fetched none = refused (codes "ERROR: no object found")
fetched (some c) = downloaded c

abbrev pub bucket : Outside
bucket = record {
  State = Bucket;
  upload = λ c url s. (printed [], λ u. if equal url u then some c else s u);
  download = λ url s. fetched (s url);
  ls = λ url s. row_of (s url);
  scan = digits_value 0;
  makes_temp = true;
  hash = λ c. c;
}

itoa-is_word : (n : ℕ) → is_word (itoa n) ≡ true
itoa-is_word n = ground (arith, itoa-spaceless n, itoa-not_empty n)

fields-line : (c : Bytes) → fields (trim_space (line c)) ≡ codes "2026/01/01" ∷ row c
unfolding trim_space trim_left codes
fields-line c =
    fields-trim_right (line c)
    ∙ fields-words_text (codes "2026/01/01") (row c) refl
        (refl, (itoa-is_word (length c), (refl, tt)))

abbrev stored : Bytes → Bytes → Bucket → Bucket
stored c url s u = if equal url u then some c else s u

stored_at : (c url : Bytes) (s : Bucket) → stored c url s url ≡ some c
stored_at c url s = rw (equal_refl url)

stored_apart : (c url other : Bytes) (s : Bucket) → url ≢ other → stored c url s other ≡ s other
stored_apart c url other s n = ground (arith, equal_iff url other, n)

pub documented : IsS5cmd bucket
documented = record {
  object = λ url s. s url;
  upload_stores = λ c url out s t e. sym (ap (λ x. x.1 url) e) ∙ stored_at c url s;
  upload_apart =
      λ c url other out s t e n. sym (ap (λ x. x.1 other) e) ∙ stored_apart c url other s n;
  upload_fails = λ c url stderr s t e. cc (ap (λ x. x.0) e);
  download_stored = λ c url s e. ap fetched e;
  download_absent = λ url s e. (codes "ERROR: no object found", ap fetched e);
  ls_stored = λ c url s e. (
    line c,
    codes "2026/01/01",
    codes "12:00:00",
    codes "object" ∷ [],
    ap row_of e,
    fields-line c,
  );
  scan_decimal = digits_value-itoa;
  temp_made = refl;
}

s5cmd_store-IsLawful_example :
    IsLawful (s5cmd_store bucket (codes "s3://b/o/r/c0/")) (λ c. c) length
s5cmd_store-IsLawful_example = s5cmd_store-IsLawful bucket documented (codes "s3://b/o/r/c0/")
