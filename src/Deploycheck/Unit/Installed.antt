-- ===== src/Deploycheck/Unit/Installed.antt =====
-- The unit that an install writes is one that the deploy check accepts.
use mathlib.Core.List.{append_assoc, append-nil}
use llmops.Prelude.{
  ◌≡◌, refl, sym, ap, ◌∙◌, Bool, true, false, not, ◌&&◌, List, [], ◌∷◌, ◌++◌, arith, Bool-cases,
  ◌⊎◌, inl, inr, none, some, ◌==◌, All, ok,
}
use llmops.Strings.{
  Bytes, codes, equal, is_empty, fields, fields_onto, trim_right, cut_prefix, split, contains_byte,
  has_member,
}
use llmops.Strings.Decimal.{spaceless}
use llmops.Strings.Laws.{itoa_int-contains, is_empty_iff, equal_refl, contains_byte-append}
use llmops.Strings.Numbers.{itoa_int}
use llmops.Paths.{base}
use llmops.Manifest.{Manifest}
use llmops.Manifest.Patterns.{matches_name, is_name_start, is_name_byte}
use llmops.Install.Names.{matches_name-contains, base-manifest_path}
use llmops.Install.{
  Options, defaults, manifest_path, exec_line, head_lines, tail_lines, user_line, flag_part,
  unit_text,
}
use llmops.Deploycheck.Unit.{
  binary, exec_of_lines, manifest_step, manifest_of_fields, check_fields, validate_unit,
}
use llmops.Deploycheck.Unit.Words.{
  is_word, words_text, words_text-append, fields-words_text, words_text-newline, spaceless-newline,
  fields-trim_right,
}
use llmops.Deploycheck.Unit.Lines.{
  split-lines_text, is_other, exec_of_lines-exec, exec_of_lines-skip, All-append,
}

-- A word that is not taken for a flag.
abbrev pub is_argument : Bytes → Bool
is_argument [] = false
is_argument (c ∷ w) = is_word (c ∷ w) && not (c == b'-')

abbrev pub flag_words : Bytes → Bytes → List Bytes
flag_words flag [] = []
flag_words flag (c ∷ v) = flag ∷ (c ∷ v) ∷ []

flag_part-words : (flag v : Bytes) → flag_part flag v ≡ words_text (flag_words flag v)
unfolding words_text
flag_part-words flag [] = refl
flag_part-words flag (c ∷ v) = rw (append-nil v) refl

manifest_step-argument :
    (got f : Bytes) (fs : List Bytes) → is_argument f ≡ true → manifest_step got f fs ≡ got
unfolding manifest_step cut_prefix equal codes
manifest_step-argument got [] fs h = cc
manifest_step-argument got (c ∷ f) [] h = ground (arith, h)
manifest_step-argument got (c ∷ f) (g ∷ fs) h = ground (arith, h)

manifest_step-flag :
    (got f g : Bytes) (fs : List Bytes)
    → cut_prefix f (codes "--manifest=") ≡ none
    → equal f (codes "--manifest") ≡ false
    → manifest_step got f (g ∷ fs) ≡ got
unfolding manifest_step cut_prefix codes
manifest_step-flag got f g fs h k = rw (h, k)

-- An optional argument, of a flag that is not the manifest's, leaves the manifest as it is.
manifest_of_fields-flag :
    (flag v got : Bytes) (fs : List Bytes)
    → cut_prefix flag (codes "--manifest=") ≡ none
    → equal flag (codes "--manifest") ≡ false
    → (v ≡ []) ⊎ (is_argument v ≡ true)
    → manifest_of_fields got (flag_words flag v ++ fs) ≡ manifest_of_fields got fs
unfolding manifest_of_fields
manifest_of_fields-flag flag [] got fs h k a = refl
manifest_of_fields-flag flag (c ∷ v) got fs h k (inl e) = cc e
manifest_of_fields-flag flag (c ∷ v) got fs h k (inr a) =
    rw (manifest_step-flag got flag (c ∷ v) fs h k, manifest_step-argument got (c ∷ v) fs a)

-- What an install needs of its texts: the binary is named as the check wants it, the command falls
-- into words, and no line has a newline.
pub record IsPlain (m : Manifest) (o : Options) : Type 0 where
  pub name_ok : matches_name m.name ≡ true
  pub runtime_line : contains_byte 10 m.runtime ≡ false
  pub gpu_line : contains_byte 10 m.gpu.type ≡ false
  pub user_line : contains_byte 10 o.user ≡ false
  pub binary_ok : base (defaults o).bin_path ≡ binary
  pub binary_word : is_argument (defaults o).bin_path ≡ true
  pub path_word : is_argument (manifest_path o m) ≡ true
  pub cache_word : (o.cache_root ≡ []) ⊎ (is_argument o.cache_root ≡ true)
  pub speculator_word : (o.speculator ≡ []) ⊎ (is_argument o.speculator ≡ true)

abbrev pub command_words : Manifest → Options → List Bytes
command_words m o =
    codes "serve"
    ∷ codes "--manifest"
    ∷ manifest_path o m
    ∷ (flag_words (codes "--cache-root") o.cache_root
        ++ flag_words (codes "--speculator") o.speculator)

flag_parts-words :
    (v w : Bytes)
    → flag_part (codes "--cache-root") v ++ flag_part (codes "--speculator") w
      ≡ words_text (flag_words (codes "--cache-root") v ++ flag_words (codes "--speculator") w)
flag_parts-words v w =
    rw (flag_part-words, flag_part-words)
      (sym (
        words_text-append (flag_words (codes "--cache-root") v)
          (flag_words (codes "--speculator") w)))

exec_line-words :
    (m : Manifest) (o : Options)
    → exec_line m o ≡ (defaults o).bin_path ++ words_text (command_words m o)
unfolding exec_line words_text codes
exec_line-words m o =
    ap (λ t. (defaults o).bin_path ++ (codes " serve --manifest " ++ (manifest_path o m ++ t)))
      (flag_parts-words o.cache_root o.speculator)

is_argument-is_word : (w : Bytes) → is_argument w ≡ true → is_word w ≡ true
is_argument-is_word [] h = cc
is_argument-is_word (c ∷ w) h = ground (arith, h)

is_argument-spaceless : (w : Bytes) → is_argument w ≡ true → spaceless w ≡ true
is_argument-spaceless [] h = cc
is_argument-spaceless (c ∷ w) h = ground (arith, h)

is_argument-not_empty : (w : Bytes) → is_argument w ≡ true → is_empty w ≡ false
is_argument-not_empty [] h = cc
is_argument-not_empty (c ∷ w) h = refl

flag_words-All :
    (flag v : Bytes)
    → is_word flag ≡ true
    → (v ≡ []) ⊎ (is_argument v ≡ true)
    → All (λ w. is_word w ≡ true) (flag_words flag v)
flag_words-All flag [] h a = tt
flag_words-All flag (c ∷ v) h (inl e) = cc e
flag_words-All flag (c ∷ v) h (inr a) = (h, (is_argument-is_word (c ∷ v) a, tt))

-- A name with an extension is a component of a path.
check_fields-lem :
    (m : Manifest) (f : Bytes) (fs : List Bytes) (got : Bytes)
    → base f ≡ binary
    → has_member fs (codes "serve") ≡ true
    → manifest_of_fields [] (f ∷ fs) ≡ got
    → is_empty got ≡ false
    → base got ≡ m.name ++ codes ".yaml"
    → check_fields m (f ∷ fs) ≡ ok tt
unfolding check_fields
check_fields-lem m f fs got hb hs hm he hn = rw (hb, equal_refl, hs, hm, he, hn, equal_refl) refl

fields-not_empty :
    (e f : Bytes) (fs : List Bytes) → fields e ≡ f ∷ fs → is_empty (trim_right e) ≡ false
unfolding fields fields_onto
fields-not_empty e f fs h = elim (Bool-cases (is_empty (trim_right e))) [
  | inr n ↦ n
  | inl n ↦ cc (fields-trim_right e, ap fields ((is_empty_iff (trim_right e)).0 n), h)
]

validate_unit-lem :
    (m : Manifest) (text e f : Bytes) (fs : List Bytes)
    → exec_of_lines (split text 10) ≡ trim_right e
    → fields e ≡ f ∷ fs
    → check_fields m (f ∷ fs) ≡ ok tt
    → validate_unit m (some text) ≡ ok tt
unfolding validate_unit
validate_unit-lem m text e f fs h k c = rw (h, fields-not_empty e f fs k, fields-trim_right, k) c

user_line-All :
    (u : Bytes) → contains_byte 10 u ≡ false → All (λ l. contains_byte 10 l ≡ false) (user_line u)
unfolding contains_byte codes
user_line-All [] h = tt
user_line-All (c ∷ u) h = (contains_byte-append 10 (codes "User=") (c ∷ u) refl h, tt)

user_line-other : (u : Bytes) → All (λ l. is_other l ≡ true) (user_line u)
unfolding codes
user_line-other [] = tt
user_line-other (c ∷ u) = (refl, tt)

head_lines-other : (m : Manifest) (o : Options) → All (λ l. is_other l ≡ true) (head_lines m o)
unfolding codes
head_lines-other m o =
    (refl, (refl, (refl, (refl, (refl, (refl, (refl, (refl, (refl, user_line-other o.user)))))))))

unit_tail-All : All (λ l. contains_byte 10 l ≡ false) tail_lines
unfolding contains_byte codes
unit_tail-All = (refl, (refl, (refl, (refl, (refl, (refl, (refl, (refl, tt))))))))

module _ (m : Manifest) (o : Options) (p : IsPlain m o) where
  command_words-All : All (λ w. is_word w ≡ true) (command_words m o)
  unfolding codes
  command_words-All = (
    refl,
    (
      refl,
      (
        is_argument-is_word (manifest_path o m) p.path_word,
        All-append (λ w. is_word w ≡ true) (flag_words (codes "--cache-root") o.cache_root)
            (flag_words (codes "--speculator") o.speculator)
            (flag_words-All (codes "--cache-root") o.cache_root refl p.cache_word)
            (flag_words-All (codes "--speculator") o.speculator refl p.speculator_word),
      ),
    ),
  )

  pub exec_fields : fields (exec_line m o) ≡ (defaults o).bin_path ∷ command_words m o
  exec_fields =
      ap fields (exec_line-words m o)
      ∙ fields-words_text (defaults o).bin_path (command_words m o)
          (is_argument-is_word (defaults o).bin_path p.binary_word) command_words-All

  manifest_found :
      manifest_of_fields [] ((defaults o).bin_path ∷ command_words m o) ≡ manifest_path o m
  unfolding manifest_of_fields manifest_step equal cut_prefix codes
  manifest_found =
      let flags : List Bytes = flag_words (codes "--speculator") o.speculator in
      let rest : List Bytes = flag_words (codes "--cache-root") o.cache_root ++ flags in
      ap (λ got. manifest_of_fields got rest)
        (manifest_step-argument (manifest_path o m) (manifest_path o m) rest p.path_word)
      ∙ manifest_of_fields-flag (codes "--cache-root") o.cache_root (manifest_path o m) flags refl
          refl p.cache_word
      ∙ ap (manifest_of_fields (manifest_path o m)) (sym (append-nil flags))
      ∙ manifest_of_fields-flag (codes "--speculator") o.speculator (manifest_path o m) [] refl refl
          p.speculator_word

  check_fields-installed : check_fields m ((defaults o).bin_path ∷ command_words m o) ≡ ok tt
  check_fields-installed =
      check_fields-lem m (defaults o).bin_path (command_words m o) (manifest_path o m) p.binary_ok
        (unfold has_member equal codes in refl) manifest_found
        (is_argument-not_empty (manifest_path o m) p.path_word) (base-manifest_path m o p.name_ok)

  head_lines-All : All (λ l. contains_byte 10 l ≡ false) (head_lines m o)
  unfolding contains_byte codes is_name_byte is_name_start
  head_lines-All =
      let name_line : contains_byte 10 m.name ≡ false =
        matches_name-contains m.name 10 refl p.name_ok in
      let t1 : Bytes = m.gpu.type ++ codes ")" in
      let t2 : Bytes = itoa_int m.gpu.count ++ b'x' ∷ t1 in
      let t3 : Bytes = codes " on " ++ t2 in
      let t4 : Bytes = m.runtime ++ t3 in
      let t5 : Bytes = codes " (" ++ t4 in
      let k3 : contains_byte 10 t3 ≡ false = contains_byte-append 10 (codes " on ") t2 refl (
        contains_byte-append 10 (itoa_int m.gpu.count) (b'x' ∷ t1)
          (itoa_int-contains 10 m.gpu.count refl refl)
          (contains_byte-append 10 m.gpu.type (codes ")") p.gpu_line refl)) in
      let k5 : contains_byte 10 t5 ≡ false =
        contains_byte-append 10 (codes " (") t4 refl
          (contains_byte-append 10 m.runtime t3 p.runtime_line k3) in
      let title : Bytes = codes ".yaml " ++ 226 ∷ 128 ∷ 148 ∷ codes " do not edit." in
      (
        contains_byte-append 10 (codes "# Generated by `fornax install` from models/")
            (m.name ++ title) refl (contains_byte-append 10 m.name title name_line refl),
        (
          refl,
          (
            refl,
            (
              contains_byte-append 10 (codes "Description=fornax ") (m.name ++ t5) refl
                  (contains_byte-append 10 m.name t5 name_line k5),
              (refl, (refl, (refl, (refl, (refl, user_line-All o.user p.user_line))))),
            ),
          ),
        ),
      )

  exec_line-newline : contains_byte 10 (exec_line m o) ≡ false
  exec_line-newline =
      ap (contains_byte 10) (exec_line-words m o)
      ∙ contains_byte-append 10 (defaults o).bin_path (words_text (command_words m o))
          (spaceless-newline (defaults o).bin_path
            (is_argument-spaceless (defaults o).bin_path p.binary_word))
          (words_text-newline (command_words m o) command_words-All)

  exec_of_unit : exec_of_lines (split (unit_text m o) 10) ≡ trim_right (exec_line m o)
  unfolding unit_text
  exec_of_unit =
      let exec : Bytes = codes "ExecStart=" ++ exec_line m o in
      ap exec_of_lines (
        split-lines_text (head_lines m o ++ exec ∷ tail_lines) (
          All-append (λ l. contains_byte 10 l ≡ false) (head_lines m o) (exec ∷ tail_lines)
            head_lines-All
            (
              contains_byte-append 10 (codes "ExecStart=") (exec_line m o)
                  (unfold contains_byte codes in refl) exec_line-newline,
              unit_tail-All,
            )))
      ∙ ap exec_of_lines (append_assoc (head_lines m o) (exec ∷ tail_lines) ([] ∷ []))
      ∙ exec_of_lines-skip (head_lines m o) (exec ∷ (tail_lines ++ [] ∷ [])) (head_lines-other m o)
      ∙ exec_of_lines-exec (exec_line m o) (tail_lines ++ [] ∷ [])

  -- The unit that an install writes for a plain choice of options is accepted by the check of
  -- deploy artifacts for the same manifest.
  pub validate_unit-unit_text : validate_unit m (some (unit_text m o)) ≡ ok tt
  validate_unit-unit_text =
      validate_unit-lem m (unit_text m o) (exec_line m o) (defaults o).bin_path (command_words m o)
        exec_of_unit exec_fields check_fields-installed
