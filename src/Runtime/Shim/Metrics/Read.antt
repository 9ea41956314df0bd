-- ===== src/Runtime/Shim/Metrics/Read.antt =====
-- What `fornax ps` reads out of /metrics is what the shim wrote there.
use llmops.Prelude.{
  ℕ, ◌≡◌, refl, sym, ap, ◌∙◌, false, Option, none, some, List, [], ◌∷◌, ◌++◌, arith, All, ◌==◌,
  Bool-cases, inl, inr,
}
use llmops.Floats.{Floats}
use llmops.Strings.{Bytes, codes, split, cons_head, cut_prefix, contains_byte, trim_space}
use llmops.Strings.Laws.{cut_prefix-append, contains_byte-append}
use llmops.Deploycheck.Unit.Lines.{split-line}
use llmops.Install.{lines_text}
use llmops.Harness.Discover.{Reply, loaded_of_lines, weights_loaded}
use llmops.Runtime.Shim.Losses.{LossCount}
use llmops.Runtime.Shim.Metrics.{
  Formats, help_line, type_line, key, engine_text, speculator_lines, loss_lines, metrics,
}

-- Lines whose last one goes on in the first of others.
glue : List Bytes → List Bytes → List Bytes
glue [] ys = ys
glue (w ∷ []) [] = w ∷ []
glue (w ∷ []) (y ∷ ys) = (w ++ y) ∷ ys
glue (w ∷ v ∷ ws) ys = w ∷ glue (v ∷ ws) ys

split_cases : (s : Bytes) → (w : Bytes) × (ws : List Bytes) × (split s 10 ≡ w ∷ ws)
unfolding split
split_cases [] = ([], [], refl)
split_cases (c ∷ s) =
    let (w, ws, e) = split_cases s in
    elim (Bool-cases (c == 10)) [
      | inl k ↦ ([], split s 10, rw k refl)
      | inr k ↦ (c ∷ w, ws, rw (k, e) refl)
    ]

glue-newline :
    (x r ys ws : List Bytes) (w : Bytes) → x ≡ w ∷ ws → r ≡ glue x ys → [] ∷ r ≡ glue ([] ∷ x) ys
unfolding glue
glue-newline [] r ys ws w e h = cc e
glue-newline (v ∷ vs) r ys ws w e h = ap (λ z. [] ∷ z) h

glue-cons_head :
    (c : ℕ) (x r ys ws : List Bytes) (w : Bytes)
    → x ≡ w ∷ ws
    → r ≡ glue x ys
    → cons_head c r ≡ glue (cons_head c x) ys
unfolding glue
glue-cons_head c [] r ys ws w e h = cc e
glue-cons_head c (v ∷ []) r [] ws w e h = ap (cons_head c) h
glue-cons_head c (v ∷ []) r (y ∷ ys) ws w e h = ap (cons_head c) h
glue-cons_head c (v ∷ u ∷ vs) r ys ws w e h = ap (cons_head c) h

split-append : (a b : Bytes) → split (a ++ b) 10 ≡ glue (split a 10) (split b 10)
unfolding split glue
split-append [] b = let (w, ws, e) = split_cases b in e ∙ sym (ap (glue ([] ∷ [])) e)
split-append (c ∷ a) b =
    let (w, ws, e) = split_cases a in
    elim (Bool-cases (c == 10)) [
      | inl k ↦
          rw k
            (glue-newline (split a 10) (split (a ++ b) 10) (split b 10) ws w e (split-append a b))
      | inr k ↦
          rw k (
            glue-cons_head c (split a 10) (split (a ++ b) 10) (split b 10) ws w e
              (split-append a b))
    ]

-- A line without the key that goes on with a letter that the key has not is still without it.
cut_prefix-glued :
    (l p r : Bytes) (d : ℕ)
    → contains_byte d p ≡ false
    → cut_prefix l p ≡ none
    → cut_prefix (l ++ d ∷ r) p ≡ none
unfolding cut_prefix contains_byte
cut_prefix-glued l [] r d h e = cc e
cut_prefix-glued [] (c ∷ p) r d h e = ground (arith, h)
cut_prefix-glued (b ∷ l) (c ∷ p) r d h e = ground (arith, h, e, cut_prefix-glued l p r d)

own_lines :
    (f : Bytes) (more : List Bytes)
    → contains_byte 10 f ≡ false
    → split (lines_text (help_line ∷ type_line ∷ (key ++ f) ∷ more)) 10
      ≡ help_line ∷ type_line ∷ (key ++ f) ∷ split (lines_text more) 10
unfolding lines_text
own_lines f more h =
    split-line help_line (lines_text (type_line ∷ (key ++ f) ∷ more))
      (unfold contains_byte codes in refl)
    ∙ ap (λ r. help_line ∷ r)
        (split-line type_line (lines_text ((key ++ f) ∷ more)) (unfold contains_byte codes in refl)
          ∙ ap (λ r. type_line ∷ r)
              (split-line (key ++ f) (lines_text more)
                (contains_byte-append 10 key f (unfold contains_byte codes in refl) h)))

module _ (F : Floats) (get : Bytes → Option Reply) (ids : Bytes → Option (List Bytes)) where
  abbrev read_lines : List Bytes → F.Float
  read_lines = loaded_of_lines F get ids

  loaded-skip :
      (l : Bytes) (ls : List Bytes) → cut_prefix l key ≡ none → read_lines (l ∷ ls) ≡ read_lines ls
  unfolding loaded_of_lines
  loaded-skip l ls h = ground (arith, h)

  loaded-found :
      (f : Bytes) (ls : List Bytes) (x : F.Float)
      → F.parse_float (trim_space f) ≡ some x
      → read_lines ((key ++ f) ∷ ls) ≡ x
  unfolding loaded_of_lines
  loaded-found f ls x h = ground (arith, cut_prefix-append key f, h)

  -- What stands in front of other lines, without the key, is passed over.
  loaded-glue :
      (ls rest : List Bytes) (d : ℕ) (r : Bytes)
      → All (λ l. cut_prefix l key ≡ none) ls
      → contains_byte d key ≡ false
      → cut_prefix (d ∷ r) key ≡ none
      → read_lines (glue ls ((d ∷ r) ∷ rest)) ≡ read_lines rest
  unfolding glue
  loaded-glue [] rest d r a h k = loaded-skip (d ∷ r) rest k
  loaded-glue (w ∷ []) rest d r (a, none_of) h k =
      loaded-skip (w ++ d ∷ r) rest (cut_prefix-glued w key r d h a)
  loaded-glue (w ∷ v ∷ ws) rest d r (a, none_of) h k =
      loaded-skip w (glue (v ∷ ws) ((d ∷ r) ∷ rest)) a ∙ loaded-glue (v ∷ ws) rest d r none_of h k

  -- The seconds that `ps` reads out of /metrics are the ones that the shim has written there, if a
  -- float is written without a newline and read back, and no line of the engine's own text begins
  -- with the shim's name for it.
  pub weights_loaded-metrics :
      (t : Formats F) (engine : Option Reply) (seconds : F.Float) (speculator : Bytes)
      (losses : LossCount) (status : ℕ) (header : Bytes)
      → contains_byte 10 (t.format_float seconds) ≡ false
      → F.parse_float (trim_space (t.format_float seconds)) ≡ some seconds
      → All (λ l. cut_prefix l key ≡ none) (split (engine_text engine) 10)
      → get (codes "/metrics")
        ≡ some (record {
          status = status;
          speculator = header;
          content = metrics F t engine seconds speculator losses;
        })
      → weights_loaded F get ids ≡ seconds
  unfolding weights_loaded metrics
  weights_loaded-metrics t engine seconds speculator losses status header line exact others e =
      let more : List Bytes = speculator_lines F t speculator ++ loss_lines F t losses in
      let value : Bytes = key ++ t.format_float seconds in
      let all : List Bytes = help_line ∷ type_line ∷ value ∷ more in
      let rest : List Bytes = type_line ∷ value ∷ split (lines_text more) 10 in
      let passed : read_lines (glue (split (engine_text engine) 10) (help_line ∷ rest))
          ≡ read_lines rest =
        unfold codes cut_prefix contains_byte in
        loaded-glue (split (engine_text engine) 10) rest b'#'
          (codes
            " HELP fornax_weights_load_seconds Time spent preparing weights before engine start.")
          others refl refl in
      rw (weights_loaded, e)
        (ap read_lines (split-append (engine_text engine) (lines_text all))
          ∙ ap (λ ys. read_lines (glue (split (engine_text engine) 10) ys))
              (own_lines (t.format_float seconds) more line)
          ∙ passed
          ∙ loaded-skip type_line (value ∷ split (lines_text more) 10)
              (unfold cut_prefix codes in refl)
          ∙ loaded-found (t.format_float seconds) (split (lines_text more) 10) seconds exact)
