-- ===== src/Deploycheck/Unit/Lines.antt =====
-- The lines of a unit's text, and the command among them.
use llmops.Prelude.{
  ◌≡◌, refl, ap, ◌∙◌, Bool, true, false, not, ◌&&◌, List, [], ◌∷◌, ◌++◌, arith, ◌==◌, All,
}
use llmops.Strings.{Bytes, codes, is_space, trim_left, trim_right, cut_prefix, split, contains_byte}
use llmops.Install.{lines_text}
use llmops.Deploycheck.Unit.{exec_of_lines}

pub split-line :
    (l rest : Bytes) → contains_byte 10 l ≡ false → split (l ++ 10 ∷ rest) 10 ≡ l ∷ split rest 10
unfolding split contains_byte
split-line [] rest h = refl
split-line (c ∷ l) rest h = ground (arith, split-line l rest)

-- Lines without a newline are the lines of their text, with an empty one behind the last newline.
pub split-lines_text :
    (ls : List Bytes)
    → All (λ l. contains_byte 10 l ≡ false) ls
    → split (lines_text ls) 10 ≡ ls ++ [] ∷ []
unfolding lines_text
split-lines_text [] h = unfold split in refl
split-lines_text (l ∷ ls) (h, hs) =
    split-line l (lines_text ls) h ∙ ap (λ r. l ∷ r) (split-lines_text ls hs)

-- A line that is empty, or begins with another letter than the key, is no ExecStart line.
abbrev pub is_other : Bytes → Bool
is_other [] = true
is_other (c ∷ cs) = not (is_space c) && not (c == b'E')

exec_of_lines-other :
    (l : Bytes) (ls : List Bytes) → is_other l ≡ true → exec_of_lines (l ∷ ls) ≡ exec_of_lines ls
unfolding exec_of_lines trim_left trim_right cut_prefix codes
exec_of_lines-other [] ls h = refl
exec_of_lines-other (c ∷ l) ls h = ground (arith, h)

pub exec_of_lines-exec :
    (e : Bytes) (ls : List Bytes) → exec_of_lines ((codes "ExecStart=" ++ e) ∷ ls) ≡ trim_right e
unfolding exec_of_lines trim_left trim_right cut_prefix codes
exec_of_lines-exec e ls = refl

pub exec_of_lines-skip :
    (ks ls : List Bytes)
    → All (λ l. is_other l ≡ true) ks
    → exec_of_lines (ks ++ ls) ≡ exec_of_lines ls
exec_of_lines-skip [] ls h = refl
exec_of_lines-skip (k ∷ ks) ls (h, hs) =
    exec_of_lines-other k (ks ++ ls) h ∙ exec_of_lines-skip ks ls hs

pub All-append : (P : Bytes → Type 0) (xs ys : List Bytes) → All P xs → All P ys → All P (xs ++ ys)
All-append P [] ys h k = k
All-append P (x ∷ xs) ys (h, hs) k = (h, All-append P xs ys hs k)
