-- ===== src/Install/Names.antt =====
-- The names of the files that an install writes.
use mathlib.Core.List.{append_cancel_left}
use llmops.Prelude.{ℕ, ◌≡◌, ◌≢◌, refl, sym, ap, ◌∙◌, true, false, [], ◌∷◌, ◌++◌, arith}
use llmops.Strings.{Bytes, codes, equal, contains_byte}
use llmops.Strings.Laws.{contains_byte-append, equal_iff}
use llmops.Paths.{base}
use llmops.Paths.Laws.{IsComponent, base-join_path}
use llmops.Manifest.{Manifest}
use llmops.Manifest.Patterns.{matches_name, is_name_start, is_name_byte, all_bytes}
use llmops.Install.{Options, defaults, manifest_path, unit_path}

all_bytes-contains :
    (name : Bytes) (b : ℕ)
    → is_name_byte b ≡ false
    → all_bytes is_name_byte name ≡ true
    → contains_byte b name ≡ false
unfolding contains_byte
all_bytes-contains [] b h k = refl
all_bytes-contains (x ∷ name) b h k = ground (arith, all_bytes-contains name b h)

pub matches_name-contains :
    (name : Bytes) (b : ℕ)
    → is_name_byte b ≡ false
    → matches_name name ≡ true
    → contains_byte b name ≡ false
unfolding contains_byte matches_name is_name_byte
matches_name-contains [] b h k = refl
matches_name-contains (x ∷ name) b h k = ground (arith, all_bytes-contains name b h)

pub name-IsComponent :
    (name : Bytes) (c : ℕ) (ext : Bytes)
    → matches_name name ≡ true
    → contains_byte b'/' (c ∷ ext) ≡ false
    → IsComponent (name ++ c ∷ ext)
unfolding matches_name is_name_start is_name_byte equal codes
name-IsComponent [] c ext h k = cc
name-IsComponent (x ∷ name) c ext h k = record {
  not_empty = refl;
  no_slash =
      contains_byte-append b'/' (x ∷ name) (c ∷ ext) (matches_name-contains (x ∷ name) b'/' refl h)
        k;
  not_dot = ground (arith, h);
  not_dots = ground (arith, h);
}

pub base-manifest_path :
    (m : Manifest) (o : Options)
    → matches_name m.name ≡ true
    → base (manifest_path o m) ≡ m.name ++ codes ".yaml"
unfolding manifest_path codes contains_byte
base-manifest_path m o h =
    base-join_path (defaults o).config_dir (m.name ++ codes ".yaml")
      (name-IsComponent m.name b'.' (codes "yaml") h refl)

base-unit_path :
    (m : Manifest) (o : Options)
    → matches_name m.name ≡ true
    → base (unit_path o m) ≡ m.name ++ codes ".service"
unfolding unit_path codes contains_byte
base-unit_path m o h =
    base-join_path (defaults o).unit_dir (m.name ++ codes ".service")
      (name-IsComponent m.name b'.' (codes "service") h refl)

append-apart : (name xs ys : Bytes) → equal xs ys ≡ false → name ++ xs ≢ name ++ ys
append-apart name xs ys h e = cc (h, (equal_iff xs ys).1 (append_cancel_left name xs ys e))

-- The manifest and the unit of a model are two files, whatever the directories are.
pub manifest_path-unit_path :
    (m : Manifest) (o : Options) → matches_name m.name ≡ true → manifest_path o m ≢ unit_path o m
manifest_path-unit_path m o h e =
    append-apart m.name (codes ".yaml") (codes ".service") (unfold equal codes in refl)
      (sym (base-manifest_path m o h) ∙ ap base e ∙ base-unit_path m o h)
