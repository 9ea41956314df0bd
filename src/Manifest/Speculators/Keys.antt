-- ===== src/Manifest/Speculators/Keys.antt =====
-- A property of every name, in any order, is a property of everything that a lookup finds.
use llmops.Prelude.{◌≡◌, sym, subst, ◌↔◌, inl, inr, some, [], ◌∷◌, Bool-cases, All}
use llmops.Strings.Sorting.{sort-All}
use llmops.Strings.{Bytes, equal}
use llmops.Strings.Laws.{equal_iff, equal_refl}
use llmops.Manifest.{Manifest, Speculator, StringMap}
use llmops.Manifest.Speculators.{find, keys, speculator_names, speculator_at}

find_head : {A : Type 0} (k : Bytes) (v : A) (m : StringMap A) → find k ((k, v) ∷ m) ≡ some v
unfolding find
find_head k v m = rw equal_refl

module _ {A : Type 0} (P : Bytes → Type 0) where
  All-keys : (m : StringMap A) (k : Bytes) (v : A) → All P (keys m) → find k m ≡ some v → P k
  unfolding keys find
  All-keys [] k v h e = cc
  All-keys ((j, w) ∷ rest) k v h e = elim (Bool-cases (equal j k)) [
    | inl same ↦ rw (← (equal_iff j k).0 same) h.0
    | inr other ↦ All-keys rest k v h.1 (rw other at e)
  ]

  keys-All : (m : StringMap A) → ((k : Bytes) (v : A) → find k m ≡ some v → P k) → All P (keys m)
  unfolding keys
  keys-All [] h = tt
  keys-All ((j, w) ∷ rest) h = (h j w (find_head j w rest), keys-All rest later)
    where
      later : (k : Bytes) (v : A) → find k rest ≡ some v → P k
      later k v e = elim (Bool-cases (equal j k)) [
        | inl same ↦ rw (← (equal_iff j k).0 same) (h j w (find_head j w rest))
        | inr other ↦ h k v (unfold find in rw (other, find) e)
      ]

pub find-speculator_at :
    (m : Manifest) (name : Bytes) (sp : Speculator)
    → find name m.speculators ≡ some sp
    → speculator_at m name ≡ sp
unfolding speculator_at
find-speculator_at m name sp e = rw (e, speculator_at)

module _ (m : Manifest) (Q : Bytes → Speculator → Type 0) where
  -- A property of each name with the speculator that `m.Speculators[name]` gives.
  pub names-All :
      All (λ name. Q name (speculator_at m name)) (speculator_names m)
      ↔ ((name : Bytes) (sp : Speculator) → find name m.speculators ≡ some sp → Q name sp)
  unfolding speculator_names
  names-All = (
    λ h name sp e.
        subst (Q name) (find-speculator_at m name sp e)
          (All-keys _ m.speculators name sp ((sort-All _ (keys m.speculators)).0 h) e),
    λ h. (sort-All _ (keys m.speculators)).1 (
        keys-All _ m.speculators
          (λ name sp e. subst (Q name) (sym (find-speculator_at m name sp e)) (h name sp e))),
  )
