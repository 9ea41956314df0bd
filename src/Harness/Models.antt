-- ===== src/Harness/Models.antt =====
-- `Discover` (internal/harness/discover.go): the models installed on a host, each with what its
-- endpoint answers. The names are unique on a host, as sort.Slice leaves the order of equal ones
-- open.
use llmops.Prelude.{
  ℕ, ◌+◌, ◌≡◌, refl, ◌∙◌, ◌↔◌, inl, inr, Bool, true, false, Option, List, [], ◌∷◌, ◌++◌,
  if◌then◌else◌, map, Result, ok, ◌>>=◌, arith, All, length, Bool-cases,
}
use llmops.Floats.{Floats}
use llmops.Strings.{Bytes, codes, before}
use llmops.Strings.Numbers.{itoa_int}
use llmops.Paths.{join_path}
use llmops.Manifest.{Manifest}
use llmops.Manifest.Load.{LoadError, load_dir}
use llmops.Harness.Discover.{State, Reply, probe, port_from_unit}

-- `Model`
pub record Model (F : Floats) : Type 0 where
  pub name : Bytes
  pub runtime : Bytes
  pub gpu : Bytes
  pub port : ℕ
  pub state : State
  pub loaded : F.Float
  pub speculator : Bytes

-- `Ready`
unfoldable pub ready : State → Bool
ready State.ready = true
ready State.loading = false
ready State.down = false

-- The files that are read, the decoder of manifests, the GETs to a port of this machine, and the
-- names in a JSON list of models.
pub record Host : Type 0 where
  pub read : Bytes → Option Bytes
  pub parse : Bytes → Option Manifest
  pub glob : Bytes → List Bytes
  pub get_at : ℕ → Bytes → Option Reply
  pub model_ids : Bytes → Option (List Bytes)

module _ (F : Floats) where
  insert_model : Model F → List (Model F) → List (Model F)
  unfolding before
  insert_model m [] = m ∷ []
  insert_model m (n ∷ ns) = if before m.name n.name then m ∷ n ∷ ns else n ∷ insert_model m ns

  -- sort.Slice by the names
  unfoldable pub sort_models : List (Model F) → List (Model F)
  unfolding insert_model
  sort_models [] = []
  sort_models (m ∷ ms) = insert_model m (sort_models ms)

  module _ (host : Host) where
    open host use {read, parse, glob, get_at, model_ids}

    -- One round of the loop of `Discover`.
    unfoldable pub model_at : Bytes → Manifest → Model F
    unfolding itoa_int join_path port_from_unit probe
    model_at unit_dir m =
        let port =
          port_from_unit 8000 (read (join_path (unit_dir ∷ (m.name ++ codes ".service") ∷ []))) in
        let answer = probe F (get_at port) model_ids m.name in
        record {
          name = m.name;
          runtime = m.runtime;
          gpu = itoa_int m.gpu.count ++ b'x' ∷ m.gpu.type;
          port = port;
          state = answer.state;
          loaded = answer.loaded;
          speculator = answer.speculator;
        }

    -- `Discover`
    unfoldable pub discover : Bytes → Bytes → Result LoadError (List (Model F))
    unfolding load_dir model_at sort_models
    discover config_dir unit_dir = load_dir F read parse (glob config_dir) >>= λ ms.
        ok (sort_models (map (model_at unit_dir) ms))

  -- Sorting keeps what holds of every model, and their number.
  module _ (P : Model F → Type 0) where
    insert_model-All :
        (m : Model F) (ms : List (Model F)) → All P (insert_model m ms) ↔ (P m × All P ms)
    unfolding insert_model
    insert_model-All m [] = (λ h. h, λ h. h)
    insert_model-All m (n ∷ ns) =
        let (to, from) = insert_model-All m ns in
        elim (Bool-cases (before m.name n.name)) [
          | inl e ↦ rw e (λ h. h, λ h. h)
          | inr e ↦
              rw e (
                λ (q, rest). let (p, t) = to rest in (p, (q, t)),
                λ (p, qt). (qt.0, from (p, qt.1)),
              )
        ]

    sort_models-All : (ms : List (Model F)) → All P (sort_models ms) ↔ All P ms
    unfolding sort_models
    sort_models-All [] = (λ h. h, λ h. h)
    sort_models-All (m ∷ ms) = (
      λ h.
          let (p, rest) = (insert_model-All m (sort_models ms)).0 h in
          (p, (sort_models-All ms).0 rest),
      λ (p, rest). (insert_model-All m (sort_models ms)).1 (p, (sort_models-All ms).1 rest),
    )

  insert_model-length :
      (m : Model F) (ms : List (Model F)) → length (insert_model m ms) ≡ 1 + length ms
  unfolding insert_model
  insert_model-length m [] = refl
  insert_model-length m (n ∷ ns) = ground (arith, insert_model-length m ns)

  sort_models-length : (ms : List (Model F)) → length (sort_models ms) ≡ length ms
  unfolding sort_models
  sort_models-length [] = refl
  sort_models-length (m ∷ ms) =
      ground (arith, insert_model-length m (sort_models ms), sort_models-length ms)

  -- The names are in the order of sort.Strings.
  abbrev pub IsOrdered : List (Model F) → Type 0
  IsOrdered [] = Unit
  IsOrdered (m ∷ []) = Unit
  IsOrdered (m ∷ n ∷ ns) = (before m.name n.name ≡ true) × IsOrdered (n ∷ ns)

  before_total : (a b : Bytes) → before a b ≡ false → before b a ≡ true
  unfolding before
  before_total [] b h = cc h
  before_total (x ∷ a) [] h = refl
  before_total (x ∷ a) (y ∷ b) h = ground (arith, h, before_total a b)

  insert_model-IsOrdered :
      (m : Model F) (ms : List (Model F)) → IsOrdered ms → IsOrdered (insert_model m ms)
  unfolding insert_model
  insert_model-IsOrdered m [] h = tt
  insert_model-IsOrdered m (n ∷ []) h = elim (Bool-cases (before m.name n.name)) [
    | inl e ↦ rw e (e, tt)
    | inr e ↦ rw e (before_total m.name n.name e, tt)
  ]
  insert_model-IsOrdered m (n ∷ k ∷ ks) (o, os) = elim (Bool-cases (before m.name n.name)) [
    | inl e ↦ rw e (e, (o, os))
    | inr e ↦ elim (Bool-cases (before m.name k.name)) [
      | inl d ↦ rw (e, d) (before_total m.name n.name e, (d, os))
      | inr d ↦ rw (e, d) (o, rw (insert_model, d) at (insert_model-IsOrdered m (k ∷ ks) os))
    ]
  ]

  sort_models-IsOrdered : (ms : List (Model F)) → IsOrdered (sort_models ms)
  unfolding sort_models
  sort_models-IsOrdered [] = tt
  sort_models-IsOrdered (m ∷ ms) =
      insert_model-IsOrdered m (sort_models ms) (sort_models-IsOrdered ms)

  map-length : {A B : Type 0} (f : A → B) (xs : List A) → length (map f xs) ≡ length xs
  map-length f [] = refl
  map-length f (x ∷ xs) = ground (arith, map-length f xs)

  -- Where the installed manifests are read, `Discover` lists one model for each, in the order of
  -- their names, and what holds of the models of all manifests is what holds of all that it lists.
  pub discover-IsOrdered :
      (host : Host) (P : Model F → Type 0) (config_dir unit_dir : Bytes) (ms : List Manifest)
      (models : List (Model F))
      → load_dir F host.read host.parse (host.glob config_dir) ≡ ok ms
      → discover host config_dir unit_dir ≡ ok models
      → IsOrdered models
        × (length models ≡ length ms)
        × (All P models ↔ All P (map (model_at host unit_dir) ms))
  unfolding discover
  discover-IsOrdered host P config_dir unit_dir ms models h e =
      let all = map (model_at host unit_dir) ms in
      let same : sort_models all ≡ models = ground (arith, h, e) in
      rw (← same) (
        sort_models-IsOrdered all,
        sort_models-length all ∙ map-length (model_at host unit_dir) ms,
        sort_models-All P all,
      )
