-- ===== src/Deploycheck/Lws/Fits.antt =====
-- What a LeaderWorkerSet that fits its model is, said without the order of the checks, for a model
-- whose manifest is valid.
use llmops.Prelude.{◌≡◌, ◌≢◌, ◌⊎◌, Bool, true, false, List, [], ◌∷◌, All, gtz}
use llmops.Strings.{Bytes, codes}
use llmops.Strings.Numbers.{itoa_int}
use llmops.Manifest.{Manifest, runtime_custom, engine_image}
use llmops.Deploycheck.Yaml.{
  Yaml, Items, Entries, text, int, sequence, dict, item, is_null, print, Decoded, broken,
  nil_document, document,
}
use llmops.Deploycheck.Yaml.Holds.{Holds}
use llmops.Deploycheck.Lws.{dns_name, probe_path, gpu_path, spec_path}
use llmops.Deploycheck.Lws.Images.{IsReference}

abbrev pub image_path : List Bytes
image_path = codes "image" ∷ []

-- A custom image is the manifest's own; one of ours has the engine's name, from any registry.
abbrev pub ImageFits : Manifest → Yaml → Type 0
ImageFits m c =
    ((m.runtime ≡ runtime_custom) × Holds c image_path (text m.image))
    ⊎ ((m.runtime ≢ runtime_custom)
        × ((ref : Bytes) × Holds c image_path (text ref) × IsReference ref (engine_image m)))

-- The limit is there, and is printed as the manifest's count.
abbrev pub GpusFit : Manifest → Yaml → Type 0
GpusFit m c =
    (w : Yaml) × (is_null w ≡ false) × Holds c gpu_path w × (print w ≡ itoa_int m.gpu.count)

abbrev pub ProbesFit : Yaml → Type 0
ProbesFit c =
    Holds c (probe_path (codes "readinessProbe")) (text (codes "/readyz"))
    × Holds c (probe_path (codes "livenessProbe")) (text (codes "/livez"))

abbrev pub ContainerFits : Manifest → Bool → Yaml → Type 0
ContainerFits m probes c = ImageFits m c × GpusFit m c × ((probes ≡ false) ⊎ ProbesFit c)

-- The first container of a template.
abbrev pub TemplateFits : Manifest → Entries → Bytes → Bool → Type 0
TemplateFits m lws template probes =
    (c : Yaml) × (cs : Items) × Holds (dict lws)
      (spec_path template (codes "spec" ∷ codes "containers" ∷ [])) (sequence (item c cs))
    × ContainerFits m probes c

pub record Fits (m : Manifest) (lws : Entries) : Type 0 where
  pub named : Holds (dict lws) (codes "metadata" ∷ codes "name" ∷ []) (text (dns_name m.name))
  pub sized : Holds (dict lws) (spec_path (codes "size") []) (int m.gpu.nodes)
  pub leader : TemplateFits m lws (codes "leaderTemplate") true
  pub worker : (gtz 1 m.gpu.nodes ≡ false) ⊎ TemplateFits m lws (codes "workerTemplate") false

abbrev pub IsLws : Entries → Type 0
IsLws d = Holds (dict d) (codes "kind" ∷ []) (text (codes "LeaderWorkerSet"))

-- The last document of the kind.
abbrev pub LastLws : List Entries → Entries → Type 0
LastLws [] lws = ⊥
LastLws (d ∷ ds) lws = LastLws ds lws ⊎ ((d ≡ lws) × IsLws d × All (λ x. IsLws x → ⊥) ds)

-- All documents are decoded; the empty ones are left out.
abbrev pub Reads : List Decoded → List Entries → Type 0
Reads [] docs = docs ≡ []
Reads (broken ∷ ds) docs = ⊥
Reads (nil_document ∷ ds) docs = Reads ds docs
Reads (document d ∷ ds) docs = (rest : List Entries) × (docs ≡ d ∷ rest) × Reads ds rest
