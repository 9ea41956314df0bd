-- ===== src/Cli/Install/Starts.antt =====
-- What the unit of an install starts: `serve`, on the manifest that was installed.
use llmops.Prelude.{
  pos, ◌≡◌, ◌≢◌, refl, sym, ap, ◌∙◌, inl, inr, Bool, true, false, ◌||◌, Option, none, some, List,
  [], ◌∷◌, ◌++◌, arith, Result, ok, Result-cases, Option-cases, Bool-cases,
}
use llmops.Floats.{Floats}
use llmops.Strings.{Bytes, codes, equal, fields}
use llmops.Strings.Laws.{equal_iff}
use llmops.Manifest.{Manifest, deploy_mode, deploy_bare_metal, or_default}
use llmops.Manifest.Patterns.{matches_name}
use llmops.Manifest.Load.{load}
use llmops.Manifest.Load.Laws.{load_iff}
use llmops.Manifest.Speculators.{resolve_speculator}
use llmops.Install.{
  Options, Host, Installed, InstallError, run_install, place, exec_line, manifest_path, unit_path,
  unit_text, defaults, has_content,
}
use llmops.Install.Names.{manifest_path-unit_path}
use llmops.Install.Idempotent.{IsPlaced, place-IsPlaced}
use llmops.Deploycheck.Yaml.{Decoded}
use llmops.Deploycheck.Unit.Installed.{IsPlain, exec_fields, flag_words, is_argument}
use llmops.Cli.Flags.{Scanners}
use llmops.Cli.Serving.{ServeCall, Site, run_serve, serve_args}
use llmops.Cli.Serving.Laws.{serve_args-words}
use llmops.Cli.Install.{InstallArgs, unless_told, install_args, install_loaded, run_install_verb}

has_content-some : (x : Option Bytes) (c : Bytes) → has_content x c ≡ true → x ≡ some c
has_content-some none c h = cc h
has_content-some (some d) c h = ap some ((equal_iff d c).0 h)

run_install-IsPlaced :
    (m : Manifest) (o : Options) (works : Bool) (source : Option Bytes) (h t : Host) (r : Installed)
    → matches_name m.name ≡ true
    → run_install m o works source h ≡ (ok r, t)
    → (c : Bytes) × (source ≡ some c) × IsPlaced m o c t
unfolding run_install
run_install-IsPlaced m o works source h t r named e =
    elim (Bool-cases (equal (deploy_mode m) deploy_bare_metal)) [
      | inr d ↦ ground (arith, d, e)
      | inl d ↦ elim (Option-cases source) [
        | inl s ↦ ground (arith, d, s, e)
        | inr (c, s) ↦
            let placed : place m o works c h ≡ (ok r, t) = ground (arith, d, s, e) in
            (c, s, (place-IsPlaced m o c works h t r (manifest_path-unit_path m o named) placed).0)
      ]
    ]

unless_told-files : (b : Bool) (h u : Host) → (unless_told b h u).files ≡ u.files
unless_told-files true h u = refl
unless_told-files false h u = refl

is_argument-not_nil : (w : Bytes) → is_argument w ≡ true → w ≢ []
is_argument-not_nil [] h e = cc h
is_argument-not_nil (c ∷ w) h e = cc e

run_serve-ok :
    (F : Floats) (site : Site) (sc : Scanners) (rest : List Bytes) (call : ServeCall) (m : Manifest)
    → serve_args sc [] rest ≡ some call
    → load F site.tree.read site.tree.parse call.manifest ≡ ok m
    → run_serve F site sc [] rest ≡ ok (call, m)
unfolding run_serve
run_serve-ok F site sc rest call m h k = ground (arith, h, k)

module _ (F : Floats) (parse : Bytes → Option Manifest) (works : Bool) (sc : Scanners) where
  run_install_verb-IsPlaced :
      (rest : List Bytes) (a : InstallArgs) (m : Manifest) (h t : Host) (line : Bytes)
      → install_args sc rest ≡ some a
      → a.print ≡ false
      → load F h.files.read parse a.manifest ≡ ok m
      → matches_name m.name ≡ true
      → run_install_verb F parse works sc rest h ≡ (ok line, t)
      → (c : Bytes) × (h.files.read a.manifest ≡ some c) × IsPlaced m a.options c t
  unfolding run_install_verb install_loaded
  run_install_verb-IsPlaced rest a m h t line args p l named e =
      let ran : Result InstallError Installed × Host =
        run_install m a.options (a.no_reload || works) (h.files.read a.manifest) h in
      elim (Result-cases (resolve_speculator m a.options.speculator)) [
        | inr (x, k) ↦ ground (arith, e, args, p, l, k)
        | inl (s, k) ↦ elim (Result-cases ran.0) [
          | inr (x, f) ↦ ground (arith, e, args, p, l, k, f)
          | inl (r, f) ↦
              let whole : ran ≡ (ok r, ran.1) = ap (λ y. (y, ran.1)) f in
              let (c, source, placed) =
                run_install-IsPlaced m a.options (a.no_reload || works) (h.files.read a.manifest) h
                  ran.1 r named whole in
              let ends : t ≡ unless_told a.no_reload h ran.1 =
                ground (arith, e, args, p, l, k, f) in
              let files : t.files ≡ ran.1.files =
                ap Host.files ends ∙ unless_told-files a.no_reload h ran.1 in
              (
                c,
                source,
                (
                  ap (λ fs. has_content (fs.read (manifest_path a.options m)) c) files ∙ placed.0,
                  ap (λ fs. has_content (fs.read (unit_path a.options m)) (unit_text m a.options))
                        files
                      ∙ placed.1,
                ),
              )
        ]
      ]

  -- After an install without --print that succeeds, the unit is there, its command falls into the binary, `serve`,
  -- and words that `serve` takes for: the installed manifest, the cache root and the speculator of
  -- the install, and the default ports. The manifest loaded from there is the one that was
  -- installed. The texts of the options are plain words, and FORNAX_ENGINE_CMD is empty.
  pub run_install_verb-serves :
      (rest : List Bytes) (a : InstallArgs) (m : Manifest) (h t : Host) (line : Bytes)
      (exists : Bytes → Bool) (decode : Bytes → List Decoded) (stat : Bytes → Option Bool)
      (glob : Bytes → List Bytes)
      → install_args sc rest ≡ some a
      → a.print ≡ false
      → load F h.files.read parse a.manifest ≡ ok m
      → IsPlain m a.options
      → run_install_verb F parse works sc rest h ≡ (ok line, t)
      → (words : List Bytes) × (t.files.read (unit_path a.options m) ≡ some (unit_text m a.options))
        × (fields (exec_line m a.options) ≡ (defaults a.options).bin_path ∷ codes "serve" ∷ words)
        × (run_serve F
              (record {
                tree = record {
                  read = t.files.read;
                  exists = exists;
                  parse = parse;
                  decode = decode;
                };
                stat = stat;
                glob = glob;
              })
              sc
              []
              words
            ≡ ok (
              record {
                manifest = manifest_path a.options m;
                port = pos 8000;
                engine_port = pos 30000;
                cache_root = or_default a.options.cache_root (codes "/cache");
                speculator = a.options.speculator;
                engine_cmd = [];
              },
              m,
            ))
  run_install_verb-serves rest a m h t line exists decode stat glob args p l plain e =
      let (c, source, (there, unit)) =
        run_install_verb-IsPlaced rest a m h t line args p l plain.name_ok e in
      let (content, was, parsed, valid) = (load_iff F h.files.read parse a.manifest m).0 l in
      let same : content ≡ c = cc (was, source) in
      let read : t.files.read (manifest_path a.options m) ≡ some content =
        has_content-some (t.files.read (manifest_path a.options m)) c there ∙ ap some (sym same) in
      let loads =
        (load_iff F t.files.read parse (manifest_path a.options m) m).1
          (content, read, parsed, valid) in
      (
        codes "--manifest"
            ∷ manifest_path a.options m
            ∷ (flag_words (codes "--cache-root") a.options.cache_root
                ++ flag_words (codes "--speculator") a.options.speculator),
        has_content-some (t.files.read (unit_path a.options m)) (unit_text m a.options) unit,
        exec_fields m a.options plain,
        run_serve-ok F
            (record {
              tree = record {
                read = t.files.read;
                exists = exists;
                parse = parse;
                decode = decode;
              };
              stat = stat;
              glob = glob;
            })
            sc
            (codes "--manifest"
              ∷ manifest_path a.options m
              ∷ (flag_words (codes "--cache-root") a.options.cache_root
                  ++ flag_words (codes "--speculator") a.options.speculator))
            (record {
              manifest = manifest_path a.options m;
              port = pos 8000;
              engine_port = pos 30000;
              cache_root = or_default a.options.cache_root (codes "/cache");
              speculator = a.options.speculator;
              engine_cmd = [];
            })
            m
            (serve_args-words sc (manifest_path a.options m) a.options.cache_root
              a.options.speculator
              (is_argument-not_nil (manifest_path a.options m) plain.path_word))
            loads,
      )
