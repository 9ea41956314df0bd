-- ===== src/Install.antt =====
-- Installing a model on a host (internal/install/install.go): the paths, the systemd unit, and the
-- install over a file system and a reload of systemd, which may fail. Progress lines are left out.
-- A write that fails leaves its file as it was.
pub mod Names
pub mod Idempotent
use llmops.Prelude.{
  ℕ, ◌+◌, Bool, true, false, not, Option, none, some, List, [], ◌∷◌, ◌++◌, if◌then◌else◌, Result,
  ok, err,
}
use llmops.Strings.{Bytes, codes, equal, is_empty}
use llmops.Strings.Numbers.{itoa_int}
use llmops.Paths.{join_path}
use llmops.Manifest.{Manifest, or_default, deploy_mode, deploy_bare_metal}
use llmops.Mirror.Effects.{Eff, throw, pure, ◌>>=◌}
use llmops.Mirror.Store.Local.{Files, write}

abbrev pub default_bin_path : Bytes
default_bin_path = codes "/usr/local/bin/fornax"

abbrev pub default_config_dir : Bytes
default_config_dir = codes "/etc/fornax"

abbrev pub default_unit_dir : Bytes
default_unit_dir = codes "/etc/systemd/system"

abbrev pub default_start_timeout : Bytes
default_start_timeout = codes "30min"

-- `Options`, the reload aside.
pub record Options : Type 0 where
  pub bin_path : Bytes
  pub config_dir : Bytes
  pub unit_dir : Bytes
  pub cache_root : Bytes
  pub user : Bytes
  pub speculator : Bytes

-- `(*Options).defaults`
unfoldable pub defaults : Options → Options
defaults o = record {
  bin_path = or_default o.bin_path default_bin_path;
  config_dir = or_default o.config_dir default_config_dir;
  unit_dir = or_default o.unit_dir default_unit_dir;
  cache_root = o.cache_root;
  user = o.user;
  speculator = o.speculator;
}

-- `ManifestPath`
unfoldable pub manifest_path : Options → Manifest → Bytes
unfolding defaults
manifest_path o m = join_path ((defaults o).config_dir ∷ (m.name ++ codes ".yaml") ∷ [])

-- `UnitName`
abbrev pub unit_name : Manifest → Bytes
unit_name m = m.name ++ codes ".service"

-- `UnitPath`
unfoldable pub unit_path : Options → Manifest → Bytes
unfolding defaults
unit_path o m = join_path ((defaults o).unit_dir ∷ unit_name m ∷ [])

-- A flag of the command with its value, if there is one.
abbrev pub flag_part : Bytes → Bytes → Bytes
flag_part flag [] = []
flag_part flag (c ∷ v) = b' ' ∷ (flag ++ b' ' ∷ c ∷ v)

-- The command that the unit starts.
unfoldable pub exec_line : Manifest → Options → Bytes
unfolding defaults
exec_line m o =
    (defaults o).bin_path
    ++ (codes " serve --manifest "
        ++ (manifest_path o m
            ++ (flag_part (codes "--cache-root") o.cache_root
                ++ flag_part (codes "--speculator") o.speculator)))

abbrev newline : ℕ
newline = 10

-- Lines, each with its newline.
unfoldable pub lines_text : List Bytes → Bytes
lines_text [] = []
lines_text (l ∷ ls) = l ++ newline ∷ lines_text ls

abbrev pub user_line : Bytes → List Bytes
user_line [] = []
user_line (c ∷ u) = (codes "User=" ++ c ∷ u) ∷ []

-- The lines of the unit in front of `ExecStart`, and those behind it. The dash of the first line is
-- three bytes.
abbrev pub head_lines : Manifest → Options → List Bytes
head_lines m o =
    (codes "# Generated by `fornax install` from models/"
      ++ (m.name ++ (codes ".yaml " ++ 226 ∷ 128 ∷ 148 ∷ codes " do not edit.")))
    ∷ codes "# Regenerate after changing the manifest; specs/020."
    ∷ codes "[Unit]"
    ∷ (codes "Description=fornax "
        ++ (m.name
            ++ (codes " ("
                ++ (m.runtime
                    ++ (codes " on "
                        ++ (itoa_int m.gpu.count ++ b'x' ∷ (m.gpu.type ++ codes ")")))))))
    ∷ codes "After=network-online.target"
    ∷ codes "Wants=network-online.target"
    ∷ []
    ∷ codes "[Service]"
    ∷ codes "Type=simple"
    ∷ user_line o.user

abbrev pub tail_lines : List Bytes
tail_lines =
    codes "Restart=on-failure"
    ∷ codes "RestartSec=10"
    ∷ (codes "TimeoutStartSec=" ++ default_start_timeout)
    ∷ codes "KillSignal=SIGTERM"
    ∷ codes "TimeoutStopSec=2min"
    ∷ []
    ∷ codes "[Install]"
    ∷ codes "WantedBy=multi-user.target"
    ∷ []

-- `Unit`
unfoldable pub unit_text : Manifest → Options → Bytes
unfolding lines_text
unit_text m o = lines_text (head_lines m o ++ (codes "ExecStart=" ++ exec_line m o) ∷ tail_lines)

pub data InstallError : Type 0 where
  not_bare_metal no_source : InstallError
  not_written : Bytes → InstallError

-- The host: its files, and how often systemd was told to reload.
pub record Host : Type 0 where
  pub files : Files
  pub reloads : ℕ

-- `Result`
pub record Installed : Type 0 where
  pub manifest_at : Bytes
  pub unit_at : Bytes
  pub manifest_changed : Bool
  pub unit_changed : Bool
  pub daemon_reloaded : Bool

abbrev pub has_content : Option Bytes → Bytes → Bool
has_content none c = false
has_content (some old) c = equal old c

-- `writeIfChanged`
unfoldable pub write_if_changed : Bytes → Bytes → Eff Files InstallError Bool
unfolding write
write_if_changed path c fs =
    if has_content (fs.read path) c
    then (ok false, fs)
    else if fs.writable path
    then (ok true, write path c fs)
    else (err (not_written path), fs)

abbrev pub on_files : {A : Type 0} → Eff Files InstallError A → Eff Host InstallError A
on_files m h = let r = m h.files in (r.0, record h { files = r.1 })

-- The end of `Run`: systemd is told to reload only if the unit has changed.
unfoldable pub finish : Bool → Bytes → Bytes → Bool → Bool → Eff Host InstallError Installed
finish reload_works mp up manifest_changed unit_changed h = (
  ok (record {
    manifest_at = mp;
    unit_at = up;
    manifest_changed = manifest_changed;
    unit_changed = unit_changed;
    daemon_reloaded = if unit_changed then reload_works else false;
  }),
  if unit_changed then record h { reloads = h.reloads + 1 } else h,
)

-- The writes of `Run`, for the content of the source manifest.
unfoldable pub place : Manifest → Options → Bool → Bytes → Eff Host InstallError Installed
unfolding write_if_changed finish
place m o reload_works c = do
  manifest_changed ← on_files (write_if_changed (manifest_path o m) c)
  unit_changed ← on_files (write_if_changed (unit_path o m) (unit_text m o))
  finish reload_works (manifest_path o m) (unit_path o m) manifest_changed unit_changed

-- `Run`; `none` is a source manifest that cannot be read.
unfoldable pub run_install :
    Manifest → Options → Bool → Option Bytes → Eff Host InstallError Installed
unfolding place
run_install m o reload_works source h =
    if not (equal (deploy_mode m) deploy_bare_metal)
    then (err not_bare_metal, h)
    else elim source [ none ↦ (err no_source, h) | some c ↦ place m o reload_works c h ]
