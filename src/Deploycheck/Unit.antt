-- ===== src/Deploycheck/Unit.antt =====
-- `validateUnit`: the systemd unit of a bare-metal model, from the text of its file.
pub mod Words
pub mod Lines
pub mod Installed
use llmops.Prelude.{
  ℕ, Bool, true, false, not, ◌&&◌, Option, none, some, List, [], ◌∷◌, ◌++◌, if◌then◌else◌, Result,
  ok, err,
}
use llmops.Strings.{
  Bytes, codes, equal, is_empty, cut_prefix, split, fields, trim_space, has_member,
}
use llmops.Paths.{base}
use llmops.Manifest.{Manifest}

pub data UnitError : Type 0 where
  unread no_exec_start empty_exec_start no_serve no_manifest : UnitError
  wrong_binary wrong_manifest : Bytes → UnitError

-- `Binary`
abbrev pub binary : Bytes
binary = codes "fornax"

-- The loop over the lines: what follows the first `ExecStart=`, or the empty text.
unfoldable pub exec_of_lines : List Bytes → Bytes
unfolding trim_space
exec_of_lines [] = []
exec_of_lines (line ∷ lines) = elim (cut_prefix (trim_space line) (codes "ExecStart=")) [
  | none ↦ exec_of_lines lines
  | some rest ↦ rest
]

-- The two tests of the loop over the fields, for a field and those behind it.
unfoldable pub manifest_step : Bytes → Bytes → List Bytes → Bytes
manifest_step got f [] = elim (cut_prefix f (codes "--manifest=")) [ none ↦ got | some rest ↦ rest ]
manifest_step got f (g ∷ fs) = elim (cut_prefix f (codes "--manifest=")) [
  | none ↦ if equal f (codes "--manifest") then g else got
  | some rest ↦ rest
]

unfoldable pub manifest_of_fields : Bytes → List Bytes → Bytes
unfolding manifest_step
manifest_of_fields got [] = got
manifest_of_fields got (f ∷ fs) = manifest_of_fields (manifest_step got f fs) fs

-- The checks on the manifest that the command names.
unfoldable pub check_manifest : Manifest → Bytes → Result UnitError (Unit {0})
check_manifest m got =
    if is_empty got
    then err no_manifest
    else if not (equal (base got) (m.name ++ codes ".yaml"))
    then err (wrong_manifest got)
    else ok tt

-- The checks on the fields of the command.
unfoldable pub check_fields : Manifest → List Bytes → Result UnitError (Unit {0})
unfolding manifest_of_fields check_manifest
check_fields m [] = err empty_exec_start
check_fields m (f ∷ fs) =
    if not (equal (base f) binary)
    then err (wrong_binary (base f))
    else if not (has_member fs (codes "serve"))
    then err no_serve
    else check_manifest m (manifest_of_fields [] (f ∷ fs))

-- `validateUnit`; `none` is a file that cannot be read.
unfoldable pub validate_unit : Manifest → Option Bytes → Result UnitError (Unit {0})
unfolding exec_of_lines check_fields
validate_unit m none = err unread
validate_unit m (some text) =
    let exec = exec_of_lines (split text 10) in
    if is_empty exec then err no_exec_start else check_fields m (fields exec)
