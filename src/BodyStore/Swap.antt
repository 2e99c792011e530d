-- ===== src/BodyStore/Swap.antt =====
-- src/utils/body-record.ts, appendInPlace, appendViaTempFile and appendRecord over three paths of a
-- disk, under any failures of the file system. A write that fails leaves the bytes written so far.
pub mod Failures
use model_proxy_v.Base.{
  ℕ, Bool, true, false, not, ◌&&◌, List, ◌++◌, Option, none, some, if◌then◌else◌, take,
}
use model_proxy_v.BodyStore.Tail.{serialize_tail}
use model_proxy_v.BodyStore.Records.{append_record, tail_for}

abbrev pub Bytes : Type 0
Bytes = List ℕ

-- `filePath`, `tmpPath` and `oldPath`; `none`: no such file.
pub record Disk : Type 0 where
  pub file : Option Bytes
  pub tmp : Option Bytes
  pub old : Option Bytes

-- Which call fails. `copy_fails` holds what the copy leaves behind, and `write_fails` the number of
-- bytes that reach the file.
pub record Faults : Type 0 where
  pub open_in_place_fails : Bool
  pub copy_fails : Option (Option Bytes)
  pub stat_fails : Bool
  pub open_copy_fails : Bool
  pub write_fails : Option ℕ
  pub close_fails : Bool
  pub chmod_fails : Bool
  pub rename_fails : Bool
  pub swap_fails : Bool
  pub restore_fails : Bool
  pub unlink_old_fails : Bool
  pub unlink_tmp_fails : Bool

-- The disk, and whether the call returned (`false`: it threw).
abbrev pub Ran : Type 0
Ran = Disk × Bool

-- The bytes that appendToOpenFile writes behind a file.
abbrev pub new_record : Bytes → Bytes → Bytes
new_record bytes payload = payload ++ serialize_tail (tail_for bytes payload)

-- appendToOpenFile: the file behind it.
unfoldable pub write_record : Option ℕ → Bytes → Bytes → Bytes
write_record none bytes payload = append_record bytes payload
write_record (some n) bytes payload = bytes ++ take n (new_record bytes payload)

abbrev pub is_written : Option ℕ → Bool
is_written none = true
is_written (some n) = false

-- `rename(tmpPath, filePath)` alone, or with the original renamed aside first.
unfoldable pub replace_original : Bool → Faults → Disk → Ran
replace_original swap_away_self f d =
    if f.rename_fails
    then (d, false)
    else if swap_away_self
    then (if f.swap_fails
        then ((if f.restore_fails then record d { file = none; old = d.file } else d), false)
        else (
          record d { file = d.tmp; tmp = none; old = if f.unlink_old_fails then d.file else none },
          true,
        ))
    else (record d { file = d.tmp; tmp = none }, true)

-- `catch (err) { unlink(tmpPath); throw err; }`
unfoldable pub clean_up : Faults → Ran → Ran
clean_up f (d, true) = (d, true)
clean_up f (d, false) = ((if f.unlink_tmp_fails then d else record d { tmp = none }), false)

unfoldable pub fill_copy : Bool → Bytes → Faults → Disk → Bytes → Ran
unfolding write_record
fill_copy swap_away_self payload f d bytes =
    let filled = record d { tmp = some (write_record f.write_fails bytes payload) } in
    if f.open_copy_fails
    then (record d { tmp = some bytes }, false)
    else if is_written f.write_fails && not f.close_fails && not f.chmod_fails
    then replace_original swap_away_self f filled
    else (filled, false)

abbrev pub after_stat : Bool → Bool → Bytes → Faults → Disk → Bytes → Ran
after_stat true swap_away_self payload f d bytes = (record d { tmp = some bytes }, false)
after_stat false swap_away_self payload f d bytes =
    clean_up f (fill_copy swap_away_self payload f d bytes)

abbrev pub after_copy : Bool → Bytes → Faults → Disk → Bytes → Option (Option Bytes) → Ran
after_copy swap_away_self payload f d bytes (some left) = (record d { tmp = left }, false)
after_copy swap_away_self payload f d bytes none =
    after_stat f.stat_fails swap_away_self payload f d bytes

-- Over the file at the path.
abbrev pub copy_and_append : Option Bytes → Bool → Bytes → Faults → Disk → Ran
copy_and_append none swap_away_self payload f d = (d, false)
copy_and_append (some bytes) swap_away_self payload f d =
    after_copy swap_away_self payload f d bytes f.copy_fails

unfoldable pub append_via_temp_file : Bool → Bytes → Faults → Disk → Ran
append_via_temp_file swap_away_self payload f d = copy_and_append d.file swap_away_self payload f d

-- `none`: the file could not be opened for writing.
abbrev pub open_and_append : Option Bytes → Bool → Bytes → Faults → Disk → Option Ran
open_and_append (some bytes) false payload f d = some (
  record d { file = some (write_record f.write_fails bytes payload) },
  is_written f.write_fails && not f.close_fails,
)
open_and_append _ _ payload f d = none

unfoldable pub append_in_place : Bytes → Faults → Disk → Option Ran
append_in_place payload f d = open_and_append d.file f.open_in_place_fails payload f d

-- `if (windowsSwap && (await appendInPlace(...))) return;`
abbrev pub or_via_temp : Option Ran → Bytes → Faults → Disk → Ran
or_via_temp (some ran) payload f d = ran
or_via_temp none payload f d = append_via_temp_file true payload f d

unfoldable pub append_to_disk : Bool → Bytes → Faults → Disk → Ran
append_to_disk true payload f d = or_via_temp (append_in_place payload f d) payload f d
append_to_disk false payload f d = append_via_temp_file false payload f d
