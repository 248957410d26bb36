-- ===== src/Stats.antt =====
-- interfaces/models/stats_models.py: the counters of a chunk and of a download. The clock is a number
-- of ticks that the caller reads; a quotient of floats is the pair of its two numbers.
pub mod Observer
use sdownload.Prelude.{
  ℕ, ◌+◌, ◌*◌, Bool, true, false, Option, none, some, List, [], ◌∷◌, ltb, leb, if◌then◌else◌, ◌==◌,
}
use sdownload.Prelude.Int.{ℤ, pos, ◌-ℤ◌, eqb_ℤ, ltb_ℤ}
use sdownload.Models.Text.{Text}
use sdownload.Models.Range.{ChunkRange}
use sdownload.Exceptions.{Exc, Result, ok, err, value_error}

-- `EDownloadStatus`
pub data DownloadStatus : Type 0 where
  pending downloading awaiting_succession deprecated completed cancelled error : DownloadStatus

abbrev pub is_completed : DownloadStatus → Bool
is_completed completed = true
is_completed _ = false

-- A quotient of the source, not yet rounded to a float.
pub record Quotient : Type 0 where
  pub num : ℤ
  pub den : ℤ

-- The method that `add_qt_bytes_downloaded` is bound to.
pub data Adder : Type 0 where
  no_limit with_limit : Adder

-- The closure of `create_succession_stop_callback`, as its two ranges.
pub record StopCallback : Type 0 where
  pub current_range : ChunkRange
  pub new_range : ChunkRange

pub record ChunkDownloadStats : Type 0 where
  pub chunk_file_name : Text
  pub range : ChunkRange
  pub file_size : Option ℤ
  pub bytes_downloaded : ℕ
  pub qt_bytes_last_update : ℕ
  pub progress : Option Quotient
  pub speed_bps : Quotient
  pub status : DownloadStatus
  pub start_time : ℕ
  pub last_update : ℕ
  pub target_speed_bps : Option ℕ
  pub limit_qt_bytes : ℕ
  pub on_limit : Option StopCallback
  pub last_error : Option Exc
  pub adder : Adder

-- The dataclass with its defaults, made at the time `now`.
abbrev pub new_stats :
    Text → ChunkRange → Option ℤ → DownloadStatus → Option ℕ → ℕ → ChunkDownloadStats
new_stats chunk_file_name range file_size status target_speed_bps now = record {
  chunk_file_name = chunk_file_name;
  range = range;
  file_size = file_size;
  bytes_downloaded = 0;
  qt_bytes_last_update = 0;
  progress = none;
  speed_bps = record { num = pos 0; den = pos 1 };
  status = status;
  start_time = now;
  last_update = now;
  target_speed_bps = target_speed_bps;
  limit_qt_bytes = 0;
  on_limit = none;
  last_error = none;
  adder = no_limit;
}

-- `_add_no_limit`
abbrev pub add_no_limit : ℕ → ChunkDownloadStats → ChunkDownloadStats
add_no_limit qt_bytes self = record self { bytes_downloaded = self.bytes_downloaded + qt_bytes }

-- `_add_with_limit`, with the callback that it calls.
abbrev pub add_with_limit : ℕ → ChunkDownloadStats → ChunkDownloadStats × Option StopCallback
add_with_limit qt_bytes self =
    if leb self.limit_qt_bytes (self.bytes_downloaded + qt_bytes)
    then (
      record self {
        bytes_downloaded = self.bytes_downloaded + qt_bytes;
        on_limit = none;
        adder = no_limit;
      },
      self.on_limit,
    )
    else (record self { bytes_downloaded = self.bytes_downloaded + qt_bytes }, none)

-- `stats.add_qt_bytes_downloaded(n)` calls the method that it is bound to.
abbrev pub add_by : Adder → ℕ → ChunkDownloadStats → ChunkDownloadStats × Option StopCallback
add_by no_limit qt_bytes self = (add_no_limit qt_bytes self, none)
add_by with_limit qt_bytes self = add_with_limit qt_bytes self

abbrev pub add_qt_bytes_downloaded :
    ℕ → ChunkDownloadStats → ChunkDownloadStats × Option StopCallback
add_qt_bytes_downloaded qt_bytes self = add_by self.adder qt_bytes self

unfoldable pub add_limit_observer :
    ℕ → StopCallback → ChunkDownloadStats → ChunkDownloadStats × Option StopCallback
add_limit_observer qt_max_useful_bytes callback self =
    if leb qt_max_useful_bytes self.bytes_downloaded then (self, some callback) else (
      record self {
        limit_qt_bytes = qt_max_useful_bytes;
        on_limit = some callback;
        adder = with_limit;
      },
      none,
    )

abbrev pub remove_limit_observer : ChunkDownloadStats → ChunkDownloadStats
remove_limit_observer self = record self { on_limit = none; limit_qt_bytes = 0; adder = no_limit }

abbrev pub set_status : DownloadStatus → ChunkDownloadStats → Result ChunkDownloadStats
set_status error self = err value_error
set_status status self = ok (record self { status = status })

abbrev pub set_error : Exc → ChunkDownloadStats → ChunkDownloadStats
set_error exc self = record self { status = error; last_error = some exc }

abbrev pub size_progress : ℕ → Option ℤ → Option Quotient
size_progress bytes none = none
size_progress bytes (some size) =
    if eqb_ℤ size (pos 0) then none else some (record { num = pos (100 * bytes); den = size })

abbrev pub speed : ℤ → ℤ → Quotient
speed bytes time =
    if ltb_ℤ (pos 0) time
    then record { num = bytes; den = time }
    else record { num = pos 0; den = pos 1 }

-- `ChunkDownloadStats.update` at the time `now`
abbrev pub update_chunk : ℕ → ChunkDownloadStats → ChunkDownloadStats
update_chunk now self =
    let qt_bytes_elapsed = pos self.bytes_downloaded -ℤ pos self.qt_bytes_last_update in
    let time_elapsed = pos now -ℤ pos self.last_update in
    record self {
      qt_bytes_last_update = self.bytes_downloaded;
      progress = size_progress self.bytes_downloaded self.file_size;
      speed_bps = speed qt_bytes_elapsed time_elapsed;
      last_update = if ltb_ℤ (pos 0) qt_bytes_elapsed then now else self.last_update;
    }

pub record DownloadStats : Type 0 where
  pub file_size : ℤ
  pub bytes_downloaded : ℕ
  pub qt_bytes_last_update : ℕ
  pub progress : Quotient
  pub speed_bps : Quotient
  pub avg_speed_bps : Quotient
  pub start_time : ℕ
  pub last_update : ℕ

abbrev pub add_bytes : ℕ → DownloadStats → DownloadStats
add_bytes qt_bytes self = record self { bytes_downloaded = self.bytes_downloaded + qt_bytes }

abbrev pub set_bytes_downloaded : ℕ → DownloadStats → DownloadStats
set_bytes_downloaded qt_bytes self = record self { bytes_downloaded = qt_bytes }

-- `DownloadStats.update` at the time `now`
abbrev pub update_download : ℕ → DownloadStats → DownloadStats
update_download now self =
    let qt_bytes_elapsed = pos self.bytes_downloaded -ℤ pos self.qt_bytes_last_update in
    let time_elapsed_period = pos now -ℤ pos self.last_update in
    record self {
      progress =
          if ltb_ℤ (pos 0) self.file_size
          then record { num = pos (100 * self.bytes_downloaded); den = self.file_size }
          else record { num = pos 0; den = pos 1 };
      avg_speed_bps = speed (pos self.bytes_downloaded) (pos now -ℤ pos self.start_time);
      qt_bytes_last_update = self.bytes_downloaded;
      speed_bps = speed qt_bytes_elapsed time_elapsed_period;
      last_update = if ltb_ℤ (pos 0) qt_bytes_elapsed then now else self.last_update;
    }
