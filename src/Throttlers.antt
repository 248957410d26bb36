-- ===== src/Throttlers.antt =====
-- services/downloader_manager/throttling/: the two throttlers that a download's pieces pass through.
-- Time is a number of ticks, `ticks_per_second` of them in a second, and the readings of the clock
-- are part of the input; a quotient is compared by its two numbers.
pub mod FixedWindow
pub mod TokenBucket
pub mod Limits
pub mod Bursts
use sdownload.Prelude.{
  ℕ, ◌+◌, ◌-◌, ◌*◌, Bool, true, false, Option, none, some, List, [], ◌∷◌, ◌++◌, ◌==◌, min,
}
use sdownload.Stats.{ChunkDownloadStats, StopCallback, add_qt_bytes_downloaded}

-- A piece of the stream, the target speed after it was yielded, and what the clock reads where the
-- throttler asks it: when the target changes, at the check, and after the sleep.
pub record Piece : Type 0 where
  pub size : ℕ
  pub target : Option ℕ
  pub changed_at : ℕ
  pub now : ℕ
  pub after_sleep : ℕ

-- The counters, and the callbacks that counting has called.
pub record Counted : Type 0 where
  pub stats : ChunkDownloadStats
  pub callbacks : List StopCallback

abbrev pub as_list : Option StopCallback → List StopCallback
as_list none = []
as_list (some callback) = callback ∷ []

-- `stats.add_qt_bytes_downloaded(size)`
abbrev pub count : ℕ → Counted → Counted
count size self =
    let (stats, callback) = add_qt_bytes_downloaded size self.stats in
    record { stats = stats; callbacks = self.callbacks ++ as_list callback }

-- `target != last_target`, of a target that is not `None`.
abbrev pub is_target : ℕ → Option ℕ → Bool
is_target target none = false
is_target target (some last) = target == last

-- What a sleep of `needed / target` ticks is cut to, in the same unit.
abbrev pub requested : ℕ → ℕ → ℕ → ℕ
requested target max_sleep needed = min needed (max_sleep * target)
