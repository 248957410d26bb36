-- ===== src/Throttlers/FixedWindow.antt =====
-- throttling/fixed_window.py
use sdownload.Prelude.{
  ℕ, ◌+◌, ◌-◌, ◌*◌, Bool, true, ◌&&◌, ◌||◌, Option, none, some, List, [], ◌∷◌, ◌==◌, leb, ltb,
  if◌then◌else◌,
}
use sdownload.Exceptions.{Result, ok, err, zero_division_error}
use sdownload.Throttlers.{Piece, Counted, count, is_target}

-- `FixedWindowThrottler`
pub record FixedWindow : Type 0 where
  pub ticks_per_second : ℕ
  pub interval_ms : ℕ
  pub min_chunk_size : ℕ
  pub max_sleep : ℕ

-- The variables of `wrap`; a threshold is the target that it is computed for.
pub record Window : Type 0 where
  pub tally : Counted
  pub last_check : ℕ
  pub accumulated : ℕ
  pub last_target : Option ℕ
  pub byte_threshold : Option ℕ

module _ (self : FixedWindow) where
  -- `accumulated >= calc_threshold(target)`
  abbrev pub reaches : ℕ → Option ℕ → Bool
  reaches accumulated none = true
  reaches accumulated (some target) =
      (target == 0)
      || (leb self.min_chunk_size accumulated
          && leb (target * self.interval_ms) (accumulated * 1000))

  -- The window of a new target.
  abbrev pub retarget : ℕ → ℕ → Window → Window
  retarget target now w = if is_target target w.last_target then w else record w {
    byte_threshold = some target;
    last_check = now;
    accumulated = 0;
    last_target = some target;
  }

  -- `elapsed < expected`
  abbrev pub is_early : ℕ → ℕ → Window → Bool
  is_early target now w =
      ltb ((now - w.last_check) * target) (w.accumulated * self.ticks_per_second)

  -- `expected - elapsed`, times the target.
  abbrev pub needed : ℕ → ℕ → Window → ℕ
  needed target now w = w.accumulated * self.ticks_per_second - (now - w.last_check) * target

  -- The check of a full window, with the sleep where it is early.
  abbrev pub close_window : ℕ → Piece → Window → Window
  close_window target piece w = record w {
    last_check = if is_early target piece.now w then piece.after_sleep else piece.now;
    accumulated = 0;
    byte_threshold = some target;
  }

  abbrev pub check_window : ℕ → Piece → Window → Result Window
  check_window target piece w =
      if reaches w.accumulated w.byte_threshold
      then if target == 0 then err zero_division_error else ok (close_window target piece w)
      else ok w

  abbrev pub add_size : ℕ → Window → Window
  add_size size w = record w { accumulated = w.accumulated + size }

  abbrev pub throttle : Option ℕ → Piece → Window → Result Window
  throttle none piece w = ok w
  throttle (some target) piece w =
      check_window target piece (add_size piece.size (retarget target piece.changed_at w))

  -- One round of the loop of `wrap`.
  unfoldable pub wrap_piece : Piece → Window → Result Window
  wrap_piece piece w = throttle piece.target piece (record w { tally = count piece.size w.tally })

  abbrev pub wrap_then : Result Window → (Window → Result Window) → Result Window
  wrap_then (err e) f = err e
  wrap_then (ok w) f = f w

  -- The loop over the pieces.
  unfoldable pub wrap : List Piece → Window → Result Window
  wrap [] w = ok w
  wrap (piece ∷ pieces) w = wrap_then (wrap_piece piece w) (wrap pieces)

  -- The window before the first piece.
  abbrev pub new_window : Counted → Option ℕ → ℕ → Window
  new_window tally target now = record {
    tally = tally;
    last_check = now;
    accumulated = 0;
    last_target = none;
    byte_threshold = target;
  }
