-- ===== src/Throttlers/TokenBucket.antt =====
-- throttling/token_bucket.py. Tokens are tally in ticks: a byte is `ticks_per_second` of them.
use sdownload.Prelude.{
  ℕ, ◌+◌, ◌-◌, ◌*◌, Bool, ◌&&◌, Option, none, some, List, [], ◌∷◌, ◌==◌, leb, ltb, if◌then◌else◌,
  min,
}
use sdownload.Exceptions.{Result, ok, err, zero_division_error}
use sdownload.Throttlers.{Piece, Counted, count, is_target}

-- `TokenBucketThrottler`; the burst is a number of ticks too.
pub record TokenBucket : Type 0 where
  pub ticks_per_second : ℕ
  pub burst : ℕ
  pub min_chunk_size : ℕ
  pub max_sleep : ℕ

pub record Bucket : Type 0 where
  pub tally : Counted
  pub last_check : ℕ
  pub tokens : ℕ
  pub accumulated_since_check : ℕ
  pub last_target : Option ℕ

module _ (self : TokenBucket) where
  abbrev pub refill : ℕ → ℕ → Bucket → Bucket
  refill target now b = if is_target target b.last_target then b else record b {
    tokens = target * self.burst;
    last_check = now;
    accumulated_since_check = 0;
    last_target = some target;
  }

  -- `accumulated_since_check >= threshold`, with a twentieth of the target.
  abbrev pub is_due : ℕ → Bucket → Bool
  is_due target b =
      leb self.min_chunk_size b.accumulated_since_check
      && leb target (b.accumulated_since_check * 20)

  -- The tokens at the time `now`, at most a full bucket.
  abbrev pub tokens_at : ℕ → ℕ → Bucket → ℕ
  tokens_at target now b = min (b.tokens + (now - b.last_check) * target) (target * self.burst)

  -- What the pieces since the last check cost.
  abbrev pub cost : Bucket → ℕ
  cost b = b.accumulated_since_check * self.ticks_per_second

  -- The bucket is emptied, and the sleep is over.
  abbrev pub overdraw : Piece → Bucket → Bucket
  overdraw piece b = record b {
    last_check = piece.after_sleep;
    tokens = 0;
    accumulated_since_check = 0;
  }

  abbrev pub spend : ℕ → Piece → Bucket → Bucket
  spend target piece b = record b {
    last_check = piece.now;
    tokens = tokens_at target piece.now b - cost b;
    accumulated_since_check = 0;
  }

  abbrev pub check_bucket : ℕ → Piece → Bucket → Result Bucket
  check_bucket target piece b =
      if is_due target b
      then if ltb (tokens_at target piece.now b) (cost b)
        then if target == 0 then err zero_division_error else ok (overdraw piece b)
        else ok (spend target piece b)
      else ok b

  abbrev pub add_size : ℕ → Bucket → Bucket
  add_size size b = record b { accumulated_since_check = b.accumulated_since_check + size }

  abbrev pub throttle : Option ℕ → Piece → Bucket → Result Bucket
  throttle none piece b = ok b
  throttle (some target) piece b =
      check_bucket target piece (add_size piece.size (refill target piece.changed_at b))

  -- One round of the loop of `wrap`.
  unfoldable pub wrap_piece : Piece → Bucket → Result Bucket
  wrap_piece piece b = throttle piece.target piece (record b { tally = count piece.size b.tally })

  abbrev pub wrap_then : Result Bucket → (Bucket → Result Bucket) → Result Bucket
  wrap_then (err e) f = err e
  wrap_then (ok b) f = f b

  -- The loop over the pieces.
  unfoldable pub wrap : List Piece → Bucket → Result Bucket
  wrap [] b = ok b
  wrap (piece ∷ pieces) b = wrap_then (wrap_piece piece b) (wrap pieces)

  -- The bucket before the first piece.
  abbrev pub new_bucket : Counted → ℕ → Bucket
  new_bucket tally now = record {
    tally = tally;
    last_check = now;
    tokens = 0;
    accumulated_since_check = 0;
    last_target = none;
  }
