-- ===== src/Throttlers/Bursts.antt =====
-- How much the token bucket lets through.
use sdownload.Prelude.{ℕ, ◌+◌, ◌-◌, ◌*◌, ◌≤◌, true, some, List, [], ◌∷◌, ◌≡◌, if◌then◌else◌, ltb}
use sdownload.Throttlers.{Piece, count, requested}
use sdownload.Throttlers.TokenBucket.{
  TokenBucket, Bucket, is_due, tokens_at, cost, overdraw, spend, add_size,
}

module _ (self : TokenBucket) (target : ℕ) where
  -- Where the bucket is checked, the clock does not go back, and a sleep lasts as long as it is asked to, which is not cut.
  abbrev pub IsTimely : Piece → Bucket → Type 0
  IsTimely piece b =
      let needed = cost self b - tokens_at self target piece.now b in
      is_due self target b ≡ true
      → (b.last_check ≤ piece.now)
        × (piece.now ≤ piece.after_sleep)
        × (needed ≤ self.max_sleep * target)
        × (requested target self.max_sleep needed ≤ (piece.after_sleep - piece.now) * target)

  abbrev checked : Piece → Bucket → Bucket
  checked piece b =
      if ltb (tokens_at self target piece.now b) (cost self b)
      then overdraw self piece b
      else spend self target piece b

  -- The bucket after a piece, at a target that stays.
  abbrev pub next_bucket : Piece → Bucket → Bucket
  next_bucket piece b =
      let b1 = add_size self piece.size (record b { tally = count piece.size b.tally }) in
      if is_due self target b1 then checked piece b1 else b1

  abbrev pub AreTimely : List Piece → Bucket → Type 0
  AreTimely [] b = Unit
  AreTimely (piece ∷ pieces) b =
      (piece.target ≡ some target)
      × IsTimely piece (add_size self piece.size b)
      × AreTimely pieces (next_bucket piece b)

  -- What was let through from one bucket to the other is what the target allows by the last check,
  -- what the first had more tokens than the second, and the bytes that wait for the next check.
  abbrev pub Allows : ℕ → Bucket → Bucket → Type 0
  Allows size b b1 =
      (b.accumulated_since_check + size) * self.ticks_per_second + b1.tokens + target * b.last_check
      ≤ b.tokens + target * b1.last_check + b1.accumulated_since_check * self.ticks_per_second
