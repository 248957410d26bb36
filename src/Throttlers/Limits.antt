-- ===== src/Throttlers/Limits.antt =====
-- How much the fixed window lets through.
use sdownload.Prelude.{
  ℕ, ◌+◌, ◌-◌, ◌*◌, ◌≤◌, true, some, List, [], ◌∷◌, ◌≡◌, arith, ap, ◌∙◌, if◌then◌else◌,
}
use sdownload.Throttlers.{Piece, count, requested}
use sdownload.Throttlers.FixedWindow.{FixedWindow, Window, reaches, needed, close_window, add_size}

abbrev pub total_size : List Piece → ℕ
total_size [] = 0
total_size (piece ∷ pieces) = piece.size + total_size pieces

spread : (a d t : ℕ) → t * a + d * t ≡ t * (a + d)
spread a d t = omega arith

-- The ticks between two readings, times the target.
pub span : (a b t : ℕ) → a ≤ b → t * a + (b - a) * t ≡ t * b
span a b t h = let e : a + (b - a) ≡ b = omega arith in spread a (b - a) t ∙ ap (λ x. t * x) e

module _ (self : FixedWindow) (target : ℕ) where
  -- Where the window is checked, the clock does not go back, and a sleep lasts as long as it is asked to, which is not cut.
  abbrev pub IsTimely : Piece → Window → Type 0
  IsTimely piece w =
      reaches self w.accumulated w.byte_threshold ≡ true
      → (w.last_check ≤ piece.now)
        × (piece.now ≤ piece.after_sleep)
        × (needed self target piece.now w ≤ self.max_sleep * target)
        × (requested target self.max_sleep (needed self target piece.now w)
            ≤ (piece.after_sleep - piece.now) * target)

  -- The window after a piece, at a target that stays.
  abbrev pub next_window : Piece → Window → Window
  next_window piece w =
      let w1 = add_size self piece.size (record w { tally = count piece.size w.tally }) in
      if reaches self w1.accumulated w1.byte_threshold
      then close_window self target piece w1
      else w1

  abbrev pub AreTimely : List Piece → Window → Type 0
  AreTimely [] w = Unit
  AreTimely (piece ∷ pieces) w =
      (piece.target ≡ some target)
      × IsTimely piece (add_size self piece.size w)
      × AreTimely pieces (next_window piece w)

  -- What was let through from one window to the other is what the target allows, and the bytes that
  -- wait for the next check.
  abbrev pub Allows : ℕ → Window → Window → Type 0
  Allows size w w1 =
      (w.accumulated + size) * self.ticks_per_second + target * w.last_check
      ≤ target * w1.last_check + w1.accumulated * self.ticks_per_second
