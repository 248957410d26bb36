-- ===== src/Strategies/Sequential/Issues.antt =====
-- In which order, and how many at a time, the planned ranges are started.
use native.Mathlib.Decide.{dec_le}
use sdownload.Prelude.{
  inr, none, drop_all, inl, take_all, drop-drop, take-add, List-cases, ℕ, ◌+◌, ◌≡◌, refl, ◌∙◌, sym,
  ap, List, [], ◌∷◌, ◌++◌, take, drop, length, arith, concat, min, zero, suc,
}
use sdownload.Prelude.Int.{ℤ, pos, negsuc, pos_part}
use sdownload.Models.Action.{start_chunk, StrategyAction, starts}
use sdownload.Models.Range.{ChunkRange}
use sdownload.Strategies.Sequential.{SequentialStrategy, issue_pending, pop_ranges, on_update}

pop_ranges-eq :
    (slots : ℕ) (ranges : List ChunkRange)
    → pop_ranges slots ranges ≡ (starts (take slots ranges), drop slots ranges)
pop_ranges-eq zero ranges = refl
pop_ranges-eq (suc slots) [] = refl
pop_ranges-eq (suc slots) (r ∷ ranges) = rw (pop_ranges-eq slots ranges) refl

pop_ranges-all :
    (slots : ℕ) (ranges : List ChunkRange)
    → pop_ranges (min slots (length ranges)) ranges
      ≡ (starts (take slots ranges), drop slots ranges)
pop_ranges-all slots ranges = elim (dec_le slots (length ranges)) [
  | yes enough ↦
      let e : min slots (length ranges) ≡ slots = omega arith in
      ap (λ k. pop_ranges k ranges) e ∙ pop_ranges-eq slots ranges
  | no few ↦
      let e : min slots (length ranges) ≡ length ranges = omega arith in
      ap (λ k. pop_ranges k ranges) e
      ∙ (pop_ranges-eq (length ranges) ranges
          ∙ rw
              (
                take_all slots ranges (omega arith),
                drop_all slots ranges (omega arith),
                take_all (length ranges) ranges (omega arith),
                drop_all (length ranges) ranges (omega arith),
              )
              refl)
]

-- The connections of one round: no more than are available, and as many as there is work for.
pub issue_pending-eq :
    (slots : ℤ) (self : SequentialStrategy)
    → issue_pending slots self ≡ (
      starts (take (pos_part slots) self.pending_ranges),
      record self { pending_ranges = drop (pos_part slots) self.pending_ranges },
    )
unfolding issue_pending
issue_pending-eq (negsuc n) self = ground arith
issue_pending-eq (pos zero) self = ground arith
issue_pending-eq (pos (suc n)) self = elim (List-cases self.pending_ranges) [
  | inl nothing ↦ ground arith
  | inr (r, ranges, e) ↦ ground (arith, pop_ranges-all (suc n) self.pending_ranges)
]

starts-append : (a b : List ChunkRange) → starts (a ++ b) ≡ starts a ++ starts b
starts-append [] b = refl
starts-append (r ∷ a) b = ap (λ t. start_chunk r none ∷ t) (starts-append a b)

pub starts_add :
    (m n : ℕ) (ranges : List ChunkRange)
    → starts (take (m + n) ranges) ≡ starts (take m ranges) ++ starts (take n (drop m ranges))
starts_add m n ranges =
    ap starts (take-add m n ranges) ∙ starts-append (take m ranges) (take n (drop m ranges))

-- The updates of a download, with the balance that each finds: the actions, round by round.
abbrev pub updates : List ℤ → SequentialStrategy → List (List StrategyAction) × SequentialStrategy
updates [] self = ([], self)
updates (slots ∷ rounds) self =
    let (actions, self1) = on_update slots self in
    let (later, self2) = updates rounds self1 in (actions ∷ later, self2)

abbrev pub total_slots : List ℤ → ℕ
total_slots [] = 0
total_slots (slots ∷ rounds) = pos_part slots + total_slots rounds

-- Over any number of updates the planned ranges are started in their order, each once, as many in
-- all as there were connections available; what is left waits.
pub updates-eq :
    (rounds : List ℤ) (self : SequentialStrategy)
    → (concat (updates rounds self).0 ≡ starts (take (total_slots rounds) self.pending_ranges))
      × ((updates rounds self).1.pending_ranges ≡ drop (total_slots rounds) self.pending_ranges)
unfolding on_update
updates-eq [] self = (refl, refl)
updates-eq (slots ∷ rounds) self =
    let later =
      updates-eq rounds
        (record self { pending_ranges = drop (pos_part slots) self.pending_ranges }) in
    rw (issue_pending-eq slots self, later.0, later.1)
      (
        sym (starts_add (pos_part slots) (total_slots rounds) self.pending_ranges),
        drop-drop (total_slots rounds) (pos_part slots) self.pending_ranges,
      )
