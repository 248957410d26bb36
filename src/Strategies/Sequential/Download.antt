-- ===== src/Strategies/Sequential/Download.antt =====
-- A whole download by the sequential strategy.
use sdownload.Prelude.{
  ℕ, ◌+◌, ◌<◌, ◌≡◌, refl, ap, sym, ◌∙◌, true, false, List, ◌++◌, take, drop, arith, concat,
}
use sdownload.Prelude.Int.{ℤ, pos, pos_part}
use sdownload.Prelude.Sort.{sorted}
use sdownload.Models.Action.{StrategyAction, starts}
use sdownload.Models.Range.{ChunkRange}
use sdownload.Exceptions.{ok}
use sdownload.Ranges.Split.{calculate_ranges}
use sdownload.Ranges.Split.Tiling.{Separate, Tiles, calculate_ranges-Tiles}
use sdownload.Strategies.{cached, parts_for}
use sdownload.Strategies.Sequential.{
  SequentialStrategy, on_start, planned, issued_by, calc_initial_ranges,
}
use sdownload.Strategies.Sequential.Issues.{
  issue_pending-eq, updates, updates-eq, total_slots, starts_add,
}

planned-eq :
    (n : ℕ) (self : SequentialStrategy)
    → self.initialized ≡ false
    → self.use_chunked_download ≡ true
    → 0 < self.max_conn
    → 0 < n
    → planned (pos n) self
      ≡ ok (record self {
        pending_ranges = calculate_ranges n (parts_for self.max_conn n) (cached self.cache);
        initialized = true;
      })
unfolding calc_initial_ranges
planned-eq n self i u m h = ground arith

on_start-eq :
    (n : ℕ) (slots : ℤ) (self : SequentialStrategy)
    → self.initialized ≡ false
    → self.use_chunked_download ≡ true
    → 0 < self.max_conn
    → 0 < n
    → let ranges = calculate_ranges n (parts_for self.max_conn n) (cached self.cache) in
      on_start (pos n) false slots self ≡ (
        ok (starts (take (pos_part slots) ranges)),
        record self { pending_ranges = drop (pos_part slots) ranges; initialized = true },
      )
unfolding on_start issued_by
on_start-eq n slots self i u m h =
    let ranges = calculate_ranges n (parts_for self.max_conn n) (cached self.cache) in
    ap (λ r. issued_by slots self r) (planned-eq n self i u m h)
    ∙ rw (issue_pending-eq slots (record self { pending_ranges = ranges; initialized = true })) refl

-- A new strategy that cuts files into chunks, with a connection limit above 0 and a cache of separate
-- ranges, plans ranges that tile a file that is not empty. The start and all later updates together
-- start the first of them in order, each once, as many as there were connections available.
pub sequential_download-starts :
    (n : ℕ) (slots : ℤ) (rounds : List ℤ) (self : SequentialStrategy)
    → self.initialized ≡ false
    → self.use_chunked_download ≡ true
    → 0 < self.max_conn
    → 0 < n
    → Separate n 0 (sorted (λ x. x.start) (cached self.cache))
    → (ranges : List ChunkRange) × (first : List StrategyAction) × Tiles n 0 ranges
      × ((on_start (pos n) false slots self).0 ≡ ok first)
      × (first ++ concat (updates rounds (on_start (pos n) false slots self).1).0
          ≡ starts (take (pos_part slots + total_slots rounds) ranges))
sequential_download-starts n slots rounds self i u m h sep =
    let ranges = calculate_ranges n (parts_for self.max_conn n) (cached self.cache) in
    let later =
      updates-eq rounds
        (record self { pending_ranges = drop (pos_part slots) ranges; initialized = true }) in
    (
      ranges,
      starts (take (pos_part slots) ranges),
      calculate_ranges-Tiles n (parts_for self.max_conn n) (cached self.cache) sep,
      rw (on_start-eq n slots self i u m h) refl,
      rw (on_start-eq n slots self i u m h, later.0)
          (sym (starts_add (pos_part slots) (total_slots rounds) ranges)),
    )
