-- ===== src/Manager/Resizes.antt =====
-- `resize_chunk` keeps the stats and the tasks together.
use sdownload.Prelude.{
  ℕ, ◌≡◌, refl, ◌∙◌, false, Option, none, some, inl, inr, Bool-cases, leb, not, ◌&&◌, ◌||◌, ◌==◌,
}
use sdownload.Prelude.Dict.{lookup, insert, lookup-insert_self}
use sdownload.Models.Range.{ChunkRange, range_eq, range_beq, contains_range}
use sdownload.Stats.{
  ChunkDownloadStats, StopCallback, awaiting_succession, is_completed, add_limit_observer,
}
use sdownload.Manager.{
  ChunkManager, registered_stats, is_running, succession, succession_limit, observed, resize_to,
  resize_known, resize_chunk,
}
use sdownload.Manager.Tracks.{IsTracked, IsKeyed-insert, HaveStats-insert, HaveStats-more}

add_limit_observer-range :
    (limit : ℕ) (callback : StopCallback) (stats : ChunkDownloadStats)
    → (add_limit_observer limit callback stats).0.range ≡ stats.range
unfolding add_limit_observer
add_limit_observer-range limit callback stats =
    elim (Bool-cases (leb limit stats.bytes_downloaded)) [
      | inl reached ↦ rw reached refl
      | inr below ↦ rw below refl
    ]

observed-range :
    (current new : ChunkRange) (stats : ChunkDownloadStats)
    → (observed current new stats).0.range ≡ stats.range
observed-range current new stats =
    elim (Bool-cases (not (succession_limit current new == 0) && is_running stats.status)) [
      | inl limited ↦ rw limited (
          add_limit_observer-range (succession_limit current new)
            (record { current_range = current; new_range = new }) stats)
      | inr free ↦ rw free refl
    ]

resize_to-IsTracked :
    (current new : ChunkRange) (stats_a : ChunkDownloadStats) (now : ℕ) (self : ChunkManager)
    → stats_a.range ≡ current
    → IsTracked self
    → IsTracked (resize_to current new stats_a now self).0
resize_to-IsTracked current new stats_a now self e (h, keyed) =
    let st = registered_stats new stats_a.target_speed_bps awaiting_succession now self in
    let stats_a1 = (observed current new stats_a).0 in
    let stats1 = insert new st self.chunks_stats in
    (
      HaveStats-more current stats_a1 stats1
          (insert new (record { work = succession current new; init_signal = false })
            self.chunks_tasks)
          (HaveStats-insert new (record { work = succession current new; init_signal = false }) st
            stats1 self.chunks_tasks (lookup-insert_self new st self.chunks_stats)
            (HaveStats-more new st self.chunks_stats self.chunks_tasks h)),
      IsKeyed-insert current stats_a1 stats1 (observed-range current new stats_a ∙ e)
          (IsKeyed-insert new st self.chunks_stats refl keyed),
    )

resize_known-IsTracked :
    (current new : ChunkRange) (known : Option ChunkDownloadStats) (now : ℕ) (self : ChunkManager)
    → lookup current self.chunks_stats ≡ known
    → IsTracked self
    → IsTracked (resize_known current new known now self).1
resize_known-IsTracked current new none now self e h = h
resize_known-IsTracked current new (some stats_a) now self e h =
    elim (Bool-cases (range_beq new current)) [
      | inl same ↦ rw same h
      | inr other ↦ elim (Bool-cases (is_running stats_a.status || is_completed stats_a.status)) [
        | inl fit ↦
            rw (other, fit)
              (resize_to-IsTracked current new stats_a now self (h.1 current stats_a e) h)
        | inr unfit ↦ rw (other, unfit) h
      ]
    ]

-- Whether it resizes or raises, `resize_chunk` keeps every task tracked.
pub resize_chunk-IsTracked :
    (current_range new_range : ChunkRange) (now : ℕ) (self : ChunkManager)
    → IsTracked self
    → IsTracked (resize_chunk current_range new_range now self).1
unfolding resize_chunk
resize_chunk-IsTracked current new now self h = elim (Bool-cases (contains_range current new)) [
  | inl inside ↦
      rw inside
        (resize_known-IsTracked current new (lookup current self.chunks_stats) now self refl h)
  | inr outside ↦ rw outside h
]
