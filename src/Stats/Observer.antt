-- ===== src/Stats/Observer.antt =====
-- The limit observer of a chunk calls back once, with the piece that reaches the limit.
use native.Mathlib.Decide.{dec_le}
use sdownload.Prelude.{
  inr, inl, Bool-cases, ◌∙◌, ap, ℕ, ◌+◌, ◌≤◌, ◌<◌, ◌≡◌, refl, Option, none, some, List, [], ◌∷◌,
  leb, arith, if◌then◌else◌,
}
use sdownload.Stats.{
  add_limit_observer, add_by, add_no_limit, ChunkDownloadStats, StopCallback, no_limit, with_limit,
  add_qt_bytes_downloaded,
}

-- The calls, in order, of a list of pieces.
abbrev pub called : Option StopCallback → List StopCallback → List StopCallback
called none calls = calls
called (some c) calls = c ∷ calls

abbrev pub add_pieces : List ℕ → ChunkDownloadStats → ChunkDownloadStats × List StopCallback
add_pieces [] stats = (stats, [])
add_pieces (n ∷ ns) stats =
    let (stats1, call) = add_by stats.adder n stats in
    let (stats2, calls) = add_pieces ns stats1 in (stats2, called call calls)

abbrev pub total : List ℕ → ℕ
total [] = 0
total (n ∷ ns) = n + total ns

add_free :
    (n : ℕ) (stats : ChunkDownloadStats)
    → stats.adder ≡ no_limit
    → add_qt_bytes_downloaded n stats ≡ (add_no_limit n stats, none)
add_free n stats h = ap (λ a. add_by a n stats) h

add_below :
    (n : ℕ) (stats : ChunkDownloadStats)
    → stats.adder ≡ with_limit
    → stats.bytes_downloaded + n < stats.limit_qt_bytes
    → add_qt_bytes_downloaded n stats ≡ (add_no_limit n stats, none)
add_below n stats h l = ap (λ a. add_by a n stats) h ∙ ground arith

add_reaches :
    (n : ℕ) (stats : ChunkDownloadStats)
    → stats.adder ≡ with_limit
    → stats.limit_qt_bytes ≤ stats.bytes_downloaded + n
    → add_qt_bytes_downloaded n stats ≡ (
      record stats {
        bytes_downloaded = stats.bytes_downloaded + n;
        on_limit = none;
        adder = no_limit;
      },
      stats.on_limit,
    )
add_reaches n stats h l = ap (λ a. add_by a n stats) h ∙ ground arith

add_pieces-unlimited :
    (ns : List ℕ) (stats : ChunkDownloadStats)
    → stats.adder ≡ no_limit
    → ((add_pieces ns stats).0.bytes_downloaded ≡ stats.bytes_downloaded + total ns)
      × ((add_pieces ns stats).1 ≡ [])
add_pieces-unlimited [] stats h = (omega arith, refl)
add_pieces-unlimited (n ∷ ns) stats h =
    let (bytes, calls) = add_pieces-unlimited ns (add_no_limit n stats) h in
    rw (add_free n stats h) (omega (arith, bytes), calls)

add_pieces-limited :
    (ns : List ℕ) (callback : StopCallback) (stats : ChunkDownloadStats)
    → stats.adder ≡ with_limit
    → stats.on_limit ≡ some callback
    → stats.bytes_downloaded < stats.limit_qt_bytes
    → ((add_pieces ns stats).0.bytes_downloaded ≡ stats.bytes_downloaded + total ns)
      × ((add_pieces ns stats).1 ≡ (
          if leb stats.limit_qt_bytes (stats.bytes_downloaded + total ns)
          then callback ∷ []
          else []))
add_pieces-limited [] callback stats h c l = (omega arith, ground arith)
add_pieces-limited (n ∷ ns) callback stats h c l =
    elim (dec_le stats.limit_qt_bytes (stats.bytes_downloaded + n)) [
      | yes reached ↦
          let after = record stats {
            bytes_downloaded = stats.bytes_downloaded + n;
            on_limit = none;
            adder = no_limit;
          } in
          let (bytes, calls) = add_pieces-unlimited ns after refl in
          rw (add_reaches n stats h reached, c, calls) (omega (arith, bytes), ground arith)
      | no below ↦
          let (bytes, calls) =
            add_pieces-limited ns callback (add_no_limit n stats) h c (omega arith) in
          rw (add_below n stats h (omega arith), calls) (omega (arith, bytes), ground arith)
    ]

-- A chunk without an observer gets one, then pieces arrive. The observer is called once if the bytes
-- reach its limit, by then or before, and never otherwise; every byte is counted.
pub add_limit_observer-once :
    (limit : ℕ) (callback : StopCallback) (pieces : List ℕ) (stats : ChunkDownloadStats)
    → stats.adder ≡ no_limit
    → let (observed, call) = add_limit_observer limit callback stats in
      let (after, calls) = add_pieces pieces observed in
      (after.bytes_downloaded ≡ stats.bytes_downloaded + total pieces)
      × (called call calls
          ≡ (if leb limit (stats.bytes_downloaded + total pieces) then callback ∷ [] else []))
unfolding add_limit_observer
add_limit_observer-once limit callback pieces stats h =
    elim (Bool-cases (leb limit stats.bytes_downloaded)) [
      | inl reached ↦
          let (bytes, calls) = add_pieces-unlimited pieces stats h in
          rw (reached, calls) (bytes, ground arith)
      | inr below ↦ rw below (
          add_pieces-limited pieces callback
            (record stats { limit_qt_bytes = limit; on_limit = some callback; adder = with_limit })
            refl refl (ground arith))
    ]
