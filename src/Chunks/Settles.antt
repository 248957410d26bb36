-- ===== src/Chunks/Settles.antt =====
-- How a succession leaves its two chunks, whatever happens to it.
use sdownload.Prelude.{
  Option, none, some, false, ap, ◌≡◌, refl, true, ◌⊎◌, inl, inr, Bool-cases, arith,
}
use sdownload.Models.Range.{ChunkRange}
use sdownload.Exceptions.{
  is_cancelled_error, cancelled_error, chunk_succession_error, value_error, Exc, Result, ok, err,
}
use sdownload.Storage.Protocol.{FileStorage}
use sdownload.Stats.{DownloadStatus, ChunkDownloadStats, completed, deprecated, cancelled, error}
use sdownload.Chunks.Succession.{
  end_crop, start_crop, Both, Waited, no_task, returned, task_cancelled, task_failed, interrupted,
  run_chunk_succession, after_wait, after_stop, on_cancelled, handles, succeed, after_crop,
  after_move, fails_with, with_error, is_error, is_awaiting, lacks_data,
}

-- The predecessor's stats once its task has ended.
abbrev pub left_by : Waited → ChunkDownloadStats → ChunkDownloadStats
left_by (interrupted (some stopped)) predecessor = stopped.stats predecessor
left_by _ predecessor = predecessor

module _ (storage : FileStorage) where
  -- The succession returned and both chunks changed their status. Or it raised an exception that is no
  -- CancelledError, the successor shows an error, and the predecessor keeps its status. Or it was
  -- cancelled: the successor shows it, the predecessor has the status that its task `left`, and no
  -- limit is observed any more, unless the task ended with another exception, which is raised instead.
  abbrev pub SettlesAs :
      ChunkDownloadStats → Both storage → Result ChunkRange × Both storage → Type 0
  SettlesAs left before (r, after) =
      ((r ≡ ok before.successor.range)
        × (after.successor.status ≡ completed)
        × (after.predecessor.status ≡ deprecated))
      ⊎ (((e : Exc) × (r ≡ err e)
            × (is_cancelled_error e ≡ false)
            × (after.successor.status ≡ error)
            × (after.predecessor.status ≡ before.predecessor.status))
          ⊎ ((e : Exc) × (r ≡ err e)
              × (after.successor.status ≡ cancelled)
              × (after.predecessor.status ≡ left.status)
              × ((after.predecessor.limit_qt_bytes ≡ 0) ⊎ (is_cancelled_error e ≡ false))))

  abbrev pub HasSettled : Waited → Both storage → Result ChunkRange × Both storage → Type 0
  HasSettled waited before run = SettlesAs (left_by waited before.predecessor) before run

  is_error-error : (status : DownloadStatus) → is_error status ≡ true → status ≡ error
  is_error-error status h = ground (arith, h)

  with_error-error : (e : Exc) (s : ChunkDownloadStats) → (with_error e s).status ≡ error
  with_error-error e s = elim (Bool-cases (is_error s.status)) [
    | inl already ↦ rw already (is_error-error s.status already)
    | inr fresh ↦ rw fresh refl
  ]

  fails_with-SettlesAs :
      (left : ChunkDownloadStats) (e : Exc) (before : Both storage) (files : storage.State)
      → is_cancelled_error e ≡ false
      → SettlesAs left before (fails_with storage e (record before { files = files }))
  fails_with-SettlesAs left e before files other =
      inr (inl (e, refl, other, with_error-error e before.successor, refl))

  after_stop-SettlesAs :
      (failure : Option Exc) (left : ChunkDownloadStats) (before both : Both storage)
      → both.predecessor ≡ left
      → both.successor.status ≡ cancelled
      → SettlesAs left before (after_stop storage failure both)
  after_stop-SettlesAs none left before both same marked =
      inr (inr (cancelled_error, refl, marked, ap (λ st. st.status) same, inl refl))
  after_stop-SettlesAs (some e) left before both same marked =
      elim (Bool-cases (is_cancelled_error e)) [
        | inl stops ↦
            rw stops
              (inr (inr (cancelled_error, refl, marked, ap (λ st. st.status) same, inl refl)))
        | inr other ↦ rw other (inr (inr (e, refl, marked, ap (λ st. st.status) same, inr other)))
      ]

  on_cancelled-SettlesAs :
      (before : Both storage) (files : storage.State)
      → SettlesAs before.predecessor before
          (on_cancelled storage none (record before { files = files }))
  on_cancelled-SettlesAs before files = inr (inr (cancelled_error, refl, refl, refl, inl refl))

  handles-SettlesAs :
      (e : Exc) (before : Both storage) (files : storage.State)
      → SettlesAs before.predecessor before (handles storage e (record before { files = files }))
  handles-SettlesAs e before files = elim (Bool-cases (is_cancelled_error e)) [
    | inl stops ↦ rw stops (on_cancelled-SettlesAs before files)
    | inr other ↦ rw other (fails_with-SettlesAs before.predecessor e before files other)
  ]

  after_move-SettlesAs :
      (before : Both storage) (r : Result (Unit {0})) (files : storage.State)
      → SettlesAs before.predecessor before (after_move storage before (r, files))
  after_move-SettlesAs before (ok u) files = inl (refl, refl, refl)
  after_move-SettlesAs before (err e) files = handles-SettlesAs e before files

  after_crop-SettlesAs :
      (before : Both storage) (r : Result (Unit {0})) (files : storage.State)
      → SettlesAs before.predecessor before (after_crop storage before (r, files))
  after_crop-SettlesAs before (ok u) files =
      let (r, moved) =
        storage.move_data before.predecessor.chunk_file_name before.successor.chunk_file_name
          files in
      after_move-SettlesAs before r moved
  after_crop-SettlesAs before (err e) files = handles-SettlesAs e before files

  succeed-SettlesAs :
      (before : Both storage) → SettlesAs before.predecessor before (succeed storage before)
  succeed-SettlesAs before = elim (Bool-cases (lacks_data before.predecessor)) [
    | inl lacks ↦
        rw lacks
          (fails_with-SettlesAs before.predecessor chunk_succession_error before before.files refl)
    | inr enough ↦ rw enough (
        let (r, files) =
          storage.crop_file before.predecessor.chunk_file_name
            (start_crop before.predecessor before.successor)
            (end_crop before.predecessor before.successor) before.files in
        after_crop-SettlesAs before r files)
  ]

  after_wait-HasSettled :
      (waited : Waited) (before : Both storage)
      → HasSettled waited before (after_wait storage waited before)
  after_wait-HasSettled no_task before = succeed-SettlesAs before
  after_wait-HasSettled returned before = succeed-SettlesAs before
  after_wait-HasSettled task_cancelled before = succeed-SettlesAs before
  after_wait-HasSettled (task_failed e) before =
      fails_with-SettlesAs before.predecessor chunk_succession_error before before.files refl
  after_wait-HasSettled (interrupted none) before = on_cancelled-SettlesAs before before.files
  after_wait-HasSettled (interrupted (some stopped)) before =
      after_stop-SettlesAs stopped.failure (stopped.stats before.predecessor) before
        (record before {
          predecessor = stopped.stats before.predecessor;
          successor = record before.successor { status = cancelled };
        })
        refl refl

  -- Every succession settles. It returns the successor's range with the successor completed and the
  -- predecessor deprecated; or it raises an exception that is no CancelledError with the successor in
  -- error, and the predecessor keeps its status; or it is cancelled, in the wait, the crop or the move:
  -- then the successor is cancelled, the predecessor has the status that its stopped task left, and a
  -- raised CancelledError leaves it without a limit.
  pub run_chunk_succession-HasSettled :
      (waited : Waited) (before : Both storage)
      → HasSettled waited before (run_chunk_succession storage waited before)
  unfolding run_chunk_succession
  run_chunk_succession-HasSettled waited before =
      elim (Bool-cases (is_awaiting before.successor.status)) [
        | inl awaiting ↦ rw awaiting (after_wait-HasSettled waited before)
        | inr other ↦ rw other (
            fails_with-SettlesAs (left_by waited before.predecessor) value_error before before.files
              refl)
      ]
