-- ===== src/Manager/Drains.antt =====
-- The stream of a manager yields the chunk of each task and ends with no task left.
use sdownload.Prelude.{
  In, In-append_left, In-append_right, List-cases, ℕ, zero, suc, ◌≡◌, ◌≤◌, ◌<◌, ◌⊎◌, inl, inr, Bool,
  true, Option, none, some, List, [], ◌∷◌, ◌++◌, refl, sym, ap, ◌∙◌, length, arith, subst,
  Bool-cases,
}
use sdownload.Prelude.Int.{ℤ}
use sdownload.Models.Text.{Text}
use sdownload.Prelude.Dict.{insert, Dict, lookup, erase, lookup-erase}
use sdownload.Models.Range.{ChunkRange, range_eq, range_beq, range_beq_iff}
use sdownload.Exceptions.{Result, ok, err}
use sdownload.Stats.{ChunkDownloadStats}
use sdownload.Manager.{
  ChunkTask, ChunkManager, wait_for_chunks, wait_on, pop_tasks, check_stop_monitor, done_stats,
  after_wait,
}
use sdownload.Manager.Tracks.{IsKeyed-insert, HaveStats, IsKeyed, IsTracked, HaveStats-pop}
use sdownload.Manager.Waits.{wait_for_chunks-takes, check_stop_monitor-tasks}
use sdownload.Manager.Stops.{StatsDict}
use sdownload.Manager.Streams.{
  new_chunk_manager, recovered_into, Streamed, as_stream, waited, wait_first, before_rest,
}

recovered_into-IsKeyed :
    (recovered : List ChunkDownloadStats) (stats : StatsDict)
    → IsKeyed stats
    → IsKeyed (recovered_into recovered stats)
recovered_into-IsKeyed [] stats keyed = keyed
recovered_into-IsKeyed (st ∷ recovered) stats keyed =
    recovered_into-IsKeyed recovered (insert st.range st stats)
      (IsKeyed-insert st.range st stats refl keyed)

-- A new manager is tracked, whatever it recovered.
pub new_chunk_manager-IsTracked :
    (file_name : Text) (file_size : Option ℤ) (recovered : List ChunkDownloadStats)
    → IsTracked (new_chunk_manager file_name file_size recovered)
new_chunk_manager-IsTracked file_name file_size recovered =
    (tt, recovered_into-IsKeyed recovered [] (λ r st e. absurd (cc e)))

-- Taking a task out leaves the tasks as they were, or one less.
erase-length :
    (k : ChunkRange) (tasks : Dict ChunkRange ChunkTask)
    → (erase k tasks ≡ tasks) ⊎ (length (erase k tasks) < length tasks)
erase-length k [] = inl refl
erase-length k ((r, t) ∷ tasks) = elim (Bool-cases (range_beq r k)) [
  | inl same ↦ rw same (elim (erase-length k tasks) [
    | inl e ↦ inr (rw e (omega arith))
    | inr less ↦ inr (omega (arith, less))
  ])
  | inr other ↦ rw other (elim (erase-length k tasks) [
    | inl e ↦ inl (ap (λ l. (r, t) ∷ l) e)
    | inr less ↦ inr (omega (arith, less))
  ])
]

pop_tasks-length :
    (sts : List ChunkDownloadStats) (tasks : Dict ChunkRange ChunkTask)
    → (pop_tasks sts tasks ≡ tasks) ⊎ (length (pop_tasks sts tasks) < length tasks)
pop_tasks-length [] tasks = inl refl
pop_tasks-length (st ∷ sts) tasks = elim (erase-length st.range tasks) [
  | inl e ↦ rw e (pop_tasks-length sts tasks)
  | inr less ↦ elim (pop_tasks-length sts (erase st.range tasks)) [
    | inl e ↦ inr (rw e less)
    | inr fewer ↦ inr (omega (arith, less, fewer))
  ]
]

-- The stats of the range `r` are among `sts`.
abbrev pub Holds : ChunkRange → List ChunkDownloadStats → Type 0
Holds r sts = (st : ChunkDownloadStats) × In st sts × (st.range ≡ r)

-- A task is left unless the stats of its range are among those that are popped.
pop_tasks-lookup :
    (r : ChunkRange) (t : ChunkTask) (sts : List ChunkDownloadStats)
    (tasks : Dict ChunkRange ChunkTask)
    → lookup r tasks ≡ some t
    → Holds r sts ⊎ (lookup r (pop_tasks sts tasks) ≡ some t)
pop_tasks-lookup r t [] tasks found = inr found
pop_tasks-lookup r t (st ∷ sts) tasks found = elim (Bool-cases (range_beq st.range r)) [
  | inl same ↦ inl (st, inl refl, (range_beq_iff st.range r).0 same)
  | inr other ↦
      let kept : lookup r (erase st.range tasks) ≡ some t =
        rw other at (lookup-erase st.range r tasks) ∙ found in
      elim (pop_tasks-lookup r t sts (erase st.range tasks) kept) [
        | inl (held, among, e) ↦ inl (held, inr among, e)
        | inr left ↦ inr left
      ]
]

check_stop_monitor-stats :
    (self : ChunkManager) → (check_stop_monitor self).chunks_stats ≡ self.chunks_stats
check_stop_monitor-stats self = elim (List-cases self.chunks_tasks) [
  | inl nothing ↦ rw nothing refl
  | inr (t, ts, e) ↦ rw e refl
]

-- What a wait that returned `sts` did: it popped their tasks and changed no stats.
abbrev Pops : List ChunkDownloadStats → ChunkManager → ChunkManager → Type 0
Pops sts self next =
    (next.chunks_tasks ≡ pop_tasks sts self.chunks_tasks) × (next.chunks_stats ≡ self.chunks_stats)

after_wait-Pops :
    (r : Result (List ChunkDownloadStats)) (sts : List ChunkDownloadStats) (self : ChunkManager)
    → (after_wait r self).0 ≡ ok sts
    → Pops sts self (after_wait r self).1
after_wait-Pops (err e) sts self h = absurd cc
after_wait-Pops (ok found) sts self h =
    let same : found ≡ sts = cc in
    let popped = record self { chunks_tasks = pop_tasks found self.chunks_tasks } in
    (
      check_stop_monitor-tasks popped ∙ ap (λ l. pop_tasks l self.chunks_tasks) same,
      check_stop_monitor-stats popped,
    )

wait_on-Pops :
    (done : ChunkRange → Bool) (tasks : Dict ChunkRange ChunkTask) (sts : List ChunkDownloadStats)
    (self : ChunkManager)
    → (wait_on done tasks self).0 ≡ ok sts
    → Pops sts self (wait_on done tasks self).1
wait_on-Pops done [] sts self h =
    let nothing : [] ≡ sts = cc in (ap (λ l. pop_tasks l self.chunks_tasks) nothing, refl)
wait_on-Pops done (t ∷ ts) sts self h =
    after_wait-Pops (done_stats done self.chunks_stats (t ∷ ts)) sts self h

-- A wait that finds one of a tracked manager's tasks done leaves a tracked manager with fewer tasks.
wait_for_chunks-drains :
    (done : ChunkRange → Bool) (self : ChunkManager) (r : ChunkRange) (t : ChunkTask)
    → IsTracked self
    → lookup r self.chunks_tasks ≡ some t
    → done r ≡ true
    → (sts : List ChunkDownloadStats) × ((wait_for_chunks done self).0 ≡ ok sts)
      × ((wait_for_chunks done self).1.chunks_tasks ≡ pop_tasks sts self.chunks_tasks)
      × (length (wait_for_chunks done self).1.chunks_tasks < length self.chunks_tasks)
      × IsTracked (wait_for_chunks done self).1
unfolding wait_for_chunks
wait_for_chunks-drains done self r t (h, keyed) found finished =
    let (sts, eq, takes) = wait_for_chunks-takes done self (h, keyed) in
    let (tasks_eq, stats_eq) = wait_on-Pops done self.chunks_tasks sts self eq in
    let tracked : IsTracked (wait_for_chunks done self).1 = (
      subst (λ q. HaveStats q (wait_for_chunks done self).1.chunks_tasks) (sym stats_eq)
          (subst (λ q. HaveStats self.chunks_stats q) (sym tasks_eq)
            (HaveStats-pop sts self.chunks_stats self.chunks_tasks h)),
      subst IsKeyed (sym stats_eq) keyed,
    ) in
    (
      sts,
      eq,
      tasks_eq,
      elim (pop_tasks-length sts self.chunks_tasks) [
        | inl same ↦
            let gone : lookup r (wait_for_chunks done self).1.chunks_tasks ≡ none =
              rw finished at (takes r) in
            let kept : lookup r (wait_for_chunks done self).1.chunks_tasks ≡ some t =
              ap (λ q. lookup r q) (tasks_eq ∙ same) ∙ found in
            absurd cc
        | inr less ↦ subst (λ q. length q < length self.chunks_tasks) (sym tasks_eq) less
      ],
      tracked,
    )

-- The stream of a manager with these tasks yielded the stats of each task's range and came to its end,
-- on a tracked manager without tasks.
abbrev pub Ends : Dict ChunkRange ChunkTask → Option Streamed → Type 0
Ends tasks run =
    (yielded : List ChunkDownloadStats) × (final : ChunkManager) × (run
      ≡ some (yielded, (ok tt, final)))
    × ((r : ChunkRange) (t : ChunkTask) → lookup r tasks ≡ some t → Holds r yielded)
    × (final.chunks_tasks ≡ [])
    × IsTracked final

before_rest-Ends :
    (sts : List ChunkDownloadStats) (tasks left : Dict ChunkRange ChunkTask) (run : Option Streamed)
    → left ≡ pop_tasks sts tasks
    → Ends left run
    → Ends tasks (before_rest sts run)
before_rest-Ends sts tasks left run popped (yielded, final, e, holds, rest, tracked) = (
  sts ++ yielded,
  final,
  ap (before_rest sts) e,
  λ r t found. elim (pop_tasks-lookup r t sts tasks found) [
    | inl (st, among, same) ↦ (st, In-append_left st sts yielded among, same)
    | inr kept ↦
        let (st, among, same) = holds r t (ap (λ q. lookup r q) popped ∙ kept) in
        (st, In-append_right st sts yielded among, same)
  ],
  rest,
  tracked,
)

module _ (settle : ℕ → StatsDict → StatsDict) (finished : ℕ → ChunkManager → ChunkRange → Bool)
    (settle-Tracked : (k : ℕ) (self : ChunkManager)
      → IsTracked self
      → IsTracked (waited settle finished k self))
    (first_done : (k : ℕ) (self : ChunkManager) (t : ChunkRange × ChunkTask)
        (ts : Dict ChunkRange ChunkTask)
      → self.chunks_tasks ≡ t ∷ ts
      → (r : ChunkRange) × (u : ChunkTask) × (lookup r self.chunks_tasks ≡ some u)
        × (finished k self r ≡ true)) where
  drains :
      (n k : ℕ) (tasks : Dict ChunkRange ChunkTask) (self : ChunkManager)
      → self.chunks_tasks ≡ tasks
      → length tasks ≤ n
      → IsTracked self
      → Ends tasks (as_stream settle finished (suc n) k tasks self)
  unfolding as_stream
  drains n k [] self e small tracked = ([], self, refl, λ r t found. absurd (cc found), e, tracked)
  drains zero k (t ∷ ts) self e small tracked = absurd (omega (arith, small))
  drains (suc n) k (t ∷ ts) self e small tracked =
      let (r, u, found, done) = first_done k self t ts e in
      let (sts, eq, popped, fewer, next_tracked) =
        wait_for_chunks-drains (finished k self) (waited settle finished k self) r u
          (settle-Tracked k self tracked) found done in
      let next = (wait_first settle finished k self).1 in
      let smaller : length next.chunks_tasks < suc (length ts) =
        subst (λ q. length next.chunks_tasks < length q) e fewer in
      let rest =
        drains n (suc k) next.chunks_tasks next refl (omega (arith, smaller, small)) next_tracked in
      let popped_e : next.chunks_tasks ≡ pop_tasks sts (t ∷ ts) =
        popped ∙ ap (λ q. pop_tasks sts q) e in
      rw (eq, as_stream)
        (before_rest-Ends sts (t ∷ ts) next.chunks_tasks
          (as_stream settle finished (suc n) (suc k) next.chunks_tasks next) popped_e rest)

  -- Where the tasks leave the manager tracked while it waits, and each wait returns with one of its
  -- tasks done, the stream of a tracked manager comes to its end after at most one wait for each
  -- task, without an error: it yielded the stats of each task's range, no task is left then, and the
  -- manager is tracked.
  pub as_stream-Ends :
      (self : ChunkManager)
      → IsTracked self
      → Ends self.chunks_tasks
          (as_stream settle finished (suc (length self.chunks_tasks)) 0 self.chunks_tasks self)
  as_stream-Ends self tracked =
      drains (length self.chunks_tasks) 0 self.chunks_tasks self refl (omega arith) tracked
