-- ===== src/Manager/Waits.antt =====
-- What a wait for chunks takes out of the manager.
use sdownload.Prelude.{
  List-cases, ◌≡◌, refl, sym, ap, ◌∙◌, Bool, true, false, ◌&&◌, Option, none, some, List, [], ◌∷◌,
  inl, inr, Bool-cases, Option-cases, arith, if◌then◌else◌,
}
use sdownload.Prelude.Dict.{Dict, lookup, contains, erase, lookup-erase}
use sdownload.Models.Range.{ChunkRange, range_eq, range_beq, range_beq_iff}
use sdownload.Exceptions.{ok}
use sdownload.Stats.{ChunkDownloadStats}
use sdownload.Manager.{
  wait_on, ChunkTask, ChunkManager, done_stats, pop_tasks, check_stop_monitor, wait_for_chunks,
}
use sdownload.Manager.Tracks.{HaveStats, IsKeyed, IsTracked}

-- The tasks that are left of `tasks` once the done ones of `listed` are taken out.
abbrev left :
    (ChunkRange → Bool)
    → Dict ChunkRange ChunkTask
    → Dict ChunkRange ChunkTask
    → ChunkRange
    → Option ChunkTask
left done listed tasks r = if done r && contains r listed then none else lookup r tasks

either_none : (b : Bool) (x : Option ChunkTask) → x ≡ none → (if b then none else x) ≡ none
either_none true x e = refl
either_none false x e = e

done_same : (done : ChunkRange → Bool) (k r : ChunkRange) → range_beq k r ≡ true → done r ≡ done k
done_same done k r same = ap done (sym ((range_beq_iff k r).0 same))

contains_hit :
    (k : ChunkRange) (t : ChunkTask) (listed : Dict ChunkRange ChunkTask) (r : ChunkRange)
    → range_beq k r ≡ true
    → contains r ((k, t) ∷ listed) ≡ true
contains_hit k t listed r same =
    ap (λ b. elim (if b then some t else lookup r listed) [ none ↦ false | some u ↦ true ]) same

contains_miss :
    (k : ChunkRange) (t : ChunkTask) (listed : Dict ChunkRange ChunkTask) (r : ChunkRange)
    → range_beq k r ≡ false
    → contains r ((k, t) ∷ listed) ≡ contains r listed
contains_miss k t listed r other =
    ap (λ b. elim (if b then some t else lookup r listed) [ none ↦ false | some u ↦ true ]) other

left_running :
    (done : ChunkRange → Bool) (k : ChunkRange) (t : ChunkTask)
    (listed tasks : Dict ChunkRange ChunkTask) (r : ChunkRange)
    → done k ≡ false
    → left done listed tasks r ≡ left done ((k, t) ∷ listed) tasks r
left_running done k t listed tasks r running = elim (Bool-cases (range_beq k r)) [
  | inl same ↦ let e : done r ≡ false = done_same done k r same ∙ running in rw e refl
  | inr other ↦ rw (contains_miss k t listed r other) refl
]

left_finished :
    (done : ChunkRange → Bool) (k : ChunkRange) (t : ChunkTask)
    (listed tasks : Dict ChunkRange ChunkTask) (r : ChunkRange)
    → done k ≡ true
    → left done listed (erase k tasks) r ≡ left done ((k, t) ∷ listed) tasks r
left_finished done k t listed tasks r finished = elim (Bool-cases (range_beq k r)) [
  | inl same ↦
      let e : done r ≡ true = done_same done k r same ∙ finished in
      let gone : lookup r (erase k tasks) ≡ none = rw same at (lookup-erase k r tasks) in
      rw (e, gone, contains_hit k t listed r same) (either_none (contains r listed) none refl)
  | inr other ↦
      let kept : lookup r (erase k tasks) ≡ lookup r tasks = rw other at (lookup-erase k r tasks) in
      rw (kept, contains_miss k t listed r other) refl
]

done_stats-pops :
    (done : ChunkRange → Bool) (stats : Dict ChunkRange ChunkDownloadStats)
    (listed tasks : Dict ChunkRange ChunkTask)
    → HaveStats stats listed
    → IsKeyed stats
    → (sts : List ChunkDownloadStats) × (done_stats done stats listed ≡ ok sts)
      × ((r : ChunkRange) → lookup r (pop_tasks sts tasks) ≡ left done listed tasks r)
done_stats-pops done stats [] tasks h keyed = ([], refl, λ r. ground arith)
done_stats-pops done stats ((k, t) ∷ listed) tasks ((st, found), h) keyed =
    elim (Bool-cases (done k)) [
      | inl finished ↦
          let (sts, eq, rest) = done_stats-pops done stats listed (erase k tasks) h keyed in
          (
            st ∷ sts,
            rw (finished, found, eq) refl,
            λ r.
                ap (λ q. lookup r (pop_tasks sts (erase q tasks))) (keyed k st found)
                ∙ (rest r ∙ left_finished done k t listed tasks r finished),
          )
      | inr running ↦
          let (sts, eq, rest) = done_stats-pops done stats listed tasks h keyed in
          (sts, rw (running, eq) refl, λ r. rest r ∙ left_running done k t listed tasks r running)
    ]

-- A lookup in the tasks that were listed.
left_all :
    (done : ChunkRange → Bool) (tasks : Dict ChunkRange ChunkTask) (r : ChunkRange)
    → left done tasks tasks r ≡ (if done r then none else lookup r tasks)
left_all done tasks r = elim (Option-cases (lookup r tasks)) [
  | inl missing ↦ rw missing (ground arith)
  | inr (t, found) ↦ rw found (ground arith)
]

pub check_stop_monitor-tasks :
    (self : ChunkManager) → (check_stop_monitor self).chunks_tasks ≡ self.chunks_tasks
check_stop_monitor-tasks self = elim (List-cases self.chunks_tasks) [
  | inl nothing ↦ rw nothing refl
  | inr (t, ts, e) ↦ rw e refl
]

wait_on-takes :
    (done : ChunkRange → Bool) (tasks : Dict ChunkRange ChunkTask) (self : ChunkManager)
    → self.chunks_tasks ≡ tasks
    → HaveStats self.chunks_stats tasks
    → IsKeyed self.chunks_stats
    → (sts : List ChunkDownloadStats) × ((wait_on done tasks self).0 ≡ ok sts)
      × ((r : ChunkRange)
          → lookup r (wait_on done tasks self).1.chunks_tasks ≡ left done tasks tasks r)
wait_on-takes done [] self e h keyed =
    ([], refl, λ r. ap (λ ts. lookup r ts) e ∙ sym (either_none (done r && false) none refl))
wait_on-takes done (t ∷ ts) self e h keyed =
    let (sts, eq, rest) =
      done_stats-pops done self.chunks_stats (t ∷ ts) self.chunks_tasks h keyed in
    let popped = record self { chunks_tasks = pop_tasks sts self.chunks_tasks } in
    (
      sts,
      rw eq refl,
      λ r.
          rw (eq, check_stop_monitor-tasks popped)
            (rest r ∙ ap (λ tasks. left done (t ∷ ts) tasks r) e),
    )

-- Of a manager that tracks its tasks, a wait returns, without a `KeyError`, and takes out exactly the
-- tasks that are done.
pub wait_for_chunks-takes :
    (done : ChunkRange → Bool) (self : ChunkManager)
    → IsTracked self
    → (sts : List ChunkDownloadStats) × ((wait_for_chunks done self).0 ≡ ok sts)
      × ((r : ChunkRange)
          → lookup r (wait_for_chunks done self).1.chunks_tasks
            ≡ (if done r then none else lookup r self.chunks_tasks))
unfolding wait_for_chunks
wait_for_chunks-takes done self (h, keyed) =
    let (sts, eq, rest) = wait_on-takes done self.chunks_tasks self refl h keyed in
    (sts, eq, λ r. rest r ∙ left_all done self.chunks_tasks r)
