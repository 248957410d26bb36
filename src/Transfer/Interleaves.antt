-- ===== src/Transfer/Interleaves.antt =====
-- Whatever order the tasks run in, they leave the bytes of the source in the files of their chunks.
use mathlib.Core.Option.{some-injective}
use sdownload.Prelude.{
  ℕ, ◌≡◌, inl, inr, In, IsDistinct, false, Option, none, some, List, [], ◌∷◌, ◌++◌, refl, sym, ap,
  ◌∙◌, length, length-append, concat, append_assoc, append-nil, arith, map, subst, Bool-cases,
}
use sdownload.Models.Text.{Text, text_beq, text_beq_iff}
use sdownload.Models.Range.{ChunkRange}
use sdownload.Exceptions.{Exc}
use sdownload.Storage.Protocol.{Bytes, put, put_self}
use sdownload.Stats.{ChunkDownloadStats, completed}
use sdownload.Chunks.Download.{is_wrong_size}
use sdownload.Chunks.Supervised.{add_by-Keeps}
use sdownload.Chunks.Slices.{slice}
use sdownload.Transfer.Tasks.{
  Phase, waiting, writing, ended, Task, Contents, TaskStep, opens, writes, ends, Step, here, there,
  Steps, stays, step, finished,
}

module _ (source : Bytes) (name_for : ChunkRange → Text) where
  -- What a task has written of its range, and what its stats say of it.
  abbrev PhaseRight : ChunkRange → ChunkDownloadStats → Phase → Contents → Type 0
  PhaseRight r stats (waiting stream) files =
      (concat stream.pieces ≡ slice r source)
      × (stream.failure ≡ none)
      × (stats.bytes_downloaded ≡ 0)
  PhaseRight r stats (writing pieces failure) files =
      (failure ≡ none)
      × (content : Bytes) × (files (name_for r) ≡ some content)
      × (content ++ concat pieces ≡ slice r source)
      × (stats.bytes_downloaded ≡ length content)
  PhaseRight r stats (ended result) files =
      (stats.status ≡ completed) × (files (name_for r) ≡ some (slice r source))

  abbrev pub IsRight : ChunkRange → Task → Contents → Type 0
  IsRight r t files =
      (t.stats.range ≡ r)
      × (t.stats.chunk_file_name ≡ name_for r)
      × (is_wrong_size (length (slice r source)) t.stats.file_size ≡ false)
      × PhaseRight r t.stats t.phase files

  PhaseRight-same :
      (r : ChunkRange) (stats : ChunkDownloadStats) (phase : Phase) (files files1 : Contents)
      → files1 (name_for r) ≡ files (name_for r)
      → PhaseRight r stats phase files
      → PhaseRight r stats phase files1
  PhaseRight-same r stats (waiting stream) files files1 same h = h
  PhaseRight-same r stats (writing pieces failure) files files1 same
        (fine, content, found, whole, bytes) =
      (fine, content, same ∙ found, whole, bytes)
  PhaseRight-same r stats (ended result) files files1 same (done, found) = (done, same ∙ found)

  ends-IsRight :
      (r : ChunkRange) (stats : ChunkDownloadStats) (failure : Option Exc) (files : Contents)
      (now : ℕ)
      → IsRight r (record { stats = stats; phase = writing [] failure }) files
      → IsRight r (finished stats failure now) files
  ends-IsRight r stats (some e) files now
        (range, name, size, (fine, content, found, whole, bytes)) =
      absurd cc
  ends-IsRight r stats none files now (range, name, size, (fine, content, found, whole, bytes)) =
      let all : content ≡ slice r source = sym (append-nil content) ∙ whole in
      let right : is_wrong_size stats.bytes_downloaded stats.file_size ≡ false =
        rw (bytes, all) size in
      rw right (range, name, size, (refl, found ∙ ap some all))

  TaskStep-IsRight :
      (r : ChunkRange) (t t1 : Task) (files files1 : Contents)
      → TaskStep t files t1 files1
      → IsRight r t files
      → IsRight r t1 files1
  TaskStep-IsRight r _ _ files _ (opens stats stream _) (range, name, size, (whole, fine, bytes)) =
      let found : put stats.chunk_file_name (some []) files (name_for r) ≡ some [] =
        ap (λ k. put k (some []) files (name_for r)) name ∙ put_self (name_for r) (some []) files in
      (range, name, size, (fine, [], found, whole, bytes))
  TaskStep-IsRight r _ _ files _ (writes stats piece pieces failure _ content there_is)
        (range, name, size, (fine, content0, found, whole, bytes)) =
      let same : content ≡ content0 = some-injective _ _ (sym there_is ∙ (ap files name ∙ found)) in
      let k = add_by-Keeps stats.adder (length piece) stats in
      let now_found : put stats.chunk_file_name (some (content ++ piece)) files (name_for r)
          ≡ some (content ++ piece) =
        ap (λ n. put n (some (content ++ piece)) files (name_for r)) name
        ∙ put_self (name_for r) (some (content ++ piece)) files in
      (
        k.range ∙ range,
        k.name ∙ name,
        rw k.size size,
        (
          fine,
          content ++ piece,
          now_found,
          append_assoc content piece (concat pieces)
              ∙ (ap (λ c. c ++ (piece ++ concat pieces)) same ∙ whole),
          omega (arith, k.bytes, bytes, length-append content piece, ap length same),
        ),
      )
  TaskStep-IsRight r _ _ files _ (ends stats failure _ now) h =
      ends-IsRight r stats failure files now h

  -- A step of a task changes the file of its chunk alone.
  TaskStep-other :
      (r : ChunkRange) (key : Text) (t t1 : Task) (files files1 : Contents)
      → TaskStep t files t1 files1
      → t.stats.chunk_file_name ≡ name_for r
      → text_beq (name_for r) key ≡ false
      → files1 key ≡ files key
  TaskStep-other r key _ _ files _ (opens stats stream _) name apart =
      ap (λ k. put k (some []) files key) name ∙ rw apart refl
  TaskStep-other r key _ _ files _ (writes stats piece pieces failure _ content there_is) name
        apart =
      ap (λ k. put k (some (content ++ piece)) files key) name ∙ rw apart refl
  TaskStep-other r key _ _ files _ (ends stats failure _ now) name apart = refl

  -- Each task is right for its range.
  abbrev pub AllRight : List ChunkRange → List Task → Contents → Type 0
  AllRight [] [] files = Unit
  AllRight [] (t ∷ tasks) files = ⊥
  AllRight (r ∷ rs) [] files = ⊥
  AllRight (r ∷ rs) (t ∷ tasks) files = IsRight r t files × AllRight rs tasks files

  pub AllRight-same :
      (rs : List ChunkRange) (tasks : List Task) (files files1 : Contents)
      → ((r : ChunkRange) → In r rs → files1 (name_for r) ≡ files (name_for r))
      → AllRight rs tasks files
      → AllRight rs tasks files1
  AllRight-same [] [] files files1 same h = h
  AllRight-same [] (t ∷ tasks) files files1 same h = absurd h
  AllRight-same (r ∷ rs) [] files files1 same h = absurd h
  AllRight-same (r ∷ rs) (t ∷ tasks) files files1 same ((range, name, size, phase), h) = (
    (range, name, size, PhaseRight-same r t.stats t.phase files files1 (same r (inl refl)) phase),
    AllRight-same rs tasks files files1 (λ c i. same c (inr i)) h,
  )

  Step-other :
      (rs : List ChunkRange) (key : Text) (tasks tasks1 : List Task) (files files1 : Contents)
      → Step tasks files tasks1 files1
      → AllRight rs tasks files
      → ((r : ChunkRange) → In r rs → text_beq (name_for r) key ≡ false)
      → files1 key ≡ files key
  Step-other [] key _ _ files files1 (here t t1 tasks _ _ s) h apart = absurd h
  Step-other [] key _ _ files files1 (there t tasks tasks1 _ _ s) h apart = absurd h
  Step-other (r ∷ rs) key _ _ files files1 (here t t1 tasks _ _ s) ((range, name, size, phase), h)
        apart =
      TaskStep-other r key t t1 files files1 s name (apart r (inl refl))
  Step-other (r ∷ rs) key _ _ files files1 (there t tasks tasks1 _ _ s) (right, h) apart =
      Step-other rs key tasks tasks1 files files1 s h (λ c i. apart c (inr i))

  In-name : (c : ChunkRange) (rs : List ChunkRange) → In c rs → In (name_for c) (map name_for rs)
  In-name c [] i = i
  In-name c (r ∷ rs) (inl e) = inl (ap name_for e)
  In-name c (r ∷ rs) (inr i) = inr (In-name c rs i)

  names-differ :
      (r c : ChunkRange) (rs : List ChunkRange)
      → ¬ In (name_for r) (map name_for rs)
      → In c rs
      → text_beq (name_for c) (name_for r) ≡ false
  names-differ r c rs new i = elim (Bool-cases (text_beq (name_for c) (name_for r))) [
    | inr e ↦ e
    | inl e ↦
        let same : name_for c ≡ name_for r =
          ground (arith, e, text_beq_iff (name_for c) (name_for r)) in
        absurd (new (subst (λ k. In k (map name_for rs)) same (In-name c rs i)))
  ]

  names-differ_back :
      (r c : ChunkRange) (rs : List ChunkRange)
      → ¬ In (name_for r) (map name_for rs)
      → In c rs
      → text_beq (name_for r) (name_for c) ≡ false
  names-differ_back r c rs new i = ground (
    arith,
    names-differ r c rs new i,
    text_beq_iff (name_for c) (name_for r),
    text_beq_iff (name_for r) (name_for c),
  )

  Step-AllRight :
      (rs : List ChunkRange) (tasks tasks1 : List Task) (files files1 : Contents)
      → IsDistinct (map name_for rs)
      → Step tasks files tasks1 files1
      → AllRight rs tasks files
      → AllRight rs tasks1 files1
  Step-AllRight [] _ _ files files1 distinct (here t t1 tasks _ _ s) h = absurd h
  Step-AllRight [] _ _ files files1 distinct (there t tasks tasks1 _ _ s) h = absurd h
  Step-AllRight (r ∷ rs) _ _ files files1 (new, distinct) (here t t1 tasks _ _ s) (right, h) =
      let (range, name, size, phase) = right in
      (
        TaskStep-IsRight r t t1 files files1 s right,
        AllRight-same rs tasks files files1
            (λ c i.
              TaskStep-other r (name_for c) t t1 files files1 s name
                (names-differ_back r c rs new i))
            h,
      )
  Step-AllRight (r ∷ rs) _ _ files files1 (new, distinct) (there t tasks tasks1 _ _ s)
        ((range, name, size, phase), h) =
      let same =
        Step-other rs (name_for r) tasks tasks1 files files1 s h
          (λ c i. names-differ r c rs new i) in
      (
        (range, name, size, PhaseRight-same r t.stats t.phase files files1 same phase),
        Step-AllRight rs tasks tasks1 files files1 distinct s h,
      )

  pub Steps-AllRight :
      (rs : List ChunkRange) (tasks tasks1 : List Task) (files files1 : Contents)
      → IsDistinct (map name_for rs)
      → Steps tasks files tasks1 files1
      → AllRight rs tasks files
      → AllRight rs tasks1 files1
  Steps-AllRight rs _ _ _ _ distinct (stays tasks files) h = h
  Steps-AllRight rs _ _ _ _ distinct (step tasks tasks1 tasks2 files files1 files2 s more) h =
      Steps-AllRight rs tasks1 tasks2 files1 files2 distinct more
        (Step-AllRight rs tasks tasks1 files files1 distinct s h)
