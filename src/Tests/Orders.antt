-- ===== src/Tests/Orders.antt =====
-- Two tasks whose steps alternate.
use sdownload.Models.Text.{Text, codes, text_beq}
use sdownload.Exceptions.{ok}
use sdownload.Chunks.Reconstruct.{reconstruct_file}
use sdownload.Storage.Protocol.{Stream}
use sdownload.Transfer.Orders.{task_stats, any_order-restores}
use sdownload.Chunks.{get_effective_range_info}
use sdownload.Prelude.{
  Bool-cases, inl, inr, ◌∙◌, arith, ◌≡◌, refl, none, some, List, [], ◌∷◌, ◌++◌, map, take, drop,
}
use sdownload.Models.Text.{Text, codes, decimal, digits_before}
use sdownload.Models.Range.{ChunkRange, range_str}
use sdownload.Storage.Protocol.{Bytes, put}
use sdownload.Stats.{ChunkDownloadStats, pending}
use sdownload.Ranges.Split.{calculate_ranges, fill_around, fill_gap}
use sdownload.Chunks.{format_chunk_file_name}
use sdownload.Manager.{registered_stats}
use sdownload.HttpClient.Downloader.{download_chunk, range_header}
use sdownload.Transfer.{raw_stream}
use sdownload.Transfer.Tasks.{
  Task, Contents, Steps, stays, step, here, there, opens, writes, ends, begun, wrote, finished,
}
use sdownload.Transfer.Orders.{new_task}
use sdownload.Tests.Downloads.{source, storage, files}
use sdownload.Tests.Transfers.{server, server-Honours, manager}

abbrev lower : ChunkRange
lower = record { start = 0; end = some 4 }

abbrev upper : ChunkRange
upper = record { start = 5; end = none }

abbrev new : ChunkRange → Task
new r = new_task storage server 7 source (codes "e1") server-Honours manager refl none r

abbrev stats : ChunkRange → ChunkDownloadStats
stats r = registered_stats r none pending 7 manager

abbrev name : ChunkRange → Text
name r = format_chunk_file_name r (codes "f")

abbrev before : Contents
before key = storage.content files key

abbrev opened : Contents
opened = put (name upper) (some []) (put (name lower) (some []) before)

abbrev after : Contents
after =
    put (name lower) (some ([] ++ take 5 source))
      (put (name upper) (some ([] ++ drop 5 source)) opened)

abbrev at_work : ChunkRange → Task
at_work r = begun (stats r) (raw_stream server r)

abbrev written : ChunkRange → Bytes → Task
written r piece = wrote (at_work r).stats piece [] none

abbrev done : ChunkRange → Bytes → Task
done r piece = finished (written r piece).stats none 9

abbrev last_tasks : List Task
last_tasks = done lower (take 5 source) ∷ done upper (drop 5 source) ∷ []

alternate : Steps (map new (calculate_ranges 10 2 [])) before last_tasks after
unfolding calculate_ranges fill_around fill_gap download_chunk range_header decimal digits_before
    format_chunk_file_name range_str
alternate =
    step _ _ _ _ _ _
      (here (new lower) (at_work lower) _ _ _
        (opens (stats lower) (raw_stream server lower) before))
      (step _ _ _ _ _ _
        (there _ _ _ _ _ (
          here (new upper) (at_work upper) _ _ _
            (opens (stats upper) (raw_stream server upper) (put (name lower) (some []) before))))
        (step _ _ _ _ _ _
          (there _ _ _ _ _ (
            here _ (written upper (drop 5 source)) _ _ _
              (writes (at_work upper).stats (drop 5 source) [] none opened [] refl)))
          (step _ _ _ _ _ _
            (here _ (written lower (take 5 source)) _ _ _
              (writes (at_work lower).stats (take 5 source) [] none _ [] refl))
            (step _ _ _ _ _ _
              (there _ _ _ _ _
                (here _ _ _ _ _ (ends (written upper (drop 5 source)).stats none after 9)))
              (step _ _ _ _ _ _
                (here _ _ _ _ _ (ends (written lower (take 5 source)).stats none after 9))
                (stays last_tasks after))))))

abbrev piece_of : Bytes → Stream
piece_of b = record { pieces = b ∷ []; failure = none }

abbrev upper_saved : storage.State
upper_saved = (storage.save_binary_data (name upper) (piece_of (drop 5 source)) files).1

abbrev both_saved : storage.State
both_saved = (storage.save_binary_data (name lower) (piece_of (take 5 source)) upper_saved).1

saved-after : (key : Text) → storage.content both_saved key ≡ after key
saved-after key =
    let lower_law =
      storage.save_binary_data_law (name lower) (piece_of (take 5 source)) upper_saved key in
    let upper_law =
      storage.save_binary_data_law (name upper) (piece_of (drop 5 source)) files key in
    elim (Bool-cases (text_beq (name lower) key)) [
      | inl e ↦ lower_law ∙ rw e refl
      | inr e ↦
          lower_law
          ∙ rw e (
              upper_law ∙ (elim (Bool-cases (text_beq (name upper) key)) [
                | inl f ↦ rw f refl
                | inr f ↦ rw f refl
              ]))
    ]

any_order-restores_example :
    ((reconstruct_file storage (task_stats last_tasks) (codes "f") (some 10) both_saved).0
      ≡ ok (codes "f"))
    × ((key : Text)
        → storage.content
            (reconstruct_file storage (task_stats last_tasks) (codes "f") (some 10) both_saved).1
            key
          ≡ put (codes "f") (some source) (storage.content both_saved) key)
unfolding get_effective_range_info
any_order-restores_example =
    any_order-restores storage server 7 source (codes "e1") server-Honours manager refl none 2
      before after last_tasks both_saved (omega arith) alternate
      ((ok lower, refl), ((ok upper, refl), ground arith)) saved-after
