-- ===== src/Tests/Transfers.antt =====
-- Ranged downloads from a small server, and pieces that are throttled.
use sdownload.Prelude.{
  length, ltb, Bool-cases, inl, inr, false, ℕ, ◌≡◌, ◌⊎◌, refl, true, Option, none, some, List, [],
  ◌∷◌, concat, arith, if◌then◌else◌, append-nil,
}
use sdownload.Prelude.Int.{pos, negsuc}
use sdownload.Models.Text.Search.{has_code}
use sdownload.Models.Text.{Text, codes, text_beq}
use sdownload.Models.Text.Decimal.{read_digits}
use sdownload.Exceptions.{
  Result, ok, err, http_error, value_error, is_passed_on, is_sdownload_error,
}
use sdownload.Storage.Protocol.{Bytes}
use sdownload.Chunks.Names.{format_chunk_file_name-injective}
use sdownload.Stats.{ChunkDownloadStats, new_stats, downloading, completed}
use sdownload.HttpClient.Downloader.{
  text_or_empty, end_pos, ByteResponse, download_chunk, range_header,
}
use sdownload.HttpClient.Downloader.Serves.{
  read_range, bytes_of, Honours, range_header-read_range, download_chunk-served, served, Answers,
  download_chunk-IsDomain,
}
use sdownload.HttpClient.Info.{
  after_first, size_and_ranges, HeaderLibrary, ResourceInfo, get_file_info,
}
use sdownload.HttpClient.Info.Sizes.{get_file_info-resumed}
use sdownload.Throttlers.{Piece, Counted}
use sdownload.Throttlers.Bursts
use sdownload.Throttlers.FixedWindow
use sdownload.Throttlers.TokenBucket
use sdownload.Throttlers.FixedWindow.{FixedWindow, Window, new_window}
use sdownload.Throttlers.TokenBucket.{TokenBucket, Bucket}
use sdownload.Manager.{ChunkManager}
use sdownload.Chunks.Monitor.{monitor_download_progress}
use sdownload.Chunks.Monitor.Idle.{AreIdle, monitor_download_progress_ends}
use sdownload.Prelude.Dict.{Dict}
use sdownload.Models.Range.{ChunkRange}
use sdownload.Urls.{
  has_extension, common_name, name_of, default_navigable, add_extension, is_navigable,
}
use sdownload.Urls.Navigable.{is_navigable-add_extension}
use sdownload.Tests.Downloads.{source, front}
use sdownload.Tests.Web.{urls}

format_chunk_file_name-injective_example : (front.start ≡ front.start) × (front.end ≡ front.end)
format_chunk_file_name-injective_example =
    format_chunk_file_name-injective front front (codes "f") refl

abbrev response : Bytes → ByteResponse
response bytes = record {
  url = codes "u";
  scheme = codes "http";
  status_code = 206;
  is_success = true;
  headers = λ name.
      if text_beq name (codes "ETag")
      then some (codes "e1")
      else if text_beq name (codes "Content-Range")
      then some (codes "bytes 0-0/10")
      else none;
  body = record { pieces = bytes ∷ []; failure = none };
}

abbrev refusal : ByteResponse
refusal = record {
  url = codes "u";
  scheme = codes "http";
  status_code = 416;
  is_success = false;
  headers = λ name. none;
  body = record { pieces = []; failure = none };
}

abbrev answer : Option (ℕ × Option ℕ) → Result ByteResponse
answer none = err http_error
answer (some (start, end)) =
    ok (if ltb start (length source) then response (bytes_of source start end) else refusal)

abbrev pub server : Option Text → Result ByteResponse
server none = ok (response source)
server (some header) = answer (read_range header)

range-Answers :
    (start : ℕ) (end : Option ℕ)
    → Answers source
        (codes "e1")
        start
        end
        (if ltb start (length source) then response (bytes_of source start end) else refusal)
range-Answers start end = elim (Bool-cases (ltb start (length source))) [
  | inl inside ↦ rw inside (
    (λ h. (refl, refl, refl, append-nil (bytes_of source start end))),
    (λ h. absurd (ground arith)),
  )
  | inr outside ↦ rw outside ((λ h. absurd (ground arith)), (λ h. (refl, refl)))
]

pub server-Honours : Honours source (codes "e1") server
server-Honours header start end e valid = (
  if ltb start (length source) then response (bytes_of source start end) else refusal,
  rw e refl,
  range-Answers start end,
)

range_header-read_range_example :
    (header : Text) × (range_header (pos 3) (end_pos (some 12)) ≡ ok (some header))
    × (read_range header ≡ some (3, some 12))
range_header-read_range_example = range_header-read_range 3 (some 12) (omega arith)

download_chunk-served_example :
    let stream = download_chunk server (pos 2) (end_pos (some 5)) (some (codes "e1")) in
    (concat stream.pieces, stream.failure)
    ≡ served source (codes "e1") 2 (some 5) (some (codes "e1"))
download_chunk-served_example =
    download_chunk-served source (codes "e1") server 2 (some 5) (some (codes "e1")) server-Honours
      (omega arith)

download_chunk-IsDomain_example :
    (is_passed_on value_error ≡ true) ⊎ (is_sdownload_error value_error ≡ true)
unfolding download_chunk range_header
download_chunk-IsDomain_example =
    download_chunk-IsDomain server (negsuc 0) none none value_error refl

abbrev headers : HeaderLibrary
headers = record { int = λ s. some (pos (read_digits 0 s).0); parsedate = λ s. none }

-- What is found of the response with one byte.
abbrev first_info : ResourceInfo
first_info = record {
  file_name = codes "u.bin";
  file_dir = codes ".";
  file_size = pos 10;
  file_id = some (codes "e1");
  download_url = codes "u";
  transmission_protocol = codes "http";
  server_accept_ranges = true;
  file_created_at = 7;
  protocol_data = (response (1 ∷ [])).headers;
}

get_file_info-resumed_example :
    (answered : ByteResponse) × (ok (response (1 ∷ [])) ≡ ok answered)
    × (answered.is_success ≡ true)
    × (answered.status_code ≡ 206)
    × (has_code b'/' (text_or_empty (answered.headers (codes "Content-Range"))) ≡ true)
    × (headers.int (after_first b'/' (text_or_empty (answered.headers (codes "Content-Range"))))
        ≡ some (pos 10))
    × (first_info.file_id ≡ answered.headers (codes "ETag"))
    × (first_info.download_url ≡ answered.url)
unfolding get_file_info size_and_ranges name_of common_name has_extension
get_file_info-resumed_example =
    get_file_info-resumed headers urls 7 (codes "u") (ok (response (1 ∷ []))) first_info refl refl

abbrev tally : Counted
tally = record { stats = new_stats (codes "a") front none downloading (some 100) 0; callbacks = [] }

abbrev throttled_pieces : List Piece
throttled_pieces =
    record { size = 5; target = some 100; changed_at = 0; now = 0; after_sleep = 0 }
    ∷ record { size = 45; target = some 100; changed_at = 0; now = 100; after_sleep = 500 }
    ∷ []

abbrev fixed_window : FixedWindow
fixed_window = record {
  ticks_per_second = 1000;
  interval_ms = 200;
  min_chunk_size = 10;
  max_sleep = 1000;
}

abbrev window : Window
window = record (new_window fixed_window tally (some 100) 0) { last_target = some 100 }

abbrev token_bucket : TokenBucket
token_bucket = record {
  ticks_per_second = 1000;
  burst = 100;
  min_chunk_size = 10;
  max_sleep = 1000;
}

abbrev bucket : Bucket
bucket = record {
  tally = tally;
  last_check = 0;
  tokens = 10000;
  accumulated_since_check = 0;
  last_target = some 100;
}

abbrev pub manager : ChunkManager
manager = record {
  file_name = codes "f";
  file_size = some (pos 10);
  chunks_stats = [];
  chunks_tasks = [];
  monitor_done = none;
  cleaned_up = false;
}

abbrev all_completed : ℕ → Dict ChunkRange ChunkDownloadStats → Dict ChunkRange ChunkDownloadStats
all_completed k [] = []
all_completed k ((range, stats) ∷ rest) =
    (range, record stats { status = completed }) ∷ all_completed k rest

abbrev one_running : Dict ChunkRange ChunkDownloadStats
one_running = (front, new_stats (codes "a") front none downloading none 0) ∷ []

monitor_download_progress_ends_example :
    (final : Dict ChunkRange ChunkDownloadStats) × (monitor_download_progress all_completed
        (λ k. k)
        2
        0
        one_running
      ≡ some final)
    × AreIdle final
monitor_download_progress_ends_example =
    monitor_download_progress_ends all_completed (λ k. k) 1 0 one_running (refl, ground arith)

is_navigable-add_extension_example :
    is_navigable (add_extension (codes ".Md") default_navigable) (codes "mD") (codes "text/plain")
    ≡ some true
is_navigable-add_extension_example =
    is_navigable-add_extension default_navigable (codes ".Md") (codes "mD") (codes "text/plain")
      refl refl
