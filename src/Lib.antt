-- ===== src/Lib.antt =====
-- sDownload downloads a file in chunks, several at a time, and puts the chunks together again.
--
-- The program and its files here (paths are from the repository's root):
-- - sDownload/interfaces/models/chunk_models.py: byte ranges, inclusive at both ends, fragments and
--   actions. `Models.Range` has `ChunkRange` with `__str__`, `length` and both meanings of `in`;
--   `Models.Action` the actions; `Models.Text` Python's `str` as code points.
-- - sDownload/exceptions, sDownload/file_system/os_error_mapper.py and
--   sDownload/http_client/httpx_error_mapper.py: `Exceptions`, where an exception is its class and
--   the number that a mapper reads, with `map_os_error` and `map_httpx_error`.
-- - sDownload/utils/range_operations.py: `Ranges.Split` has `calculate_ranges`, which cuts the gaps
--   between cached ranges into chunks, and `Ranges.Coverage` has `calculate_optimal_coverage`, the
--   breadth-first search for fragments that cover the file.
-- - sDownload/interfaces/protocols/file_storage_protocol.py: `Storage.Protocol`, a record of the
--   operations of a storage and of the laws that its clients rely on. The state of a storage is
--   abstract; its content maps names to bytes.
-- - sDownload/file_system/local_storage.py: `Storage.Local` has each operation of `LocalStorage` on
--   the files of a directory, with its loops and buffers; `Storage.Local.Laws` makes it an instance
--   of the protocol.
-- - sDownload/interfaces/models/stats_models.py: `Stats`, the counters, the statuses and the limit
--   observer of a chunk.
-- - sDownload/services/downloader_manager/chunk_utils: `Chunks` (common.py), `Chunks.Reconstruct`
--   (reconstructor.py), `Chunks.Succession` (succession.py), `Chunks.Download` (downloader.py),
--   `Chunks.Monitor` (monitor.py) and `Chunks.Cleanup` (cleanup.py), each over any storage that keeps
--   the laws of the protocol.
-- - sDownload/services/downloader_manager/recovery_download.py: `Recovery`, with JSON as a parameter.
-- - sDownload/services/downloader_manager/strategies: `Strategies.Sequential` and
--   `Strategies.Multi`, the state of each strategy and its handlers.
-- - sDownload/services/downloader_manager/chunk_manager.py: `Manager` has its state and the operations
--   that await no task, with `_wait_for_chunks`; `Manager.Stops` those that cancel tasks, delete
--   files and merge, `Manager.Streams` its beginning, its stream of completed chunks and its end.
-- - sDownload/services/downloader_manager/throttling: `Throttlers.FixedWindow` and
--   `Throttlers.TokenBucket`, the rounds of both throttlers over the pieces of a stream.
-- - sDownload/utils/url_operations.py, get_url_extension.py, is_navigable.py and navigable_config.py:
--   `Urls`, with the methods of `str` that they use in `Models.Text.Search`.
-- - sDownload/http_client/extractors: `HttpClient.Extractors`, what each extractor makes of the matches
--   of regular expressions and of XML elements.
-- - sDownload/http_client/resource_explorer.py: `HttpClient.Explorer`, what one URL is found to be.
-- - sDownload/http_client/httpx_downloader.py: `HttpClient.Crawl` (`list_resources`),
--   `HttpClient.Downloader` (`download_chunk`, the proxies) and `HttpClient.Info` (`get_file_info`).
-- - `Transfer` composes them: the chunks that the manager starts, each fetched by `download_chunk` into
--   the storage, one after another in `Transfer`, and in `Transfer.Tasks` in small steps of which the
--   event loop runs any next: a step relation on the tasks and the files.
--
-- How they interact: a strategy cuts the file by `calculate_ranges` and asks for chunks; each chunk
-- has a file in the storage and its counters; a succession crops the file of a chunk that was cut
-- short and renames it; a recovery saves which chunks have data; a reconstruction picks fragments of
-- the completed chunks by `calculate_optimal_coverage` and merges them in the storage. The bytes of a
-- chunk come from `download_chunk` of the HTTP client, through a throttler; a crawl explores one URL
-- after another and yields the files that it finds.
--
-- Functions keep their names; state is passed explicitly, and what raises returns a `Result`.
-- A coroutine runs to its end between two awaits of the model; where the source awaits another task,
-- the way this ends is an argument (`Waited`, with what a stopped task does), and what running tasks
-- do to the stats of a manager is a parameter (`settle`). Natural numbers are native and unbounded as Python's integers are; a
-- difference that can be negative is an integer of `Prelude.Int`.
--
-- httpx, urllib, html, regular expressions and XML are parameters: a server is a function from the
-- number of a call of the client to its answer, so that it may answer differently each time. Throttlers get the
-- readings of the clock with each piece, in ticks, and compare quotients by their two numbers.
--
-- Bounds and fuel: the `while` loops of `calculate_ranges` get as much fuel as there are bytes
-- (each round takes at least one), reading and merging one more than the bytes left, `decimal`
-- one more than the number, and the search two more than the number of cut points: a position is
-- queued at most once. The theorems on these functions need no assumption about fuel. The crawl has
-- fuel of its own, one for each task and one for the end; no number is enough for every server, but
-- for each server there is one, by induction on the levels that are left.
--
-- Not modelled: what an operating system or a disk refuses beyond a missing file, fsync, a
-- cancellation while files are deleted, the redirects within one call of the client, times of creation, the rounding of floats, logging, the interleaving of the tasks with the manager's
-- operations (their effect at an await is a parameter there), the download
-- task and its manager, which the source leaves unfinished, lower case beyond ASCII, and the replaced
-- code of services/downloader_manager/old.
pub mod Prelude
pub mod Models
pub mod Exceptions
pub mod Ranges
pub mod Storage
pub mod Stats
pub mod Chunks
pub mod Strategies
pub mod Throttlers
pub mod Urls
pub mod HttpClient
pub mod Transfer
pub mod Recovery
pub mod Manager
pub mod Tests
