-- ===== src/Chunks/Restores.antt =====
-- What a merge of the completed chunks makes of the source that they were downloaded from.
use mathlib.Core.Option.{some-injective}
use sdownload.Chunks.Slices.{slice, fragment-part}
use sdownload.Prelude.{
  false, zero, suc, subst, Bool-cases, ◌⊎◌, ℕ, ◌≡◌, Option, none, some, List, [], ◌∷◌, drop, length,
  map, In, inl, inr, arith, refl, sym, ap, ◌∙◌, drop_all,
}
use sdownload.Prelude.Dict.{lookup-insert_self, Dict, lookup, insert, lookup-insert}
use sdownload.Exceptions.{ok}
use sdownload.Ranges.Coverage.{is_goal}
use sdownload.Ranges.Coverage.Sound.{IsTarget}
use sdownload.Ranges.Coverage.Chain.{Chain}
use sdownload.Ranges.Coverage.Returned.{calculate_optimal_coverage-Reads}
use sdownload.Ranges.Coverage.Decides.{calculate_optimal_coverage_complete, Chain-chunk}
use sdownload.Chunks.Names.{format_chunk_file_name-fresh}
use sdownload.Models.Text.{Text}
use sdownload.Models.Range.{ChunkRange, ChunkFragment, range_eq, range_beq, range_beq_iff}
use sdownload.Ranges.Coverage.Path.{Reads, fragment_end}
use sdownload.Storage.Protocol.{put, IsAway, Parts, FileRangeParams, FileStorage, IsRange, Bytes}
use sdownload.Stats.{ChunkDownloadStats}
use sdownload.Chunks.{format_chunk_file_name}
use sdownload.Chunks.Reconstruct.{
  reconstruct_completed, merged_into, merge_found, merge_configs, completed_stats, reconstruct_file,
  range_map_from, end_byte_of,
}

-- Each of the chunks has its bytes of the source in its file.
abbrev pub IsStored : (Text → Option Bytes) → Text → Bytes → List ChunkDownloadStats → Type 0
IsStored content name source [] = Unit
IsStored content name source (s ∷ stats) =
    ((s.chunk_file_name ≡ format_chunk_file_name s.range name)
      × (content s.chunk_file_name ≡ some (slice s.range source)))
    × IsStored content name source stats

IsStored-In :
    (content : Text → Option Bytes) (name : Text) (source : Bytes) (stats : List ChunkDownloadStats)
    (s : ChunkDownloadStats)
    → IsStored content name source stats
    → In s stats
    → (s.chunk_file_name ≡ format_chunk_file_name s.range name)
      × (content s.chunk_file_name ≡ some (slice s.range source))
IsStored-In content name source [] s h i = absurd i
IsStored-In content name source (c ∷ stats) s h (inl e) = rw e h.0
IsStored-In content name source (c ∷ stats) s h (inr i) =
    IsStored-In content name source stats s h.1 i

inserted-In :
    (known : Dict ChunkRange ChunkDownloadStats) (all : List ChunkDownloadStats)
    (c : ChunkDownloadStats) (r : ChunkRange) (b : ChunkDownloadStats)
    → ((s : ChunkDownloadStats) → lookup r known ≡ some s → (s.range ≡ r) × In s all)
    → In c all
    → lookup r (insert c.range c known) ≡ some b
    → (b.range ≡ r) × In b all
inserted-In known all c r b h i k = elim (Bool-cases (range_beq c.range r)) [
  | inl same ↦
      let e : c ≡ b = some-injective c b (sym (rw same at (lookup-insert c.range r c known)) ∙ k) in
      subst (λ x. (x.range ≡ r) × In x all) e ((range_beq_iff c.range r).0 same, i)
  | inr other ↦ h b (sym (rw other at (lookup-insert c.range r c known)) ∙ k)
]

-- The map holds, for the range of each chunk, a chunk with that range.
range_map-In :
    (known : Dict ChunkRange ChunkDownloadStats) (all stats : List ChunkDownloadStats)
    (r : ChunkRange)
    → ((s : ChunkDownloadStats) → lookup r known ≡ some s → (s.range ≡ r) × In s all)
    → ((s : ChunkDownloadStats) → In s stats → In s all)
    → (s : ChunkDownloadStats) → lookup r (range_map_from known stats) ≡ some s
    → (s.range ≡ r) × In s all
range_map-In known all [] r h i s e = h s e
range_map-In known all (c ∷ stats) r h i s e =
    range_map-In (insert c.range c known) all stats r
      (λ b k. inserted-In known all c r b h (i c (inl refl)) k) (λ b j. i b (inr j)) s e

inserted-has :
    (known : Dict ChunkRange ChunkDownloadStats) (c : ChunkDownloadStats) (r : ChunkRange)
    (b : ChunkDownloadStats)
    → lookup r known ≡ some b
    → (s : ChunkDownloadStats) × (lookup r (insert c.range c known) ≡ some s)
inserted-has known c r b k = elim (Bool-cases (range_beq c.range r)) [
  | inl same ↦ (c, rw same at (lookup-insert c.range r c known))
  | inr other ↦ (b, rw other at (lookup-insert c.range r c known) ∙ k)
]

range_map-has :
    (known : Dict ChunkRange ChunkDownloadStats) (stats : List ChunkDownloadStats) (r : ChunkRange)
    → In r (map (λ s. s.range) stats) ⊎ ((s : ChunkDownloadStats) × (lookup r known ≡ some s))
    → (s : ChunkDownloadStats) × (lookup r (range_map_from known stats) ≡ some s)
range_map-has known [] r (inr h) = h
range_map-has known [] r (inl i) = absurd i
range_map-has known (c ∷ stats) r h = range_map-has (insert c.range c known) stats r (elim h [
  | inl (inl e) ↦ inr (c, rw e (lookup-insert_self c.range c known))
  | inl (inr i) ↦ inl i
  | inr (b, k) ↦ inr (inserted-has known c r b k)
])

IsRange-front :
    (key : Text) (limit : Option ℕ)
    → IsRange (record { key = key; start_byte = some 0; end_byte = end_byte_of limit })
IsRange-front key none = tt
IsRange-front key (some zero) = tt
IsRange-front key (some (suc k)) = omega arith

module _ (content : Text → Option Bytes) (name : Text) (source : Bytes)
    (stats : List ChunkDownloadStats) (stored : IsStored content name source stats) where
  -- The fragments that read the source become sources of a merge whose parts are the source.
  configs-Parts :
      (fs : List ChunkFragment) (p : ℕ)
      → Reads (map (λ s. s.range) stats) (length source) p fs (length source)
      → (configs : List FileRangeParams) × (merge_configs (range_map_from [] stats) fs
          ≡ some configs)
        × Parts content configs (drop p source)
        × IsAway name configs
  configs-Parts [] p e = ([], refl, drop_all p source (omega (arith, e)), tt)
  configs-Parts (f ∷ fs) p (here, later) =
      let (configs, eq, parts, away) = configs-Parts fs (fragment_end (length source) f) later in
      let (s, at_range) = range_map-has [] stats f.range (inl here.0) in
      let (same, i) =
        range_map-In [] stats stats f.range (λ b k. absurd (cc k)) (λ b j. j) s at_range in
      let (named, holds) = IsStored-In content name source stats s stored i in
      (
        record {
          key = s.chunk_file_name;
          start_byte = some 0;
          end_byte = end_byte_of f.read_limit_qt_bytes;
        }
            ∷ configs,
        rw (at_range, eq) refl,
        (
          slice f.range source,
          rw (← same) holds,
          IsRange-front s.chunk_file_name f.read_limit_qt_bytes,
          drop (fragment_end (length source) f) source,
          sym (fragment-part (map (λ t. t.range) stats) source p f s.chunk_file_name here),
          parts,
        ),
        (rw named (format_chunk_file_name-fresh s.range name), away),
      )

merge_found-ok :
    (storage : FileStorage) (configs : List FileRangeParams) (name : Text) (s : storage.State)
    → (storage.merge_ranges configs name s).0 ≡ ok tt
    → merge_found storage (some configs) name s ≡ (ok name, (storage.merge_ranges configs name s).1)
merge_found-ok storage configs name s e =
    ap (λ r. merged_into storage name (r, (storage.merge_ranges configs name s).1)) e

reconstruct_completed-restores :
    (storage : FileStorage) (stats : List ChunkDownloadStats) (name : Text) (size : Option ℕ)
    (s : storage.State) (source : Bytes)
    → IsStored (storage.content s) name source stats
    → IsTarget (map (λ t. t.range) stats) (length source) size
    → is_goal size 0 ≡ false
    → Chain (map (λ t. t.range) stats) size 0
    → ((reconstruct_completed storage stats name size s).0 ≡ ok name)
      × ((key : Text)
          → storage.content (reconstruct_completed storage stats name size s).1 key
            ≡ put name (some source) (storage.content s) key)
reconstruct_completed-restores storage [] name size s source stored target goal chain =
    let (c, i, _) = Chain-chunk [] size chain goal in absurd i
reconstruct_completed-restores storage (c ∷ cs) name size s source stored target goal chain =
    let ranges = map (λ t. t.range) (c ∷ cs) in
    let (path, found_path) = calculate_optimal_coverage_complete ranges size goal chain in
    let (configs, eq, parts, away) =
      configs-Parts (storage.content s) name source (c ∷ cs) stored path 0
        (calculate_optimal_coverage-Reads ranges size (length source) path target found_path) in
    let (merged, contents) = storage.merge_ranges_law configs name s source away parts in
    rw (found_path, eq, merge_found-ok storage configs name s merged) (refl, contents)

-- The completed chunks of a download hold their bytes of the source, and lead from its first byte to
-- its end. Whatever the storage is, `reconstruct_file` returns the name of the final file, which has
-- become the source, and no other file has changed.
pub reconstruct_file-restores :
    (storage : FileStorage) (stats_list : List ChunkDownloadStats) (name : Text) (size : Option ℕ)
    (s : storage.State) (source : Bytes)
    → IsStored (storage.content s) name source (completed_stats stats_list)
    → IsTarget (map (λ t. t.range) (completed_stats stats_list)) (length source) size
    → is_goal size 0 ≡ false
    → Chain (map (λ t. t.range) (completed_stats stats_list)) size 0
    → ((reconstruct_file storage stats_list name size s).0 ≡ ok name)
      × ((key : Text)
          → storage.content (reconstruct_file storage stats_list name size s).1 key
            ≡ put name (some source) (storage.content s) key)
unfolding reconstruct_file
reconstruct_file-restores storage stats_list name size s source stored target goal chain =
    reconstruct_completed-restores storage (completed_stats stats_list) name size s source stored
      target goal chain
