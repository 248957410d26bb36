-- ===== src/Chunks/Names.antt =====
-- The temporary names of chunks.
use sdownload.Prelude.{
  Bool-cases, Option-cases, inl, inr, append_assoc, refl, sym, ◌∙◌, drop, ℕ, Option, none, some, [],
  ◌∷◌, ◌≡◌, ◌<◌, arith, ap, false, length, length-append, ◌++◌,
}
use sdownload.Models.Text.Search.{starts_with}
use sdownload.Models.Text.Decimal.{read_digits, read_digits-decimal}
use sdownload.Models.Text.{decimal, Text, text_beq, text_beq_iff, codes}
use sdownload.Models.Range.{ChunkRange, range_str}
use sdownload.Chunks.{true, format_chunk_file_name}

longer : (r : ChunkRange) (name : Text) → length name < length (format_chunk_file_name r name)
unfolding format_chunk_file_name
longer r name = omega (
  arith,
  length-append (range_str r ++ codes "_" ++ name) (codes ".sdownload"),
  length-append (range_str r ++ codes "_") name,
)

-- The file of a chunk is never the file that the chunks are merged into.
pub format_chunk_file_name-fresh :
    (r : ChunkRange) (name : Text) → text_beq name (format_chunk_file_name r name) ≡ false
format_chunk_file_name-fresh r name = ground (
  arith,
  text_beq_iff name (format_chunk_file_name r name),
  longer r name,
  λ (e : name ≡ format_chunk_file_name r name). ap length e,
)

abbrev end_text : Option ℕ → Text
end_text none = codes "EOF"
end_text (some e) = decimal e

-- The name from its first character on.
abbrev name_text : ℕ → Option ℕ → Text → Text
name_text start end rest = decimal start ++ b'_' ∷ (end_text end ++ b'_' ∷ rest)

range_str-text : (r : ChunkRange) → range_str r ≡ decimal r.start ++ b'_' ∷ end_text r.end
unfolding range_str
range_str-text r = elim (Option-cases r.end) [
  | inl e ↦ rw e (append_assoc (decimal r.start) (b'_' ∷ []) (codes "EOF"))
  | inr (n, e) ↦ rw e (append_assoc (decimal r.start) (b'_' ∷ []) (decimal n))
]

format_chunk_file_name-text :
    (r : ChunkRange) (name : Text)
    → format_chunk_file_name r name ≡ name_text r.start r.end (name ++ codes ".sdownload")
unfolding format_chunk_file_name
format_chunk_file_name-text r name =
    ap (λ t. t ++ codes "_" ++ name ++ codes ".sdownload") (range_str-text r) ∙ simp append_assoc

end_text-injective :
    (a b : Option ℕ) (s t : Text) → end_text a ++ b'_' ∷ s ≡ end_text b ++ b'_' ∷ t → a ≡ b
end_text-injective none none s t h = refl
end_text-injective none (some e) s t h =
    let read = ap (read_digits 0) h ∙ read_digits-decimal e (b'_' ∷ t) refl in
    absurd (let bad : false ≡ true = ap (λ p. starts_with (b'_' ∷ []) p.1) read in cc)
end_text-injective (some e) none s t h =
    let read = sym (read_digits-decimal e (b'_' ∷ s) refl) ∙ ap (read_digits 0) h in
    absurd (let bad : true ≡ false = ap (λ p. starts_with (b'_' ∷ []) p.1) read in cc)
end_text-injective (some e) (some f) s t h =
    let read =
      sym (read_digits-decimal e (b'_' ∷ s) refl)
      ∙ (ap (read_digits 0) h ∙ read_digits-decimal f (b'_' ∷ t) refl) in
    ap some (ap (λ p. p.0) read)

-- Chunks of the same file with different ranges have different files.
pub format_chunk_file_name-injective :
    (r s : ChunkRange) (name : Text)
    → format_chunk_file_name r name ≡ format_chunk_file_name s name
    → (r.start ≡ s.start) × (r.end ≡ s.end)
format_chunk_file_name-injective r s name h =
    let same =
      sym (format_chunk_file_name-text r name) ∙ (h ∙ format_chunk_file_name-text s name) in
    let tail = name ++ codes ".sdownload" in
    let read =
      sym (read_digits-decimal r.start (b'_' ∷ (end_text r.end ++ b'_' ∷ tail)) refl)
      ∙ (ap (read_digits 0) same
          ∙ read_digits-decimal s.start (b'_' ∷ (end_text s.end ++ b'_' ∷ tail)) refl) in
    (ap (λ p. p.0) read, end_text-injective r.end s.end tail tail (ap (λ p. drop 1 p.1) read))

-- Chunks that start at different offsets have different files.
pub format_chunk_file_name-apart :
    (r c : ChunkRange) (name : Text)
    → r.start < c.start
    → text_beq (format_chunk_file_name c name) (format_chunk_file_name r name) ≡ false
format_chunk_file_name-apart r c name h =
    elim (Bool-cases (text_beq (format_chunk_file_name c name) (format_chunk_file_name r name))) [
      | inr e ↦ e
      | inl e ↦
          let same : format_chunk_file_name c name ≡ format_chunk_file_name r name = ground (
            arith,
            e,
            text_beq_iff (format_chunk_file_name c name) (format_chunk_file_name r name),
          ) in
          let (starts, ends) = format_chunk_file_name-injective c r name same in
          absurd (omega (arith, h, starts))
    ]
