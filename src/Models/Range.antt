-- ===== src/Models/Range.antt =====
-- interfaces/models/chunk_models.py: byte ranges, inclusive at both ends; an end of `none` is EOF.
-- Offsets are counted from 0 and so are natural numbers.
pub mod Contains
use sdownload.Prelude.{
  ℕ, ◌≡◌, ◌↔◌, Bool, true, false, ◌&&◌, Option, none, some, ◌++◌, arith, ◌==◌, ltb, if◌then◌else◌,
}
use sdownload.Prelude.Int.{ℤ, pos, ◌+ℤ◌, ◌-ℤ◌}
use sdownload.Prelude.Dict.{Eq}
use sdownload.Models.Text.{Text, codes, decimal}

pub record ChunkRange : Type 0 where
  pub start : ℕ
  pub end : Option ℕ

-- `ChunkRange.__str__`
unfoldable pub range_str : ChunkRange → Text
range_str r = decimal r.start ++ codes "_" ++ elim r.end [ none ↦ codes "EOF" | some e ↦ decimal e ]

-- `ChunkRange.length`
abbrev pub range_length : ChunkRange → Option ℤ
range_length r = elim r.end [ none ↦ none | some e ↦ some (pos e -ℤ pos r.start +ℤ pos 1) ]

-- `item in self` for an integer.
abbrev pub contains_offset : ChunkRange → ℕ → Bool
contains_offset self item =
    if ltb item self.start
    then false
    else elim self.end [ none ↦ true | some e ↦ if ltb e item then false else true ]

-- The tests on the two ends: a range with an end holds no open one and none that ends later.
abbrev pub ends_within : Option ℕ → Option ℕ → Bool
ends_within none item_end = true
ends_within (some e) none = false
ends_within (some e) (some i) = if ltb e i then false else true

-- `item in self` for a range.
abbrev pub contains_range : ChunkRange → ChunkRange → Bool
contains_range self item =
    if ltb item.start self.start
    then false
    else if ends_within self.end item.end
    then elim item.end [ none ↦ true | some e ↦ if ltb e item.start then false else true ]
    else false

-- `==` on the named tuple.
abbrev pub end_beq : Option ℕ → Option ℕ → Bool
end_beq none none = true
end_beq none (some b) = false
end_beq (some a) none = false
end_beq (some a) (some b) = a == b

abbrev pub range_beq : ChunkRange → ChunkRange → Bool
range_beq r s = r.start == s.start && end_beq r.end s.end

pub range_beq_iff : (r s : ChunkRange) → (range_beq r s ≡ true) ↔ (r ≡ s)
range_beq_iff r s = ground arith

instance abbrev pub range_eq : Eq ChunkRange
range_eq = record { beq = range_beq; beq_iff = range_beq_iff }

-- A fragment of a chunk that a merge reads: all of it, or its first bytes.
pub record ChunkFragment : Type 0 where
  pub range : ChunkRange
  pub read_limit_qt_bytes : Option ℕ
