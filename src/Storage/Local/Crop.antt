-- ===== src/Storage/Local/Crop.antt =====
-- Cropping a file in place keeps exactly the bytes of the range.
use native.Mathlib.Nat.{div-add-mod'}
use sdownload.Prelude.{
  ltb, Bool-cases, inl, inr, subst, ℕ, zero, suc, ◌+◌, ◌-◌, ◌*◌, ◌/◌, ◌%◌, ◌≤◌, ◌<◌, ◌≡◌, refl, ap,
  sym, ◌∙◌, ◌++◌, take, drop, length, arith, length-append, length-take, length-drop, take_all,
  drop-drop, take-add, take-append_left, drop-append_right, append_assoc,
}
use sdownload.Storage.Local.{write_at, read_at, copy_blocks, copy_rest, crop_in_place}
use sdownload.Storage.Protocol.{Bytes}

module _ (w : ℕ) (d file : Bytes) (inside : w ≤ length file) where
  length-front : length (take w file) ≡ w
  length-front = omega (arith, length-take w file)

  take-write_at : take (w + length d) (write_at w d file) ≡ take w file ++ d
  take-write_at =
      let behind = drop (w + length d) file in
      let n : length (take w file ++ d) ≡ w + length d =
        omega (arith, length-append (take w file) d, length-front) in
      ap (λ t. take (w + length d) t) (sym (append_assoc (take w file) d behind))
      ∙ (take-append_left (w + length d) (take w file ++ d) behind (omega (arith, n))
          ∙ take_all (w + length d) (take w file ++ d) (omega (arith, n)))

  drop-write_at : (m : ℕ) → w + length d ≤ m → drop m (write_at w d file) ≡ drop m file
  drop-write_at m h =
      let behind = drop (w + length d) file in
      let e : w + length d + (m - w - length d) ≡ m = omega arith in
      drop-append_right m (take w file) (d ++ behind) (omega (arith, length-front))
      ∙ (rw length-front (
          drop-append_right (m - w) d behind (omega arith)
          ∙ (drop-drop (m - w - length d) (w + length d) file ∙ ap (λ t. drop t file) e)))

  length-write_at : w + length d ≤ length file → length (write_at w d file) ≡ length file
  length-write_at h = omega (
    arith,
    length-append (take w file) (d ++ drop (w + length d) file),
    length-append d (drop (w + length d) file),
    length-front,
    length-drop (w + length d) file,
  )

-- `w` bytes of the range stand at the front of the file, and what is still to be read is as it was.
record HasMoved (original : Bytes) (start w : ℕ) (file : Bytes) : Type 0 where
  moved : take w file ≡ take w (drop start original)
  unread : drop (start + w) file ≡ drop (start + w) original
  size : length file ≡ length original

drop_later :
    (start w k : ℕ) (file : Bytes) → drop k (drop (start + w) file) ≡ drop (start + (w + k)) file
drop_later start w k file =
    let e : start + w + k ≡ start + (w + k) = omega arith in
    drop-drop k (start + w) file ∙ ap (λ t. drop t file) e

HasMoved-write :
    (original : Bytes) (start w k : ℕ) (file : Bytes)
    → start + w + k ≤ length original
    → HasMoved original start w file
    → HasMoved original start (w + k) (write_at w (read_at (start + w) k file) file)
HasMoved-write original start w k file fits h =
    let d = read_at (start + w) k file in
    let n : length d ≡ k =
      omega (arith, length-take k (drop (start + w) file), length-drop (start + w) file, h.size) in
    let inside : w ≤ length file = omega (arith, h.size) in
    record {
      moved =
          subst (λ t. take (w + t) (write_at w d file) ≡ take (w + k) (drop start original)) n
            (take-write_at w d file inside
              ∙ (cc (h.moved, h.unread, drop-drop w start original)
                  ∙ sym (take-add w k (drop start original))));
      unread =
          drop-write_at w d file inside (start + (w + k)) (omega (arith, n))
          ∙ (sym (drop_later start w k file)
              ∙ (ap (λ t. drop k t) h.unread ∙ drop_later start w k original));
      size = length-write_at w d file inside (omega (arith, h.size)) ∙ h.size;
    }

-- The blocks move one after another; each is read before a later write can reach it.
HasMoved-copy_blocks :
    (original : Bytes) (start buffer blocks w r : ℕ) (file : Bytes)
    → r ≡ start + w
    → start + w + blocks * buffer ≤ length original
    → HasMoved original start w file
    → let (file', w', r') = copy_blocks blocks buffer w r file in
      (w' ≡ w + blocks * buffer) × (r' ≡ start + w') × HasMoved original start w' file'
unfolding copy_blocks
HasMoved-copy_blocks original start buffer zero w r file e fits h = (omega arith, e, h)
HasMoved-copy_blocks original start buffer (suc blocks) w r file e fits h =
    let next =
      HasMoved-copy_blocks original start buffer blocks (w + buffer) (r + buffer)
        (write_at w (read_at r buffer file) file) (omega (arith, e)) (omega arith)
        (rw e (HasMoved-write original start w buffer file (omega arith) h)) in
    (omega (arith, next.0), next.1, next.2)

HasMoved-take :
    (original : Bytes) (start w : ℕ) (file : Bytes)
    → HasMoved original start w file
    → take w file ≡ take w (drop start original)
HasMoved-take original start w file h = h.moved

copy_rest-eq :
    (original : Bytes) (start rest target w r : ℕ) (file : Bytes)
    → r ≡ start + w
    → w + rest ≡ target
    → start + target ≤ length original
    → HasMoved original start w file
    → copy_rest rest target (file, w, r) ≡ take target (drop start original)
copy_rest-eq original start rest target w r file er et fits h = elim (Bool-cases (ltb 0 rest)) [
  | inl some_left ↦
      rw (some_left, er, ← et)
        (HasMoved-take original start (w + rest) (write_at w (read_at (start + w) rest file) file)
          (HasMoved-write original start w rest file (omega (arith, et)) h))
  | inr none_left ↦
      let e : w ≡ target = ground arith in
      rw (none_left, ← e) (HasMoved-take original start w file h)
]

-- With a buffer above 0, a crop in place to bytes that the file has leaves exactly these bytes.
pub crop_in_place-eq :
    (buffer start target : ℕ) (file : Bytes)
    → 0 < buffer
    → start + target ≤ length file
    → crop_in_place buffer start target file ≡ take target (drop start file)
unfolding crop_in_place
crop_in_place-eq buffer start target file hb fits =
    let whole = div-add-mod' target buffer in
    let (ew, er, h) =
      HasMoved-copy_blocks file start buffer (target / buffer) 0 start file (omega arith)
        (omega (arith, whole)) (record { moved = refl; unread = refl; size = refl }) in
    let (file', w, r) = copy_blocks (target / buffer) buffer 0 start file in
    copy_rest-eq file start (target % buffer) target w r file' er (omega (arith, ew, whole)) fits h
