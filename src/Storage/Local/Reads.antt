-- ===== src/Storage/Local/Reads.antt =====
-- Reading a file of `LocalStorage` in pieces.
use sdownload.Prelude.{
  zero, take-append-drop, length-drop, ap, length-take, take_all, List-cases, suc, ℕ, ◌≡◌, refl,
  ◌<◌, length, take, drop, arith, none, some, inl, inr, concat, [], ◌∷◌,
}
use sdownload.Prelude.Dict.{lookup}
use sdownload.Models.Text.{Text, text_eq}
use sdownload.Storage.Protocol.{Bytes}
use sdownload.Storage.Local.{Files, read_pieces, get_binary_data}

-- One piece, then the rest.
read_pieces_step :
    (fuel size : ℕ) (rest : Bytes)
    → 0 < length (take size rest)
    → read_pieces (suc fuel) size rest ≡ take size rest ∷ read_pieces fuel size (drop size rest)
unfolding read_pieces
read_pieces_step fuel size rest h = elim (List-cases (take size rest)) [
  | inl e ↦ absurd (omega (arith, ap length e))
  | inr (x, xs, e) ↦ ground (arith, e)
]

-- Reading a file piece by piece gives all of it.
concat-read_pieces :
    (fuel size : ℕ) (rest : Bytes)
    → 0 < size
    → length rest < fuel
    → concat (read_pieces fuel size rest) ≡ rest
unfolding read_pieces
concat-read_pieces zero size rest hs h = absurd (omega arith)
concat-read_pieces (suc fuel) size [] hs h = ground (arith, take_all {A = ℕ} size [] (omega arith))
concat-read_pieces (suc fuel) size (x ∷ xs) hs h =
    rw
      (
        read_pieces_step fuel size (x ∷ xs) (omega (arith, length-take size (x ∷ xs))),
        concat-read_pieces fuel size (drop size (x ∷ xs)) hs
            (omega (arith, length-drop size (x ∷ xs))),
      )
      (take-append-drop size (x ∷ xs))

-- With any piece size above 0, the pieces of a file that is there are all its bytes in order, and the
-- reading does not fail.
pub get_binary_data-reads :
    (chunk : ℕ) (key : Text) (files : Files) (b : Bytes)
    → 0 < chunk
    → lookup key files ≡ some b
    → ((get_binary_data chunk key files).failure ≡ none)
      × (concat (get_binary_data chunk key files).pieces ≡ b)
unfolding get_binary_data
get_binary_data-reads chunk key files b hc e =
    rw (e, get_binary_data) (refl, concat-read_pieces (suc (length b)) chunk b hc (omega arith))
