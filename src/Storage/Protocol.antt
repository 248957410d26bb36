-- ===== src/Storage/Protocol.antt =====
-- interfaces/protocols/file_storage_protocol.py: the storage as its clients see it. The operations
-- come with what the clients rely on; `Storage.Local.Laws` shows that `LocalStorage` keeps it.
use sdownload.Prelude.{
  arith, true, ◌||◌, Bool, ℕ, ◌+◌, ◌-◌, ◌≤◌, ◌<◌, ◌≡◌, false, Option, none, some, List, [], ◌∷◌,
  ◌++◌, take, drop, length, concat, if◌then◌else◌,
}
use sdownload.Prelude.Int.{ℤ, pos}
use sdownload.Models.Text.{text_beq_iff, Text, text_beq}
use sdownload.Exceptions.{Exc, Result, ok}

abbrev pub Bytes : Type 0
Bytes = List ℕ

-- An asynchronous stream of byte strings: what it yields, and the exception that ends it, if any.
pub record Stream : Type 0 where
  pub pieces : List Bytes
  pub failure : Option Exc

-- `StoredFileInfo`, without the time of creation.
pub record StoredFileInfo : Type 0 where
  pub key : Text
  pub size_bytes : ℕ

-- `FileRangeParams`
pub record FileRangeParams : Type 0 where
  pub key : Text
  pub start_byte : Option ℕ
  pub end_byte : Option ℕ

-- `config.start_byte or 0`, which is where the source is read from.
abbrev pub start_of : FileRangeParams → ℕ
start_of config = elim config.start_byte [ none ↦ 0 | some b ↦ b ]

-- The part of a file that a source of a merge asks for.
abbrev pub part : FileRangeParams → Bytes → Bytes
part config file = elim config.end_byte [
  | none ↦ drop (start_of config) file
  | some e ↦ take (e + 1 - start_of config) (drop (start_of config) file)
]

-- `start` is not behind `end`.
abbrev pub IsRange : FileRangeParams → Type 0
IsRange config = elim config.end_byte [ none ↦ Unit | some e ↦ start_of config ≤ e + 1 ]

-- Every source of a merge is a file, with a proper range, and their parts in order make `bytes`.
abbrev pub Parts : (Text → Option Bytes) → List FileRangeParams → Bytes → Type 0
Parts content [] bytes = bytes ≡ []
Parts content (config ∷ configs) bytes =
    (file : Bytes) × (content config.key ≡ some file)
    × IsRange config
    × (rest : Bytes) × (bytes ≡ part config file ++ rest)
    × Parts content configs rest

-- No source is the destination.
abbrev pub IsAway : Text → List FileRangeParams → Type 0
IsAway dest [] = Unit
IsAway dest (config ∷ configs) = (text_beq dest config.key ≡ false) × IsAway dest configs

-- What `op` did: it returned, and each file is as `content'` says.
abbrev pub Does :
    {S : Type 0}
    → (S → Text → Option Bytes)
    → (Text → Option Bytes)
    → Result (Unit {0}) × S
    → Type 0
Does content content' (r, s) = (r ≡ ok tt) × ((key : Text) → content s key ≡ content' key)

-- The files with one of them given anew, or taken away.
abbrev pub put : Text → Option Bytes → (Text → Option Bytes) → Text → Option Bytes
put key file content k = if text_beq key k then file else content k

pub put_self :
    (key : Text) (file : Option Bytes) (before : Text → Option Bytes)
    → put key file before key ≡ file
put_self key file before = ground (arith, text_beq_iff key key)

-- Whether a listing has a file with the name, and whether a file is there.
abbrev pub is_listed : Text → List StoredFileInfo → Bool
is_listed key [] = false
is_listed key (info ∷ infos) = text_beq info.key key || is_listed key infos

abbrev pub is_file : Option Bytes → Bool
is_file none = false
is_file (some b) = true

pub record FileStorage : Type 1 where
  pub State : Type 0
  pub content : State → Text → Option Bytes
  pub get_binary_data : Text → State → Stream
  pub save_binary_data : Text → Stream → State → Result (Unit {0}) × State
  pub delete_data : Text → State → Result (Unit {0}) × State
  pub list_data : State → List StoredFileInfo
  pub get_data_info : Text → State → Option StoredFileInfo
  pub move_data : Text → Text → State → Result (Unit {0}) × State
  pub merge_ranges : List FileRangeParams → Text → State → Result (Unit {0}) × State
  pub crop_file : Text → ℤ → ℤ → State → Result (Unit {0}) × State
  pub get_data_info_law :
      (key : Text) (s : State)
      → get_data_info key s ≡ elim (content s key) [
        | none ↦ none
        | some b ↦ some (record { key = key; size_bytes = length b })
      ]
  pub list_data_law :
      (key : Text) (s : State) → is_listed key (list_data s) ≡ is_file (content s key)
  pub get_binary_data_law :
      (key : Text) (s : State) (b : Bytes)
      → content s key ≡ some b
      → ((get_binary_data key s).failure ≡ none) × (concat (get_binary_data key s).pieces ≡ b)
  -- A stream that ends well is saved; one that fails leaves what it yielded.
  pub save_binary_data_law :
      (key : Text) (stream : Stream) (s : State) (k : Text)
      → content (save_binary_data key stream s).1 k
        ≡ put key (some (concat stream.pieces)) (content s) k
  pub save_binary_data-result :
      (key : Text) (stream : Stream) (s : State)
      → stream.failure ≡ none
      → (save_binary_data key stream s).0 ≡ ok tt
  pub delete_data_law :
      (key : Text) (s : State) (k : Text)
      → content (delete_data key s).1 k ≡ put key none (content s) k
  pub delete_data-result :
      (key : Text) (s : State) (b : Bytes) → content s key ≡ some b → (delete_data key s).0 ≡ ok tt
  pub move_data_law :
      (source dest : Text) (s : State) (b : Bytes)
      → content s source ≡ some b
      → Does content (put dest (some b) (put source none (content s))) (move_data source dest s)
  pub crop_file_law :
      (key : Text) (first last : ℕ) (s : State) (b : Bytes)
      → content s key ≡ some b
      → first ≤ last
      → last < length b
      → Does content
          (put key (some (take (last + 1 - first) (drop first b))) (content s))
          (crop_file key (pos first) (pos last) s)
  pub merge_ranges_law :
      (configs : List FileRangeParams) (dest : Text) (s : State) (bytes : Bytes)
      → IsAway dest configs
      → Parts (content s) configs bytes
      → Does content (put dest (some bytes) (content s)) (merge_ranges configs dest s)
