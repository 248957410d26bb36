-- ===== src/Recovery/Purge.antt =====
-- What is left of a download that is purged.
use sdownload.Exceptions.{ok}
use sdownload.Prelude.{ap, ◌∙◌, ◌≡◌, arith, Option, none, ◌||◌, if◌then◌else◌, ℕ}
use sdownload.Models.Text.{Text, text_beq}
use sdownload.Storage.Protocol.{Bytes, FileStorage}
use sdownload.Chunks.Cleans.{is_named}
use sdownload.Recovery.{
  DownloadInfo, purge_found, RecoveryState, names_of, load_info, purge_all, delete_safely,
  get_recovery_key,
}
use sdownload.Recovery.Rounds.{delete_safely-content}

module _ (storage : FileStorage) (json_dumps : RecoveryState → Bytes)
    (json_loads : Bytes → Option RecoveryState) where
  -- A purge that could load the recovery file, whatever it found, deletes it and the files of the chunks
  -- that it lists and that can be recovered, and no other file.
  pub purge_all-content :
      (file_id : Text) (now : ℕ) (info : Option DownloadInfo) (s : storage.State) (key : Text)
      → load_info storage json_dumps json_loads file_id now s ≡ ok info
      → storage.content (purge_all storage json_dumps json_loads file_id now s).1 key ≡ (
          if text_beq (get_recovery_key file_id) key || is_named key (names_of info)
          then none
          else storage.content s key)
  unfolding purge_all
  purge_all-content file_id now info s key e =
      ap
        (λ r.
          storage.content
            (purge_found storage json_dumps json_loads (get_recovery_key file_id) s r).1 key)
        e
      ∙ ground (
        arith,
        storage.delete_data_law (get_recovery_key file_id) (delete_safely storage (names_of info) s)
            key,
        delete_safely-content storage (names_of info) s key,
      )
