-- ===== src/Exceptions.antt =====
-- exceptions/, file_system/os_error_mapper.py and http_client/httpx_error_mapper.py. An exception is
-- its class, with the number that a mapper reads; messages, paths, URLs and causes are left out.
pub mod Mapping
use sdownload.Prelude.{ℕ, Bool, true, false, ◌||◌, ◌==◌, if◌then◌else◌, Option, none, some}

pub data Exc : Type 0 where
  -- Python's
  value_error type_error key_error cancelled_error zero_division_error runtime_error : Exc
  file_not_found_error permission_error : Exc
  os_error : ℕ → Exc
  -- httpx's
  timeout_exception connect_error httpx_network_error httpx_protocol_error proxy_error http_error :
      Exc
  http_status_error : ℕ → Exc
  -- exceptions/base.py
  sdownload_error lifecycle_error : Exc
  -- exceptions/communication.py
  communication_error download_request_error network_error protocol_error : Exc
  download_timeout_error resource_info_error resource_not_found_error : Exc
  access_denied_error server_unavailable_error : Exc
  -- exceptions/data.py
  data_error reconstruction_error file_id_mismatch_error integrity_error : Exc
  chunk_succession_error : Exc
  -- exceptions/infrastructure.py
  infrastructure_error storage_error storage_full_error storage_permission_error : Exc
  storage_not_found_error : Exc

-- `isinstance(e, asyncio.CancelledError)`, which is no `Exception`: `except Exception` lets it pass.
abbrev pub is_cancelled_error : Exc → Bool
is_cancelled_error cancelled_error = true
is_cancelled_error _ = false

-- `isinstance(e, StorageError)`
pub is_storage_error : Exc → Bool
is_storage_error storage_error = true
is_storage_error storage_full_error = true
is_storage_error storage_permission_error = true
is_storage_error storage_not_found_error = true
is_storage_error _ = false

-- `isinstance(e, InfrastructureError)`
pub is_infrastructure_error : Exc → Bool
unfolding is_storage_error
is_infrastructure_error infrastructure_error = true
is_infrastructure_error e = is_storage_error e

-- `isinstance(e, DataError)`
pub is_data_error : Exc → Bool
is_data_error data_error = true
is_data_error reconstruction_error = true
is_data_error file_id_mismatch_error = true
is_data_error integrity_error = true
is_data_error chunk_succession_error = true
is_data_error _ = false

-- `isinstance(e, CommunicationError)`
pub is_communication_error : Exc → Bool
is_communication_error communication_error = true
is_communication_error download_request_error = true
is_communication_error network_error = true
is_communication_error protocol_error = true
is_communication_error download_timeout_error = true
is_communication_error resource_info_error = true
is_communication_error resource_not_found_error = true
is_communication_error access_denied_error = true
is_communication_error server_unavailable_error = true
is_communication_error _ = false

-- `isinstance(e, SDownloadError)`
pub is_sdownload_error : Exc → Bool
unfolding is_infrastructure_error is_data_error is_communication_error
is_sdownload_error sdownload_error = true
is_sdownload_error lifecycle_error = true
is_sdownload_error e = is_communication_error e || is_data_error e || is_infrastructure_error e

-- `isinstance(e, (ValueError, TypeError, KeyError, asyncio.CancelledError))`
unfoldable pub is_passed_on : Exc → Bool
is_passed_on value_error = true
is_passed_on type_error = true
is_passed_on key_error = true
is_passed_on cancelled_error = true
is_passed_on _ = false

-- The numbers of <errno.h> that the mapper tests.
abbrev pub eperm : ℕ
eperm = 1

abbrev pub eacces : ℕ
eacces = 13

abbrev pub enospc : ℕ
enospc = 28

-- `map_os_error`, its tests in order; a class that no test names comes to the last two.
unfoldable pub map_os_error : Exc → Exc
unfolding is_passed_on is_sdownload_error
map_os_error file_not_found_error = storage_not_found_error
map_os_error permission_error = storage_permission_error
map_os_error (os_error errno) =
    if errno == eacces || errno == eperm
    then storage_permission_error
    else if errno == enospc
    then storage_full_error
    else storage_error
map_os_error e = if is_passed_on e then e else if is_sdownload_error e then e else storage_error

-- The status codes of `map_httpx_error`.
pub map_status : ℕ → Exc
map_status code =
    if code == 404
    then resource_not_found_error
    else if code == 401 || code == 403
    then access_denied_error
    else if code == 429 || code == 503 || code == 504
    then server_unavailable_error
    else download_request_error

-- `map_httpx_error`; an `OSError` is an `IOError`.
unfoldable pub map_httpx_error : Exc → Exc
unfolding is_passed_on is_sdownload_error map_status
map_httpx_error timeout_exception = download_timeout_error
map_httpx_error (http_status_error code) = map_status code
map_httpx_error connect_error = network_error
map_httpx_error httpx_network_error = network_error
map_httpx_error httpx_protocol_error = protocol_error
map_httpx_error proxy_error = protocol_error
map_httpx_error http_error = download_request_error
map_httpx_error file_not_found_error = download_request_error
map_httpx_error permission_error = download_request_error
map_httpx_error (os_error errno) = download_request_error
map_httpx_error e =
    if is_passed_on e then e else if is_sdownload_error e then e else communication_error

-- A call's outcome.
pub data Result {ℓ} (A : Type ℓ) : Type ℓ where
  ok : A → Result A
  err : Exc → Result A
