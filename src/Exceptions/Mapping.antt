-- ===== src/Exceptions/Mapping.antt =====
-- What the two error mappers let out.
use sdownload.Prelude.{◌≡◌, ◌⊎◌, true, arith}
use sdownload.Exceptions.{
  Exc, is_sdownload_error, is_passed_on, map_os_error, map_httpx_error, file_not_found_error,
}

-- The storage layer lets out Python's argument errors and SDownload's own errors, nothing else.
pub map_os_error-IsDomain :
    (e : Exc)
    → (is_passed_on (map_os_error e) ≡ true) ⊎ (is_sdownload_error (map_os_error e) ≡ true)
unfolding map_os_error
map_os_error-IsDomain file_not_found_error = ground arith
map_os_error-IsDomain _ = ground arith

-- Mapping an OS error twice, as nested calls of the storage do, is mapping it once.
pub map_os_error-idempotent : (e : Exc) → map_os_error (map_os_error e) ≡ map_os_error e
unfolding map_os_error
map_os_error-idempotent file_not_found_error = ground arith
map_os_error-idempotent _ = ground arith

-- The HTTP layer lets out Python's argument errors and SDownload's own errors, nothing else.
pub map_httpx_error-IsDomain :
    (e : Exc)
    → (is_passed_on (map_httpx_error e) ≡ true) ⊎ (is_sdownload_error (map_httpx_error e) ≡ true)
unfolding map_httpx_error
map_httpx_error-IsDomain file_not_found_error = ground arith
map_httpx_error-IsDomain _ = ground arith

-- Mapping an HTTP error twice is mapping it once.
pub map_httpx_error-idempotent : (e : Exc) → map_httpx_error (map_httpx_error e) ≡ map_httpx_error e
unfolding map_httpx_error
map_httpx_error-idempotent file_not_found_error = ground arith
map_httpx_error-idempotent _ = ground arith
