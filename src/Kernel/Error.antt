-- ===== src/Kernel/Error.antt =====
-- kernel/src/error.rs, and the part of `std::io::Error` that the code builds: a kind with a message
-- or with a wrapped error.
use xray_rs.Base.{ℕ, String, Bool, true, false}

pub data ErrorKind : Type 0 where
  timed_out invalid_data unexpected_eof permission_denied not_found unsupported other : ErrorKind

mutual
  pub data Error : Type 0 where
    truncated : (needed had : ℕ) → Error
    overflow : Error
    bad_address_type : ℕ → Error
    bad_domain : Error
    protocol : String → Error
    auth : Error
    crypto : String → Error
    config : String → Error
    io : IoError → Error
    service_stack : Error

  pub data IoError : Type 0 where
    message : ErrorKind → String → IoError
    wrapped : ErrorKind → Error → IoError

-- `impl From<Error> for io::Error`
pub from_error : Error → IoError
from_error (io e) = e
from_error e = wrapped other e

-- The pattern `Err(Error::Truncated { .. })` on which the readers ask for more bytes.
abbrev pub is_truncated : Error → Bool
is_truncated (truncated _ _) = true
is_truncated _ = false
