-- ===== src/Error.antt =====
-- src/error.rs: the error types that the other modules return.
pub mod Status
use Prim.Native.String.{String}
use arfw.Base.{ℕ}

-- `std::io::Error`, by the ways in which the program makes one: `last_os_error()`,
-- `Error::other` around an error of the Windows API or around a text, and the end of file that
-- `read_exact` reports.
pub data IoError : Type 0 where
  last_os : ℕ → IoError
  other_windows : ℕ → IoError
  other_text : String → IoError
  unexpected_eof : IoError

pub data Error : Type 0 where
  io : IoError → Error
  windows : ℕ → Error
  apfs : String → Error
  win_fsp : String → Error
  invalid_path : String → Error
  not_found : String → Error
