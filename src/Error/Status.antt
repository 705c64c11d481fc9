-- ===== src/Error/Status.antt =====
-- src/error.rs: `ntstatus_to_io_error`.
use arfw.Base.{ℕ, zero, suc, ◌+◌, ◌-◌, ◌/◌, ◌%◌, ◌^◌, List, [], ◌∷◌, ◌++◌, if◌then◌else◌, ◌==◌, ltb}
use arfw.Base.Int.{ℤ, pos, negsuc}
use arfw.Base.Text.{codes}

pub data ErrorKind : Type 0 where
  not_found permission_denied invalid_input other : ErrorKind

-- An `io::Error` of a kind with a message.
pub record StatusError : Type 0 where
  pub kind : ErrorKind
  pub message : List ℕ

-- `as u32`
unfoldable pub to_u32 : ℤ → ℕ
to_u32 (pos n) = n % 2 ^ 32
to_u32 (negsuc n) = 2 ^ 32 - 1 - n % 2 ^ 32

abbrev hex_digit : ℕ → ℕ
hex_digit d = if ltb d 10 then b'0' + d else b'A' + (d - 10)

-- The lowest digits of a number in base 16, the highest of them first.
unfoldable pub hex : ℕ → ℕ → List ℕ
hex zero n = []
hex (suc k) n = hex k (n / 16) ++ (hex_digit (n % 16) ∷ [])

unfoldable pub ntstatus_to_io_error : ℤ → StatusError
unfolding to_u32 hex
ntstatus_to_io_error status =
    let code = to_u32 status in
    if code == 0xC0000034
    then record { kind = not_found; message = codes "Object name not found" }
    else if code == 0xC000003A
    then record { kind = not_found; message = codes "Path not found" }
    else if code == 0xC0000022
    then record { kind = permission_denied; message = codes "Access denied" }
    else if code == 0xC0000043
    then record { kind = invalid_input; message = codes "Sharing violation" }
    else record { kind = other; message = codes "NTSTATUS: 0x" ++ hex 8 code }
