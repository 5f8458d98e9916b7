-- ===== src/Manager/Register.antt =====
-- c/manager.c: BROADCASTER_REGISTER, an array of rows of `REGI_LEN + 1` characters whose first one is
-- '\0' in a free row, and the critical sections over it. Each function here runs under the mutex.
-- `max` is MAX_REGISTERED_BROADCASTER.
pub mod Slots
pub mod Refines
pub mod Laws
use mathlib.Core.Option as Option
use net_radio.Common.{
  ℕ, zero, suc, ◌+◌, Bool, true, false, Option, none, some, List, [], ◌∷◌, Bytes, ◌==◌,
  if◌then◌else◌, ◌>>=◌, get_elem?, length, take,
}
use net_radio.Memory.{poke, strcpy, strncpy, literal}
use net_radio.Message.Types.{regi_len, msg_type_size, msg_type_to_str, item}

abbrev pub Register : Type 0
Register = List Bytes

-- Read `n` bytes from the front of an array.
unfoldable pub read_bytes : ℕ → Bytes → Option Bytes
read_bytes zero m = some []
read_bytes (suc n) [] = none
read_bytes (suc n) (x ∷ m) = read_bytes n m >>= λ t. some (x ∷ t)

-- The message is copied into the row, and its type is replaced by ITEM.
unfoldable pub fill_row : Bytes → Bytes → Option Bytes
fill_row row regi_msg = do
  row1 ← strcpy 0 regi_msg row
  name ← msg_type_to_str item
  strncpy 0 name msg_type_size row1

-- The loop of `register_broadcaster` over the first `max` rows: the register that it leaves, and the
-- index of the row that it returns, or none for a null pointer. A row behind the array is a fault.
unfoldable pub register_broadcaster : ℕ → Register → Bytes → Option (Register × Option ℕ)
unfolding fill_row
register_broadcaster zero rows regi_msg = some (rows, none)
register_broadcaster (suc max) [] regi_msg = none
register_broadcaster (suc max) (row ∷ rows) regi_msg =
    let next = register_broadcaster max rows regi_msg in
    get_elem? row 0 >>= λ first.
    if first == 0
    then (fill_row row regi_msg >>= λ row1. some (row1 ∷ rows, some 0))
    else (next >>= λ (rows1, place). some (row ∷ rows1, Option.map suc place))

-- The loop of `copy_broadcaster_register`: the entries of BUFFER that are filled, in their order.
-- Their number is what the function returns.
unfoldable pub copy_broadcaster_register : ℕ → Register → Option (List Bytes)
copy_broadcaster_register zero rows = some []
copy_broadcaster_register (suc max) [] = none
copy_broadcaster_register (suc max) (row ∷ rows) =
    let rest = copy_broadcaster_register max rows in
    get_elem? row 0 >>= λ first.
    if first == 0
    then rest
    else (read_bytes (regi_len + 1) row >>= λ entry. rest >>= λ entries. some (entry ∷ entries))

-- `*canary = '\0'`, with the canary at the front of row `i`.
unfoldable pub clear_canary : ℕ → Register → Option Register
clear_canary i [] = none
clear_canary zero (row ∷ rows) = poke 0 0 row >>= λ row1. some (row1 ∷ rows)
clear_canary (suc i) (row ∷ rows) = clear_canary i rows >>= λ rows1. some (row ∷ rows1)

-- The loop of `init_manager` over the register.
unfoldable pub init_register : ℕ → Register → Option Register
init_register zero rows = some rows
init_register (suc max) [] = none
init_register (suc max) (row ∷ rows) = do
  row1 ← poke 0 0 row
  rows1 ← init_register max rows
  some (row1 ∷ rows1)
