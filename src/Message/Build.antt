-- ===== src/Message/Build.antt =====
-- c/message.c: `create_message` and the functions that append one field. A buffer is a `char` array;
-- a step that reads or writes outside it is `none`.
pub mod Address
pub mod Create
pub mod Fields
pub mod Length
pub mod Layout
pub mod Texts
use net_radio.Common.{
  ℕ, zero, suc, ◌+◌, ◌-◌, ◌*◌, Option, none, some, List, [], ◌∷◌, ◌++◌, Bytes, ◌>>=◌, ℤ, length,
  take, replicate,
}
use net_radio.Memory.{poke, memmove, strlen, text, text_prefix, strcpy, strcat, ncpy_bytes}
use net_radio.Libc.Decimal.{format_int, inet_ntop}
use net_radio.Libc.Token.{strtok}
use net_radio.Message.Types.{
  MsgType, ackm, diff, endm, imok, item, last, linb, list, mess, oldm, regi, reno, reok, ruok,
  unknown, msg_type_to_str, msglen, msg_end, msg_id_size, msg_ip_size, msg_mess_size,
  msg_nb_mess_size, msg_num_diff_size, msg_num_mess_size, default_char, default_int, separator_char,
}

-- `strcpy` from a null pointer is a fault.
unfoldable pub set_msg_type : Bytes → MsgType → Option Bytes
set_msg_type buf type = do name ← msg_type_to_str type; strcpy 0 name buf

unfoldable pub add_msg_end : Bytes → Option Bytes
add_msg_end buf = strcat (msg_end ++ 0 ∷ []) buf

-- `snprintf` keeps `nb_width` characters of the print and the '\0'.
unfoldable pub add_int : Bytes → ℤ → ℕ → Option Bytes
add_int buf nb nb_width = strcat (take nb_width (format_int nb_width nb) ++ 0 ∷ []) buf

unfoldable pub add_separator : Bytes → Option Bytes
add_separator buf = do
  buf_len ← strlen buf
  buf1 ← poke buf_len separator_char buf
  poke (buf_len + 1) 0 buf1

-- `stpncpy` gives the place behind the copied text, from which `memset` fills the field.
unfoldable pub add_string : Bytes → Bytes → ℕ → Option Bytes
add_string buf str total_width = do
  buf_len ← strlen buf
  t ← text_prefix total_width str
  buf1 ← memmove buf_len (ncpy_bytes total_width t) buf
  buf2 ← memmove (buf_len + length t) (replicate (total_width - length t) default_char) buf1
  poke (buf_len + total_width) 0 buf2

-- The loop over the tokens: each is copied to the right end of its field of three.
unfoldable pub place_tokens : ℕ → ℕ → List Bytes → Bytes → Option Bytes
place_tokens buf_len i [] buf = some buf
place_tokens buf_len i (tok ∷ toks) buf =
    strcpy (4 * i + buf_len + 3 - length tok) (tok ++ 0 ∷ []) buf >>= λ buf1.
    place_tokens buf_len (suc i) toks buf1

unfoldable pub add_ip_addr : Bytes → ℕ → Option Bytes
unfolding place_tokens
add_ip_addr buf inp = do
  buf_len ← strlen buf
  buf1 ← memmove buf_len (replicate msg_ip_size default_int) buf
  buf2 ← place_tokens buf_len 0 (strtok b'.' (inet_ntop inp)) buf1
  buf3 ← poke (buf_len + 3) b'.' buf2
  buf4 ← poke (buf_len + 7) b'.' buf3
  poke (buf_len + 11) b'.' buf4

-- One variadic argument: an `int`, a `char*` (the array that it points to) or a `struct in_addr*`
-- (the address in host order).
pub data Arg : Type 0 where
  int : ℤ → Arg
  str : Bytes → Arg
  in_addr : ℕ → Arg

-- `va_arg`; reading an argument that is missing or of another type is undefined, here a fault.
unfoldable pub va_int : List Arg → Option (ℤ × List Arg)
va_int (int n ∷ args) = some (n, args)
va_int _ = none

unfoldable pub va_str : List Arg → Option (Bytes × List Arg)
va_str (str s ∷ args) = some (s, args)
va_str _ = none

unfoldable pub va_in_addr : List Arg → Option (ℕ × List Arg)
va_in_addr (in_addr a ∷ args) = some (a, args)
va_in_addr _ = none

-- The two fields that MESS shares with DIFF and OLDM.
unfoldable pub add_id_mess : Bytes → List Arg → Option Bytes
unfolding add_separator add_string va_str
add_id_mess ret args = do
  ret1 ← add_separator ret
  (id, args1) ← va_str args
  ret2 ← add_string ret1 id msg_id_size
  ret3 ← add_separator ret2
  (text, args2) ← va_str args1
  add_string ret3 text msg_mess_size

-- An address and its port, which ITEM and REGI hold twice.
unfoldable pub add_endpoint : Bytes → List Arg → Option (Bytes × List Arg)
unfolding add_separator add_ip_addr add_int va_in_addr va_int
add_endpoint ret args = do
  ret1 ← add_separator ret
  (a, args1) ← va_in_addr args
  ret2 ← add_ip_addr ret1 a
  ret3 ← add_separator ret2
  (port, args2) ← va_int args1
  ret4 ← add_int ret3 port msg_num_mess_size
  some (ret4, args2)

unfoldable pub add_number : Bytes → List Arg → ℕ → Option (Bytes × List Arg)
unfolding add_separator add_int va_int
add_number ret args width = do
  ret1 ← add_separator ret
  (n, args1) ← va_int args
  ret2 ← add_int ret1 n width
  some (ret2, args1)

-- The case of ITEM and REGI.
unfoldable pub add_stream : Bytes → List Arg → Option Bytes
unfolding add_separator add_string add_endpoint va_str
add_stream ret args = do
  ret1 ← add_separator ret
  (id, args1) ← va_str args
  ret2 ← add_string ret1 id msg_id_size
  (ret3, args2) ← add_endpoint ret2 args1
  (ret4, args3) ← add_endpoint ret3 args2
  some ret4

-- The `switch` of `create_message`.
unfoldable pub add_fields : MsgType → Bytes → List Arg → Option Bytes
unfolding add_number add_id_mess add_stream
add_fields diff ret args = do
  (ret1, args1) ← add_number ret args msg_num_mess_size
  add_id_mess ret1 args1
add_fields oldm ret args = do
  (ret1, args1) ← add_number ret args msg_num_mess_size
  add_id_mess ret1 args1
add_fields mess ret args = add_id_mess ret args
add_fields item ret args = add_stream ret args
add_fields regi ret args = add_stream ret args
add_fields last ret args = do (ret1, args1) ← add_number ret args msg_nb_mess_size; some ret1
add_fields linb ret args = do (ret1, args1) ← add_number ret args msg_num_diff_size; some ret1
add_fields _ ret args = some ret

-- What `create_message` does: a null pointer, an abort by `assert`, or the buffer as it is left.
pub data Created : Type 0 where
  null : Created
  aborted : Created
  message : Bytes → Created

-- From `set_msg_type` to the return.
unfoldable pub write_message : Bytes → MsgType → List Arg → Option Created
unfolding set_msg_type add_fields add_msg_end
write_message ret type args = do
  ret1 ← set_msg_type ret type
  ret2 ← add_fields type ret1 args
  ret3 ← add_msg_end ret2
  some (message ret3)

-- The choice of the buffer: `malloc n` is a block of `n` bytes, or `none`.
unfoldable pub create_in :
    (malloc : ℕ → Option Bytes) → Option Bytes → ℕ → MsgType → List Arg → Option Created
unfolding write_message
create_in malloc none len type args = elim (malloc (len + 1)) [
  | none ↦ some aborted
  | some ret ↦ write_message ret type args
]
create_in malloc (some buf) len type args = write_message buf type args

unfoldable pub create_message :
    (malloc : ℕ → Option Bytes) → Option Bytes → MsgType → List Arg → Option Created
unfolding create_in
create_message malloc buf type args = elim (msglen type) [
  | none ↦ some null
  | some len ↦ create_in malloc buf len type args
]
