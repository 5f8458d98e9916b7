-- ===== src/Message/Verify.antt =====
-- c/message.c: `verify_msg` and the functions that check one field. `msg + k` is the array from index
-- `k` on; a read outside the array is `none`. The pointers are never null, so the tests of `msg`
-- are left out.
pub mod Grammar
pub mod Reads
pub mod Matches
pub mod Conforms
pub mod Accepts
pub mod Positions
use net_radio.Common.{
  ℕ, zero, suc, ◌+◌, ◌*◌, Bool, true, false, ◌&&◌, ◌||◌, Option, none, some, List, [], ◌∷◌, ◌++◌,
  Bytes, ◌==◌, leb, ltb, if◌then◌else◌, ◌>>=◌, ◌and_then◌, drop,
}
use net_radio.Memory.{strlen}
use net_radio.Message.Types.{
  MsgType, ackm, diff, endm, imok, item, last, linb, list, mess, oldm, regi, reno, reok, ruok,
  unknown, get_msg_type, has_len, max_msg_size, msg_id_size, msg_ip_size, msg_mess_size,
  msg_nb_mess_size, msg_num_diff_size, msg_num_mess_size, msg_port_size, msg_type_size,
  separator_char,
}

-- `isdigit`
abbrev pub isdigit : ℕ → Bool
isdigit c = leb b'0' c && leb c b'9'

-- `msg[0] == c`
unfoldable pub char_is : ℕ → Bytes → Option Bool
char_is c [] = none
char_is c (x ∷ m) = some (x == c)

unfoldable pub verify_int : Bytes → ℕ → Option Bool
verify_int msg zero = some true
verify_int [] (suc w) = none
verify_int (c ∷ msg) (suc w) = let rest = verify_int msg w in if isdigit c then rest else some false

unfoldable pub verify_separator : Bytes → Option Bool
verify_separator msg = char_is separator_char msg

unfoldable pub verify_end : Bytes → Option Bool
verify_end msg = char_is b'\r' msg and_then char_is b'\n' (drop 1 msg)

unfoldable pub verify_ip_addr : Bytes → Option Bool
verify_ip_addr msg =
    verify_int msg 3
    and_then char_is b'.' (drop 3 msg)
    and_then verify_int (drop 4 msg) 3
    and_then char_is b'.' (drop 7 msg)
    and_then verify_int (drop 8 msg) 3
    and_then char_is b'.' (drop 11 msg)
    and_then verify_int (drop 12 msg) 3

-- The `case` of DIFF and OLDM. The second separator is looked for behind MSG_MESS_SIZE characters.
unfoldable pub verify_diff : ℕ → Bytes → Option Bool
unfolding verify_separator verify_end
verify_diff len msg =
    some (has_len len diff)
    and_then verify_separator (drop msg_type_size msg)
    and_then verify_int (drop (msg_type_size + 1) msg) msg_num_mess_size
    and_then verify_separator (drop (msg_type_size + 1 + msg_num_mess_size) msg)
    and_then verify_separator (drop (msg_type_size + 2 + msg_num_mess_size + msg_mess_size) msg)
    and_then verify_end
        (drop (msg_type_size + msg_num_mess_size + msg_id_size + msg_mess_size + 3) msg)

unfoldable pub verify_mess : ℕ → Bytes → Option Bool
unfolding verify_separator verify_end
verify_mess len msg =
    some (has_len len mess)
    and_then verify_separator (drop msg_type_size msg)
    and_then verify_separator (drop (msg_type_size + 1 + msg_id_size) msg)
    and_then verify_end (drop (msg_type_size + msg_id_size + msg_mess_size + 2) msg)

-- The `case` of ITEM and REGI.
unfoldable pub verify_item : ℕ → Bytes → Option Bool
unfolding verify_separator verify_ip_addr verify_end
verify_item len msg =
    some (has_len len item)
    and_then verify_separator (drop msg_type_size msg)
    and_then verify_separator (drop (msg_type_size + 1 + msg_id_size) msg)
    and_then verify_ip_addr (drop (msg_type_size + 2 + msg_id_size) msg)
    and_then verify_separator (drop (msg_type_size + 2 + msg_id_size + msg_ip_size) msg)
    and_then verify_int (drop (msg_type_size + 3 + msg_id_size + msg_ip_size) msg) msg_port_size
    and_then verify_separator
        (drop (msg_type_size + 3 + msg_id_size + msg_ip_size + msg_port_size) msg)
    and_then verify_ip_addr
        (drop (msg_type_size + 4 + msg_id_size + msg_ip_size + msg_port_size) msg)
    and_then verify_separator
        (drop (msg_type_size + 4 + msg_id_size + 2 * msg_ip_size + msg_port_size) msg)
    and_then verify_int
        (drop (msg_type_size + 5 + msg_id_size + 2 * msg_ip_size + msg_port_size) msg) msg_port_size
    and_then verify_end
        (drop (msg_type_size + 5 + msg_id_size + 2 * msg_ip_size + 2 * msg_port_size) msg)

unfoldable pub verify_last : ℕ → Bytes → Option Bool
unfolding verify_separator verify_end
verify_last len msg =
    some (has_len len last)
    and_then verify_separator (drop msg_type_size msg)
    and_then verify_int (drop (msg_type_size + 1) msg) msg_nb_mess_size
    and_then verify_end (drop (msg_type_size + 1 + msg_nb_mess_size) msg)

unfoldable pub verify_linb : ℕ → Bytes → Option Bool
unfolding verify_separator verify_end
verify_linb len msg =
    some (has_len len linb)
    and_then verify_separator (drop msg_type_size msg)
    and_then verify_int (drop (msg_type_size + 1) msg) msg_num_diff_size
    and_then verify_end (drop (msg_type_size + 1 + msg_num_diff_size) msg)

-- The `case` of the seven types with no field.
unfoldable pub verify_plain : ℕ → Bytes → Option Bool
unfolding verify_end
verify_plain len msg = some (has_len len ackm) and_then verify_end (drop msg_type_size msg)

-- The `switch` of `verify_msg`.
unfoldable pub verify_fields : MsgType → ℕ → Bytes → Option Bool
unfolding verify_diff verify_mess verify_item verify_last verify_linb verify_plain
verify_fields diff = verify_diff
verify_fields oldm = verify_diff
verify_fields mess = verify_mess
verify_fields item = verify_item
verify_fields regi = verify_item
verify_fields last = verify_last
verify_fields linb = verify_linb
verify_fields ackm = verify_plain
verify_fields endm = verify_plain
verify_fields imok = verify_plain
verify_fields list = verify_plain
verify_fields reno = verify_plain
verify_fields reok = verify_plain
verify_fields ruok = verify_plain
verify_fields unknown = λ len msg. some false

-- `type < 0`
abbrev pub is_unknown : MsgType → Bool
is_unknown unknown = true
is_unknown _ = false

unfoldable pub verify_msg : Bytes → Option Bool
verify_msg msg = do
  type ← get_msg_type msg
  len ← strlen msg
  if is_unknown type || ltb len 6 || ltb max_msg_size len
      then some false
      else verify_fields type len msg
