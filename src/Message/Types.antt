-- ===== src/Message/Types.antt =====
-- c/message.h and c/message.c: the message types, their names, their lengths and their recognition.
use net_radio.Common.{
  ℕ, ◌+◌, ◌*◌, Bool, false, Option, none, some, [], ◌∷◌, ◌++◌, Bytes, ◌==◌, if◌then◌else◌, codes,
  ◌>>=◌, ℤ, pos, negsuc,
}
use net_radio.Memory.{text, text_prefix, ncpy_bytes, str_eq, literal}

abbrev pub msg_id_size : ℕ
msg_id_size = 8

abbrev pub msg_ip_size : ℕ
msg_ip_size = 15

abbrev pub msg_mess_size : ℕ
msg_mess_size = 140

abbrev pub msg_nb_mess_size : ℕ
msg_nb_mess_size = 3

abbrev pub msg_num_diff_size : ℕ
msg_num_diff_size = 2

abbrev pub msg_num_mess_size : ℕ
msg_num_mess_size = 4

abbrev pub msg_port_size : ℕ
msg_port_size = 4

abbrev pub msg_type_size : ℕ
msg_type_size = 4

abbrev pub msg_end_size : ℕ
msg_end_size = 2

abbrev pub msg_end : Bytes
msg_end = b'\r' ∷ b'\n' ∷ []

abbrev pub default_char : ℕ
default_char = b'#'

abbrev pub default_int : ℕ
default_int = b'0'

abbrev pub separator_char : ℕ
separator_char = b' '

abbrev pub max_msg_size : ℕ
max_msg_size = 161

abbrev pub regi_len : ℕ
regi_len = 57

-- `typedef int msg_type`: the fourteen numbers that have a name; `unknown` is any other `int`, such as
-- the -1 of `get_msg_type`.
pub data MsgType : Type 0 where
  ackm diff endm imok item last linb list mess oldm regi reno reok ruok unknown : MsgType

-- The number of a type.
unfoldable pub number : MsgType → ℤ
number unknown = negsuc 0
number ackm = pos 1
number diff = pos 2
number endm = pos 3
number imok = pos 4
number item = pos 5
number last = pos 6
number linb = pos 7
number list = pos 8
number mess = pos 9
number oldm = pos 10
number regi = pos 11
number reno = pos 12
number reok = pos 13
number ruok = pos 14

-- The string of a type; a null pointer for any other number.
unfoldable pub msg_type_to_str : MsgType → Option Bytes
msg_type_to_str unknown = none
msg_type_to_str ackm = some (literal "ACKM")
msg_type_to_str diff = some (literal "DIFF")
msg_type_to_str endm = some (literal "ENDM")
msg_type_to_str imok = some (literal "IMOK")
msg_type_to_str item = some (literal "ITEM")
msg_type_to_str last = some (literal "LAST")
msg_type_to_str linb = some (literal "LINB")
msg_type_to_str list = some (literal "LIST")
msg_type_to_str mess = some (literal "MESS")
msg_type_to_str oldm = some (literal "OLDM")
msg_type_to_str regi = some (literal "REGI")
msg_type_to_str reno = some (literal "RENO")
msg_type_to_str reok = some (literal "REOK")
msg_type_to_str ruok = some (literal "RUOK")

-- The length of a message; `none` is the -1 of an unknown type.
unfoldable pub msglen : MsgType → Option ℕ
msglen unknown = none
msglen diff =
    some (msg_type_size + msg_end_size + msg_num_mess_size + msg_id_size + msg_mess_size + 3)
msglen oldm =
    some (msg_type_size + msg_end_size + msg_num_mess_size + msg_id_size + msg_mess_size + 3)
msglen mess = some (msg_type_size + msg_end_size + msg_id_size + msg_mess_size + 2)
msglen item =
    some (msg_type_size + msg_end_size + msg_id_size + 2 * msg_ip_size + 2 * msg_port_size + 5)
msglen regi =
    some (msg_type_size + msg_end_size + msg_id_size + 2 * msg_ip_size + 2 * msg_port_size + 5)
msglen last = some (msg_type_size + msg_end_size + msg_nb_mess_size + 1)
msglen linb = some (msg_type_size + msg_end_size + msg_num_diff_size + 1)
msglen ackm = some (msg_type_size + msg_end_size)
msglen endm = some (msg_type_size + msg_end_size)
msglen imok = some (msg_type_size + msg_end_size)
msglen list = some (msg_type_size + msg_end_size)
msglen reno = some (msg_type_size + msg_end_size)
msglen reok = some (msg_type_size + msg_end_size)
msglen ruok = some (msg_type_size + msg_end_size)

-- The ladder of `strcmp` over the copied type.
unfoldable pub kind_of : Bytes → MsgType
unfolding str_eq
kind_of t =
    if str_eq (codes "ACKM") t
    then ackm
    else if str_eq (codes "DIFF") t
    then diff
    else if str_eq (codes "ENDM") t
    then endm
    else if str_eq (codes "IMOK") t
    then imok
    else if str_eq (codes "ITEM") t
    then item
    else if str_eq (codes "LAST") t
    then last
    else if str_eq (codes "LINB") t
    then linb
    else if str_eq (codes "LIST") t
    then list
    else if str_eq (codes "MESS") t
    then mess
    else if str_eq (codes "OLDM") t
    then oldm
    else if str_eq (codes "REGI") t
    then regi
    else if str_eq (codes "RENO") t
    then reno
    else if str_eq (codes "REOK") t
    then reok
    else if str_eq (codes "RUOK") t
    then ruok
    else unknown

-- `strncpy` copies at most four bytes of the text into `type`, and `type[4]` is set to '\0'.
unfoldable pub get_msg_type : Bytes → Option MsgType
unfolding text_prefix text
get_msg_type msg = do
  t ← text_prefix msg_type_size msg
  type ← text (ncpy_bytes msg_type_size t ++ 0 ∷ [])
  some (kind_of type)

-- A number that is read as a length: the message is as long as `msglen (type)`.
abbrev pub has_len : ℕ → MsgType → Bool
has_len len type = elim (msglen type) [ none ↦ false | some n ↦ len == n ]
