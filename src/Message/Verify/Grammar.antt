-- ===== src/Message/Verify/Grammar.antt =====
-- The formats of the messages as sequences of fields: the reference that `verify_msg` is proved
-- against. A format is read from left to right, each field right behind the one before.
use net_radio.Common.{
  ℕ, zero, suc, Bool, true, false, ◌&&◌, List, [], ◌∷◌, ◌++◌, Bytes, ◌==◌, length, drop, take,
}
use net_radio.Message.Types.{
  MsgType, diff, item, last, linb, mess, oldm, regi, kind_of, has_len, msg_type_size, msg_id_size,
  msg_mess_size, msg_nb_mess_size, msg_num_diff_size, msg_num_mess_size, msg_port_size,
}
use net_radio.Message.Verify.{isdigit}

pub data Field : Type 0 where
  char : ℕ → Field
  digits : ℕ → Field
  any : ℕ → Field

unfoldable pub head_is : ℕ → Bytes → Bool
head_is c [] = false
head_is c (x ∷ s) = x == c

-- The text begins with `w` digits.
unfoldable pub starts_digits : ℕ → Bytes → Bool
starts_digits zero s = true
starts_digits (suc w) [] = false
starts_digits (suc w) (c ∷ s) = isdigit c && starts_digits w s

abbrev pub ends : Bytes → Bool
ends s = head_is b'\r' s && head_is b'\n' (drop 1 s)

-- The fields in their order, then "\r\n".
unfoldable pub matches : List Field → Bytes → Bool
matches [] s = ends s
matches (char c ∷ fs) s = head_is c s && matches fs (drop 1 s)
matches (digits w ∷ fs) s = starts_digits w s && matches fs (drop w s)
matches (any w ∷ fs) s = matches fs (drop w s)

abbrev pub space : Field
space = char b' '

abbrev pub address : List Field
address = digits 3 ∷ char b'.' ∷ digits 3 ∷ char b'.' ∷ digits 3 ∷ char b'.' ∷ digits 3 ∷ []

abbrev pub endpoint : List Field → List Field
endpoint rest = space ∷ (address ++ space ∷ digits msg_port_size ∷ rest)

-- The formats of the protocol.
abbrev pub format : MsgType → List Field
format diff =
    space ∷ digits msg_num_mess_size ∷ space ∷ any msg_id_size ∷ space ∷ any msg_mess_size ∷ []
format oldm =
    space ∷ digits msg_num_mess_size ∷ space ∷ any msg_id_size ∷ space ∷ any msg_mess_size ∷ []
format mess = space ∷ any msg_id_size ∷ space ∷ any msg_mess_size ∷ []
format item = space ∷ any msg_id_size ∷ endpoint (endpoint [])
format regi = space ∷ any msg_id_size ∷ endpoint (endpoint [])
format last = space ∷ digits msg_nb_mess_size ∷ []
format linb = space ∷ digits msg_num_diff_size ∷ []
format _ = []

-- The types whose format is not the one that is checked.
abbrev pub is_misread : MsgType → Bool
is_misread diff = true
is_misread oldm = true
is_misread _ = false

-- What is looked at instead: the space behind the id is expected at index 150, not at 18.
unfoldable pub misread_fields : Bytes → Bool
misread_fields s =
    head_is b' ' (drop 4 s)
    && (starts_digits 4 (drop 5 s)
        && (head_is b' ' (drop 9 s) && (head_is b' ' (drop 150 s) && ends (drop 159 s))))

-- The fields that the code checks: the same, but for DIFF and OLDM with the widths of the id and of the
-- text exchanged.
abbrev pub checked : MsgType → List Field
checked diff =
    space ∷ digits msg_num_mess_size ∷ space ∷ any msg_mess_size ∷ space ∷ any msg_id_size ∷ []
checked oldm =
    space ∷ digits msg_num_mess_size ∷ space ∷ any msg_mess_size ∷ space ∷ any msg_id_size ∷ []
checked type = format type

-- The text has the length of its type and the fields that the code checks for it.
unfoldable pub conforms : Bytes → Bool
conforms s =
    let type = kind_of (take msg_type_size s) in
    has_len (length s) type && matches (checked type) (drop msg_type_size s)
