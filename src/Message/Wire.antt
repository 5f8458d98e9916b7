-- ===== src/Message/Wire.antt =====
-- The messages as values, and the bytes that the protocol gives to each: the reference that
-- `create_message` is proved against.
use net_radio.Common.{ℕ, ◌-◌, List, [], ◌∷◌, ◌++◌, Bytes, ℤ, length, take, replicate, codes}
use net_radio.Memory.Strings.{IsText}
use net_radio.Libc.Decimal.{format_int, fixed, octet}
use net_radio.Message.Types
use net_radio.Message.Types.{
  MsgType, msg_end, msg_id_size, msg_mess_size, msg_nb_mess_size, msg_num_diff_size,
  msg_num_mess_size, default_char, separator_char,
}
use net_radio.Message.Build.{Arg, int, str, in_addr}

-- A stream as ITEM and REGI describe it: multicast address and port, then TCP address and port.
pub record Stream : Type 0 where
  pub id : Bytes
  pub ip1 : ℕ
  pub port1 : ℤ
  pub ip2 : ℕ
  pub port2 : ℤ

pub data Message : Type 0 where
  ackm endm imok list reno reok ruok : Message
  diff oldm : (num : ℤ) (id mess : Bytes) → Message
  mess : (id mess : Bytes) → Message
  item regi : Stream → Message
  last linb : ℤ → Message

unfoldable pub kind : Message → MsgType
kind ackm = Types.ackm
kind endm = Types.endm
kind imok = Types.imok
kind list = Types.list
kind reno = Types.reno
kind reok = Types.reok
kind ruok = Types.ruok
kind (diff n i m) = Types.diff
kind (oldm n i m) = Types.oldm
kind (mess i m) = Types.mess
kind (item s) = Types.item
kind (regi s) = Types.regi
kind (last n) = Types.last
kind (linb n) = Types.linb

abbrev pub stream_args : Stream → List Arg
stream_args s =
    str (s.id ++ 0 ∷ []) ∷ in_addr s.ip1 ∷ int s.port1 ∷ in_addr s.ip2 ∷ int s.port2 ∷ []

-- The variadic arguments that the header asks for.
unfoldable pub args : Message → List Arg
args (diff n i m) = int n ∷ str (i ++ 0 ∷ []) ∷ str (m ++ 0 ∷ []) ∷ []
args (oldm n i m) = int n ∷ str (i ++ 0 ∷ []) ∷ str (m ++ 0 ∷ []) ∷ []
args (mess i m) = str (i ++ 0 ∷ []) ∷ str (m ++ 0 ∷ []) ∷ []
args (item s) = stream_args s
args (regi s) = stream_args s
args (last n) = int n ∷ []
args (linb n) = int n ∷ []
args _ = []

-- The string arguments hold no '\0' before their end.
abbrev pub IsWritable : Message → Type 0
IsWritable (diff n i m) = IsText i × IsText m
IsWritable (oldm n i m) = IsText i × IsText m
IsWritable (mess i m) = IsText i × IsText m
IsWritable (item s) = IsText s.id
IsWritable (regi s) = IsText s.id
IsWritable _ = Unit

-- A number in `w` characters: the first ones of its print.
unfoldable pub int_field : ℕ → ℤ → Bytes
int_field w n = take w (format_int w n)

-- A text in `w` characters, cut or filled with '#'.
unfoldable pub text_field : ℕ → Bytes → Bytes
text_field w s = take w s ++ replicate (w - length (take w s)) default_char

-- An address in 15 characters: its four bytes in three digits each.
unfoldable pub ip_field : ℕ → Bytes
ip_field a =
    fixed 3 (octet 0 a)
    ++ b'.' ∷ (fixed 3 (octet 1 a) ++ b'.' ∷ (fixed 3 (octet 2 a) ++ b'.' ∷ fixed 3 (octet 3 a)))

unfoldable pub id_mess_fields : Bytes → Bytes → Bytes
id_mess_fields i m =
    separator_char ∷ (text_field msg_id_size i ++ separator_char ∷ text_field msg_mess_size m)

unfoldable pub endpoint_fields : ℕ → ℤ → Bytes
endpoint_fields a port =
    separator_char ∷ (ip_field a ++ separator_char ∷ int_field msg_num_mess_size port)

unfoldable pub stream_fields : Stream → Bytes
stream_fields s =
    separator_char
    ∷ (text_field msg_id_size s.id
        ++ (endpoint_fields s.ip1 s.port1 ++ endpoint_fields s.ip2 s.port2))

unfoldable pub number_field : ℕ → ℤ → Bytes
number_field w n = separator_char ∷ int_field w n

-- What stands between the type and the end.
unfoldable pub fields : Message → Bytes
unfolding id_mess_fields endpoint_fields stream_fields number_field int_field text_field ip_field
fields (diff n i m) = number_field msg_num_mess_size n ++ id_mess_fields i m
fields (oldm n i m) = number_field msg_num_mess_size n ++ id_mess_fields i m
fields (mess i m) = id_mess_fields i m
fields (item s) = stream_fields s
fields (regi s) = stream_fields s
fields (last n) = number_field msg_nb_mess_size n
fields (linb n) = number_field msg_num_diff_size n
fields _ = []

unfoldable pub name : Message → Bytes
name ackm = codes "ACKM"
name endm = codes "ENDM"
name imok = codes "IMOK"
name list = codes "LIST"
name reno = codes "RENO"
name reok = codes "REOK"
name ruok = codes "RUOK"
name (diff n i m) = codes "DIFF"
name (oldm n i m) = codes "OLDM"
name (mess i m) = codes "MESS"
name (item s) = codes "ITEM"
name (regi s) = codes "REGI"
name (last n) = codes "LAST"
name (linb n) = codes "LINB"

-- A whole message.
unfoldable pub wire : Message → Bytes
unfolding fields name
wire m = name m ++ (fields m ++ msg_end)
