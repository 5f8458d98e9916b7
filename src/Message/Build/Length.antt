-- ===== src/Message/Build/Length.antt =====
-- `msglen` is the length of every message that `create_message` writes.
use net_radio.Common.{
  ℕ, ◌+◌, ◌≡◌, refl, some, ◌∷◌, ◌++◌, Bytes, ℤ, length, length-append, length-take, arith, ap,
  codes,
}
use net_radio.Libc.Decimal.{format_int, le-length-format_int}
use net_radio.Message.Types.{
  msglen, separator_char, msg_end, msg_id_size, msg_mess_size, msg_num_mess_size, msg_nb_mess_size,
  msg_num_diff_size,
}
use net_radio.Message.Build.Fields.{length-text_field}
use net_radio.Message.Build.Address.{length-ip_field}
use net_radio.Message.Wire
use net_radio.Message.Wire.{
  Message, Stream, kind, int_field, text_field, ip_field, id_mess_fields, endpoint_fields,
  stream_fields, number_field, fields, name, wire,
}

pub length-int_field : (w : ℕ) (n : ℤ) → length (int_field w n) ≡ w
unfolding int_field
length-int_field w n = omega (arith, length-take w (format_int w n), le-length-format_int w n)

length-number_field : (w : ℕ) (n : ℤ) → length (number_field w n) ≡ w + 1
unfolding number_field
length-number_field w n = omega (arith, length-int_field w n)

length-id_mess_fields : (i m : Bytes) → length (id_mess_fields i m) ≡ 150
unfolding id_mess_fields
length-id_mess_fields i m = omega (
  arith,
  length-append (text_field msg_id_size i) (separator_char ∷ text_field msg_mess_size m),
  length-text_field msg_id_size i,
  length-text_field msg_mess_size m,
)

length-endpoint_fields : (a : ℕ) (port : ℤ) → length (endpoint_fields a port) ≡ 21
unfolding endpoint_fields
length-endpoint_fields a port = omega (
  arith,
  length-append (ip_field a) (separator_char ∷ int_field msg_num_mess_size port),
  length-ip_field a,
  length-int_field msg_num_mess_size port,
)

length-stream_fields : (s : Stream) → length (stream_fields s) ≡ 51
unfolding stream_fields
length-stream_fields s =
    let e1 = endpoint_fields s.ip1 s.port1 in
    let e2 = endpoint_fields s.ip2 s.port2 in
    omega (
      arith,
      length-append (text_field msg_id_size s.id) (e1 ++ e2),
      length-append e1 e2,
      length-text_field msg_id_size s.id,
      length-endpoint_fields s.ip1 s.port1,
      length-endpoint_fields s.ip2 s.port2,
    )

-- The fields and the end, for each shape.
length-wire : (n f : Bytes) → length (n ++ (f ++ msg_end)) ≡ length n + length f + 2
length-wire n f = omega (arith, length-append n (f ++ msg_end), length-append f msg_end)

length-numbered_text :
    (n : ℤ) (i m : Bytes) → length (number_field msg_num_mess_size n ++ id_mess_fields i m) ≡ 155
length-numbered_text n i m = omega (
  arith,
  length-append (number_field msg_num_mess_size n) (id_mess_fields i m),
  length-number_field msg_num_mess_size n,
  length-id_mess_fields i m,
)

-- `msglen` gives the length of every message on the wire, whatever its arguments are.
pub msglen-wire : (m : Message) → msglen (kind m) ≡ some (length (wire m))
unfolding msglen kind wire fields name
msglen-wire (Wire.diff n i m) =
    let f = number_field msg_num_mess_size n ++ id_mess_fields i m in
    ap some (omega (arith, length-wire (codes "DIFF") f, length-numbered_text n i m))
msglen-wire (Wire.oldm n i m) =
    let f = number_field msg_num_mess_size n ++ id_mess_fields i m in
    ap some (omega (arith, length-wire (codes "OLDM") f, length-numbered_text n i m))
msglen-wire (Wire.mess i m) =
    ap some
      (omega (arith, length-wire (codes "MESS") (id_mess_fields i m), length-id_mess_fields i m))
msglen-wire (Wire.item s) =
    ap some (omega (arith, length-wire (codes "ITEM") (stream_fields s), length-stream_fields s))
msglen-wire (Wire.regi s) =
    ap some (omega (arith, length-wire (codes "REGI") (stream_fields s), length-stream_fields s))
msglen-wire (Wire.last n) = ap some (
    omega (
      arith,
      length-wire (codes "LAST") (number_field msg_nb_mess_size n),
      length-number_field msg_nb_mess_size n,
    ))
msglen-wire (Wire.linb n) = ap some (
    omega (
      arith,
      length-wire (codes "LINB") (number_field msg_num_diff_size n),
      length-number_field msg_num_diff_size n,
    ))
msglen-wire _ = refl
