-- ===== src/Message/Build/Layout.antt =====
-- `create_message` writes the protocol's bytes, whatever the buffer held before.
use net_radio.Common.{
  ℕ, ◌+◌, ◌≤◌, ◌≡◌, refl, ap, ◌∙◌, some, List, [], ◌∷◌, ◌++◌, append-nil, Bytes, ◌>>=◌, ℤ, length,
  drop, length-append, length-drop, drop-drop, All-append, arith,
}
use net_radio.Memory.Strings.{IsText, strcpy-append}
use net_radio.Message.Types
use net_radio.Message.Types.{
  msg_nb_mess_size, msg_num_diff_size, MsgType, msg_type_to_str, msglen, msg_end, separator_char,
  msg_id_size, msg_mess_size, msg_num_mess_size, number,
}
use net_radio.Message.Build.{
  Arg, int, str, in_addr, add_number, add_stream, add_id_mess, add_endpoint, add_fields,
  add_separator, add_int, add_string, add_ip_addr, add_msg_end, set_msg_type, va_int, va_str,
  va_in_addr, write_message, message,
}
use net_radio.Message.Build.Fields.{
  Appends, last-Appends, then-Appends, separator-Appends, int-Appends, string-Appends, end-Appends,
  int_field-IsText, text_field-IsText,
}
use net_radio.Message.Build.Address.{address-Appends, ip_field-IsText}
use net_radio.Message.Wire
use net_radio.Message.Wire.{
  Message, Stream, stream_args, kind, args, IsWritable, int_field, text_field, ip_field,
  id_mess_fields, endpoint_fields, stream_fields, number_field, fields, name, wire,
}

space-IsText : IsText (separator_char ∷ [])
space-IsText = omega arith

number-Appends :
    (w : ℕ) (n : ℤ) (rest : List Arg)
    → Appends (λ b. add_number b (int n ∷ rest) w) (number_field w n) (λ b. (b, rest))
unfolding add_number va_int number_field
number-Appends w n rest =
    then-Appends add_separator _ (λ b. b) (λ b. (b, rest)) space-IsText separator-Appends
      (last-Appends (λ b. add_int b n w) (λ b. (b, rest)) (λ b. b) (int-Appends w n))

id_mess-Appends :
    (i m : Bytes)
    → IsText i
    → IsText m
    → Appends
        (λ b. add_id_mess b (str (i ++ 0 ∷ []) ∷ str (m ++ 0 ∷ []) ∷ []))
        (id_mess_fields i m)
        (λ b. b)
unfolding add_id_mess va_str id_mess_fields
id_mess-Appends i m hi hm =
    then-Appends add_separator _ (λ b. b) (λ b. b) space-IsText separator-Appends
      (then-Appends (λ b. add_string b (i ++ 0 ∷ []) msg_id_size) _ (λ b. b) (λ b. b)
        (text_field-IsText msg_id_size i hi) (string-Appends msg_id_size i [] hi)
        (then-Appends add_separator _ (λ b. b) (λ b. b) space-IsText separator-Appends
          (string-Appends msg_mess_size m [] hm)))

endpoint-Appends :
    (a : ℕ) (port : ℤ) (rest : List Arg)
    → Appends
        (λ b. add_endpoint b (in_addr a ∷ int port ∷ rest))
        (endpoint_fields a port)
        (λ b. (b, rest))
unfolding add_endpoint va_in_addr va_int endpoint_fields
endpoint-Appends a port rest =
    let k : Bytes → Bytes × List Arg = λ b. (b, rest) in
    then-Appends add_separator _ (λ b. b) k space-IsText separator-Appends
      (then-Appends (λ b. add_ip_addr b a) _ (λ b. b) k (ip_field-IsText a) (address-Appends a)
        (then-Appends add_separator _ (λ b. b) k space-IsText separator-Appends
          (last-Appends (λ b. add_int b port msg_num_mess_size) k (λ b. b)
            (int-Appends msg_num_mess_size port))))

number_field-IsText : (w : ℕ) (n : ℤ) → IsText (number_field w n)
unfolding number_field
number_field-IsText w n = (omega arith, int_field-IsText w n)

endpoint_fields-IsText : (a : ℕ) (port : ℤ) → IsText (endpoint_fields a port)
unfolding endpoint_fields
endpoint_fields-IsText a port = (
  omega arith,
  All-append _ (ip_field a) _ (ip_field-IsText a)
      (omega arith, int_field-IsText msg_num_mess_size port),
)

id_mess_fields-IsText : (i m : Bytes) → IsText i → IsText m → IsText (id_mess_fields i m)
unfolding id_mess_fields
id_mess_fields-IsText i m hi hm = (
  omega arith,
  All-append _ (text_field msg_id_size i) _ (text_field-IsText msg_id_size i hi)
      (omega arith, text_field-IsText msg_mess_size m hm),
)

stream_fields-IsText : (s : Stream) → IsText s.id → IsText (stream_fields s)
unfolding stream_fields
stream_fields-IsText s h = (
  omega arith,
  All-append _ (text_field msg_id_size s.id) _ (text_field-IsText msg_id_size s.id h) (
      All-append _ (endpoint_fields s.ip1 s.port1) _ (endpoint_fields-IsText s.ip1 s.port1)
        (endpoint_fields-IsText s.ip2 s.port2)),
)

pub fields-IsText : (m : Message) → IsWritable m → IsText (fields m)
unfolding fields
fields-IsText (Wire.diff n i m) (hi, hm) =
    All-append _ (number_field msg_num_mess_size n) _ (number_field-IsText msg_num_mess_size n)
      (id_mess_fields-IsText i m hi hm)
fields-IsText (Wire.oldm n i m) (hi, hm) =
    All-append _ (number_field msg_num_mess_size n) _ (number_field-IsText msg_num_mess_size n)
      (id_mess_fields-IsText i m hi hm)
fields-IsText (Wire.mess i m) (hi, hm) = id_mess_fields-IsText i m hi hm
fields-IsText (Wire.item s) h = stream_fields-IsText s h
fields-IsText (Wire.regi s) h = stream_fields-IsText s h
fields-IsText (Wire.last n) h = number_field-IsText msg_nb_mess_size n
fields-IsText (Wire.linb n) h = number_field-IsText msg_num_diff_size n
fields-IsText _ h = tt

stream-Appends :
    (s : Stream)
    → IsText s.id
    → Appends (λ b. add_stream b (stream_args s)) (stream_fields s) (λ b. b)
unfolding add_stream va_str stream_fields
stream-Appends s h =
    then-Appends add_separator _ (λ b. b) (λ b. b) space-IsText separator-Appends
      (then-Appends (λ b. add_string b (s.id ++ 0 ∷ []) msg_id_size) _ (λ b. b) (λ b. b)
        (text_field-IsText msg_id_size s.id h) (string-Appends msg_id_size s.id [] h)
        (then-Appends
          (λ b. add_endpoint b (in_addr s.ip1 ∷ int s.port1 ∷ in_addr s.ip2 ∷ int s.port2 ∷ [])) _
          (λ b. (b, in_addr s.ip2 ∷ int s.port2 ∷ [])) (λ b. b)
          (endpoint_fields-IsText s.ip1 s.port1) (endpoint-Appends s.ip1 s.port1 _)
          (last-Appends (λ b. add_endpoint b (in_addr s.ip2 ∷ int s.port2 ∷ [])) (λ x. x.0)
            (λ b. (b, [])) (endpoint-Appends s.ip2 s.port2 []))))

number_then_text-Appends :
    (n : ℤ) (i m : Bytes)
    → IsText i
    → IsText m
    → Appends
        (λ b. add_fields Types.diff b (int n ∷ str (i ++ 0 ∷ []) ∷ str (m ++ 0 ∷ []) ∷ []))
        (number_field msg_num_mess_size n ++ id_mess_fields i m)
        (λ b. b)
unfolding add_fields
number_then_text-Appends n i m hi hm =
    let texts = str (i ++ 0 ∷ []) ∷ str (m ++ 0 ∷ []) ∷ [] in
    then-Appends (λ b. add_number b (int n ∷ texts) msg_num_mess_size) _ (λ b. (b, texts)) (λ b. b)
      (number_field-IsText msg_num_mess_size n) (number-Appends msg_num_mess_size n texts)
      (id_mess-Appends i m hi hm)

just_number-Appends :
    (w : ℕ) (n : ℤ)
    → Appends (λ b. add_number b (int n ∷ []) w >>= λ x. some x.0) (number_field w n) (λ b. b)
just_number-Appends w n =
    last-Appends (λ b. add_number b (int n ∷ []) w) (λ x. x.0) (λ b. (b, []))
      (number-Appends w n [])

-- The `switch` appends the fields of the message.
fields-Appends :
    (m : Message) → IsWritable m → Appends (λ b. add_fields (kind m) b (args m)) (fields m) (λ b. b)
unfolding add_fields kind args fields
fields-Appends (Wire.diff n i m) (hi, hm) = number_then_text-Appends n i m hi hm
fields-Appends (Wire.oldm n i m) (hi, hm) = number_then_text-Appends n i m hi hm
fields-Appends (Wire.mess i m) (hi, hm) = id_mess-Appends i m hi hm
fields-Appends (Wire.item s) h = stream-Appends s h
fields-Appends (Wire.regi s) h = stream-Appends s h
fields-Appends (Wire.last n) h = just_number-Appends msg_nb_mess_size n
fields-Appends (Wire.linb n) h = just_number-Appends msg_num_diff_size n
fields-Appends _ h = λ s r hs room. rw append-nil

-- The name of every type is text of four characters.
name-lem :
    (m : Message)
    → (msg_type_to_str (kind m) ≡ some (name m ++ 0 ∷ [])) × IsText (name m) × (length (name m) ≡ 4)
unfolding name kind msg_type_to_str
name-lem Wire.ackm = (refl, omega arith, refl)
name-lem _ = (refl, omega arith, refl)

-- Everything behind the type.
rest-Appends :
    (m : Message)
    → IsWritable m
    → Appends
        (λ b. do
          ret2 ← add_fields (kind m) b (args m)
          ret3 ← add_msg_end ret2
          some (message ret3))
        (fields m ++ msg_end)
        message
rest-Appends m ok =
    then-Appends (λ b. add_fields (kind m) b (args m)) _ (λ b. b) message (fields-IsText m ok)
      (fields-Appends m ok) (last-Appends add_msg_end message (λ b. b) end-Appends)

pub write_message-wire :
    (m : Message) (buf : Bytes)
    → IsWritable m
    → length (wire m) + 1 ≤ length buf
    → write_message buf (kind m) (args m)
      ≡ some (message (wire m ++ 0 ∷ drop (length (wire m) + 1) buf))
unfolding write_message set_msg_type wire
write_message-wire m buf ok room =
    let (found, plain, four) = name-lem m in
    let whole = length-append (name m) (fields m ++ msg_end) in
    let behind = drop (length (name m) + 1) buf in
    let fits : length (fields m ++ msg_end) ≤ length behind =
      omega (arith, whole, length-drop (length (name m) + 1) buf) in
    let same : length (name m) + 1 + length (fields m ++ msg_end) ≡ length (wire m) + 1 =
      omega (arith, whole) in
    rw (found, strcpy-append (name m) [] buf [] plain (omega (arith, whole)))
      (rest-Appends m ok (name m) behind plain fits
        ∙ ap (λ z. some (message (wire m ++ 0 ∷ z)))
            (drop-drop (length (name m) + 1) (length (fields m ++ msg_end)) buf
              ∙ ap (λ k. drop k buf) same))

pub wire-IsText : (m : Message) → IsWritable m → IsText (wire m)
unfolding wire
wire-IsText m ok =
    let (found, plain, four) = name-lem m in
    All-append _ (name m) _ plain (All-append _ (fields m) _ (fields-IsText m ok) (omega arith))
