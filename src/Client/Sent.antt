-- ===== src/Client/Sent.antt =====
-- `send_mess_to_streamer` against the protocol's bytes.
use net_radio.Common.{
  none, ℕ, ℤ, Bool, Option, Bool-cases, inl, inr, ◌==◌, ◌>>=◌, ap, ◌∙◌, take, drop, length-drop,
  length-append, if◌then◌else◌, ◌≤◌, ◌≡◌, refl, true, false, some, [], ◌∷◌, ◌++◌, Bytes, length,
  codes, arith,
}
use net_radio.Memory.{text, text_prefix, str_eq}
use net_radio.Memory.Strings.{IsText, memmove-append}
use net_radio.Message.Types.{
  get_msg_type, kind_of, mess, msglen, diff, endm, imok, item, last, linb, list, oldm, regi, reno,
  reok, ruok, unknown,
}
use net_radio.Message.Build.{str}
use net_radio.Message.Build.Length.{msglen-wire}
use net_radio.Message.Wire
use net_radio.Message.Wire.{kind, args, wire}
use net_radio.Manager.Monitor.{Received, failed, bytes}
use net_radio.Manager.Monitor.Answers.{get_msg_type-prefix}
use net_radio.Manager.Handlers.{send_message}
use net_radio.Manager.Handlers.Lists.{send_message-wire}
use net_radio.Client.{
  Setup, Delivery, sin_port, send_mess_to, recv_ackm, is_ackm, send_mess_to_streamer,
}
use net_radio.Client.Recv.{no_error}

-- An ACKM in the array, with anything behind its type.
pub recv_ackm-ackm :
    (r ackm_buf : Bytes)
    → length r ≤ 2
    → length ackm_buf ≡ 6
    → recv_ackm (bytes (codes "ACKM" ++ r)) ackm_buf ≡ some true
unfolding recv_ackm
recv_ackm-ackm r ackm_buf short size =
    rw (memmove-append (codes "ACKM" ++ r) [] ackm_buf (omega arith))
      (unfold get_msg_type kind_of text_prefix text is_ackm str_eq in refl)

pub length-mess : (i m : Bytes) → length (wire (Wire.mess i m)) ≡ 156
unfolding msglen kind
length-mess i m = let size = msglen-wire (Wire.mess i m) in cc

-- The ladder behind the test of ACKM.
other :
    (b0 b1 b2 b3 b4 b5 b6 b7 b8 b9 b10 b11 b12 : Bool)
    → is_ackm (
        if b0
        then diff
        else (if b1
            then endm
            else (if b2
                then imok
                else (if b3
                    then item
                    else (if b4
                        then last
                        else (if b5
                            then linb
                            else (if b6
                                then list
                                else (if b7
                                    then mess
                                    else (if b8
                                        then oldm
                                        else (if b9
                                            then regi
                                            else (if b10
                                                then reno
                                                else (if b11
                                                    then reok
                                                    else (if b12 then ruok else unknown)))))))))))))
      ≡ false
unfolding is_ackm
other true _ _ _ _ _ _ _ _ _ _ _ _ = refl
other false true _ _ _ _ _ _ _ _ _ _ _ = refl
other false false true _ _ _ _ _ _ _ _ _ _ = refl
other false false false true _ _ _ _ _ _ _ _ _ = refl
other false false false false true _ _ _ _ _ _ _ _ = refl
other false false false false false true _ _ _ _ _ _ _ = refl
other false false false false false false true _ _ _ _ _ _ = refl
other false false false false false false false true _ _ _ _ _ = refl
other false false false false false false false false true _ _ _ _ = refl
other false false false false false false false false false true _ _ _ = refl
other false false false false false false false false false false true _ _ = refl
other false false false false false false false false false false false true _ = refl
other false false false false false false false false false false false false true = refl
other false false false false false false false false false false false false false = refl

-- The test of ACKM in the ladder of `get_msg_type`.
is_ackm-kind_of : (t : Bytes) → is_ackm (kind_of t) ≡ str_eq (codes "ACKM") t
unfolding kind_of
is_ackm-kind_of t = elim (Bool-cases (str_eq (codes "ACKM") t)) [
  | inl e ↦ rw e (unfold is_ackm in refl)
  | inr e ↦ rw e (
      other (str_eq (codes "DIFF") t) (str_eq (codes "ENDM") t) (str_eq (codes "IMOK") t)
        (str_eq (codes "ITEM") t) (str_eq (codes "LAST") t) (str_eq (codes "LINB") t)
        (str_eq (codes "LIST") t) (str_eq (codes "MESS") t) (str_eq (codes "OLDM") t)
        (str_eq (codes "REGI") t) (str_eq (codes "RENO") t) (str_eq (codes "REOK") t)
        (str_eq (codes "RUOK") t))
]

-- The four bytes of the type; a '\0' among them makes no difference.
prefix-ackm :
    (a b c d : ℕ) (m : Bytes)
    → (p : Bytes) × (text_prefix 4 (a ∷ b ∷ c ∷ d ∷ m) ≡ some p)
      × (str_eq (codes "ACKM") p ≡ str_eq (codes "ACKM") (a ∷ b ∷ c ∷ d ∷ []))
unfolding text_prefix str_eq
prefix-ackm a b c d m = elim (Bool-cases (a == 0)) [
  | inl e ↦ ([], ground arith, ground arith)
  | inr ea ↦ elim (Bool-cases (b == 0)) [
    | inl e ↦ (a ∷ [], ground arith, ground arith)
    | inr eb ↦ elim (Bool-cases (c == 0)) [
      | inl e ↦ (a ∷ b ∷ [], ground arith, ground arith)
      | inr ec ↦ elim (Bool-cases (d == 0)) [
        | inl e ↦ (a ∷ b ∷ c ∷ [], ground arith, ground arith)
        | inr ed ↦ (a ∷ b ∷ c ∷ d ∷ [], ground arith, refl)
      ]
    ]
  ]
]

type-ackm :
    (m : Bytes)
    → 4 ≤ length m
    → (get_msg_type m >>= λ type. some (is_ackm type)) ≡ some (str_eq (codes "ACKM") (take 4 m))
type-ackm [] h = absurd (omega arith)
type-ackm (a ∷ []) h = absurd (omega arith)
type-ackm (a ∷ b ∷ []) h = absurd (omega arith)
type-ackm (a ∷ b ∷ c ∷ []) h = absurd (omega arith)
type-ackm (a ∷ b ∷ c ∷ d ∷ m) h =
    let (p, prefix, same) = prefix-ackm a b c d m in
    rw (get_msg_type-prefix (a ∷ b ∷ c ∷ d ∷ m) p prefix) (ap some (is_ackm-kind_of p ∙ same))

-- What `recv` leaves in the array of an answer.
abbrev pub over : Bytes → Bytes → Bytes
over r ackm_buf = r ++ drop (length r) ackm_buf

-- Any answer in the array.
pub recv_ackm-over :
    (r ackm_buf : Bytes)
    → length r ≤ 6
    → length ackm_buf ≡ 6
    → recv_ackm (bytes r) ackm_buf ≡ some (str_eq (codes "ACKM") (take 4 (over r ackm_buf)))
unfolding recv_ackm
recv_ackm-over r ackm_buf short size = rw (memmove-append r [] ackm_buf (omega arith)) (
    type-ackm (over r ackm_buf)
      (omega (arith, length-append r (drop (length r) ackm_buf), length-drop (length r) ackm_buf)))

-- A MESS that is delivered.
abbrev pub delivered : (address : ℕ) → (streamer_port : ℤ) → Bytes → Delivery
delivered address streamer_port s = record {
  address = address;
  port = sin_port streamer_port;
  message = s;
}

-- A text that is no address.
pub send_mess_to_streamer-no_address :
    (inet_aton : Bytes → Option ℕ) (ip : Bytes) (port : ℤ) (up : Setup) (answer : Received)
    (mess_buf ackm_buf i m : Bytes)
    → inet_aton ip ≡ none
    → send_mess_to_streamer inet_aton ip port up answer mess_buf ackm_buf i m ≡ some (none, false)
unfolding send_mess_to_streamer
send_mess_to_streamer-no_address inet_aton ip port up answer mess_buf ackm_buf i m wrong =
    rw (wrong, send_mess_to_streamer) refl

-- `send_mess_to_streamer`, with no error before it receives, sends the bytes of the MESS with the given
-- id and text to the address that `inet_aton` gives for the first argument, and to the low 16 bits of
-- the port. It returns 0 if the first four bytes of the answer's array are then ACKM, and -1 for any
-- other answer and if nothing can be received. The two texts hold no '\0' before their end, the buffers
-- have 157 and 6 bytes, and the answer fits.
pub send_mess_to_streamer-wire :
    (inet_aton : Bytes → Option ℕ) (ip : Bytes) (address : ℕ) (port : ℤ)
    (i m r mess_buf ackm_buf : Bytes)
    → inet_aton ip ≡ some address
    → IsText i
    → IsText m
    → length r ≤ 6
    → length mess_buf ≡ 157
    → length ackm_buf ≡ 6
    → (send_mess_to_streamer inet_aton ip port no_error
          (bytes r)
          mess_buf
          ackm_buf
          (i ++ 0 ∷ [])
          (m ++ 0 ∷ [])
        ≡ some (
          some (delivered address port (wire (Wire.mess i m))),
          str_eq (codes "ACKM") (take 4 (over r ackm_buf)),
        ))
      × (send_mess_to_streamer inet_aton ip port no_error failed mess_buf ackm_buf
            (i ++ 0 ∷ [])
            (m ++ 0 ∷ [])
          ≡ some (some (delivered address port (wire (Wire.mess i m))), false))
unfolding send_mess_to_streamer send_mess_to
send_mess_to_streamer-wire inet_aton ip address port i m r mess_buf ackm_buf known hi hm short size
      size1 =
    let len = length-mess i m in
    let sent : send_message mess_buf mess (str (i ++ 0 ∷ []) ∷ str (m ++ 0 ∷ []) ∷ [])
        ≡ some (wire (Wire.mess i m)) =
      unfold kind args in
      send_message-wire (Wire.mess i m) mess_buf (hi, hm) (omega (arith, len)) in
    (
      rw (known, send_mess_to_streamer) (rw (sent, recv_ackm-over r ackm_buf short size1) refl),
      rw (known, send_mess_to_streamer) (rw sent (unfold recv_ackm in refl)),
    )
