-- ===== src/Manager/Monitor/Answers.antt =====
-- Which answers `monitor_broadcaster` takes for IMOK. The buffer still holds the RUOK that was sent, so
-- an answer that is cut short is completed by it.
use net_radio.Common.{
  Bool-cases, inl, inr, ◌==◌, ◌||◌, ℕ, ◌≤◌, ◌≡◌, refl, ap, ◌∙◌, Bool, none, utf8, true, false, some,
  [], ◌∷◌, ◌++◌, Bytes, if◌then◌else◌, ◌>>=◌, length, length-drop, take, drop, codes, arith,
}
use net_radio.Memory.{text_prefix, str_eq}
use net_radio.Memory.Strings.{memmove-append, str_eq-eq_true, text_prefix-IsText}
use net_radio.Message.Types.{
  ruok, ackm, diff, endm, item, last, linb, list, mess, oldm, regi, reno, reok, unknown,
  get_msg_type, kind_of,
}
use net_radio.Message.Build.{create_message, message}
use net_radio.Message.Build.Create.{create_message-wire}
use net_radio.Message.Wire
use net_radio.Message.Wire.{kind, args, wire, name, fields}
use net_radio.Message.Verify.Reads.{copied}
use net_radio.Manager.Monitor.Printed.{
  is_safe, has_end-append, verbose_print_message-then, verbose_print_message-end,
}
use net_radio.Manager.Monitor.{
  is_imok, bufsize, bytes, no_malloc, watching, gone, receive, monitor_round,
}

-- RUOK fits into the buffer.
pub ruok-buf :
    (msg_buf : Bytes)
    → length msg_buf ≡ bufsize
    → create_message no_malloc (some msg_buf) ruok []
      ≡ some (message (codes "RUOK\r\n" ++ 0 ∷ drop 7 msg_buf))
ruok-buf msg_buf size =
    unfold kind args wire name fields in
    create_message-wire no_malloc Wire.ruok msg_buf tt (omega arith)

-- The ladder with the test of IMOK taken out.
ladder :
    (b0 b1 b2 b3 b4 b5 b6 b7 b8 b9 b10 b11 b12 : Bool)
    → is_imok (
        if b0
        then ackm
        else (if b1
            then diff
            else (if b2
                then endm
                else (if b3
                    then item
                    else (if b4
                        then last
                        else (if b5
                            then linb
                            else (if b6
                                then list
                                else (if b7
                                    then mess
                                    else (if b8
                                        then oldm
                                        else (if b9
                                            then regi
                                            else (if b10
                                                then reno
                                                else (if b11
                                                    then reok
                                                    else (if b12 then ruok else unknown)))))))))))))
      ≡ false
unfolding is_imok
ladder true _ _ _ _ _ _ _ _ _ _ _ _ = refl
ladder false true _ _ _ _ _ _ _ _ _ _ _ = refl
ladder false false true _ _ _ _ _ _ _ _ _ _ = refl
ladder false false false true _ _ _ _ _ _ _ _ _ = refl
ladder false false false false true _ _ _ _ _ _ _ _ = refl
ladder false false false false false true _ _ _ _ _ _ _ = refl
ladder false false false false false false true _ _ _ _ _ _ = refl
ladder false false false false false false false true _ _ _ _ _ = refl
ladder false false false false false false false false true _ _ _ _ = refl
ladder false false false false false false false false false true _ _ _ = refl
ladder false false false false false false false false false false true _ _ = refl
ladder false false false false false false false false false false false true _ = refl
ladder false false false false false false false false false false false false true = refl
ladder false false false false false false false false false false false false false = refl

-- The ladder of `get_msg_type` gives IMOK for no other text.
is_imok-kind_of : (t : Bytes) → is_imok (kind_of t) ≡ str_eq (codes "IMOK") t
unfolding kind_of
is_imok-kind_of t = elim (Bool-cases (str_eq (codes "IMOK") t)) [
  | inl e ↦ rw (← str_eq-eq_true (codes "IMOK") t e) (unfold str_eq is_imok in refl)
  | inr e ↦ rw e (
      ladder (str_eq (codes "ACKM") t) (str_eq (codes "DIFF") t) (str_eq (codes "ENDM") t)
        (str_eq (codes "ITEM") t) (str_eq (codes "LAST") t) (str_eq (codes "LINB") t)
        (str_eq (codes "LIST") t) (str_eq (codes "MESS") t) (str_eq (codes "OLDM") t)
        (str_eq (codes "REGI") t) (str_eq (codes "RENO") t) (str_eq (codes "REOK") t)
        (str_eq (codes "RUOK") t))
]

pub get_msg_type-prefix :
    (m p : Bytes) → text_prefix 4 m ≡ some p → get_msg_type m ≡ some (kind_of p)
unfolding get_msg_type
get_msg_type-prefix m p e = rw e (rw (copied p (text_prefix-IsText 4 m e)))

-- What the first four bytes say of IMOK; a '\0' among them makes no difference.
prefix-imok :
    (a b c d : ℕ) (m : Bytes)
    → (p : Bytes) × (text_prefix 4 (a ∷ b ∷ c ∷ d ∷ m) ≡ some p)
      × (str_eq (codes "IMOK") p ≡ str_eq (codes "IMOK") (a ∷ b ∷ c ∷ d ∷ []))
unfolding text_prefix str_eq
prefix-imok a b c d m = elim (Bool-cases (a == 0)) [
  | inl e ↦ ([], ground arith, ground arith)
  | inr ea ↦ elim (Bool-cases (b == 0)) [
    | inl e ↦ (a ∷ [], ground arith, ground arith)
    | inr eb ↦ elim (Bool-cases (c == 0)) [
      | inl e ↦ (a ∷ b ∷ [], ground arith, ground arith)
      | inr ec ↦ elim (Bool-cases (d == 0)) [
        | inl e ↦ (a ∷ b ∷ c ∷ [], ground arith, ground arith)
        | inr ed ↦ (a ∷ b ∷ c ∷ d ∷ [], ground arith, refl)
      ]
    ]
  ]
]

judged :
    (a b c d : ℕ) (m buf : Bytes)
    → (get_msg_type (a ∷ b ∷ c ∷ d ∷ m) >>= λ type.
        some (if is_imok type then watching buf else gone))
      ≡ some (if str_eq (codes "IMOK") (a ∷ b ∷ c ∷ d ∷ []) then watching buf else gone)
judged a b c d m buf =
    let (p, prefix, same) = prefix-imok a b c d m in
    rw (get_msg_type-prefix (a ∷ b ∷ c ∷ d ∷ m) p prefix)
      (ap (λ (t : Bool). some (if t then watching buf else gone)) (is_imok-kind_of p ∙ same))

-- The answers that pass: IMOK with anything behind it, and its first two or three letters alone.
unfoldable pub passes : Bytes → Bool
passes a = str_eq (codes "IM") a || str_eq (codes "IMO") a || str_eq (codes "IMOK") (take 4 a)

module _ (b c d e : ℕ) (bs : Bytes) where
  passes-one : str_eq (codes "IMOK") (b ∷ codes "UOK") ≡ passes (b ∷ [])
  unfolding passes str_eq
  passes-one = ground arith

  passes-two : str_eq (codes "IMOK") (b ∷ c ∷ codes "OK") ≡ passes (b ∷ c ∷ [])
  unfolding passes str_eq
  passes-two = ground arith

  passes-three : str_eq (codes "IMOK") (b ∷ c ∷ d ∷ codes "K") ≡ passes (b ∷ c ∷ d ∷ [])
  unfolding passes str_eq
  passes-three = ground arith

  passes-more : str_eq (codes "IMOK") (b ∷ c ∷ d ∷ e ∷ []) ≡ passes (b ∷ c ∷ d ∷ e ∷ bs)
  unfolding passes str_eq
  passes-more = ground arith

-- What `recv` leaves of the sent RUOK behind the answer.
abbrev pub over_ruok : Bytes → Bytes → Bytes
over_ruok answer msg_buf = answer ++ drop (length answer) (codes "RUOK\r\n" ++ 0 ∷ drop 7 msg_buf)

-- After a RUOK that was sent, an answer of at least one byte keeps the broadcaster registered exactly
-- if it is "IM", "IMO", or begins with "IMOK". In the verbose mode that answer is printed first, which
-- is a read past the buffer, a fault, exactly if neither the answer nor what it leaves of the buffer
-- holds a '\0'. The buffer has its 512 bytes, and the answer fits.
pub monitor_round-answer :
    (verbose : Bool) (msg_buf : Bytes) (b : ℕ) (bs : Bytes)
    → length msg_buf ≡ bufsize
    → length (b ∷ bs) ≤ bufsize
    → monitor_round verbose msg_buf (record { sent = true; answer = bytes (b ∷ bs) }) ≡ (
        if is_safe verbose (over_ruok (b ∷ bs) msg_buf)
        then some (if passes (b ∷ bs) then watching (over_ruok (b ∷ bs) msg_buf) else gone)
        else none)
unfolding monitor_round receive
monitor_round-answer verbose msg_buf b bs size fits =
    let sent = codes "RUOK\r\n" ++ 0 ∷ drop 7 msg_buf in
    let room : length (b ∷ bs) ≤ length sent = omega (arith, length-drop 7 msg_buf) in
    rw (ruok-buf msg_buf size) (
      verbose_print_message-end verbose (utf8 "Message envoyé : ") sent _
        (has_end-append (codes "RUOK\r\n") (drop 7 msg_buf))
      ∙ rw (memmove-append (b ∷ bs) [] sent room) (
          verbose_print_message-then verbose (utf8 "Message recu : ") (over_ruok (b ∷ bs) msg_buf) _
          ∙ ap (λ next. if is_safe verbose (over_ruok (b ∷ bs) msg_buf) then next else none)
              (by_length bs)))
  where
    by_length :
        (bs : Bytes)
        → (get_msg_type (over_ruok (b ∷ bs) msg_buf) >>= λ type.
            some (if is_imok type then watching (over_ruok (b ∷ bs) msg_buf) else gone))
          ≡ some (if passes (b ∷ bs) then watching (over_ruok (b ∷ bs) msg_buf) else gone)
    by_length [] =
        judged b b'U' b'O' b'K' _ _
        ∙ ap (λ (t : Bool). some (if t then watching (over_ruok (b ∷ []) msg_buf) else gone))
            (passes-one b 0 0 0 [])
    by_length (c ∷ []) =
        judged b c b'O' b'K' _ _
        ∙ ap (λ (t : Bool). some (if t then watching (over_ruok (b ∷ c ∷ []) msg_buf) else gone))
            (passes-two b c 0 0 [])
    by_length (c ∷ d ∷ []) =
        judged b c d b'K' _ _
        ∙ ap
            (λ (t : Bool). some (if t then watching (over_ruok (b ∷ c ∷ d ∷ []) msg_buf) else gone))
            (passes-three b c d 0 [])
    by_length (c ∷ d ∷ e ∷ bs) =
        judged b c d e _ _
        ∙ ap
            (λ (t : Bool).
              some (if t then watching (over_ruok (b ∷ c ∷ d ∷ e ∷ bs) msg_buf) else gone))
            (passes-more b c d e bs)
