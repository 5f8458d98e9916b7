-- ===== src/Manager/Handlers/Forward.antt =====
-- A MESS from the client that sends it to the broadcasters.
use net_radio.Common.{
  Option, none, Option-cases, pos, ℕ, ◌-◌, ◌≤◌, ◌≡◌, ◌≢◌, refl, sym, ap, ◌∙◌, Bool, true, false,
  Bool-cases, inl, inr, and-eq_true, some, List, [], ◌∷◌, ◌++◌, append_assoc, append-nil, Bytes,
  map, length, length-take, length-drop, take, take-eq_self, take-append-drop, drop, drop-drop,
  drop-eq_nil, All-take, All-drop, codes, arith, if◌then◌else◌, ◌==◌, ==-eq_true,
}
use net_radio.Memory.{str_eq}
use net_radio.Memory.Strings.{IsText, str_eq-eq_true}
use net_radio.Message.Types.{
  MsgType, ackm, diff, endm, imok, item, last, linb, list, mess, oldm, regi, reno, reok, ruok,
  unknown, kind_of, get_msg_type, msglen, msg_type_size, msg_id_size, msg_mess_size, msg_ip_size,
  msg_port_size,
}
use net_radio.Message.Wire
use net_radio.Message.Wire.{wire}
use net_radio.Message.Verify.{verify_msg}
use net_radio.Message.Verify.Conforms.{verify_msg-conforms}
use net_radio.Message.Verify.Reads.{get_msg_type-append}
use net_radio.Message.Verify.Grammar.{conforms, matches, head_is, ends}
use net_radio.Manager.Monitor.{bytes}
use net_radio.Manager.Register.{Register}
use net_radio.Manager.Register.Slots.{Slots, items, Refines}
use net_radio.Manager.Handlers.{failures, sum_of, Call, handle_mess}
use net_radio.Manager.Handlers.Mess.{call_of, handle_mess-items}
use net_radio.Libc.Number.{spelled}
use net_radio.Client.{Delivery, send_mess_to_streamer}
use net_radio.Client.Recv.{no_error}
use net_radio.Client.Sent.{delivered, send_mess_to_streamer-no_address, send_mess_to_streamer-wire}

if_ne : (b : Bool) {x y : MsgType} → x ≢ mess → y ≢ mess → (if b then x else y) ≢ mess
if_ne true hx hy = hx
if_ne false hx hy = hy

-- The only text of the type.
kind_of-mess : (t : Bytes) → kind_of t ≡ mess → codes "MESS" ≡ t
unfolding kind_of
kind_of-mess t h = elim (Bool-cases (str_eq (codes "MESS") t)) [
  | inl e ↦ str_eq-eq_true (codes "MESS") t e
  | inr e ↦ absurd (
      let other = rw e at h in
      if_ne _ (λ (e1 : ackm ≡ mess). cc)
        (if_ne _ (λ (e1 : diff ≡ mess). cc)
          (if_ne _ (λ (e1 : endm ≡ mess). cc)
            (if_ne _ (λ (e1 : imok ≡ mess). cc)
              (if_ne _ (λ (e1 : item ≡ mess). cc)
                (if_ne _ (λ (e1 : last ≡ mess). cc)
                  (if_ne _ (λ (e1 : linb ≡ mess). cc)
                    (if_ne _ (λ (e1 : list ≡ mess). cc)
                      (if_ne _ (λ (e1 : oldm ≡ mess). cc)
                        (if_ne _ (λ (e1 : regi ≡ mess). cc)
                          (if_ne _ (λ (e1 : reno ≡ mess). cc)
                            (if_ne _ (λ (e1 : reok ≡ mess). cc)
                              (if_ne _ (λ (e1 : ruok ≡ mess). cc)
                                (λ (e1 : unknown ≡ mess). cc)))))))))))))
        other)
]

-- What a test of the first character says.
head_is-cons : (c : ℕ) (s : Bytes) → head_is c s ≡ true → s ≡ c ∷ drop 1 s
unfolding head_is
head_is-cons c [] h = cc
head_is-cons c (x ∷ s) h = ap (λ y. y ∷ s) (==-eq_true x c h)

-- The end of a message, when nothing follows.
ends-eq : (s : Bytes) → length s ≡ 2 → ends s ≡ true → s ≡ b'\r' ∷ b'\n' ∷ []
ends-eq s two h =
    let (first, second) = and-eq_true (head_is b'\r' s) (head_is b'\n' (drop 1 s)) h in
    let e = head_is-cons b'\r' s first in
    let e1 = head_is-cons b'\n' (drop 1 s) second in
    e
    ∙ ap (λ r. b'\r' ∷ r)
        (e1 ∙ ap (λ r. b'\n' ∷ r) (drop-drop 1 1 s ∙ drop-eq_nil 2 s (omega arith)))

-- The text is cut and filled in vain when it has its length.
text_field-whole : (w : ℕ) (s : Bytes) → length s ≡ w → Wire.text_field w s ≡ s
unfolding Wire.text_field
text_field-whole w s size =
    let whole = take-eq_self w s (omega arith) in
    let full : w - length s ≡ 0 = omega arith in rw (whole, full) (append-nil s)

-- A MESS that is accepted is the bytes of its id and its text.
wire-accepted :
    (s : Bytes)
    → conforms s ≡ true
    → kind_of (take msg_type_size s) ≡ mess
    → (length s ≡ 156)
      × (s ≡ wire (Wire.mess (take msg_id_size (drop 5 s)) (take msg_mess_size (drop 14 s))))
unfolding conforms matches msglen wire Wire.name Wire.fields Wire.id_mess_fields
wire-accepted s h type =
    let split = rw type at h in
    let (long, formed) = and-eq_true (length s == 156) _ split in
    let size : length s ≡ 156 = ==-eq_true (length s) 156 long in
    let (first, behind) = and-eq_true (head_is b' ' (drop 4 s)) _ formed in
    let (second, final) =
      and-eq_true (head_is b' ' (drop 8 (drop 1 (drop 4 s))))
        (ends (drop 140 (drop 1 (drop 8 (drop 1 (drop 4 s)))))) behind in
    let at13 : drop 8 (drop 1 (drop 4 s)) ≡ drop 13 s =
      ap (drop 8) (drop-drop 4 1 s) ∙ drop-drop 5 8 s in
    let at14 : drop 1 (drop 8 (drop 1 (drop 4 s))) ≡ drop 14 s =
      ap (drop 1) at13 ∙ drop-drop 13 1 s in
    let at154 : drop 140 (drop 1 (drop 8 (drop 1 (drop 4 s)))) ≡ drop 154 s =
      ap (drop 140) at14 ∙ drop-drop 14 140 s in
    let id = take 8 (drop 5 s) in
    let m = take 140 (drop 14 s) in
    let closing : drop 154 s ≡ b'\r' ∷ b'\n' ∷ [] =
      ends-eq (drop 154 s) (omega (arith, length-drop 154 s)) (rw at154 at final) in
    let from14 : drop 14 s ≡ m ++ (b'\r' ∷ b'\n' ∷ []) =
      sym (take-append-drop 140 (drop 14 s)) ∙ ap (λ r. m ++ r) (drop-drop 14 140 s ∙ closing) in
    let from13 : drop 13 s ≡ b' ' ∷ (m ++ (b'\r' ∷ b'\n' ∷ [])) =
      head_is-cons b' ' (drop 13 s) (rw at13 at second)
      ∙ ap (λ r. b' ' ∷ r) (drop-drop 13 1 s ∙ from14) in
    let from5 : drop 5 s ≡ id ++ (b' ' ∷ (m ++ (b'\r' ∷ b'\n' ∷ []))) =
      sym (take-append-drop 8 (drop 5 s)) ∙ ap (λ r. id ++ r) (drop-drop 5 8 s ∙ from13) in
    let from4 : drop 4 s ≡ b' ' ∷ (id ++ (b' ' ∷ (m ++ (b'\r' ∷ b'\n' ∷ [])))) =
      head_is-cons b' ' (drop 4 s) first ∙ ap (λ r. b' ' ∷ r) (drop-drop 4 1 s ∙ from5) in
    let whole : s ≡ codes "MESS" ++ (b' ' ∷ (id ++ (b' ' ∷ (m ++ (b'\r' ∷ b'\n' ∷ []))))) =
      sym (take-append-drop 4 s)
      ∙ ap (λ r. r ++ drop 4 s) (sym (kind_of-mess (take 4 s) type))
      ∙ ap (λ r. codes "MESS" ++ r) from4 in
    let id_whole =
      text_field-whole 8 id (omega (arith, length-take 8 (drop 5 s), length-drop 5 s)) in
    let m_whole =
      text_field-whole 140 m (omega (arith, length-take 140 (drop 14 s), length-drop 14 s)) in
    (size, whole ∙ sym (rw (id_whole, m_whole, append_assoc) refl))

-- What a delivery of `s` gives: the bytes go to the address that is read, and to the port; nothing is
-- sent if the text is no address.
abbrev pub delivery : Bytes → Option ℕ → (port : ℕ) → Option (Option Delivery × Bool)
delivery s none port = some (none, false)
delivery s (some address) port = some (some (delivered address (pos port) s), true)

module _ (inet_aton : Bytes → Option ℕ) (mess_buf ackm_buf r : Bytes) where
  -- A call of `send_mess_to_streamer` without an error delivers the bytes `s` to the second address and
  -- port of the ITEM `t`; the answer is ACKM and `r`.
  abbrev pub Delivers : Bytes → Bytes → Call → Type 0
  Delivers s t call =
      send_mess_to_streamer inet_aton (call.streamer_ip ++ 0 ∷ []) (pos call.port) no_error
        (bytes (codes "ACKM" ++ r)) mess_buf ackm_buf (call.client_id ++ 0 ∷ [])
        (call.client_msg ++ 0 ∷ [])
      ≡ delivery s (inet_aton (take msg_ip_size (drop 35 t) ++ 0 ∷ []))
          (spelled 0 (take msg_port_size (drop 51 t)))

  -- There is one call for each ITEM, in their order, and it delivers `s` there.
  abbrev pub AllDeliver : Bytes → (ts : List Bytes) → List Call → Type 0
  AllDeliver s [] [] = Unit
  AllDeliver s [] (call ∷ calls) = ⊥
  AllDeliver s (t ∷ ts) [] = ⊥
  AllDeliver s (t ∷ ts) (call ∷ calls) = Delivers s t call × AllDeliver s ts calls

  call_of-Delivers :
      (s t : Bytes)
      → length mess_buf ≡ 157
      → length ackm_buf ≡ 6
      → length r ≤ 2
      → IsText s
      → conforms s ≡ true
      → kind_of (take msg_type_size s) ≡ mess
      → Delivers s t (call_of (take msg_id_size (drop 5 s)) (take msg_mess_size (drop 14 s)) t)
  unfolding call_of
  call_of-Delivers s t size size1 short plain h type =
      let (long, same) = wire-accepted s h type in
      let id = take msg_id_size (drop 5 s) in
      let m = take msg_mess_size (drop 14 s) in
      let id_text = All-take (λ b. b ≢ 0) 8 (drop 5 s) (All-drop (λ b. b ≢ 0) 5 s plain) in
      let m_text = All-take (λ b. b ≢ 0) 140 (drop 14 s) (All-drop (λ b. b ≢ 0) 14 s plain) in
      let ip = take msg_ip_size (drop 35 t) ++ 0 ∷ [] in
      let port = spelled 0 (take msg_port_size (drop 51 t)) in
      elim (Option-cases (inet_aton ip)) [
        | inl unknown_ip ↦ rw unknown_ip (
            send_mess_to_streamer-no_address inet_aton ip (pos port) no_error
              (bytes (codes "ACKM" ++ r)) mess_buf ackm_buf (id ++ 0 ∷ []) (m ++ 0 ∷ []) unknown_ip)
        | inr (address, known) ↦
            let (sent, failing) =
              send_mess_to_streamer-wire inet_aton ip address (pos port) id m (codes "ACKM" ++ r)
                mess_buf ackm_buf known id_text m_text (omega arith) size size1 in
            rw known (
              sent
              ∙ unfold str_eq in
                ap (λ b. some (some (delivered address (pos port) b), true)) (sym same))
      ]

  All-map :
      (s i m : Bytes) (ts : List Bytes)
      → ((t : Bytes) → Delivers s t (call_of i m t))
      → AllDeliver s ts (map (call_of i m) ts)
  All-map s i m [] h = tt
  All-map s i m (t ∷ ts) h = (h t, All-map s i m ts h)

-- A text that `verify_msg` accepts and whose type is MESS is passed on unchanged: `handle_mess`
-- calls `send_mess_to_streamer` once for every registered broadcaster, in the order of the register.
-- When no error occurs, each call sends exactly the 156 bytes that were received to the address that
-- `inet_aton` reads in the second address of that broadcaster's ITEM, and to its second port, and
-- gives 0; it sends nothing and gives -1 where `inet_aton` reads none. The result of `handle_mess`
-- is the sum of the results that `gives_zero` tells of the calls: 0, or -1. The text holds no '\0',
-- the register has `max` rows and stands for `slots`, the buffers of the calls have 157 and 6 bytes,
-- and the answer is ACKM with at most two bytes behind it.
pub handle_mess-forwards :
    (inet_aton : Bytes → Option ℕ) (gives_zero : ℕ → Bool) (max : ℕ) (rows : Register)
    (slots : Slots) (s rest mess_buf ackm_buf r : Bytes) (port : ℕ)
    → max ≤ length rows
    → Refines rows slots
    → IsText s
    → verify_msg (s ++ 0 ∷ rest) ≡ some true
    → get_msg_type (s ++ 0 ∷ rest) ≡ some mess
    → length mess_buf ≡ 157
    → length ackm_buf ≡ 6
    → length r ≤ 2
    → (calls : List Call) × (handle_mess gives_zero max rows (s ++ 0 ∷ rest) port
        ≡ some (calls, sum_of (failures gives_zero 0 (length (items max slots)))))
      × AllDeliver inet_aton mess_buf ackm_buf r s (items max slots) calls
handle_mess-forwards inet_aton gives_zero max rows slots s rest mess_buf ackm_buf r port room
      refines plain checked read size size1 short =
    let verdict = verify_msg-conforms s rest plain in
    let type_read = get_msg_type-append s rest plain in
    let h : conforms s ≡ true = cc in
    let type : kind_of (take msg_type_size s) ≡ mess = cc in
    let (long, same) = wire-accepted s h type in
    let id = take msg_id_size (drop 5 s) in
    let m = take msg_mess_size (drop 14 s) in
    (
      map (call_of id m) (items max slots),
      handle_mess-items gives_zero max rows slots s rest port room refines long,
      All-map inet_aton mess_buf ackm_buf r s id m (items max slots)
          (λ t. call_of-Delivers inet_aton mess_buf ackm_buf r s t size size1 short plain h type),
    )
