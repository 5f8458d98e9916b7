-- ===== src/Keyboard/Listing.antt =====
-- The list that the interactive client shows, and what it returns.
pub mod Request
use net_radio.Common.{
  ℕ, zero, suc, ◌+◌, ◌<◌, ◌≡◌, refl, ◌∙◌, ◌⊎◌, inl, inr, Bool-cases, if◌then◌else◌, ◌==◌, none,
  some, [], ◌∷◌, ◌++◌, Bytes, ℤ, pos, length, drop, take, codes, arith, utf8,
}
use net_radio.Memory.{text}
use net_radio.Memory.Strings.{IsText}
use net_radio.Libc.Atoi.{atoi}
use net_radio.Message.Types.{list, kind_of, msg_type_size}
use net_radio.Message.Verify.Reads.{get_msg_type-append}
use net_radio.Message.Wire
use net_radio.Message.Build.Layout.{wire-IsText}
use net_radio.Message.Wire.{kind, args, wire, name, fields}
use net_radio.Manager.Monitor.{Received, failed, bytes, bufsize}
use net_radio.Manager.Handlers.Serve.{IsReceived, front}
use net_radio.Client.{is_item, is_linb}
use net_radio.Keyboard.Run.{World, Run, ◌>>=◌, recv_text, create}
use net_radio.Keyboard.Manager.{
  fail, wrong_type, recv_message_gest, recv_items, recv_list, number_of, communication_gest,
  interact_with_manager, rounds,
}
use net_radio.Keyboard.Steps.{
  after_recv, after_send, printed, print_text-append, create-wire, send_text-append,
  send_text-failed, after_no_send, recv_text-failed, recv_text-bytes, get_elem?-total,
}

-- A run that ends without a fault, and gives 1.
abbrev pub GivesOne : Run ℤ → World → Type 0
GivesOne run w = (w1 : World) × (run w ≡ some (pos 1, w1))

-- Each call of `recv` gives at most BUFSIZE - 1 bytes.
abbrev pub AllReceived : World → Type 0
AllReceived w = (k : ℕ) → IsReceived (w.recvs k)

-- What a call of `recv` comes to.
recv_cases :
    (m : Bytes) (w : World)
    → length m ≡ bufsize
    → IsReceived (w.recvs 0)
    → (recv_text m w ≡ some (none, after_recv w))
      ⊎ ((s : Bytes) × (rest : Bytes) × (recv_text m w ≡ some (some (s ++ 0 ∷ rest), after_recv w))
          × (length (s ++ 0 ∷ rest) ≡ bufsize)
          × IsText s)
recv_cases m w size fits = of_received (w.recvs 0) refl fits
  where
    of_received :
        (r : Received)
        → w.recvs 0 ≡ r
        → IsReceived r
        → (recv_text m w ≡ some (none, after_recv w))
          ⊎ ((s : Bytes) × (rest : Bytes) × (recv_text m w
                ≡ some (some (s ++ 0 ∷ rest), after_recv w))
              × (length (s ++ 0 ∷ rest) ≡ bufsize)
              × IsText s)
    of_received failed e h = inl (recv_text-failed m w e)
    of_received (bytes a) e h =
        let (rest, run, len, plain) = recv_text-bytes a m w e (omega arith) in
        inr (front a, rest, run, len ∙ size, plain)

-- A message of the manager on the standard output.
abbrev pub shown : Bytes → World → World
shown t w = printed (codes "\n") (printed t (printed (codes "Manager : ") w))

-- A round in which a text is received.
pub recv_message_gest-text :
    (n : ℕ) (buf_diff s rest : Bytes) (w : World)
    → recv_text buf_diff w ≡ some (some (s ++ 0 ∷ rest), after_recv w)
    → IsText s
    → recv_message_gest (suc n) buf_diff w
      ≡ (if is_item (kind_of (take msg_type_size s))
            then recv_message_gest n buf_diff
            else fail wrong_type)
          (shown s (after_recv w))
unfolding recv_message_gest
recv_message_gest-text n buf_diff s rest w e plain =
    rw (e, ◌>>=◌)
      (rw (get_msg_type-append s rest plain, ◌>>=◌)
        (rw (print_text-append s rest (printed (codes "Manager : ") (after_recv w)) plain, ◌>>=◌)
          refl))

text_total : (tens units : ℕ) → (t : Bytes) × (text (tens ∷ units ∷ 0 ∷ []) ≡ some t)
unfolding text
text_total tens units = elim (Bool-cases (tens == 0)) [
  | inl e ↦ ([], rw e refl)
  | inr e ↦ elim (Bool-cases (units == 0)) [
    | inl e1 ↦ (tens ∷ [], rw (e, e1) refl)
    | inr e1 ↦ (tens ∷ units ∷ [], rw (e, e1) refl)
  ]
]

recv_message_gest-GivesOne :
    (n : ℕ) (buf_diff : Bytes) (w : World)
    → length buf_diff ≡ bufsize
    → AllReceived w
    → GivesOne (recv_message_gest n buf_diff) w
unfolding recv_message_gest
recv_message_gest-GivesOne zero buf_diff w size fit = (w, refl)
recv_message_gest-GivesOne (suc n) buf_diff w size fit = elim (recv_cases buf_diff w size (fit 0)) [
  | inl e ↦ (after_recv w, rw (e, ◌>>=◌) refl)
  | inr (s, rest, e, len, plain) ↦
      let round = recv_message_gest-text n buf_diff s rest w e plain in
      let (w1, next) =
        recv_message_gest-GivesOne n buf_diff (shown s (after_recv w)) size (λ k. fit (suc k)) in
      elim (Bool-cases (is_item (kind_of (take msg_type_size s)))) [
        | inl item ↦ (w1, round ∙ rw item next)
        | inr other ↦ (printed wrong_type (shown s (after_recv w)), round ∙ rw other refl)
      ]
]

-- What follows a LINB: its characters 5 and 6 are read whatever they are.
recv_items-GivesOne :
    (buf_diff s rest : Bytes) (w : World)
    → length buf_diff ≡ bufsize
    → length (s ++ 0 ∷ rest) ≡ bufsize
    → IsText s
    → AllReceived w
    → GivesOne (recv_items (s ++ 0 ∷ rest) buf_diff) w
unfolding recv_items number_of
recv_items-GivesOne buf_diff s rest w size len plain fit =
    let (tens, at5) = get_elem?-total (s ++ 0 ∷ rest) 5 (omega arith) in
    let (units, at6) = get_elem?-total (s ++ 0 ∷ rest) 6 (omega arith) in
    let (numdi, digits) = text_total tens units in
    let n = rounds (atoi numdi) in
    let (w1, run) = recv_message_gest-GivesOne n buf_diff (shown s w) size fit in
    (
      w1,
      rw (at5, at6, digits, ◌>>=◌)
          (rw (print_text-append s rest (printed (codes "Manager : ") w) plain, ◌>>=◌)
            (rw (run, ◌>>=◌) refl)),
    )

pub recv_list-GivesOne :
    (buf buf_diff : Bytes) (w : World)
    → length buf ≡ bufsize
    → length buf_diff ≡ bufsize
    → AllReceived w
    → GivesOne (recv_list buf buf_diff) w
unfolding recv_list
recv_list-GivesOne buf buf_diff w size size1 fit = elim (recv_cases buf w size (fit 0)) [
  | inl e ↦ (after_recv w, rw (e, ◌>>=◌) refl)
  | inr (s, rest, e, len, plain) ↦
      let (w1, run) =
        recv_items-GivesOne buf_diff s rest (after_recv w) size1 len plain (λ k. fit (suc k)) in
      elim (Bool-cases (is_linb (kind_of (take msg_type_size s)))) [
        | inl linb ↦
            (w1, rw (e, ◌>>=◌) (rw (get_msg_type-append s rest plain, ◌>>=◌) (rw linb run)))
        | inr other ↦ (
          printed wrong_type (after_recv w),
          rw (e, ◌>>=◌) (rw (get_msg_type-append s rest plain, ◌>>=◌) (rw other refl)),
        )
      ]
]
