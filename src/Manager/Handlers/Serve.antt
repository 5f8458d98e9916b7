-- ===== src/Manager/Handlers/Serve.antt =====
-- What a thread does for a connection, on slots: the reference for `handle_tcp`.
use net_radio.Common.{
  ℕ, ◌+◌, ◌≤◌, ◌<◌, ◌≡◌, refl, ap, ◌∙◌, Bool, true, ◌&&◌, and-eq_true, Option, none, some, [], ◌∷◌,
  ◌++◌, Bytes, map, ◌==◌, ◌>>=◌, length, drop, drop-uncons, take, arith, utf8, Bool-cases, inl, inr,
  if◌then◌else◌,
}
use net_radio.Memory.{memmove, poke}
use net_radio.Memory.Strings.{IsText, memmove-append, poke-append}
use net_radio.Message.Types.{
  MsgType, list, mess, regi, kind_of, msg_id_size, msg_mess_size, msg_type_size, has_len, msglen,
}
use net_radio.Message.Types.{get_msg_type}
use net_radio.Message.Verify.{verify_msg}
use net_radio.Message.Verify.Grammar.{conforms}
use net_radio.Message.Verify.Conforms.{verify_msg-conforms}
use net_radio.Message.Verify.Reads.{get_msg_type-append}
use net_radio.Manager.Register.{Register}
use net_radio.Manager.Register.Slots.{Slots, items, register, item_of, Refines}
use net_radio.Manager.Monitor.Printed.{has_end-append, verbose_print_message-end}
use net_radio.Manager.Monitor.{verbose_print_message, bufsize, Received, failed, bytes}
use net_radio.Manager.Monitor.Watching.{AllFit, survives}
use net_radio.Manager.Handlers.{
  Connection, Done, no_message, wrong_format, wrong_type, registered, listed, forwarded, dispatch,
  handle_tcp,
}
use net_radio.Manager.Handlers.Lists.{announcement, handle_list-items}
use net_radio.Manager.Handlers.Mess.{call_of, handle_mess-items}
use net_radio.Manager.Handlers.Regi.{admit, handle_regi-Refines}

-- The text in the received bytes: what lies before the first '\0'.
unfoldable pub front : Bytes → Bytes
front [] = []
front (x ∷ a) = let rest = front a in if x == 0 then [] else x ∷ rest

-- What an accepted message does: `stays` tells whether its broadcaster passes.
unfoldable pub reply : MsgType → ℕ → Slots → Bytes → (stays : Bool) → Slots × Done
reply regi max slots s stays =
    let (slots1, standing, answer) = admit slots (register max slots (item_of s)) stays in
    (slots1, registered standing answer)
reply list max slots s stays =
    let ts = items max slots in (slots, listed (announcement (length ts) ∷ ts))
reply mess max slots s stays =
    let call = call_of (take msg_id_size (drop 5 s)) (take msg_mess_size (drop 14 s)) in
    (slots, forwarded (map call (items max slots)))
reply _ max slots s stays = (slots, wrong_type)

unfoldable pub serve_text : ℕ → Slots → Bytes → (stays : Bool) → Slots × Done
serve_text max slots s stays =
    let answer = reply (kind_of (take msg_type_size s)) max slots s stays in
    if conforms s then answer else (slots, wrong_format)

unfoldable pub serve : ℕ → Slots → Received → (stays : Bool) → Slots × Done
unfolding front serve_text
serve max slots failed stays = (slots, no_message)
serve max slots (bytes []) stays = (slots, no_message)
serve max slots (bytes (b ∷ bs)) stays = serve_text max slots (front (b ∷ bs)) stays

-- Bytes that are followed by a '\0' begin with a text.
pub front-append :
    (a r : Bytes) → IsText (front a) × ((rest : Bytes) × (a ++ 0 ∷ r ≡ front a ++ 0 ∷ rest))
unfolding front
front-append [] r = (tt, (r, refl))
front-append (x ∷ a) r = elim (Bool-cases (x == 0)) [
  | inl e ↦ rw e (tt, (a ++ 0 ∷ r, ap (λ y. y ∷ (a ++ 0 ∷ r)) (ground arith)))
  | inr e ↦
      let (plain, (rest, same)) = front-append a r in
      rw e ((ground arith, plain), (rest, ap (λ t. x ∷ t) same))
]

-- The received bytes and their '\0' in the buffer.
pub received :
    (a msg_buf : Bytes)
    → length a + 1 ≤ length msg_buf
    → (memmove 0 a msg_buf >>= λ buf1. poke (length a) 0 buf1)
      ≡ some (a ++ 0 ∷ drop (length a + 1) msg_buf)
received a msg_buf room =
    let (y, e) = drop-uncons (length a) msg_buf (omega arith) in
    rw (memmove-append a [] msg_buf (omega arith)) (rw (e, poke-append a y 0 _))

-- At most BUFSIZE - 1 bytes are received.
abbrev pub IsReceived : Received → Type 0
IsReceived failed = Unit
IsReceived (bytes a) = length a < bufsize

pub bind-run {ℓ κ} :
    {A : Type ℓ} {B : Type κ} (m : Option A) (f : A → Option A) (g : A → Option B) {a : A}
    → (m >>= f) ≡ some a
    → (m >>= λ x. f x >>= g) ≡ g a
bind-run none f g h = cc
bind-run (some x) f g h = rw h refl

length-mess :
    (s : Bytes) → kind_of (take msg_type_size s) ≡ mess → conforms s ≡ true → length s ≡ 156
unfolding conforms msglen
length-mess s type ok =
    let split = rw type at ok in
    let len = (and-eq_true (has_len (length s) mess) _ split).0 in ground (arith, utf8, len)

module _ (verbose : Bool) (max : ℕ) (rows : Register) (slots : Slots) (few : max ≤ 99)
    (room : max ≤ length rows) (r : Refines rows slots) (inner watch_buf : Bytes) (port : ℕ)
    (gives_zero : ℕ → Bool) (size : length inner ≡ bufsize) (size1 : length watch_buf ≡ bufsize)
    (c : Connection) (fit : AllFit verbose c.rounds) where
  -- The `switch` on an accepted text.
  dispatch-reply :
      (type : MsgType) (s rest : Bytes)
      → IsText s
      → kind_of (take msg_type_size s) ≡ type
      → conforms s ≡ true
      → let outcome = reply type max slots s (c.timeout_set && survives c.rounds) in
        (rows1 : Register) × (dispatch verbose max rows inner watch_buf port gives_zero c type
            (s ++ 0 ∷ rest)
          ≡ some (rows1, outcome.1))
        × Refines rows1 outcome.0
  unfolding dispatch reply
  dispatch-reply regi s rest plain type ok =
      let (rows1, run, r1) =
        handle_regi-Refines verbose max rows slots s rest inner watch_buf c
          (record { plain = plain; type = type; accepted = ok }) room r size size1 fit in
      (rows1, rw run, r1)
  dispatch-reply list s rest plain type ok =
      (rows, rw (handle_list-items max rows slots inner few room r size), r)
  dispatch-reply mess s rest plain type ok = (
    rows,
    rw (handle_mess-items gives_zero max rows slots s rest port room r (length-mess s type ok)),
    r,
  )
  dispatch-reply _ s rest plain type ok = (rows, refl, r)

  -- From the check of the text on.
  judge : Bytes → Option (Register × Done)
  judge buf = verify_msg buf >>= λ ok. get_msg_type buf >>= λ type.
      if ok
      then dispatch verbose max rows inner watch_buf port gives_zero c type buf
      else some (rows, wrong_format)

  judge-serve_text :
      (s rest : Bytes)
      → IsText s
      → let outcome = serve_text max slots s (c.timeout_set && survives c.rounds) in
        (rows1 : Register) × (judge (s ++ 0 ∷ rest) ≡ some (rows1, outcome.1))
        × Refines rows1 outcome.0
  unfolding judge serve_text
  judge-serve_text s rest plain =
      rw (verify_msg-conforms s rest plain, get_msg_type-append s rest plain)
        (elim (Bool-cases (conforms s)) [
          | inl e ↦ rw e (dispatch-reply (kind_of (take msg_type_size s)) s rest plain refl e)
          | inr e ↦ rw e (rows, refl, r)
        ])

  -- The received text is printed first.
  print_and_judge : Bytes → Option (Register × Done)
  unfolding judge
  print_and_judge buf =
      verbose_print_message verbose (utf8 "Message recu : ") buf >>= λ printed. judge buf

  print_and_judge-serve_text :
      (s rest : Bytes)
      → IsText s
      → let outcome = serve_text max slots s (c.timeout_set && survives c.rounds) in
        (rows1 : Register) × (print_and_judge (s ++ 0 ∷ rest) ≡ some (rows1, outcome.1))
        × Refines rows1 outcome.0
  unfolding print_and_judge
  print_and_judge-serve_text s rest plain =
      let (rows1, run, r1) = judge-serve_text s rest plain in
      let printed =
        verbose_print_message-end verbose (utf8 "Message recu : ") (s ++ 0 ∷ rest)
          (judge (s ++ 0 ∷ rest)) (has_end-append s rest) in
      (rows1, printed ∙ run, r1)

  -- Whatever a client sends, and with no SIGPIPE, `handle_tcp` does what `serve` says with the
  -- slots, and never leaves an array: nothing if nothing is received, else what the text in the
  -- received bytes asks for, if `verify_msg` accepts it. In the same step the register goes on to
  -- stand for the slots that `serve` leaves. At most 99 broadcasters can be registered, the register
  -- has `max` rows and stands for `slots`, the buffers have their 512 bytes, at most 511 bytes are
  -- received for the message, no answer of the broadcaster has more than 512, and in the verbose
  -- mode each of them has at most 6 bytes or holds a '\0'.
  pub handle_tcp-serve :
      (msg_buf : Bytes) (message : Received)
      → length msg_buf ≡ bufsize
      → IsReceived message
      → let outcome = serve max slots message (c.timeout_set && survives c.rounds) in
        (rows1 : Register) × (handle_tcp verbose max rows msg_buf inner watch_buf port gives_zero
            message c
          ≡ some (rows1, outcome.1))
        × Refines rows1 outcome.0
  unfolding handle_tcp serve print_and_judge
  handle_tcp-serve msg_buf failed size2 fits = (rows, refl, r)
  handle_tcp-serve msg_buf (bytes []) size2 fits = (rows, refl, r)
  handle_tcp-serve msg_buf (bytes (b ∷ bs)) size2 fits =
      let a = b ∷ bs in
      let (plain, (rest, same)) = front-append a (drop (length a + 1) msg_buf) in
      let buf = received a msg_buf (omega arith) ∙ ap some same in
      let (rows1, run, r1) = print_and_judge-serve_text (front a) rest plain in
      (
        rows1,
        bind-run (memmove 0 a msg_buf) (λ buf1. poke (length a) 0 buf1) print_and_judge buf ∙ run,
        r1,
      )
