-- ===== src/Client/Listed.antt =====
-- `get_streamer_list` against `handle_list`: the client gets what the manager has registered.
use net_radio.Common.{
  ℕ, suc, ◌+◌, ◌*◌, ◌%◌, ◌/◌, ◌≤◌, ◌<◌, ◌≡◌, refl, sym, ap, ◌∙◌, Option, some, List, [], ◌∷◌, Bytes,
  map, pos, get_elem?, length, drop, drop-eq_nil, codes, arith,
}
use net_radio.Memory.Strings.{IsText, text-append}
use net_radio.Libc.Decimal.{fixed}
use net_radio.Libc.Number.{skip_spaces, sign}
use net_radio.Libc.Atoi.{atoi, leading}
use net_radio.Message.Types.{list, msglen, kind_of}
use net_radio.Message.Verify.Reads.{get_msg_type-append}
use net_radio.Message.Wire
use net_radio.Message.Wire.{kind, args, wire, name, fields}
use net_radio.Manager.Register.{Register}
use net_radio.Message.Build.Layout.{wire-IsText}
use net_radio.Manager.Monitor.{Received, bytes, bufsize}
use net_radio.Manager.Register.Slots.{Slots, IsItem, items, Refines}
use net_radio.Manager.Register.Refines.{row_of}
use net_radio.Manager.Handlers.{send_message, handle_list}
use net_radio.Manager.Handlers.Lists.{
  AllItems, announcement, linb-announcement, handle_list-items, items-AllItems, length-items-le,
  send_message-wire,
}
use net_radio.Client.Recv.{no_error, recv_text-append}
use net_radio.Client.{
  listing, is_item, is_linb, recv_text, recv_items, recv_list, read_linb, recv_linb,
  get_streamer_list,
}

-- The two digits of a LINB are read as the number.
pub atoi-digits :
    (a b : ℕ) → a < 10 → b < 10 → atoi ((b'0' + a) ∷ (b'0' + b) ∷ []) ≡ pos (a * 10 + b)
unfolding atoi skip_spaces sign leading
atoi-digits a b ha hb = ground arith

-- A block of 58 bytes is filled by an ITEM and its '\0'.
recv_text-row_of :
    (t block : Bytes)
    → IsItem t
    → length block ≡ 58
    → recv_text (bytes t) block ≡ some (some (row_of t))
recv_text-row_of t block h size =
    let len = h.size in
    recv_text-append t block (omega arith)
    ∙ rw (drop-eq_nil (length t + 1) block (omega arith)) refl

module _ (malloc : ℕ → Option Bytes)
    (enough : (n : ℕ) → (block : Bytes) × (malloc n ≡ some block) × (length block ≡ n)) where
  -- The loop gets the ITEMs, one at each call of `recv`.
  recv_items-map :
      (answers : ℕ → Received) (i : ℕ) (ts : List Bytes)
      → AllItems ts
      → ((k : ℕ) (t : Bytes) → get_elem? ts k ≡ some t → answers (i + k) ≡ bytes t)
      → recv_items malloc answers i (length ts) ≡ some (some (map row_of ts))
  unfolding recv_items msglen is_item
  recv_items-map answers i [] h come = refl
  recv_items-map answers i (t ∷ ts) (ht, hs) come =
      let (block, given, size) = enough 58 in
      let type = ht.type in
      let first : answers i ≡ bytes t = ap answers (omega arith) ∙ come 0 t refl in
      let rest =
        recv_items-map answers (suc i) ts hs
          (λ k u at_k. ap answers (omega arith) ∙ come (suc k) u at_k) in
      rw
        (
          given,
          first,
          recv_text-row_of t block ht size,
          get_msg_type-append t [] ht.plain,
          type,
          rest,
        )
        refl

  recv_list-listing :
      (answers : ℕ → Received) (ts : List Bytes)
      → AllItems ts
      → ((k : ℕ) (t : Bytes) → get_elem? ts k ≡ some t → answers k ≡ bytes t)
      → recv_list malloc answers (pos (length ts))
        ≡ some (listing (pos (length ts)) (map row_of ts))
  unfolding recv_list
  recv_list-listing answers [] h come = let (block, given, size) = enough 0 in rw given refl
  recv_list-listing answers (t ∷ ts) h come =
      let (block, given, size) = enough (8 * length (t ∷ ts)) in
      let all =
        recv_items-map answers 0 (t ∷ ts) h
          (λ k u at_k. ap answers (omega arith) ∙ come k u at_k) in
      rw (given, all) refl

  -- The LINB that announces the ITEMs.
  recv_linb-listing :
      (answers : ℕ → Received) (ts : List Bytes) (buf : Bytes)
      → AllItems ts
      → length ts ≤ 99
      → length buf ≡ bufsize
      → ((k : ℕ) (t : Bytes) → get_elem? ts k ≡ some t → answers k ≡ bytes t)
      → recv_linb malloc (bytes (announcement (length ts))) answers buf
        ≡ some (listing (pos (length ts)) (map row_of ts))
  unfolding recv_linb read_linb is_linb announcement fixed kind_of
  recv_linb-listing answers ts buf h few size come =
      let n = length ts in
      let a = n / 10 % 10 in
      let b = n % 10 in
      let behind = drop (length (announcement n) + 1) buf in
      let written = wire-IsText (Wire.linb (pos n)) tt in
      let plain : IsText (announcement n) = rw (linb-announcement n few) at written in
      let both : IsText ((b'0' + a) ∷ (b'0' + b) ∷ []) =
        ((λ e. omega (arith, e)), ((λ e. omega (arith, e)), tt)) in
      let value : pos (a * 10 + b) ≡ pos n = ap pos (omega arith) in
      rw
        (
          recv_text-append (announcement n) buf (omega arith),
          get_msg_type-append (announcement n) behind plain,
          text-append ((b'0' + a) ∷ (b'0' + b) ∷ []) [] both,
          atoi-digits a b (omega arith) (omega arith),
          value,
          recv_list-listing answers ts h come,
        )
        refl

-- The request of the client.
send-list :
    (mess : Bytes) → length mess ≡ bufsize → send_message mess list [] ≡ some (codes "LIST\r\n")
send-list mess size =
    unfold kind args wire name fields in send_message-wire Wire.list mess tt (omega arith)

-- A client that asks a manager for its list, with no error and each message received by one call of
-- `recv`, sends LIST and gets the ITEM of every registered broadcaster, in the order of the register,
-- with their number. Here `handle_list` gives the messages that are received, at most 99 broadcasters
-- can be registered, the register stands for `slots`, the buffers have their 512 bytes, and `malloc`
-- always gives a block.
pub get_streamer_list-handle_list :
    (malloc : ℕ → Option Bytes) (max : ℕ) (rows : Register) (slots : Slots)
    (msg_buf mess buf first : Bytes) (ms : List Bytes) (answers : ℕ → Received)
    → ((n : ℕ) → (block : Bytes) × (malloc n ≡ some block) × (length block ≡ n))
    → max ≤ 99
    → max ≤ length rows
    → Refines rows slots
    → length msg_buf ≡ bufsize
    → length mess ≡ bufsize
    → length buf ≡ bufsize
    → handle_list max rows msg_buf ≡ some (first ∷ ms)
    → ((k : ℕ) (m : Bytes) → get_elem? ms k ≡ some m → answers k ≡ bytes m)
    → get_streamer_list malloc no_error (bytes first) answers mess buf
      ≡ some (
        some (codes "LIST\r\n"),
        listing (pos (length (items max slots))) (map row_of (items max slots)),
      )
unfolding get_streamer_list
get_streamer_list-handle_list malloc max rows slots msg_buf mess buf first ms answers enough few
      room r size size1 size2 run come =
    let ts = items max slots in
    let listed = handle_list-items max rows slots msg_buf few room r size in
    let head : announcement (length ts) ≡ first = cc in
    let tail : ts ≡ ms = cc in
    let come1 = rw (sym tail) at come in
    rw
      (
        send-list mess size1,
        sym head,
        recv_linb-listing malloc enough answers ts buf (items-AllItems max rows slots r)
            (omega (arith, length-items-le max slots, few)) size2 come1,
      )
      refl
