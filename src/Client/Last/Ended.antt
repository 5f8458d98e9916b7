-- ===== src/Client/Last/Ended.antt =====
-- `get_last_mess` with a broadcaster that answers by OLDM messages and ENDM.
use net_radio.Common.{
  ℕ, suc, ◌+◌, ◌-◌, ◌*◌, ◌≤◌, ◌<◌, ◌≡◌, refl, ap, ◌∙◌, Bool-cases, inl, inr, Option, none, some,
  List, [], ◌∷◌, ◌++◌, Bytes, map, ℤ, pos, get_elem?, length, drop, take, ltb, lt-ltb, arith, ◌>>=◌,
}
use native.Mathlib.Nat.{zero-add, suc-add}
use net_radio.Memory.Strings.{IsText}
use net_radio.Message.Types.{MsgType, endm, last, oldm, msglen, kind_of, msg_type_size}
use net_radio.Message.Build.{int}
use net_radio.Message.Verify.Reads.{get_msg_type-append}
use net_radio.Message.Build.Length.{msglen-wire}
use net_radio.Message.Wire
use net_radio.Message.Wire.{kind, args, wire}
use net_radio.Manager.Monitor.{Received, bytes}
use net_radio.Manager.Handlers.{send_message}
use net_radio.Manager.Handlers.Lists.{send_message-wire}
use net_radio.Client.Recv.{no_error, recv_text-append}
use net_radio.Client.Last.{
  messages, null, ended, another, wrong, answer_of, add_message, recv_olds, recv_last,
  get_last_mess,
}

-- A message of the broadcaster, as one call of `recv` gives it.
pub record IsMessage (k : MsgType) (t : Bytes) : Type 0 where
  pub plain : IsText t
  pub type : kind_of (take msg_type_size t) ≡ k
  pub size : length t ≤ 161

abbrev pub AllOlds : List Bytes → Type 0
AllOlds [] = Unit
AllOlds (t ∷ ts) = IsMessage oldm t × AllOlds ts

-- The message at the front of a block, its '\0', and what the block held behind.
abbrev pub in_block : Bytes → Bytes → Bytes
in_block block t = t ++ 0 ∷ drop (length t + 1) block

module _ (malloc : ℕ → Option Bytes) (block : Bytes) (given : malloc 162 ≡ some block)
    (size : length block ≡ 162) (answers : ℕ → Received) (nb : ℕ) where
  -- A round in which a message comes.
  round :
      (type : MsgType) (i rounds : ℕ) (t : Bytes)
      → IsMessage type t
      → i < nb
      → answers i ≡ bytes t
      → recv_olds malloc answers nb i (suc rounds) ≡ elim (answer_of type) [
        | ended ↦ some (messages (pos i) [])
        | another ↦ recv_olds malloc answers nb (suc i) rounds >>= λ rest.
            some (add_message (in_block block t) rest)
        | wrong ↦ some null
      ]
  unfolding recv_olds msglen
  round type i rounds t h inside come =
      let plain = h.plain in
      let of_type = h.type in
      let fits = h.size in
      rw
        (
          lt-ltb i nb inside,
          given,
          come,
          recv_text-append t block (omega arith),
          get_msg_type-append t (drop (length t + 1) block) plain,
          of_type,
        )
        refl

  -- The rounds in which an OLDM comes, and then one with ENDM.
  recv_olds-ended :
      (i j rounds : ℕ) (ts : List Bytes) (e : Bytes)
      → AllOlds ts
      → IsMessage endm e
      → i + length ts ≡ j
      → j < nb
      → ((k : ℕ) (t : Bytes) → get_elem? ts k ≡ some t → answers (i + k) ≡ bytes t)
      → answers j ≡ bytes e
      → recv_olds malloc answers nb i (length ts + suc rounds)
        ≡ some (messages (pos j) (map (in_block block) ts))
  unfolding answer_of
  recv_olds-ended i j rounds [] e h he at_j inside come last_one =
      let same : i ≡ j = omega arith in
      rw (← same, zero-add) (round endm i rounds e he (omega arith) (ap answers same ∙ last_one))
  recv_olds-ended i j rounds (t ∷ ts) e (ht, hs) he at_j inside come last_one =
      let rest =
        recv_olds-ended (suc i) j rounds ts e hs he (omega arith) inside
          (λ k u at_k. ap answers (omega arith) ∙ come (suc k) u at_k) last_one in
      let first =
        round oldm i (length ts + suc rounds) t ht (omega arith)
          (ap answers (omega arith) ∙ come 0 t refl) in
      rw suc-add (first ∙ rw rest refl)

  -- As many OLDM messages as the array has pointers: the next round stores behind it.
  recv_olds-full :
      (i rounds : ℕ) (ts : List Bytes)
      → AllOlds ts
      → i + length ts ≡ nb
      → ((k : ℕ) (t : Bytes) → get_elem? ts k ≡ some t → answers (i + k) ≡ bytes t)
      → recv_olds malloc answers nb i (length ts + suc rounds) ≡ none
  unfolding answer_of recv_olds
  recv_olds-full i rounds [] h full come = elim (Bool-cases (ltb i nb)) [
    | inl e ↦ absurd (ground arith)
    | inr e ↦ rw (zero-add, e, recv_olds) refl
  ]
  recv_olds-full i rounds (t ∷ ts) (ht, hs) full come =
      let rest =
        recv_olds-full (suc i) rounds ts hs (omega arith)
          (λ k u at_k. ap answers (omega arith) ∙ come (suc k) u at_k) in
      let first =
        round oldm i (length ts + suc rounds) t ht (omega arith)
          (ap answers (omega arith) ∙ come 0 t refl) in
      rw suc-add (first ∙ rw rest refl)

pub length-last : (nb : ℤ) → length (wire (Wire.last nb)) ≡ 10
unfolding msglen kind
length-last nb = let size = msglen-wire (Wire.last nb) in cc

-- The request, in its 11 bytes.
send-last :
    (nb : ℤ) (last_buf : Bytes)
    → length last_buf ≡ 11
    → send_message last_buf last (int nb ∷ []) ≡ some (wire (Wire.last nb))
send-last nb last_buf size =
    let ten = length-last nb in
    unfold kind args in send_message-wire (Wire.last nb) last_buf tt (omega arith)

module _ (malloc : ℕ → Option Bytes)
    (enough : (n : ℕ) → (block : Bytes) × (malloc n ≡ some block) × (length block ≡ n)) where
  -- A broadcaster that answers a LAST by fewer OLDM messages than are asked for, and then ENDM: with
  -- no error, `get_last_mess` sends the LAST, gives the messages in their order, each with its '\0' at
  -- the front of a block, and their number. Each message is received by one call of `recv` and has at
  -- most 161 bytes, the buffer of the request has its 11 bytes, and `malloc` always gives a block.
  pub get_last_mess-ended :
      (nb : ℕ) (ts : List Bytes) (e last_buf : Bytes) (answers : ℕ → Received)
      → AllOlds ts
      → IsMessage endm e
      → length ts < nb
      → length last_buf ≡ 11
      → ((k : ℕ) (t : Bytes) → get_elem? ts k ≡ some t → answers k ≡ bytes t)
      → answers (length ts) ≡ bytes e
      → get_last_mess malloc no_error answers last_buf (pos nb)
        ≡ some (
          some (wire (Wire.last (pos nb))),
          messages (pos (length ts)) (map (in_block (enough 162).0) ts),
        )
  unfolding get_last_mess recv_last
  get_last_mess-ended nb ts e last_buf answers h he fewer size come last_one =
      let (block, given, whole) = enough 162 in
      let (pointers, array, room) = enough (8 * nb) in
      let left = nb - length ts in
      let loop =
        recv_olds-ended malloc block given whole answers nb 0 (length ts) left ts e h he
          (omega arith) fewer (λ k u at_k. ap answers (omega arith) ∙ come k u at_k) last_one in
      let rounds : suc nb ≡ length ts + suc left = omega arith in
      rw (send-last (pos nb) last_buf size, array, ap (recv_olds malloc answers nb 0) rounds ∙ loop)
        refl

  -- A broadcaster that has as many messages as are asked for: `get_last_mess` stores a pointer behind
  -- its array, whatever comes after the OLDM messages. The conditions are those of
  -- `get_last_mess-ended`.
  pub get_last_mess-overflow :
      (nb : ℕ) (ts : List Bytes) (last_buf : Bytes) (answers : ℕ → Received)
      → AllOlds ts
      → length ts ≡ nb
      → length last_buf ≡ 11
      → ((k : ℕ) (t : Bytes) → get_elem? ts k ≡ some t → answers k ≡ bytes t)
      → get_last_mess malloc no_error answers last_buf (pos nb) ≡ none
  unfolding get_last_mess recv_last
  get_last_mess-overflow nb ts last_buf answers h full size come =
      let (block, given, whole) = enough 162 in
      let (pointers, array, room) = enough (8 * nb) in
      let loop =
        recv_olds-full malloc block given whole answers nb 0 0 ts h (omega arith)
          (λ k u at_k. ap answers (omega arith) ∙ come k u at_k) in
      let rounds : suc nb ≡ length ts + 1 = omega arith in
      rw (send-last (pos nb) last_buf size, array, ap (recv_olds malloc answers nb 0) rounds ∙ loop)
        refl
