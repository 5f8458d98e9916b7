-- ===== src/Client/Last.antt =====
-- c/client.c: `get_last_mess`, which asks a broadcaster for its last messages.
pub mod Ended
use net_radio.Common.{
  ℕ, zero, suc, ◌+◌, ◌-◌, ◌*◌, ◌^◌, true, false, ◌&&◌, Option, none, some, List, [], ◌∷◌, Bytes, ℤ,
  pos, negsuc, ◌>>=◌, ltb, if◌then◌else◌,
}
use net_radio.Message.Types.{MsgType, endm, last, oldm, get_msg_type, msglen}
use net_radio.Message.Build.{int}
use net_radio.Manager.Monitor.{Received}
use net_radio.Manager.Handlers.{send_message}
use net_radio.Client.{Setup, recv_text}

-- The pointer that is returned, with the texts behind it, and `*nb_mess`.
pub data Messages : Type 0 where
  null : Messages
  messages : (nb_mess : ℤ) → List Bytes → Messages

-- What the type of a message means to the loop.
pub data Answer : Type 0 where
  ended : Answer
  another : Answer
  wrong : Answer

unfoldable pub answer_of : MsgType → Answer
answer_of endm = ended
answer_of oldm = another
answer_of _ = wrong

-- The front of what a later round returns.
abbrev pub add_message : Bytes → Messages → Messages
add_message m null = null
add_message m (messages nb ms) = messages nb (m ∷ ms)

-- The loop from round `i` on, with `rounds` rounds left. The array has `nb` pointers: a store behind
-- them is a fault, and so is the store of '\0' before the block, at the index -1 of an error.
unfoldable pub recv_olds :
    (malloc : ℕ → Option Bytes) → (answers : ℕ → Received) → (nb i rounds : ℕ) → Option Messages
unfolding answer_of recv_text
recv_olds malloc answers nb i zero = some (messages (pos nb) [])
recv_olds malloc answers nb i (suc rounds) =
    let next = recv_olds malloc answers nb (suc i) rounds in
    if ltb i nb
    then (msglen oldm >>= λ len. malloc (len + 1) >>= λ block.
        recv_text (answers i) block >>= λ received. elim received [
          | none ↦ none
          | some m ↦ get_msg_type m >>= λ type. elim (answer_of type) [
            | ended ↦ some (messages (pos i) [])
            | another ↦ next >>= λ rest. some (add_message m rest)
            | wrong ↦ some null
          ]
        ])
    else none

-- The array of pointers, of 8 bytes each, and the rounds from 0 to `nb`. A null pointer faults at its
-- first store; a negative number asks for a block of `nb * 8` as a `size_t` and makes no round.
unfoldable pub recv_last :
    (malloc : ℕ → Option Bytes) → (answers : ℕ → Received) → ℤ → Option Messages
unfolding recv_olds
recv_last malloc answers (pos nb) = malloc (8 * nb) >>= λ a. recv_olds malloc answers nb 0 (suc nb)
recv_last malloc answers (negsuc n) =
    some (elim (malloc (2 ^ 64 - 8 * suc n)) [ none ↦ null | some a ↦ messages (negsuc n) [] ])

-- `last_buf` is the buffer of the request. The result has what is sent, if it comes to that.
unfoldable pub get_last_mess :
    (malloc : ℕ → Option Bytes)
    → Setup
    → (answers : ℕ → Received) → (last_buf : Bytes) → (nb_mess : ℤ)
    → Option (Option Bytes × Messages)
unfolding recv_last
get_last_mess malloc up answers last_buf nb_mess =
    if up.address && up.socket && up.connected
    then (send_message last_buf last (int nb_mess ∷ []) >>= λ request.
        if up.sent
        then (recv_last malloc answers nb_mess >>= λ got. some (some request, got))
        else some (none, null))
    else some (none, null)
