-- ===== src/Manager/Monitor.antt =====
-- c/manager.c: `monitor_broadcaster`. Each round sends RUOK and waits for IMOK; what `send` and
-- `recv` do is given, a round at a time. `verbose` is the variable of the manager. The delay is left
-- out, and so is what is printed; but a text that is printed in the verbose mode is read, up to its
-- '\0'.
pub mod Answers
pub mod Printed
pub mod Watching
use net_radio.Common.{
  ℕ, suc, ◌+◌, Bool, true, false, Option, none, some, List, [], ◌∷◌, ◌++◌, Bytes, ltb,
  if◌then◌else◌, ◌>>=◌, length, codes, utf8,
}
use net_radio.Memory.{memmove}
use net_radio.Utils.{print_raw_string}
use net_radio.Message.Types.{MsgType, imok, ruok, get_msg_type}
use net_radio.Manager.Register.{Register, clear_canary}
use net_radio.Message.Build.{create_message, Created, null, aborted, message}

abbrev pub bufsize : ℕ
bufsize = 512

-- What `recv` gives: an error (the delay of two seconds is one), or bytes; no byte at all is a
-- connection that is closed.
pub data Received : Type 0 where
  failed : Received
  bytes : Bytes → Received

-- One round: does `send` succeed, and what does `recv` give after it?
pub record Round : Type 0 where
  pub sent : Bool
  pub answer : Received

-- The buffer that a call of `create_message` on it leaves.
abbrev pub written : Created → Option Bytes
written null = none
written aborted = none
written (message b) = some b

abbrev pub no_malloc : ℕ → Option Bytes
no_malloc n = none

unfoldable pub is_imok : MsgType → Bool
is_imok imok = true
is_imok _ = false

-- How a call of `monitor_broadcaster` stands after the rounds: still in its loop, or at `error`.
pub data Watch : Type 0 where
  watching : (msg_buf : Bytes) → Watch
  gone : Watch

-- What is printed; a text without a '\0' is read out of its array.
unfoldable pub verbose_print_message : (verbose : Bool) → (intro msg : Bytes) → Option Bytes
verbose_print_message true intro msg =
    print_raw_string msg >>= λ out. some (intro ++ (out ++ codes "\n"))
verbose_print_message false intro msg = some []

-- From `recv` to the end of the round. More bytes than BUFSIZE are never received.
unfoldable pub receive : (verbose : Bool) → Bytes → Received → Option Watch
unfolding verbose_print_message
receive verbose msg_buf failed = some gone
receive verbose msg_buf (bytes []) = some gone
receive verbose msg_buf (bytes (b ∷ bs)) = do
  buf ← memmove 0 (b ∷ bs) msg_buf
  printed ← verbose_print_message verbose (utf8 "Message recu : ") buf
  type ← get_msg_type buf
  some (if is_imok type then watching buf else gone)

unfoldable pub monitor_round : (verbose : Bool) → Bytes → Round → Option Watch
unfolding receive verbose_print_message
monitor_round verbose msg_buf r = do
  created ← create_message no_malloc (some msg_buf) ruok []
  buf ← written created
  printed ← verbose_print_message verbose (utf8 "Message envoyé : ") buf
  if r.sent then receive verbose buf r.answer else some gone

-- The loop.
unfoldable pub monitor_rounds : (verbose : Bool) → Bytes → List Round → Option Watch
unfolding monitor_round
monitor_rounds verbose msg_buf [] = some (watching msg_buf)
monitor_rounds verbose msg_buf (r ∷ rounds) = monitor_round verbose msg_buf r >>= λ w. elim w [
  | watching buf ↦ monitor_rounds verbose buf rounds
  | gone ↦ some gone
]

-- At `error` the canary, at the front of row `place`, is cleared.
unfoldable pub end_watch : Register → ℕ → Watch → Option (Register × Watch)
unfolding clear_canary
end_watch rows place (watching buf) = some (rows, watching buf)
end_watch rows place gone = clear_canary place rows >>= λ rows1. some (rows1, gone)

-- `timeout_set` tells whether `setsockopt` succeeds. No other thread runs in between.
unfoldable pub monitor_broadcaster :
    (verbose : Bool)
    → Register
    → (place : ℕ) → (msg_buf : Bytes) → (timeout_set : Bool) → List Round
    → Option (Register × Watch)
unfolding monitor_rounds end_watch
monitor_broadcaster verbose rows place msg_buf true rounds =
    monitor_rounds verbose msg_buf rounds >>= λ w. end_watch rows place w
monitor_broadcaster verbose rows place msg_buf false rounds = end_watch rows place gone
