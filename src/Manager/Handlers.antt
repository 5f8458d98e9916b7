-- ===== src/Manager/Handlers.antt =====
-- c/manager.c: what a thread does with a connection: `handle_tcp` reads one message and hands it to
-- `handle_regi`, `handle_list` or `handle_mess`. `msg_buf` is the buffer on the thread's stack, with
-- whatever it holds; the results of `send`, which the code ignores here, and the verbose output of
-- messages that the manager has written itself are left out. No `send` raises SIGPIPE here; Start
-- says what that does. What is sent is the list of the messages, in their order.
pub mod Lists
pub mod Mess
pub mod Forward
pub mod Regi
pub mod Serve
use net_radio.Common.{
  ℕ, zero, ℤ, negsuc, suc, ◌+◌, ◌*◌, Bool, true, false, Option, none, some, List, [], ◌∷◌, ◌++◌,
  Bytes, if◌then◌else◌, ◌>>=◌, length, drop, pos, utf8,
}
use net_radio.Message.Types.{
  MsgType, ackm, diff, endm, imok, item, last, linb, list, mess, oldm, regi, reno, reok, ruok,
  unknown, msglen, get_msg_type, regi_len, msg_id_size, msg_ip_size, msg_mess_size, msg_port_size,
  msg_type_size,
}
use net_radio.Message.Build.{Arg, int, create_message}
use net_radio.Memory.{memmove, poke}
use net_radio.Utils.{set_uint_from_string}
use net_radio.Message.Verify.{verify_msg}
use net_radio.Manager.Register.{
  Register, read_bytes, register_broadcaster, copy_broadcaster_register,
}
use net_radio.Manager.Monitor.{
  Received, failed, bytes, Round, written, no_malloc, Watch, watching, gone, monitor_broadcaster,
  verbose_print_message,
}

-- `create_message` in a buffer and `send` of as many bytes as the type asks.
unfoldable pub send_message : Bytes → MsgType → List Arg → Option Bytes
send_message msg_buf type args = do
  created ← create_message no_malloc (some msg_buf) type args
  buf ← written created
  len ← msglen type
  read_bytes len buf

-- The loop of `handle_list` over the entries.
unfoldable pub send_items : List Bytes → Option (List Bytes)
send_items [] = some []
send_items (entry ∷ entries) = do
  len ← msglen item
  m ← read_bytes len entry
  ms ← send_items entries
  some (m ∷ ms)

unfoldable pub handle_list : ℕ → Register → Bytes → Option (List Bytes)
unfolding send_message send_items
handle_list max rows msg_buf = do
  entries ← copy_broadcaster_register max rows
  linb_msg ← send_message msg_buf linb (int (pos (length entries)) ∷ [])
  ms ← send_items entries
  some (linb_msg ∷ ms)

-- Where a thread of `handle_regi` stands: refused, watching its row, or done after clearing it.
pub data Registered : Type 0 where
  refused : Registered
  monitored : (place : ℕ) → Registered
  left : (place : ℕ) → Registered

unfoldable pub stand : ℕ → Watch → Registered
stand place (watching buf) = monitored place
stand place gone = left place

-- What happens on the connection while it is watched: does `setsockopt` succeed, and the rounds.
pub record Connection : Type 0 where
  pub timeout_set : Bool
  pub rounds : List Round

-- `watch_buf` is the buffer of `monitor_broadcaster`. No other thread runs in between. The result is
-- the register, where the thread stands, and the answer to the REGI.
unfoldable pub handle_regi :
    (verbose : Bool)
    → ℕ
    → Register
    → (msg_buf watch_buf : Bytes) → (regi_msg : Bytes) → Connection
    → Option (Register × Registered × Bytes)
unfolding send_message stand
handle_regi verbose max rows msg_buf watch_buf regi_msg c =
    register_broadcaster max rows regi_msg >>= λ (rows1, canary). elim canary [
      | none ↦ send_message msg_buf reno [] >>= λ answer. some (rows1, refused, answer)
      | some place ↦ send_message msg_buf reok [] >>= λ answer.
          monitor_broadcaster verbose rows1 place watch_buf c.timeout_set c.rounds >>= λ (rows2, w).
          some (rows2, stand place w, answer)
    ]

-- What `handle_mess` passes to `send_mess_to_streamer`: the texts in its arrays, and the port.
pub record Call : Type 0 where
  pub streamer_ip : Bytes
  pub port : ℕ
  pub client_id : Bytes
  pub client_msg : Bytes

-- `*nb` behind a call of `set_uint_from_string`.
abbrev stored : ℕ → Option ℕ → ℕ
stored port none = port
stored port (some n) = n

-- The loop of `handle_mess`: the calls in their order. `port` keeps its value where
-- `set_uint_from_string` is false.
unfoldable pub forward : Bytes → Bytes → ℕ → List Bytes → Option (List Call)
forward client_id client_msg port [] = some []
forward client_id client_msg port (entry ∷ entries) = do
  ip ←
      read_bytes msg_ip_size
        (drop (msg_type_size + 4 + msg_id_size + msg_ip_size + msg_port_size) entry)
  digits ←
      read_bytes msg_port_size
        (drop (msg_type_size + 5 + msg_id_size + 2 * msg_ip_size + msg_port_size) entry)
  number ← set_uint_from_string (digits ++ 0 ∷ [])
  let port1 = stored port number
  calls ← forward client_id client_msg port1 entries
  some (
      record { streamer_ip = ip; port = port1; client_id = client_id; client_msg = client_msg }
      ∷ calls)

-- How many of `n` calls from call `i` on do not give 0.
unfoldable pub failures : (gives_zero : ℕ → Bool) → (i n : ℕ) → ℕ
failures gives_zero i zero = 0
failures gives_zero i (suc n) =
    let rest = failures gives_zero (suc i) n in if gives_zero i then rest else 1 + rest

-- The sum of as many results of -1.
abbrev pub sum_of : (failed_calls : ℕ) → ℤ
sum_of zero = pos 0
sum_of (suc n) = negsuc n

-- `port` holds anything at first. `gives_zero` tells of each call whether it gives 0, else it gives -1.
-- The result is the calls, and the sum of their results.
unfoldable pub handle_mess :
    (gives_zero : ℕ → Bool) → ℕ → Register → Bytes → (port : ℕ) → Option (List Call × ℤ)
unfolding forward failures
handle_mess gives_zero max rows mess_msg port = do
  entries ← copy_broadcaster_register max rows
  client_id ← read_bytes msg_id_size (drop (msg_type_size + 1) mess_msg)
  client_msg ← read_bytes msg_mess_size (drop (msg_type_size + 2 + msg_id_size) mess_msg)
  calls ← forward client_id client_msg port entries
  some (calls, sum_of (failures gives_zero 0 (length calls)))

-- What a thread has done with its connection.
pub data Done : Type 0 where
  no_message : Done
  wrong_format : Done
  wrong_type : Done
  registered : Registered → (answer : Bytes) → Done
  listed : List Bytes → Done
  forwarded : List Call → Done

-- The `switch` of `handle_tcp`. `inner` and `watch_buf` are the buffers of the functions it calls.
unfoldable pub dispatch :
    (verbose : Bool)
    → ℕ
    → Register
    → (inner watch_buf : Bytes) → (port : ℕ) → (gives_zero : ℕ → Bool) → Connection
    → MsgType
    → Bytes
    → Option (Register × Done)
unfolding handle_regi handle_list handle_mess
dispatch verbose max rows inner watch_buf port gives_zero c regi msg_buf =
    handle_regi verbose max rows inner watch_buf msg_buf c >>= λ (rows1, standing, answer).
    some (rows1, registered standing answer)
dispatch verbose max rows inner watch_buf port gives_zero c list msg_buf =
    handle_list max rows inner >>= λ ms. some (rows, listed ms)
dispatch verbose max rows inner watch_buf port gives_zero c mess msg_buf =
    handle_mess gives_zero max rows msg_buf port >>= λ (calls, ret). some (rows, forwarded calls)
dispatch verbose max rows inner watch_buf port gives_zero c _ msg_buf = some (rows, wrong_type)

-- `handle_tcp` from the first `recv` on, of at most BUFSIZE - 1 bytes.
unfoldable pub handle_tcp :
    (verbose : Bool)
    → ℕ
    → Register
    → (msg_buf inner watch_buf : Bytes) → (port : ℕ) → (gives_zero : ℕ → Bool) → Received
    → Connection
    → Option (Register × Done)
unfolding dispatch
handle_tcp verbose max rows msg_buf inner watch_buf port gives_zero failed c =
    some (rows, no_message)
handle_tcp verbose max rows msg_buf inner watch_buf port gives_zero (bytes []) c =
    some (rows, no_message)
handle_tcp verbose max rows msg_buf inner watch_buf port gives_zero (bytes (b ∷ bs)) c = do
  buf1 ← memmove 0 (b ∷ bs) msg_buf
  buf ← poke (length (b ∷ bs)) 0 buf1
  printed ← verbose_print_message verbose (utf8 "Message recu : ") buf
  ok ← verify_msg buf
  type ← get_msg_type buf
  if ok
      then dispatch verbose max rows inner watch_buf port gives_zero c type buf
      else some (rows, wrong_format)
