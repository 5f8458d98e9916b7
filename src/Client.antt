-- ===== src/Client.antt =====
-- c/client.c: what a client asks of the manager, and what of a broadcaster. What `recv` and `malloc`
-- give is an argument, and so is what `inet_aton` makes of an address, and whether the socket is
-- opened and connected and the message sent. No `send` raises SIGPIPE.
pub mod Recv
pub mod Listed
pub mod Last
pub mod Sent
use net_radio.Common.{
  ℕ, zero, suc, ◌+◌, ◌-◌, ◌*◌, ◌%◌, ◌^◌, Bool, true, false, ◌&&◌, Option, none, some, List, [], ◌∷◌,
  ◌++◌, Bytes, ℤ, pos, negsuc, ◌>>=◌, if◌then◌else◌, get_elem?, length,
}
use net_radio.Memory.{memmove, poke, text}
use net_radio.Libc.Atoi.{atoi}
use net_radio.Message.Types.{MsgType, ackm, list, item, linb, mess, get_msg_type, msglen}
use net_radio.Manager.Monitor.{Received, failed, bytes}
use net_radio.Message.Build.{str}
use net_radio.Manager.Handlers.{send_message}

unfoldable pub is_item : MsgType → Bool
is_item item = true
is_item _ = false

unfoldable pub is_linb : MsgType → Bool
is_linb linb = true
is_linb _ = false

-- The pointer that is returned, with the texts behind it, and `*size`.
pub data Listing : Type 0 where
  null : Listing
  listing : (size : ℤ) → List Bytes → Listing

-- The steps before the first `recv`: are they without error?
pub record Setup : Type 0 where
  pub address : Bool
  pub socket : Bool
  pub connected : Bool
  pub sent : Bool

-- `recv` into an array, and the '\0' behind it. None is an error of `recv`.
unfoldable pub recv_text : Received → Bytes → Option (Option Bytes)
recv_text failed m = some none
recv_text (bytes bs) m = memmove 0 bs m >>= λ m1. poke (length bs) 0 m1 >>= λ m2. some (some m2)

-- The loop: `n` blocks are asked for and filled. None is the return of NULL.
unfoldable pub recv_items :
    (malloc : ℕ → Option Bytes) → (answers : ℕ → Received) → ℕ → ℕ → Option (Option (List Bytes))
unfolding recv_text
recv_items malloc answers i zero = some (some [])
recv_items malloc answers i (suc n) =
    let next = recv_items malloc answers (suc i) n in
    msglen item >>= λ len. malloc (len + 1) >>= λ block. recv_text (answers i) block >>= λ received.
    elim received [
      | none ↦ some none
      | some m ↦ get_msg_type m >>= λ type.
          if is_item type
          then (next >>= λ rest. some (elim rest [ none ↦ none | some ms ↦ some (m ∷ ms) ]))
          else some none
    ]

-- The array of pointers, of 8 bytes each, and the loop. A store through a null pointer is a fault.
unfoldable pub recv_list :
    (malloc : ℕ → Option Bytes) → (answers : ℕ → Received) → ℤ → Option Listing
unfolding recv_items
recv_list malloc answers (pos zero) =
    some (elim (malloc 0) [ none ↦ null | some a ↦ listing (pos 0) [] ])
recv_list malloc answers (pos (suc n)) = malloc (8 * suc n) >>= λ a.
    recv_items malloc answers 0 (suc n) >>= λ items.
    some (elim items [ none ↦ null | some ms ↦ listing (pos (suc n)) ms ])
recv_list malloc answers (negsuc n) =
    some (elim (malloc (2 ^ 64 - 8 * suc n)) [ none ↦ null | some a ↦ listing (negsuc n) [] ])

-- The number in a LINB, and the ITEMs.
unfoldable pub read_linb :
    (malloc : ℕ → Option Bytes) → (answers : ℕ → Received) → Bytes → Option Listing
unfolding recv_list
read_linb malloc answers m = get_elem? m 5 >>= λ tens. get_elem? m 6 >>= λ units.
    text (tens ∷ units ∷ 0 ∷ []) >>= λ numdi. recv_list malloc answers (atoi numdi)

-- From the first `recv`, of BUFSIZE - 1 bytes, on.
unfoldable pub recv_linb :
    (malloc : ℕ → Option Bytes)
    → (first : Received) → (answers : ℕ → Received) → Bytes
    → Option Listing
unfolding recv_text read_linb
recv_linb malloc first answers buf = recv_text first buf >>= λ received. elim received [
  | none ↦ some null
  | some m ↦
      get_msg_type m >>= λ type. if is_linb type then read_linb malloc answers m else some null
]

-- `mess_buf` and `buf` are the two buffers. The result has what is sent, if it comes to that.
unfoldable pub get_streamer_list :
    (malloc : ℕ → Option Bytes)
    → Setup
    → (first : Received) → (answers : ℕ → Received) → (mess_buf buf : Bytes)
    → Option (Option Bytes × Listing)
unfolding recv_linb
get_streamer_list malloc up first answers mess_buf buf =
    if up.address && up.socket && up.connected
    then (send_message mess_buf list [] >>= λ request.
        if up.sent
        then (recv_linb malloc first answers buf >>= λ l. some (some request, l))
        else some (none, null))
    else some (none, null)

unfoldable pub is_ackm : MsgType → Bool
is_ackm ackm = true
is_ackm _ = false

-- From `recv` into `ackm` on: is 0 returned? Else it is -1.
unfoldable pub recv_ackm : Received → Bytes → Option Bool
recv_ackm failed ackm_buf = some false
recv_ackm (bytes bs) ackm_buf =
    memmove 0 bs ackm_buf >>= λ m. get_msg_type m >>= λ type. some (is_ackm type)

-- `htons` keeps the low 16 bits of the port.
abbrev pub sin_port : ℤ → ℕ
sin_port (pos n) = n % 2 ^ 16
sin_port (negsuc n) = 2 ^ 16 - 1 - n % 2 ^ 16

-- A message that is sent, and the address and port of the connection.
pub record Delivery : Type 0 where
  pub address : ℕ
  pub port : ℕ
  pub message : Bytes

-- What follows `inet_aton`, for the address that it gives.
unfoldable pub send_mess_to :
    (address : ℕ)
    → (streamer_port : ℤ) → Setup
    → Received
    → (mess_buf ackm_buf client_id client_msg : Bytes) → Option (Option Delivery × Bool)
unfolding recv_ackm
send_mess_to address streamer_port up answer mess_buf ackm_buf client_id client_msg =
    if up.socket && up.connected
    then (send_message mess_buf mess (str client_id ∷ str client_msg ∷ []) >>= λ sent.
        if up.sent
        then (recv_ackm answer ackm_buf >>= λ ok. some (
          some (record { address = address; port = sin_port streamer_port; message = sent }),
          ok,
        ))
        else some (none, false))
    else some (none, false)

-- `inet_aton` gives the address that a text stands for, if it is one; the field `address` of the Setup
-- is not looked at. `mess_buf` and `ackm_buf` are the
-- two buffers, and the texts are the arrays of the arguments. The result has what is sent and where to,
-- if it comes to that, and whether 0 is returned.
unfoldable pub send_mess_to_streamer :
    (inet_aton : Bytes → Option ℕ)
    → (streamer_ip : Bytes) → (streamer_port : ℤ) → Setup
    → Received
    → (mess_buf ackm_buf client_id client_msg : Bytes) → Option (Option Delivery × Bool)
unfolding send_mess_to
send_mess_to_streamer inet_aton streamer_ip streamer_port up answer mess_buf ackm_buf client_id
      client_msg =
    elim (inet_aton streamer_ip) [
      | none ↦ some (none, false)
      | some address ↦
          send_mess_to address streamer_port up answer mess_buf ackm_buf client_id client_msg
    ]
