-- ===== src/Manager/Handlers/Lists.antt =====
-- `handle_list` announces the registered broadcasters and sends each of them.
use net_radio.Common.{
  ℕ, zero, suc, ◌+◌, ◌≤◌, ◌≡◌, refl, ap, ◌∙◌, none, some, List, [], ◌∷◌, ◌++◌, Bytes, map, length,
  length-append, take-eq_self, pos, codes, arith,
}
use net_radio.Libc.Decimal.{fixed, format_int-fixed, length-fixed}
use net_radio.Message.Types.{msglen, linb, regi_len, msg_end}
use net_radio.Message.Build.{int}
use net_radio.Message.Build.Create.{create_message-wire}
use net_radio.Message.Build.Length.{msglen-wire}
use net_radio.Message.Wire
use net_radio.Message.Wire.{Message, kind, args, IsWritable, wire}
use net_radio.Manager.Register.{Register, read_bytes}
use net_radio.Manager.Register.Slots.{Slots, IsItem, items, Refines}
use net_radio.Manager.Register.Refines.{row_of, copy_broadcaster_register-Refines}
use net_radio.Manager.Monitor.{bufsize, no_malloc}
use net_radio.Manager.Handlers.{send_message, send_items, handle_list}

read_bytes-append : (t r : Bytes) → read_bytes (length t) (t ++ r) ≡ some t
unfolding read_bytes
read_bytes-append [] r = refl
read_bytes-append (x ∷ t) r = rw (read_bytes-append t r)

-- What is sent for a message is its bytes, with no '\0' and nothing of the buffer's old content.
pub send_message-wire :
    (m : Message) (msg_buf : Bytes)
    → IsWritable m
    → length (wire m) + 1 ≤ length msg_buf
    → send_message msg_buf (kind m) (args m) ≡ some (wire m)
unfolding send_message
send_message-wire m msg_buf ok room =
    rw (create_message-wire no_malloc m msg_buf ok room)
      (rw (msglen-wire m) (read_bytes-append (wire m) _))

read_bytes-row_of : (t : Bytes) → IsItem t → read_bytes regi_len (row_of t) ≡ some t
read_bytes-row_of t h =
    ap (λ n. read_bytes n (row_of t)) (omega (arith, h.size)) ∙ read_bytes-append t _

abbrev pub AllItems : List Bytes → Type 0
AllItems [] = Unit
AllItems (t ∷ ts) = IsItem t × AllItems ts

pub items-AllItems :
    (max : ℕ) (rows : Register) (slots : Slots) → Refines rows slots → AllItems (items max slots)
unfolding items
items-AllItems zero rows slots r = tt
items-AllItems (suc max) rows [] r = tt
items-AllItems (suc max) [] (s ∷ slots) r = absurd r
items-AllItems (suc max) (row ∷ rows) (none ∷ slots) (h, r) = items-AllItems max rows slots r
items-AllItems (suc max) (row ∷ rows) (some t ∷ slots) ((held, t_item), r) =
    (t_item, items-AllItems max rows slots r)

send_items-map : (ts : List Bytes) → AllItems ts → send_items (map row_of ts) ≡ some ts
unfolding send_items msglen
send_items-map [] h = refl
send_items-map (t ∷ ts) (ht, hs) = rw (read_bytes-row_of t ht, send_items-map ts hs)

length-map : (ts : List Bytes) → length (map row_of ts) ≡ length ts
length-map [] = refl
length-map (t ∷ ts) = ap suc (length-map ts)

pub length-items-le : (max : ℕ) (slots : Slots) → length (items max slots) ≤ max
unfolding items
length-items-le zero slots = omega arith
length-items-le (suc max) [] = omega arith
length-items-le (suc max) (none ∷ slots) = omega (arith, length-items-le max slots)
length-items-le (suc max) (some t ∷ slots) = omega (arith, length-items-le max slots)

-- The announcement of `n` messages.
unfoldable pub announcement : ℕ → Bytes
announcement n = codes "LINB " ++ (fixed 2 n ++ msg_end)

pub linb-announcement : (n : ℕ) → n ≤ 99 → wire (Wire.linb (pos n)) ≡ announcement n
unfolding wire announcement Wire.name Wire.fields Wire.number_field Wire.int_field
linb-announcement n h = rw (
  format_int-fixed 1 n (omega arith),
  take-eq_self 2 (fixed 2 n) (omega (arith, length-fixed 2 n)),
)

-- The client that sends LIST gets a LINB with the number of registered broadcasters in two digits,
-- and then the ITEM of each of them, in the order of the register. At most 99 broadcasters can be
-- registered, the register stands for `slots`, and the buffer has its 512 bytes.
pub handle_list-items :
    (max : ℕ) (rows : Register) (slots : Slots) (msg_buf : Bytes)
    → max ≤ 99
    → max ≤ length rows
    → Refines rows slots
    → length msg_buf ≡ bufsize
    → handle_list max rows msg_buf
      ≡ some (announcement (length (items max slots)) ∷ items max slots)
unfolding handle_list announcement
handle_list-items max rows slots msg_buf few room r size =
    let ts = items max slots in
    let n = length ts in
    let small : n ≤ 99 = omega (arith, length-items-le max slots) in
    let spelled = linb-announcement n small in
    let ten : length (announcement n) ≡ 9 =
      omega (arith, length-append (fixed 2 n) msg_end, length-fixed 2 n) in
    let sent : send_message msg_buf linb (int (pos n) ∷ []) ≡ some (announcement n) =
      unfold kind args in
      send_message-wire (Wire.linb (pos n)) msg_buf tt (omega (arith, ap length spelled, ten))
      ∙ ap some spelled in
    rw (
      copy_broadcaster_register-Refines max rows slots room r,
      length-map ts,
      sent,
      send_items-map ts (items-AllItems max rows slots r),
    )
