-- ===== src/Manager/Handlers/Mess.antt =====
-- `handle_mess` passes a message on to every registered broadcaster.
use net_radio.Common.{
  Bool, ℕ, zero, suc, ◌+◌, ◌<◌, ◌≤◌, ◌≡◌, refl, ap, true, and-eq_true, some, List, [], ◌∷◌, ◌++◌,
  Bytes, map, length, length-take, length-drop, take, drop, drop-drop, drop-append_of_le, All,
  arith,
}
use net_radio.Libc.Decimal.{IsDigit}
use net_radio.Libc.Number.{spelled}
use net_radio.Utils.{set_uint_from_string}
use net_radio.Utils.Numbers.{set_uint_from_string-digits}
use net_radio.Message.Types.{
  item, has_len, msg_id_size, msg_ip_size, msg_mess_size, msg_port_size, msg_type_size,
}
use net_radio.Message.Verify.Grammar.{
  Field, conforms, matches, digits, any, space, address, endpoint,
}
use net_radio.Message.Verify.Positions.{matches-behind, matches-IsDigit}
use net_radio.Manager.Register.{Register, read_bytes}
use net_radio.Manager.Register.Slots.{Slots, IsItem, items, Refines}
use net_radio.Manager.Register.Refines.{row_of, copy_broadcaster_register-Refines}
use net_radio.Manager.Handlers.{failures, sum_of, Call, forward, handle_mess}
use net_radio.Manager.Handlers.Lists.{AllItems, items-AllItems}

read_bytes-take : (n : ℕ) (t r : Bytes) → n ≤ length t → read_bytes n (t ++ r) ≡ some (take n t)
unfolding read_bytes
read_bytes-take zero t r h = refl
read_bytes-take (suc n) [] r h = elim h [ ]
read_bytes-take (suc n) (x ∷ t) r h = rw (read_bytes-take n t r (omega arith))

-- Bytes that are read from the middle of a text.
read_bytes-drop :
    (k n : ℕ) (t r : Bytes)
    → k + n ≤ length t
    → read_bytes n (drop k (t ++ r)) ≡ some (take n (drop k t))
read_bytes-drop k n t r h =
    rw (drop-append_of_le k t r (omega arith))
      (read_bytes-take n (drop k t) r (omega (arith, length-drop k t)))

-- The port of an ITEM for TCP: four digits.
abbrev pub port_digits : Bytes → Bytes
port_digits t = take msg_port_size (drop 51 t)

-- What stands between the type of an ITEM and its second port.
abbrev before_port : List Field
before_port = space ∷ any msg_id_size ∷ endpoint (space ∷ (address ++ space ∷ []))

port_digits-IsDigit : (t : Bytes) → IsItem t → All IsDigit (port_digits t)
unfolding conforms
port_digits-IsDigit t h =
    let conform = h.accepted in
    let split = rw h.type at conform in
    let of_item : matches (before_port ++ digits msg_port_size ∷ []) (drop msg_type_size t) ≡ true =
      (and-eq_true (has_len (length t) item) _ split).1 in
    let port =
      matches-behind before_port (digits msg_port_size ∷ []) (drop msg_type_size t) of_item in
    matches-IsDigit msg_port_size [] (drop 51 t) (rw (drop-drop 4 47 t) at port)

four_digits : (s : Bytes) → length s ≡ 4 → All IsDigit s → spelled 0 s < 10000
unfolding spelled
four_digits [] h ds = cc
four_digits (a ∷ []) h ds = absurd (omega arith)
four_digits (a ∷ b ∷ []) h ds = absurd (omega arith)
four_digits (a ∷ b ∷ c ∷ []) h ds = absurd (omega arith)
four_digits (a ∷ b ∷ c ∷ d ∷ []) h (ha, (hb, (hc, (hd, u)))) = omega (arith, ha, hb, hc, hd)
four_digits (a ∷ b ∷ c ∷ d ∷ e ∷ s) h ds = absurd (omega arith)

length-port_digits : (t : Bytes) → IsItem t → length (port_digits t) ≡ 4
length-port_digits t h = omega (arith, length-take 4 (drop 51 t), length-drop 51 t, h.size)

-- The port of an ITEM is read as its digits spell it.
port_read :
    (t : Bytes)
    → IsItem t
    → set_uint_from_string (port_digits t ++ 0 ∷ []) ≡ some (some (spelled 0 (port_digits t)))
port_read t h =
    let n = spelled 0 (port_digits t) in
    let small = four_digits (port_digits t) (length-port_digits t h) (port_digits-IsDigit t h) in
    rw
      (set_uint_from_string-digits (port_digits t) []
        (λ e. omega (arith, ap length e, length-port_digits t h)) (port_digits-IsDigit t h))
      (ground arith)

-- The call for a registered broadcaster: its second address and port.
unfoldable pub call_of : Bytes → Bytes → Bytes → Call
call_of client_id client_msg t = record {
  streamer_ip = take msg_ip_size (drop 35 t);
  port = spelled 0 (port_digits t);
  client_id = client_id;
  client_msg = client_msg;
}

forward-call_of :
    (client_id client_msg : Bytes) (port : ℕ) (ts : List Bytes)
    → AllItems ts
    → forward client_id client_msg port (map row_of ts)
      ≡ some (map (call_of client_id client_msg) ts)
unfolding forward call_of
forward-call_of i m port [] h = refl
forward-call_of i m port (t ∷ ts) (ht, hs) =
    let size = ht.size in
    rw
      (
        read_bytes-drop 35 msg_ip_size t (0 ∷ []) (omega arith),
        read_bytes-drop 51 msg_port_size t (0 ∷ []) (omega arith),
      )
      (rw (port_read t ht, forward-call_of i m (spelled 0 (port_digits t)) ts hs))

length-map : (i m : Bytes) (ts : List Bytes) → length (map (call_of i m) ts) ≡ length ts
length-map i m [] = refl
length-map i m (t ∷ ts) = ap suc (length-map i m ts)

pub handle_mess-items :
    (gives_zero : ℕ → Bool) (max : ℕ) (rows : Register) (slots : Slots) (s rest : Bytes) (port : ℕ)
    → max ≤ length rows
    → Refines rows slots
    → length s ≡ 156
    → handle_mess gives_zero max rows (s ++ 0 ∷ rest) port
      ≡ some (
        map
            (call_of (take msg_id_size (drop 5 s)) (take msg_mess_size (drop 14 s)))
            (items max slots),
        sum_of (failures gives_zero 0 (length (items max slots))),
      )
unfolding handle_mess
handle_mess-items gives_zero max rows slots s rest port room r size =
    rw
      (
        copy_broadcaster_register-Refines max rows slots room r,
        read_bytes-drop 5 msg_id_size s (0 ∷ rest) (omega arith),
        read_bytes-drop 14 msg_mess_size s (0 ∷ rest) (omega arith),
      )
      (rw (forward-call_of _ _ port (items max slots) (items-AllItems max rows slots r)) (
        ap
          (λ n. some (
            map (call_of (take msg_id_size (drop 5 s)) (take msg_mess_size (drop 14 s)))
                (items max slots),
            sum_of (failures gives_zero 0 n),
          ))
          (length-map (take msg_id_size (drop 5 s)) (take msg_mess_size (drop 14 s))
            (items max slots))))
