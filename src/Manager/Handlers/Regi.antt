-- ===== src/Manager/Handlers/Regi.antt =====
-- `handle_regi` admits a broadcaster, or refuses it.
use net_radio.Common.{
  ℕ, ◌≤◌, ◌<◌, ◌≡◌, refl, Bool, true, false, ◌&&◌, Option, none, some, [], ◌++◌, ◌∷◌, Bytes, length,
  codes, arith,
}
use net_radio.Message.Types.{reno, reok}
use net_radio.Message.Wire
use net_radio.Message.Wire.{kind, args, wire, name, fields}
use net_radio.Manager.Register.{Register, register_broadcaster}
use net_radio.Manager.Register.Slots.{Slots, IsRegi, register, clear, item_of, Refines}
use net_radio.Manager.Register.Refines.{register_broadcaster-Refines}
use net_radio.Manager.Register.Laws.{length-Refines, register-lt, clear-register}
use net_radio.Manager.Monitor.{bufsize, Watch, watching, gone}
use net_radio.Manager.Monitor.Watching.{
  AllFit, survives, is_watching, watched, monitor_broadcaster-survives,
}
use net_radio.Manager.Handlers.{
  Registered, refused, monitored, left, send_message, Connection, stand, handle_regi,
}
use net_radio.Manager.Handlers.Lists.{send_message-wire}

-- What becomes of a registration: without a place it is refused. With a place the broadcaster holds
-- its slot as long as it passes, and then the slots are the old ones again.
unfoldable pub admit : Slots → Slots × Option ℕ → Bool → Slots × Registered × Bytes
admit before (after, none) stays = (after, refused, codes "RENO\r\n")
admit before (after, some i) true = (after, monitored i, codes "REOK\r\n")
admit before (after, some i) false = (before, left i, codes "REOK\r\n")

send-reno :
    (msg_buf : Bytes)
    → length msg_buf ≡ bufsize
    → send_message msg_buf reno [] ≡ some (codes "RENO\r\n")
send-reno msg_buf size =
    unfold kind args wire name fields in send_message-wire Wire.reno msg_buf tt (omega arith)

send-reok :
    (msg_buf : Bytes)
    → length msg_buf ≡ bufsize
    → send_message msg_buf reok [] ≡ some (codes "REOK\r\n")
send-reok msg_buf size =
    unfold kind args wire name fields in send_message-wire Wire.reok msg_buf tt (omega arith)

admit-watched :
    (before after : Slots) (i : ℕ) (w : Watch) (ok : Bool)
    → is_watching w ≡ ok
    → clear i after ≡ before
    → admit before (after, some i) ok ≡ (watched i after ok, stand i w, codes "REOK\r\n")
unfolding admit watched stand
admit-watched before after i (watching buf) true same undone = refl
admit-watched before after i (watching buf) false same undone = cc
admit-watched before after i gone true same undone = cc
admit-watched before after i gone false same undone = rw undone refl

-- What follows the registration.
after_register :
    (verbose : Bool) (max : ℕ) (rows rows1 : Register) (before after : Slots) (place : Option ℕ)
    (regi_msg msg_buf watch_buf : Bytes) (c : Connection)
    → register_broadcaster max rows regi_msg ≡ some (rows1, place)
    → Refines rows1 after
    → ((i : ℕ) → place ≡ some i → (i < length rows1) × (clear i after ≡ before))
    → length msg_buf ≡ bufsize
    → length watch_buf ≡ bufsize
    → AllFit verbose c.rounds
    → let outcome = admit before (after, place) (c.timeout_set && survives c.rounds) in
      (rows2 : Register) × (handle_regi verbose max rows msg_buf watch_buf regi_msg c
        ≡ some (rows2, outcome.1, outcome.2))
      × Refines rows2 outcome.0
unfolding handle_regi admit
after_register verbose max rows rows1 before after none regi_msg msg_buf watch_buf c run r undo size
      size1 fit =
    (rows1, rw (run, send-reno msg_buf size), r)
after_register verbose max rows rows1 before after (some i) regi_msg msg_buf watch_buf c run r undo
      size size1 fit =
    let (inside, undone) = undo i refl in
    let (rows2, w, watch, same, r2) =
      monitor_broadcaster-survives verbose rows1 after i watch_buf c.timeout_set c.rounds inside r
        size1 fit in
    let ok = c.timeout_set && survives c.rounds in
    rw (admit-watched before after i w ok same undone)
      (rows2, rw (run, send-reok msg_buf size, watch), r2)

-- A REGI that `verify_msg` accepts is refused with RENO if no slot among the first `max` is free, and
-- the register stands for the same slots. Otherwise it is answered with REOK, and the broadcaster
-- holds the first free slot if the timeout was set, every RUOK of the given rounds is sent and every
-- answer passes. If not, its slot is free again and the register stands for the slots of before. No
-- access is outside an array. The register has `max` rows, the buffers have their 512 bytes, no answer
-- has more, and in the verbose mode every answer has at most 6 bytes or holds a '\0'.
pub handle_regi-Refines :
    (verbose : Bool) (max : ℕ) (rows : Register) (slots : Slots) (s rest msg_buf watch_buf : Bytes)
    (c : Connection)
    → IsRegi s
    → max ≤ length rows
    → Refines rows slots
    → length msg_buf ≡ bufsize
    → length watch_buf ≡ bufsize
    → AllFit verbose c.rounds
    → let outcome =
        admit slots (register max slots (item_of s)) (c.timeout_set && survives c.rounds) in
      (rows1 : Register) × (handle_regi verbose max rows msg_buf watch_buf (s ++ 0 ∷ rest) c
        ≡ some (rows1, outcome.1, outcome.2))
      × Refines rows1 outcome.0
handle_regi-Refines verbose max rows slots s rest msg_buf watch_buf c h room r size size1 fit =
    let (rows1, run, r1) = register_broadcaster-Refines max rows slots s rest h room r in
    let t = item_of s in
    let slots1 = (register max slots t).0 in
    after_register verbose max rows rows1 slots slots1 (register max slots t).1 (s ++ 0 ∷ rest)
      msg_buf watch_buf c run r1
      (λ i found.
        let (in_max, inside) = register-lt max slots t i found in
        (omega (arith, inside, length-Refines rows1 slots1 r1), clear-register max slots t i found))
      size size1 fit
