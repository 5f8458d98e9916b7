-- ===== src/Keyboard/Steps.antt =====
-- What one step of the client does with its world.
use net_radio.Common.{
  ℕ, zero, suc, ◌+◌, ◌≤◌, ◌<◌, ◌≡◌, refl, sym, ap, ◌∙◌, none, some, [], ◌∷◌, ◌++◌, Bytes, length,
  length-append, length-drop, drop, true, false, arith, get_elem?,
}
use net_radio.Memory.Strings.{IsText, text-append}
use net_radio.Message.Build.Create.{create_message-wire}
use net_radio.Message.Wire.{Message, kind, args, wire, IsWritable}
use net_radio.Manager.Monitor.{failed, bytes, no_malloc}
use net_radio.Manager.Handlers.Serve.{front, front-append}
use net_radio.Client as Client
use net_radio.Client.Recv as Recv
use net_radio.Keyboard.Run.{World, print_text, create, send_text, recv_text}

-- The world behind a `recv`, and behind a `send` that succeeds.
abbrev pub after_recv : World → World
after_recv w = record w { recvs = λ k. w.recvs (suc k) }

abbrev pub after_send : Bytes → World → World
after_send t w = record w { sends = λ k. w.sends (suc k); sent = w.sent ++ t ∷ [] }

-- The world behind a `send` that fails.
abbrev pub after_no_send : World → World
after_no_send w = record w { sends = λ k. w.sends (suc k) }

abbrev pub printed : Bytes → World → World
printed t w = record w { stdout = w.stdout ++ t }

pub print_text-append :
    (s r : Bytes) (w : World) → IsText s → print_text (s ++ 0 ∷ r) w ≡ some (tt, printed s w)
unfolding print_text
print_text-append s r w h = rw (text-append s r h) refl

pub create-wire :
    (m : Message) (buf : Bytes) (w : World)
    → IsWritable m
    → length (wire m) + 1 ≤ length buf
    → create buf (kind m) (args m) w ≡ some (wire m ++ 0 ∷ drop (length (wire m) + 1) buf, w)
unfolding create
create-wire m buf w ok room = rw (create_message-wire no_malloc m buf ok room) refl

pub send_text-append :
    (s r : Bytes) (w : World)
    → IsText s
    → w.sends 0 ≡ true
    → send_text (s ++ 0 ∷ r) w ≡ some (true, after_send s w)
unfolding send_text
send_text-append s r w h ok = rw (text-append s r h, ok) refl

pub send_text-failed :
    (s r : Bytes) (w : World)
    → IsText s
    → w.sends 0 ≡ false
    → send_text (s ++ 0 ∷ r) w ≡ some (false, after_no_send w)
unfolding send_text
send_text-failed s r w h refused = rw (text-append s r h, refused) refl

pub recv_text-failed :
    (m : Bytes) (w : World) → w.recvs 0 ≡ failed → recv_text m w ≡ some (none, after_recv w)
unfolding recv_text Client.recv_text
recv_text-failed m w e = rw e refl

-- The text at the front of what is received lies at the front of the array.
pub recv_text-bytes :
    (a m : Bytes) (w : World)
    → w.recvs 0 ≡ bytes a
    → length a < length m
    → (rest : Bytes) × (recv_text m w ≡ some (some (front a ++ 0 ∷ rest), after_recv w))
      × (length (front a ++ 0 ∷ rest) ≡ length m)
      × IsText (front a)
unfolding recv_text
recv_text-bytes a m w e room =
    let behind = drop (length a + 1) m in
    let (plain, (rest, same)) = front-append a behind in
    let size : length (a ++ 0 ∷ behind) ≡ length m =
      omega (arith, length-append a (0 ∷ behind), length-drop (length a + 1) m) in
    (
      rest,
      rw (e, Recv.recv_text-append a m (omega arith), same) refl,
      ap length (sym same) ∙ size,
      plain,
    )

pub recv_text-text :
    (t m : Bytes) (w : World)
    → w.recvs 0 ≡ bytes t
    → length t < length m
    → recv_text m w ≡ some (some (t ++ 0 ∷ drop (length t + 1) m), after_recv w)
unfolding recv_text
recv_text-text t m w e room = rw (e, Recv.recv_text-append t m (omega arith)) refl

pub get_elem?-total : (m : Bytes) (i : ℕ) → i < length m → (x : ℕ) × (get_elem? m i ≡ some x)
get_elem?-total [] i h = elim h [ ]
get_elem?-total (x ∷ m) zero h = (x, refl)
get_elem?-total (x ∷ m) (suc i) h = get_elem?-total m i (omega arith)
