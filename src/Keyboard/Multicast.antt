-- ===== src/Keyboard/Multicast.antt =====
-- c/client_keyboard.c: `interact_with_multi`, the thread that shows the texts of the multicast.
use net_radio.Common.{
  Bool, true, false, ◌&&◌, Option, none, some, List, [], ◌∷◌, Bytes, ◌>>=◌, if◌then◌else◌,
}
use net_radio.Memory.{text}
use net_radio.Client.{recv_text}
use net_radio.Manager.Monitor.{Received}

-- The steps before the loop: are they without error?
pub record Joined : Type 0 where
  pub socket : Bool
  pub reuse : Bool
  pub bound : Bool
  pub member : Bool
  pub opened : Bool

-- What the thread has written to the terminal, and whether it is still in its loop.
pub record Shown : Type 0 where
  pub written : List Bytes
  pub running : Bool

abbrev pub stopped : Shown
stopped = record { written = []; running = false }

-- The loop over what the calls of `recvfrom` give; each text is written up to its '\0'.
unfoldable pub show_datagrams : (msgbuf : Bytes) → List Received → Option Shown
show_datagrams msgbuf [] = some (record { written = []; running = true })
show_datagrams msgbuf (d ∷ ds) =
    let rest = show_datagrams msgbuf ds in
    recv_text d msgbuf >>= λ received. elim received [
      | none ↦ some stopped
      | some m ↦
          text m >>= λ t. rest >>= λ shown. some (record shown { written = t ∷ shown.written })
    ]

unfoldable pub interact_with_multi : Joined → (msgbuf : Bytes) → List Received → Option Shown
unfolding show_datagrams
interact_with_multi j msgbuf ds =
    if j.socket && j.reuse && j.bound && j.member && j.opened
    then show_datagrams msgbuf ds
    else some stopped
