-- ===== src/Keyboard/Session.antt =====
-- `main` as a whole, for each of its two kinds of arguments.
pub mod Posting
pub mod Whole
use net_radio.Common.{
  ℕ, suc, ◌+◌, ◌≤◌, ◌<◌, ◌≡◌, refl, ap, ◌∙◌, true, Option, some, List, [], ◌∷◌, ◌++◌, Bytes, pos,
  length, get_elem?, codes,
}
use net_radio.Memory.{text}
use net_radio.Memory.Strings.{IsText, text-append}
use net_radio.Libc.Atoi.{atoi}
use net_radio.Manager.Monitor.{bytes, bufsize}
use net_radio.Manager.Register.{Register}
use net_radio.Manager.Register.Slots.{Slots, items, Refines}
use net_radio.Manager.Handlers.{handle_list}
use net_radio.Manager.Handlers.Lists.{announcement}
use net_radio.Client.Recv.{no_error}
use net_radio.Keyboard.Run.{World, ◌>>=◌}
use net_radio.Keyboard.Streamer.{Arrays, MessArrays, LastArrays}
use net_radio.Keyboard.Main.{Globals, Buffers, done, set_manager, run_manager, keyboard_main}
use net_radio.Keyboard.Listing.{AllReceived}
use net_radio.Keyboard.Listing.Request.{interact_with_manager-GivesOne}
use net_radio.Keyboard.Served.{line, lines, interact_with_manager-handle_list}
use net_radio.Keyboard.Arguments.{copy_argument-text, port_of-text}

-- The arrays have the sizes of the code.
pub record IsSized (b : Buffers) : Type 0 where
  pub pseudo_id : length b.pseudo_id ≡ 512
  pub next : length b.next ≡ 512
  pub mes_type : length b.streamer.mes_type ≡ 512
  pub mes_buf : length b.streamer.for_mess.mes_buf ≡ 512
  pub mess_buf : length b.streamer.for_mess.mess_buf ≡ 512
  pub answer : length b.streamer.for_mess.buf ≡ 10
  pub mess : length b.mess ≡ 10
  pub buf : length b.buf ≡ 512
  pub buf_diff : length b.buf_diff ≡ 512

pub record IsAllocated (g : Globals) : Type 0 where
  pub adresse_diff : length g.adresse_diff ≡ 16
  pub adresse_multicast : length g.adresse_multicast ≡ 16
  pub terminal : length g.terminal ≡ 11
  pub adresse_manager : length g.adresse_manager ≡ 16

set_manager-stores :
    (g : Globals) (address port : Bytes) (w : World)
    → IsText address
    → IsText port
    → length address ≤ 15
    → IsAllocated g
    → (g1 : Globals) × (set_manager g (address ++ 0 ∷ []) (port ++ 0 ∷ []) w ≡ some (g1, w))
unfolding set_manager
set_manager-stores g address port w h h1 fits sized =
    let (r, stored) =
      copy_argument-text 15 address g.adresse_manager h fits sized.adresse_manager in
    (
      record g { adresse_manager = address ++ 0 ∷ r; port_manager = atoi port },
      rw (stored, ◌>>=◌) (rw (port_of-text port h1, ◌>>=◌) refl),
    )

-- `main` with the address and the port of a manager, on every path, errors and any answers included,
-- reads and writes inside its arrays and ends with the status 0, which so tells of no error. The
-- address has at most 15 characters, there is no '\0' in the arguments, the arrays have the sizes of
-- the code, and a call of `recv` gives at most BUFSIZE - 1 bytes.
pub keyboard_main-manager :
    (fuel : ℕ) (g : Globals) (b : Buffers) (address port : Bytes) (w : World)
    → IsAllocated g
    → IsSized b
    → IsText address
    → IsText port
    → length address ≤ 15
    → AllReceived w
    → (w1 : World) × (keyboard_main fuel g b ((address ++ 0 ∷ []) ∷ (port ++ 0 ∷ []) ∷ []) w
        ≡ some (done (pos 0), w1))
unfolding keyboard_main run_manager
keyboard_main-manager fuel g b address port w allocated sized h h1 fits fit =
    let (g1, set) = set_manager-stores g address port w h h1 fits allocated in
    let (w1, run) =
      interact_with_manager-GivesOne b.mess b.buf b.buf_diff w sized.mess sized.buf sized.buf_diff
        fit in
    (w1, rw (set, ◌>>=◌) (rw (run, ◌>>=◌) refl))

-- `main` with the address and the port of a manager, with no error and each message received by one
-- call of `recv`, sends LIST, shows the LINB with the number of registered broadcasters, and then
-- the ITEM of each of them in the order of the register, every one in a line of its own, and ends
-- with the status 0. Here `handle_list` gives the messages that are received, at most 99
-- broadcasters can be registered, the register stands for `slots`, the address has at most 15
-- characters, there is no '\0' in the arguments, and the arrays have the sizes of the code.
pub keyboard_main-handle_list :
    (fuel : ℕ) (g : Globals) (b : Buffers) (address port : Bytes) (max : ℕ) (rows : Register)
    (slots : Slots) (msg_buf first : Bytes) (ms : List Bytes) (w : World)
    → IsAllocated g
    → IsSized b
    → IsText address
    → IsText port
    → length address ≤ 15
    → max ≤ 99
    → max ≤ length rows
    → Refines rows slots
    → length msg_buf ≡ bufsize
    → handle_list max rows msg_buf ≡ some (first ∷ ms)
    → w.setups 0 ≡ no_error
    → w.sends 0 ≡ true
    → w.recvs 0 ≡ bytes first
    → ((k : ℕ) (m : Bytes) → get_elem? ms k ≡ some m → w.recvs (suc k) ≡ bytes m)
    → (w1 : World) × (keyboard_main fuel g b ((address ++ 0 ∷ []) ∷ (port ++ 0 ∷ []) ∷ []) w
        ≡ some (done (pos 0), w1))
      × (w1.stdout
          ≡ w.stdout ++ (line (announcement (length (items max slots))) ++ lines (items max slots)))
      × (w1.sent ≡ w.sent ++ codes "LIST\r\n" ∷ [])
unfolding keyboard_main run_manager
keyboard_main-handle_list fuel g b address port max rows slots msg_buf first ms w allocated sized h
      h1 fits few room r size listed up ok first_one come =
    let (g1, set) = set_manager-stores g address port w h h1 fits allocated in
    let (w1, run, output, sent) =
      interact_with_manager-handle_list max rows slots msg_buf b.mess b.buf b.buf_diff first ms w
        few room r size sized.mess sized.buf sized.buf_diff listed up ok first_one come in
    (w1, rw (set, ◌>>=◌) (rw (run, ◌>>=◌) refl), output, sent)
