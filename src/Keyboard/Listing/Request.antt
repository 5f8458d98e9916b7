-- ===== src/Keyboard/Listing/Request.antt =====
-- `interact_with_manager` with any answers.
use net_radio.Common.{
  suc, ◌+◌, ◌<◌, ◌≡◌, refl, inl, inr, Bool-cases, some, [], ◌∷◌, ◌++◌, Bytes, length, drop, codes,
  arith, utf8,
}
use net_radio.Message.Types.{list}
use net_radio.Message.Wire
use net_radio.Message.Build.Layout.{wire-IsText}
use net_radio.Message.Wire.{kind, args, wire, name, fields}
use net_radio.Manager.Monitor.{bufsize}
use net_radio.Keyboard.Run.{World, ◌>>=◌, create}
use net_radio.Keyboard.Manager.{communication_gest, interact_with_manager}
use net_radio.Keyboard.Steps.{
  after_send, printed, create-wire, send_text-append, send_text-failed, after_no_send,
}
use net_radio.Keyboard.Listing.{GivesOne, AllReceived, recv_list-GivesOne}

pub list_len : length (wire Wire.list) ≡ 6
unfolding wire name fields
list_len = refl

pub create_list :
    (mess : Bytes) (w : World)
    → 8 < length mess
    → create mess list [] w
      ≡ some (wire Wire.list ++ 0 ∷ drop (length (wire Wire.list) + 1) mess, w)
unfolding kind args
create_list mess w room = create-wire Wire.list mess w tt (let six = list_len in omega arith)

-- Behind the request: a `send` that fails, or the answers.
communication_gest-GivesOne :
    (mess buf buf_diff : Bytes) (w : World)
    → 8 < length mess
    → length buf ≡ bufsize
    → length buf_diff ≡ bufsize
    → AllReceived w
    → GivesOne (communication_gest mess buf buf_diff) w
unfolding communication_gest
communication_gest-GivesOne mess buf buf_diff w room size size1 fit =
    let request = Wire.list in
    let behind = drop (length (wire request) + 1) mess in
    let built = create_list mess w room in
    elim (Bool-cases (w.sends 0)) [
      | inl ok ↦
          let (w1, run) =
            recv_list-GivesOne buf buf_diff (after_send (wire request) w) size size1 fit in
          (
            w1,
            rw (built, ◌>>=◌)
                (rw (send_text-append (wire request) behind w (wire-IsText request tt) ok, ◌>>=◌)
                  run),
          )
      | inr refused ↦ (
        after_no_send w,
        rw (built, ◌>>=◌)
            (rw (send_text-failed (wire request) behind w (wire-IsText request tt) refused, ◌>>=◌)
              refl),
      )
    ]

-- `interact_with_manager`, on every path, errors and any answers included, reads and writes inside its
-- arrays and comes back, and always with 1, which is the value of EXIT_FAILURE too: its caller, which
-- looks for -1, never sees an error. The arrays have the sizes of the code, and a call of `recv` gives
-- at most BUFSIZE - 1 bytes.
pub interact_with_manager-GivesOne :
    (mess buf buf_diff : Bytes) (w : World)
    → length mess ≡ 10
    → length buf ≡ bufsize
    → length buf_diff ≡ bufsize
    → AllReceived w
    → GivesOne (interact_with_manager mess buf buf_diff) w
unfolding interact_with_manager
interact_with_manager-GivesOne mess buf buf_diff w room size size1 fit =
    let up = w.setups 0 in
    let w0 = record w { setups = λ k. w.setups (suc k) } in
    elim (Bool-cases up.socket) [
      | inr e ↦ (printed (utf8 "Erreur création socket\n") w0, rw e refl)
      | inl e ↦ elim (Bool-cases up.connected) [
        | inr e1 ↦ (printed (codes "Erreur connect\n") w0, rw (e, e1) refl)
        | inl e1 ↦
            let (w1, run) =
              communication_gest-GivesOne mess buf buf_diff w0 (omega arith) size size1 fit in
            (w1, rw (e, e1, run, ◌>>=◌) refl)
      ]
    ]
