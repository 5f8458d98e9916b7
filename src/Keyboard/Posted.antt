-- ===== src/Keyboard/Posted.antt =====
-- A dialogue in which a message is posted, from the command to the answer.
pub mod Dialogue
use net_radio.Common.{
  suc, ◌+◌, ◌≤◌, ◌<◌, ◌≡◌, refl, ◌∙◌, Bool, true, false, none, some, [], ◌∷◌, ◌++◌, append_assoc,
  Bytes, pos, length, take, codes, arith,
}
use net_radio.Memory.{str_eq}
use net_radio.Memory.Strings.{IsText}
use net_radio.Message.Wire
use net_radio.Message.Wire.{wire}
use net_radio.Manager.Monitor.{bytes}
use net_radio.Client.Recv.{no_error}
use net_radio.Keyboard.Run.{World, ◌>>=◌}
use net_radio.Keyboard.Streamer.{
  Arrays, recv_answer, mess_diff, run_command, communication_diff, interact_with_diff,
}
use net_radio.Keyboard.Steps.{after_recv, after_send, printed}
use net_radio.Keyboard.Typed.{IsLine, after_line}
use net_radio.Keyboard.Posts.{
  after_command, communication_diff-command, mess_diff-recv_answer, recv_answer-text,
  recv_answer-overflow,
}

-- The two spellings of the command.
abbrev pub mess_command : Bool → Bytes
mess_command true = codes "MESS"
mess_command false = codes "mess"

-- The world behind a step that looks up the address and connects.
abbrev pub connected : World → World
connected w = record w { setups = λ k. w.setups (suc k) }

pub run_command-mess :
    (p : Bytes) (capitals : Bool) (a : Arrays) (w w1 : World)
    → mess_diff p a.for_mess (printed (codes "Entrez votre message :\n") w) ≡ some (pos 1, w1)
    → run_command p (mess_command capitals) a w ≡ some (pos 1, w1)
unfolding run_command str_eq
run_command-mess p true a w w1 e = rw (e, ◌>>=◌) refl
run_command-mess p false a w w1 e = rw (e, ◌>>=◌) refl

pub run_command-fault :
    (p : Bytes) (capitals : Bool) (a : Arrays) (w : World)
    → mess_diff p a.for_mess (printed (codes "Entrez votre message :\n") w) ≡ none
    → run_command p (mess_command capitals) a w ≡ none
unfolding run_command str_eq
run_command-fault p true a w e = rw (e, ◌>>=◌) refl
run_command-fault p false a w e = rw (e, ◌>>=◌) refl

pub communication_diff-mess :
    (p : Bytes) (capitals : Bool) (more rest : Bytes) (a : Arrays) (w : World)
    → IsLine more
    → length more + 6 ≤ 512
    → length a.mes_type ≡ 512
    → w.stdin ≡ mess_command capitals ++ (more ++ b'\n' ∷ rest)
    → communication_diff p a w ≡ run_command p (mess_command capitals) a (after_command rest w)
communication_diff-mess p true more rest a w h fits size typed =
    communication_diff-command p b'M' b'E' b'S' b'S' more rest a w
      (
        λ e. omega (arith, e),
        (λ e. omega (arith, e), (λ e. omega (arith, e), (λ e. omega (arith, e), tt))),
      )
      (
        λ e. omega (arith, e),
        (λ e. omega (arith, e), (λ e. omega (arith, e), (λ e. omega (arith, e), h))),
      )
      fits size typed
communication_diff-mess p false more rest a w h fits size typed =
    communication_diff-command p b'm' b'e' b's' b's' more rest a w
      (
        λ e. omega (arith, e),
        (λ e. omega (arith, e), (λ e. omega (arith, e), (λ e. omega (arith, e), tt))),
      )
      (
        λ e. omega (arith, e),
        (λ e. omega (arith, e), (λ e. omega (arith, e), (λ e. omega (arith, e), h))),
      )
      fits size typed
