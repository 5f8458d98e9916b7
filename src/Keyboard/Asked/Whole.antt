-- ===== src/Keyboard/Asked/Whole.antt =====
-- The dialogue as a whole.
use net_radio.Common.{
  ℕ, suc, ◌+◌, ◌-◌, ◌^◌, ◌≤◌, ◌<◌, ◌≡◌, refl, ap, ◌∙◌, Bool, true, false, some, List, [], ◌∷◌, ◌++◌,
  append_assoc, Bytes, pos, All, get_elem?, if◌then◌else◌, length, drop, codes, arith,
}
use net_radio.Memory.{str_eq}
use net_radio.Libc.Decimal.{IsDigit}
use net_radio.Libc.Number.{spelled}
use net_radio.Message.Types.{endm}
use net_radio.Message.Wire
use net_radio.Message.Wire.{wire}
use net_radio.Manager.Monitor.{bytes}
use net_radio.Client.Last.Ended.{IsMessage, AllOlds}
use net_radio.Client.Recv.{no_error}
use net_radio.Keyboard.Run.{World, ◌>>=◌}
use net_radio.Keyboard.Manager.{fail}
use net_radio.Keyboard.Streamer.{
  Arrays, LastArrays, recv_olds, send_last, last_diff, run_command, communication_diff,
  interact_with_diff,
}
use net_radio.Keyboard.Steps.{printed}
use net_radio.Keyboard.Typed.{IsLine, after_line, fgets_line-line, no_newline}
use net_radio.Keyboard.Posts.{after_command, communication_diff-command}
use net_radio.Keyboard.Posted.{connected}
use net_radio.Keyboard.Asked.{
  said_all, heading, asked, recv_olds-ended, send_last-recv_olds, IsDigit-IsLine,
}

-- The two spellings of the command.
abbrev pub last_command : Bool → Bytes
last_command true = codes "LAST"
last_command false = codes "last"

abbrev enter_number : Bytes
enter_number = codes "Entrez le nombre de messages que vous souhaitez :\n"

last_diff-recv_olds :
    (d rest : Bytes) (a : LastArrays) (w : World)
    → All IsDigit d
    → 0 < length d
    → spelled 0 d < 2 ^ 31
    → length d + 2 ≤ 512
    → length a.nb_mess_char ≡ 512
    → length a.mess_buf ≡ 512
    → w.stdin ≡ d ++ b'\n' ∷ rest
    → w.sends 0 ≡ true
    → last_diff a w ≡ recv_olds (suc (spelled 0 d)) a.buf (asked (spelled 0 d) (after_line rest w))
unfolding last_diff
last_diff-recv_olds [] rest a w h some_digit small fits size size1 typed ok = absurd (omega arith)
last_diff-recv_olds (c ∷ d) rest a w h some_digit small fits size size1 typed ok =
    let (other, _) = IsDigit-IsLine (c ∷ d) h in
    let behind = 0 ∷ drop (length (c ∷ d) + 2) a.nb_mess_char in
    rw
      (
        fgets_line-line a.nb_mess_char (c ∷ d) rest 512 w typed (IsDigit-IsLine (c ∷ d) h) fits
            (omega arith),
        ◌>>=◌,
      )
      (ap
          (λ b.
            (if b
                then fail (codes "Pas un nombre... Deconnexion du client\n")
                else send_last (c ∷ d ++ b'\n' ∷ behind) a)
              (after_line rest w))
          (no_newline c other)
        ∙ send_last-recv_olds c d behind a (after_line rest w) h small size1 ok)

run_command-last :
    (p : Bytes) (capitals : Bool) (a : Arrays) (w w1 : World)
    → last_diff a.for_last (printed enter_number w) ≡ some (pos 1, w1)
    → run_command p (last_command capitals) a w ≡ some (pos 1, w1)
unfolding run_command str_eq
run_command-last p true a w w1 e = rw (e, ◌>>=◌) refl
run_command-last p false a w w1 e = rw (e, ◌>>=◌) refl

communication_diff-last :
    (p : Bytes) (capitals : Bool) (more rest : Bytes) (a : Arrays) (w : World)
    → IsLine more
    → length more + 6 ≤ 512
    → length a.mes_type ≡ 512
    → w.stdin ≡ last_command capitals ++ (more ++ b'\n' ∷ rest)
    → communication_diff p a w ≡ run_command p (last_command capitals) a (after_command rest w)
communication_diff-last p true more rest a w h fits size typed =
    communication_diff-command p b'L' b'A' b'S' b'T' more rest a w
      (
        λ e. omega (arith, e),
        (λ e. omega (arith, e), (λ e. omega (arith, e), (λ e. omega (arith, e), tt))),
      )
      (
        λ e. omega (arith, e),
        (λ e. omega (arith, e), (λ e. omega (arith, e), (λ e. omega (arith, e), h))),
      )
      fits size typed
communication_diff-last p false more rest a w h fits size typed =
    communication_diff-command p b'l' b'a' b's' b't' more rest a w
      (
        λ e. omega (arith, e),
        (λ e. omega (arith, e), (λ e. omega (arith, e), (λ e. omega (arith, e), tt))),
      )
      (
        λ e. omega (arith, e),
        (λ e. omega (arith, e), (λ e. omega (arith, e), (λ e. omega (arith, e), h))),
      )
      fits size typed

abbrev actions : Bytes
actions = codes "Vous pouvez faire ces actions : MESS ou LAST\n"

-- A user who types LAST or last, with anything behind it in its line, and then a line `d` of digits:
-- the client, with no error, sends the bytes of the LAST with the number that `d` spells, reads both
-- lines and no more of the input, and shows every OLDM that comes and the ENDM behind them, each in a
-- line of its own. The broadcaster answers by at most as many OLDM messages as are asked for, and then
-- ENDM, each message received by one call of `recv` and of at most 161 bytes. The number is an `int`,
-- the lines fit in their arrays, and these have the sizes of the code.
pub interact_with_diff-last :
    (p d more rest e : Bytes) (ts : List Bytes) (capitals : Bool) (a : Arrays) (w : World)
    → All IsDigit d
    → 0 < length d
    → spelled 0 d < 2 ^ 31
    → IsLine more
    → length d + 2 ≤ 512
    → length more + 6 ≤ 512
    → length a.mes_type ≡ 512
    → length a.for_last.nb_mess_char ≡ 512
    → length a.for_last.mess_buf ≡ 512
    → length a.for_last.buf ≡ 512
    → w.stdin ≡ last_command capitals ++ (more ++ b'\n' ∷ (d ++ b'\n' ∷ rest))
    → w.setups 0 ≡ no_error
    → w.sends 0 ≡ true
    → AllOlds ts
    → IsMessage endm e
    → length ts ≤ spelled 0 d
    → ((k : ℕ) (t : Bytes) → get_elem? ts k ≡ some t → w.recvs k ≡ bytes t)
    → w.recvs (length ts) ≡ bytes e
    → (w1 : World) × (interact_with_diff p a w ≡ some (tt, w1))
      × (w1.stdin ≡ rest)
      × (w1.sent ≡ w.sent ++ wire (Wire.last (pos (spelled 0 d))) ∷ [])
      × (w1.stdout
          ≡ w.stdout
            ++ (actions
                ++ (enter_number ++ (heading (spelled 0 d) ++ (said_all ts ++ (e ++ codes "\n"))))))
unfolding interact_with_diff
interact_with_diff-last p d more rest e ts capitals a w h some_digit small h1 fits fits1 size size1
      size2 size3 typed up ok olds he few come last_one =
    let n = spelled 0 d in
    let w0 = after_command (d ++ b'\n' ∷ rest) (connected w) in
    let w1 = asked n (after_line rest (printed enter_number w0)) in
    let command =
      communication_diff-last p capitals more (d ++ b'\n' ∷ rest) a (connected w) h1 fits1 size
        typed in
    let sending =
      last_diff-recv_olds d rest a.for_last (printed enter_number w0) h some_digit small fits size1
        size2 refl ok in
    let shows =
      recv_olds-ended (n - length ts) ts e a.for_last.buf w1 olds he size3 come last_one in
    let rounds : suc n ≡ length ts + suc (n - length ts) = omega arith in
    let run = sending ∙ ap (λ k. recv_olds k a.for_last.buf w1) rounds ∙ shows.ends in
    let done = run_command-last p capitals a w0 shows.after run in
    (
      shows.after,
      rw up (rw (command ∙ done, ◌>>=◌) refl),
      shows.input,
      shows.silent,
      shows.output ∙ simp append_assoc,
    )
