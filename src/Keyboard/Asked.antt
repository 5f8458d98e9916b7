-- ===== src/Keyboard/Asked.antt =====
-- A dialogue in which the last messages are asked for, from the command to the last answer.
pub mod Whole
use net_radio.Common.{
  ℕ, zero, suc, ◌+◌, ◌-◌, ◌*◌, ◌^◌, ◌≤◌, ◌<◌, ◌≡◌, ◌≢◌, refl, sym, ap, ◌∙◌, Bool, true, false,
  Option, none, some, List, [], ◌∷◌, ◌++◌, append_assoc, append-nil, Bytes, ℤ, pos, All, get_elem?,
  if◌then◌else◌, length, take, drop, codes, arith,
}
use native.Mathlib.Nat.{zero-add, suc-add}
use net_radio.Memory.{poke, text, str_eq}
use net_radio.Memory.Strings.{IsText, poke-append, text-append}
use net_radio.Libc.Decimal.{IsDigit, IsDigit-IsText, format_int}
use net_radio.Libc.Number.{spelled}
use net_radio.Libc.Atoi.{atoi, atoi-spelled}
use net_radio.Message.Types.{MsgType, last, endm, oldm, kind_of, msg_type_size, get_msg_type}
use net_radio.Message.Verify.Reads.{get_msg_type-append}
use net_radio.Message.Build.{int}
use net_radio.Message.Build.Layout.{wire-IsText}
use net_radio.Message.Wire
use net_radio.Message.Wire.{kind, args, wire}
use net_radio.Manager.Monitor.{bytes, bufsize}
use net_radio.Client.Last.{ended, another, wrong, answer_of}
use net_radio.Client.Last.Ended.{IsMessage, AllOlds, length-last}
use net_radio.Client.Recv.{no_error}
use net_radio.Keyboard.Run.{World, Run, pure, ◌>>=◌, create, recv_text}
use net_radio.Keyboard.Manager.{fail}
use net_radio.Keyboard.Streamer.{
  Arrays, LastArrays, empty_line, recv_olds, send_last, last_diff, run_command, communication_diff,
  interact_with_diff,
}
use net_radio.Keyboard.Steps.{
  after_recv, after_send, printed, print_text-append, create-wire, send_text-append, recv_text-text,
}
use net_radio.Keyboard.Served.{Shows}
use net_radio.Keyboard.Typed.{IsLine, after_line, fgets_line-line, newline-append, no_newline}
use net_radio.Keyboard.Posts.{after_command, communication_diff-command}
use net_radio.Keyboard.Posted.{connected}

-- A message on the standard output.
abbrev pub said : Bytes → World → World
said t w = printed (codes "\n") (printed t w)

abbrev pub said_all : List Bytes → Bytes
said_all [] = []
said_all (t ∷ ts) = (t ++ codes "\n") ++ said_all ts

-- A round in which a message comes.
round :
    (type : MsgType) (rounds : ℕ) (t buf : Bytes) (w : World)
    → IsMessage type t
    → length buf ≡ bufsize
    → w.recvs 0 ≡ bytes t
    → recv_olds (suc rounds) buf w
      ≡ (elim (answer_of type) as (λ x. Run ℤ) [
        | ended ↦ pure (pos 1)
        | another ↦ recv_olds rounds buf
        | wrong ↦ fail (codes "Erreur de type\n")
      ])
          (said t (after_recv w))
unfolding recv_olds
round type rounds t buf w h size come =
    let plain = h.plain in
    let of_type = h.type in
    let fits = h.size in
    let behind = drop (length t + 1) buf in
    rw (recv_text-text t buf w come (omega arith), ◌>>=◌)
      (rw (print_text-append t behind (after_recv w) plain, ◌>>=◌)
        (rw (get_msg_type-append t behind plain, ◌>>=◌) (rw of_type refl)))

stdout-said : (t : Bytes) (w : World) → (said t w).stdout ≡ w.stdout ++ (t ++ codes "\n")
stdout-said t w = append_assoc w.stdout t _

pub recv_olds-ended :
    (rounds : ℕ) (ts : List Bytes) (e buf : Bytes) (w : World)
    → AllOlds ts
    → IsMessage endm e
    → length buf ≡ bufsize
    → ((k : ℕ) (t : Bytes) → get_elem? ts k ≡ some t → w.recvs k ≡ bytes t)
    → w.recvs (length ts) ≡ bytes e
    → Shows (recv_olds (length ts + suc rounds) buf w) (said_all ts ++ (e ++ codes "\n")) w
unfolding answer_of
recv_olds-ended rounds [] e buf w h he size come last_one =
    let run = round endm rounds e buf w he size last_one in
    record {
      after = said e (after_recv w);
      ends = rw zero-add run;
      output = stdout-said e (after_recv w);
      silent = refl;
      input = refl;
    }
recv_olds-ended rounds (t ∷ ts) e buf w (ht, hs) he size come last_one =
    let run = round oldm (length ts + suc rounds) t buf w ht size (come 0 t refl) in
    let rest =
      recv_olds-ended rounds ts e buf (said t (after_recv w)) hs he size
        (λ k u at_k. come (suc k) u at_k) last_one in
    record {
      after = rest.after;
      ends = rw suc-add (run ∙ rest.ends);
      output =
          rest.output
          ∙ ap (λ s. s ++ (said_all ts ++ (e ++ codes "\n"))) (stdout-said t (after_recv w))
          ∙ simp append_assoc;
      silent = rest.silent;
      input = rest.input;
    }

-- The request, from the line of the number on.
pub IsDigit-IsLine : (d : Bytes) → All IsDigit d → IsLine d
IsDigit-IsLine [] h = tt
IsDigit-IsLine (c ∷ d) (hc, hd) = ((λ e. omega (arith, e)), IsDigit-IsLine d hd)

create-last :
    (n : ℕ) (buf : Bytes) (w : World)
    → 10 < length buf
    → create buf last (int (pos n) ∷ []) w
      ≡ some (wire (Wire.last (pos n)) ++ 0 ∷ drop (length (wire (Wire.last (pos n))) + 1) buf, w)
unfolding kind args
create-last n buf w room =
    let ten = length-last (pos n) in create-wire (Wire.last (pos n)) buf w tt (omega arith)

-- The heading of the answers.
abbrev pub heading : ℕ → Bytes
heading n = codes "Voici les " ++ (format_int 1 (pos n) ++ codes " derniers messages :\n")

abbrev pub asked : ℕ → World → World
asked n w = after_send (wire (Wire.last (pos n))) (printed (heading n) w)

pub send_last-recv_olds :
    (c : ℕ) (d q : Bytes) (a : LastArrays) (w : World)
    → All IsDigit (c ∷ d)
    → spelled 0 (c ∷ d) < 2 ^ 31
    → length a.mess_buf ≡ bufsize
    → w.sends 0 ≡ true
    → send_last ((c ∷ d) ++ b'\n' ∷ q) a w
      ≡ recv_olds (suc (spelled 0 (c ∷ d))) a.buf (asked (spelled 0 (c ∷ d)) w)
unfolding send_last
send_last-recv_olds c d q a w h small size ok =
    let n = spelled 0 (c ∷ d) in
    let request = wire (Wire.last (pos n)) in
    let value = atoi-spelled c d h small in
    rw (newline-append (c ∷ d) q (IsDigit-IsLine (c ∷ d) h), ◌>>=◌)
      (rw (poke-append (c ∷ d) b'\n' 0 q, ◌>>=◌)
        (rw (text-append (c ∷ d) q (IsDigit-IsText (c ∷ d) h), ◌>>=◌)
          (rw value (
            rw (create-last n a.mess_buf (printed (heading n) w) (omega arith), ◌>>=◌)
              (rw
                (
                  send_text-append request (drop (length request + 1) a.mess_buf)
                      (printed (heading n) w) (wire-IsText (Wire.last (pos n)) tt) ok,
                  ◌>>=◌,
                )
                refl)))))
