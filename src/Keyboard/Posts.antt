-- ===== src/Keyboard/Posts.antt =====
-- What the client posts for a line that is typed, and the answer that it receives.
use net_radio.Common.{
  ℕ, suc, ◌+◌, ◌≤◌, ◌<◌, ◌≡◌, refl, ap, ◌∙◌, true, false, none, some, [], ◌∷◌, ◌++◌, Bytes, pos,
  All-take, if◌then◌else◌, length, take, drop, codes, arith,
}
use net_radio.Memory.{poke, text}
use net_radio.Memory.Strings.{IsText, text-append}
use net_radio.Message.Types.{
  MsgType, unknown, ackm, diff, endm, imok, item, last, linb, list, mess, oldm, regi, reno, reok,
  ruok, number, kind_of, msg_type_size,
}
use net_radio.Message.Verify.Reads.{get_msg_type-append}
use net_radio.Message.Build.{str}
use net_radio.Message.Build.Texts.{create_message-texts}
use net_radio.Message.Build.Layout.{wire-IsText}
use net_radio.Client as Client
use net_radio.Client.Recv.{recv_text-overflow}
use net_radio.Client.Sent.{length-mess}
use net_radio.Message.Wire
use net_radio.Message.Wire.{kind, args, wire}
use net_radio.Manager.Monitor.{bytes, no_malloc}
use net_radio.Keyboard.Run.{World, ◌>>=◌, lift, create, recv_text}
use net_radio.Keyboard.Manager.{is_zero, fail}
use net_radio.Keyboard.Streamer.{
  MessArrays, Arrays, empty_line, recv_answer, send_mess, mess_diff, run_command,
  communication_diff,
}
use net_radio.Keyboard.Steps.{
  after_recv, after_send, printed, print_text-append, create-wire, send_text-append, recv_text-text,
}
use net_radio.Keyboard.Typed.{
  IsLine, after_line, fgets_line-line, newline_below-append, poke-take, poke-end, no_newline,
}

-- The message of a line.
create-mess :
    (p r m q buf : Bytes) (w : World)
    → IsText p
    → IsText m
    → 156 < length buf
    → (rest : Bytes) × (create buf mess (str (p ++ 0 ∷ r) ∷ str (m ++ 0 ∷ q) ∷ []) w
        ≡ some (wire (Wire.mess p m) ++ 0 ∷ rest, w))
unfolding create kind args
create-mess p r m q buf w hp hm room =
    let len = length-mess p m in
    (
      drop (length (wire (Wire.mess p m)) + 1) buf,
      rw (create_message-texts no_malloc buf p r m q hp hm)
          (create-wire (Wire.mess p m) buf w (hp, hm) (omega (arith, len))),
    )

-- No type has the number 0.
number-is_zero : (k : MsgType) → is_zero (number k) ≡ false
unfolding number
number-is_zero unknown = refl
number-is_zero ackm = refl
number-is_zero diff = refl
number-is_zero endm = refl
number-is_zero imok = refl
number-is_zero item = refl
number-is_zero last = refl
number-is_zero linb = refl
number-is_zero list = refl
number-is_zero mess = refl
number-is_zero oldm = refl
number-is_zero regi = refl
number-is_zero reno = refl
number-is_zero reok = refl
number-is_zero ruok = refl

pub recv_answer-text :
    (t buf : Bytes) (w : World)
    → w.recvs 0 ≡ bytes t
    → IsText t
    → length t < length buf
    → recv_answer buf w
      ≡ some (
        pos 1,
        printed
            (codes "Erreur message retour du diff en post_mess\n")
            (printed (codes "\n") (printed t (after_recv w))),
      )
unfolding recv_answer
recv_answer-text t buf w come h room =
    let behind = drop (length t + 1) buf in
    rw (recv_text-text t buf w come room, ◌>>=◌)
      (rw (print_text-append t behind (after_recv w) h, ◌>>=◌)
        (rw (get_msg_type-append t behind h, ◌>>=◌)
          (rw (number-is_zero (kind_of (take msg_type_size t))) refl)))

pub recv_answer-overflow :
    (t buf : Bytes) (w : World)
    → w.recvs 0 ≡ bytes t
    → length buf ≤ length t
    → recv_answer buf w ≡ none
unfolding recv_answer recv_text Client.recv_text
recv_answer-overflow t buf w come over = rw (come, ◌>>=◌) (rw (recv_text-overflow t buf over) refl)

-- What is posted for a line behind its first character.
pub send_mess-recv_answer :
    (p r l q : Bytes) (a : MessArrays) (w : World)
    → IsText p
    → IsText l
    → IsLine l
    → 156 < length a.mess_buf
    → w.sends 0 ≡ true
    → send_mess (p ++ 0 ∷ r) (l ++ b'\n' ∷ q) a w
      ≡ recv_answer a.buf (after_send (wire (Wire.mess p (take 140 l))) w)
unfolding send_mess
send_mess-recv_answer p r l q a w hp hl h room ok =
    let m = take 140 l in
    let plain : IsText m = All-take _ 140 l hl in
    let behind = drop (suc (length m)) (l ++ b'\n' ∷ q) in
    let (rest, built) = create-mess p r m behind a.mess_buf w hp plain room in
    rw (newline_below-append 140 l q h, ◌>>=◌)
      (rw (poke-take 140 0 b'\n' l q, ◌>>=◌)
        (rw (built, ◌>>=◌)
          (rw
            (
              send_text-append (wire (Wire.mess p m)) rest w
                  (wire-IsText (Wire.mess p m) (hp, plain)) ok,
              ◌>>=◌,
            )
            refl)))

pub mess_diff-recv_answer :
    (p r l rest : Bytes) (a : MessArrays) (w : World)
    → IsText p
    → IsText l
    → IsLine l
    → 0 < length l
    → length l + 2 ≤ 512
    → length a.mes_buf ≡ 512
    → length a.mess_buf ≡ 512
    → w.stdin ≡ l ++ b'\n' ∷ rest
    → w.sends 0 ≡ true
    → mess_diff (p ++ 0 ∷ r) a w
      ≡ recv_answer a.buf (after_send (wire (Wire.mess p (take 140 l))) (after_line rest w))
unfolding mess_diff
mess_diff-recv_answer p r [] rest a w hp hl h some_char fits size size1 typed ok =
    absurd (omega arith)
mess_diff-recv_answer p r (c ∷ l) rest a w hp hl h some_char fits size size1 typed ok =
    let (other, _) = h in
    let behind = 0 ∷ drop (length (c ∷ l) + 2) a.mes_buf in
    rw (fgets_line-line a.mes_buf (c ∷ l) rest 512 w typed h fits (omega arith), ◌>>=◌)
      (ap
          (λ b.
            (if b then fail empty_line else send_mess (p ++ 0 ∷ r) (c ∷ l ++ b'\n' ∷ behind) a)
              (after_line rest w))
          (no_newline c other)
        ∙ send_mess-recv_answer p r (c ∷ l) behind a (after_line rest w) hp hl h (omega arith) ok)

-- A world in which a command and a line are typed, and the text that stands for the command.
abbrev pub after_command : Bytes → World → World
after_command rest w =
    after_line rest (printed (codes "Vous pouvez faire ces actions : MESS ou LAST\n") w)

-- The line of a command: what stands behind its first four characters is cut off.
pub communication_diff-command :
    (p : Bytes) (x y z t : ℕ) (more rest : Bytes) (a : Arrays) (w : World)
    → IsText (x ∷ y ∷ z ∷ t ∷ [])
    → IsLine (x ∷ y ∷ z ∷ t ∷ more)
    → length more + 6 ≤ 512
    → length a.mes_type ≡ 512
    → w.stdin ≡ x ∷ y ∷ z ∷ t ∷ more ++ b'\n' ∷ rest
    → communication_diff p a w ≡ run_command p (x ∷ y ∷ z ∷ t ∷ []) a (after_command rest w)
unfolding communication_diff
communication_diff-command p x y z t more rest a w plain h fits size typed =
    let w1 = printed (codes "Vous pouvez faire ces actions : MESS ou LAST\n") w in
    let line = x ∷ y ∷ z ∷ t ∷ more in
    let behind = 0 ∷ drop (length line + 2) a.mes_type in
    let (other, _) = h in
    let (r, cut) = poke-end (x ∷ y ∷ z ∷ t ∷ []) more behind in
    rw (fgets_line-line a.mes_type line rest 512 w1 typed h (omega arith) (omega arith), ◌>>=◌)
      (ap
          (λ b.
            (if b
                then fail empty_line
                else (lift (poke 4 0 (line ++ b'\n' ∷ behind)) >>= λ cut.
                    lift (text cut) >>= λ command. run_command p command a))
              (after_command rest w))
          (no_newline x other)
        ∙ rw (cut, ◌>>=◌) (rw (text-append (x ∷ y ∷ z ∷ t ∷ []) r plain, ◌>>=◌) refl))
