-- ===== src/Keyboard/Posted/Dialogue.antt =====
-- The dialogue as a whole.
use net_radio.Common.{
  ◌+◌, ◌≤◌, ◌<◌, ◌≡◌, refl, ◌∙◌, Bool, true, none, some, [], ◌∷◌, ◌++◌, append_assoc, Bytes, length,
  take, codes, arith,
}
use net_radio.Memory.Strings.{IsText}
use net_radio.Message.Wire
use net_radio.Message.Wire.{wire}
use net_radio.Manager.Monitor.{bytes}
use net_radio.Client.Recv.{no_error}
use net_radio.Keyboard.Run.{World, ◌>>=◌}
use net_radio.Keyboard.Streamer.{
  Arrays, recv_answer, mess_diff, run_command, communication_diff, interact_with_diff,
}
use net_radio.Keyboard.Steps.{after_recv, after_send, printed}
use net_radio.Keyboard.Typed.{IsLine, after_line}
use net_radio.Keyboard.Posts.{
  after_command, mess_diff-recv_answer, recv_answer-text, recv_answer-overflow,
}
use net_radio.Keyboard.Posted.{
  mess_command, connected, run_command-mess, run_command-fault, communication_diff-mess,
}

abbrev actions : Bytes
actions = codes "Vous pouvez faire ces actions : MESS ou LAST\n"

abbrev enter : Bytes
enter = codes "Entrez votre message :\n"

abbrev bad_answer : Bytes
bad_answer = codes "Erreur message retour du diff en post_mess\n"

-- The world in which the MESS of a line is sent.
abbrev pub posted : (p l rest : Bytes) → World → World
posted p l rest w =
    after_send (wire (Wire.mess p (take 140 l)))
      (after_line rest (printed enter (after_command (l ++ b'\n' ∷ rest) (connected w))))

-- The world in which the answer is shown.
abbrev pub answered : Bytes → World → World
answered t w = printed bad_answer (printed (codes "\n") (printed t (after_recv w)))

module _ (p r l more rest : Bytes) (capitals : Bool) (a : Arrays) (w : World) where
  up_to_answer :
      IsText p
      → IsText l
      → IsLine l
      → IsLine more
      → 0 < length l
      → length l + 2 ≤ 512
      → length more + 6 ≤ 512
      → length a.mes_type ≡ 512
      → length a.for_mess.mes_buf ≡ 512
      → length a.for_mess.mess_buf ≡ 512
      → w.stdin ≡ mess_command capitals ++ (more ++ b'\n' ∷ (l ++ b'\n' ∷ rest))
      → w.sends 0 ≡ true
      → (communication_diff (p ++ 0 ∷ r) a (connected w)
          ≡ run_command
              (p ++ 0 ∷ r)
              (mess_command capitals)
              a
              (after_command (l ++ b'\n' ∷ rest) (connected w)))
        × (mess_diff
              (p ++ 0 ∷ r)
              a.for_mess
              (printed enter (after_command (l ++ b'\n' ∷ rest) (connected w)))
            ≡ recv_answer a.for_mess.buf (posted p l rest w))
  up_to_answer hp hl h h1 some_char fits fits1 size size1 size2 typed ok = (
    communication_diff-mess (p ++ 0 ∷ r) capitals more (l ++ b'\n' ∷ rest) a (connected w) h1 fits1
        size typed,
    mess_diff-recv_answer p r l rest a.for_mess _ hp hl h some_char fits size1 size2 refl ok,
  )

  -- The dialogue, with the world behind it.
  pub interact_with_diff-posted :
      (t : Bytes)
      → IsText p
      → IsText l
      → IsLine l
      → IsLine more
      → 0 < length l
      → length l + 2 ≤ 512
      → length more + 6 ≤ 512
      → length a.mes_type ≡ 512
      → length a.for_mess.mes_buf ≡ 512
      → length a.for_mess.mess_buf ≡ 512
      → length a.for_mess.buf ≡ 10
      → w.stdin ≡ mess_command capitals ++ (more ++ b'\n' ∷ (l ++ b'\n' ∷ rest))
      → w.setups 0 ≡ no_error
      → w.sends 0 ≡ true
      → w.recvs 0 ≡ bytes t
      → IsText t
      → length t ≤ 9
      → interact_with_diff (p ++ 0 ∷ r) a w ≡ some (tt, answered t (posted p l rest w))
  unfolding interact_with_diff
  interact_with_diff-posted t hp hl h h1 some_char fits fits1 size size1 size2 ten typed up ok come
        plain short =
      let (command, answer) =
        up_to_answer hp hl h h1 some_char fits fits1 size size1 size2 typed ok in
      let shown = recv_answer-text t a.for_mess.buf (posted p l rest w) come plain (omega arith) in
      let done = run_command-mess (p ++ 0 ∷ r) capitals a _ _ (answer ∙ shown) in
      rw up (rw (command ∙ done, ◌>>=◌) refl)

  -- A user who types MESS or mess, with anything behind it in its line, and then a line `l` that is
  -- not empty: the client, with no error, sends the bytes of the MESS with its pseudonym and the
  -- first 140 characters of `l`, reads both lines and no more of the input, and shows the answer,
  -- but then always says that the answer is wrong, be it an ACKM. The lines fit in their arrays,
  -- which have the sizes of the code, there is no '\0' in the line, the pseudonym or the answer, and
  -- the answer has at most 9 bytes.
  pub interact_with_diff-mess :
      (t : Bytes)
      → IsText p
      → IsText l
      → IsLine l
      → IsLine more
      → 0 < length l
      → length l + 2 ≤ 512
      → length more + 6 ≤ 512
      → length a.mes_type ≡ 512
      → length a.for_mess.mes_buf ≡ 512
      → length a.for_mess.mess_buf ≡ 512
      → length a.for_mess.buf ≡ 10
      → w.stdin ≡ mess_command capitals ++ (more ++ b'\n' ∷ (l ++ b'\n' ∷ rest))
      → w.setups 0 ≡ no_error
      → w.sends 0 ≡ true
      → w.recvs 0 ≡ bytes t
      → IsText t
      → length t ≤ 9
      → (w1 : World) × (interact_with_diff (p ++ 0 ∷ r) a w ≡ some (tt, w1))
        × (w1.stdin ≡ rest)
        × (w1.sent ≡ w.sent ++ wire (Wire.mess p (take 140 l)) ∷ [])
        × (w1.stdout ≡ w.stdout ++ (actions ++ (enter ++ (t ++ (codes "\n" ++ bad_answer)))))
  interact_with_diff-mess t hp hl h h1 some_char fits fits1 size size1 size2 ten typed up ok come
        plain short =
      (
        answered t (posted p l rest w),
        interact_with_diff-posted t hp hl h h1 some_char fits fits1 size size1 size2 ten typed up ok
            come plain short,
        refl,
        refl,
        simp append_assoc,
      )

  -- The same dialogue with an answer of 10 to 511 bytes: it is received into an array of 10 bytes.
  pub interact_with_diff-overflow :
      (t : Bytes)
      → IsText p
      → IsText l
      → IsLine l
      → IsLine more
      → 0 < length l
      → length l + 2 ≤ 512
      → length more + 6 ≤ 512
      → length a.mes_type ≡ 512
      → length a.for_mess.mes_buf ≡ 512
      → length a.for_mess.mess_buf ≡ 512
      → length a.for_mess.buf ≡ 10
      → w.stdin ≡ mess_command capitals ++ (more ++ b'\n' ∷ (l ++ b'\n' ∷ rest))
      → w.setups 0 ≡ no_error
      → w.sends 0 ≡ true
      → w.recvs 0 ≡ bytes t
      → 10 ≤ length t
      → interact_with_diff (p ++ 0 ∷ r) a w ≡ none
  unfolding interact_with_diff
  interact_with_diff-overflow t hp hl h h1 some_char fits fits1 size size1 size2 ten typed up ok
        come long =
      let (command, answer) =
        up_to_answer hp hl h h1 some_char fits fits1 size size1 size2 typed ok in
      let fault = recv_answer-overflow t a.for_mess.buf (posted p l rest w) come (omega arith) in
      let broken = run_command-fault (p ++ 0 ∷ r) capitals a _ (answer ∙ fault) in
      rw up (rw (command ∙ broken, ◌>>=◌) refl)
