-- ===== src/Tests/Keyboard.antt =====
-- The interactive client with a user who types something.
use net_radio.Common.{
  zero, suc, ◌<◌, ◌≢◌, ◌++◌, ◌≡◌, refl, Bool, true, false, and-eq_true, ℕ, ◌⊎◌, none, some, [], ◌∷◌,
  Bytes, pos, replicate, codes, arith, ◌==◌, not, ◌&&◌,
}
use net_radio.Memory.{text}
use net_radio.Memory.Strings.{IsText}
use net_radio.Libc.Atoi.{atoi}
use net_radio.Libc.Number.{spelled}
use net_radio.Message.Wire
use net_radio.Message.Wire.{wire}
use net_radio.Manager.Monitor.{Received, bytes, failed}
use net_radio.Client.{Setup}
use net_radio.Client.Recv.{no_error}
use net_radio.Keyboard.Run.{World, read_line}
use net_radio.Keyboard.Streamer.{Arrays, interact_with_diff}
use net_radio.Keyboard.Main.{done, out_of_fuel, Globals, read_pseudo, dialogue, set_streamer}
use net_radio.Keyboard.Typed.{IsLine, after_line}
use net_radio.Keyboard.Posted.Dialogue.{interact_with_diff-mess, interact_with_diff-overflow}
use net_radio.Keyboard.Asked.{heading, said_all}
use net_radio.Keyboard.Asked.Whole.{interact_with_diff-last}
use net_radio.Keyboard.Prompt.{read_pseudo-terminates}
use net_radio.Keyboard.Leave.{dialogue-leaves, dialogue-endless, dialogue-fault}
use net_radio.Keyboard.Arguments.{set_streamer-bounds}
use net_radio.Tests.Messages.{buffer, hello-IsText}
use net_radio.Memory.Strings.{plain, plain-IsText}
use net_radio.Tests.Client.{
  old, end_of_list, last_answers, last_answers-come, old-IsMessage, end-IsMessage,
}

-- A world in which nothing has been printed or sent yet.
abbrev pub world : Setup → Bytes → (ℕ → Received) → World
world setup typed received = record {
  stdin = typed;
  stdout = [];
  setups = λ k. setup;
  sends = λ k. true;
  sent = [];
  recvs = received;
}

abbrev pub arrays : Arrays
arrays = record {
  mes_type = buffer;
  for_mess = record { mes_buf = buffer; mess_buf = buffer; buf = replicate 10 7 };
  for_last = record { nb_mess_char = buffer; mess_buf = buffer; buf = buffer };
}

-- No newline among the characters.
abbrev pub one_line : Bytes → Bool
one_line [] = true
one_line (c ∷ s) = not (c == b'\n') && one_line s

pub one_line-IsLine : (s : Bytes) → one_line s ≡ true → IsLine s
one_line-IsLine [] h = tt
one_line-IsLine (c ∷ s) h =
    let (other, rest) = and-eq_true (not (c == b'\n')) (one_line s) h in
    (ground arith, one_line-IsLine s rest)

abbrev pub globals : Globals
globals = record {
  adresse_diff = replicate 16 0;
  port_diff = pos 0;
  adresse_multicast = replicate 16 0;
  port_multicast = pos 0;
  terminal = replicate 11 0;
  adresse_manager = replicate 16 0;
  port_manager = pos 0;
}

-- MESS, and then a text.
abbrev dialogue_text : Bytes
dialogue_text = codes "MESS\nhello\nq\n"

abbrev pub ackm_answers : ℕ → Received
ackm_answers k = bytes (codes "ACKM\r\n")

pub ackm-IsText : IsText (codes "ACKM\r\n")
unfolding plain
ackm-IsText = plain-IsText (codes "ACKM\r\n") refl

interact_with_diff-mess_example :
    (w1 : World) × (interact_with_diff
        (codes "lucasgan" ++ 0 ∷ [])
        arrays
        (world no_error dialogue_text ackm_answers)
      ≡ some (tt, w1))
    × (w1.stdin ≡ codes "q\n")
    × (w1.sent ≡ wire (Wire.mess (codes "lucasgan") (codes "hello")) ∷ [])
    × (w1.stdout
        ≡ codes "Vous pouvez faire ces actions : MESS ou LAST\n"
          ++ (codes "Entrez votre message :\n"
              ++ (codes "ACKM\r\n"
                  ++ (codes "\n" ++ codes "Erreur message retour du diff en post_mess\n"))))
interact_with_diff-mess_example =
    interact_with_diff-mess (codes "lucasgan") [] (codes "hello") [] (codes "q\n") true arrays
      (world no_error dialogue_text ackm_answers) (codes "ACKM\r\n") hello-IsText.0 hello-IsText.1
      (one_line-IsLine (codes "hello") refl) tt (omega arith) (omega arith) (omega arith) refl refl
      refl refl refl refl refl refl ackm-IsText (omega arith)

interact_with_diff-overflow_example :
    interact_with_diff
      (codes "lucasgan" ++ 0 ∷ [])
      arrays
      (world no_error dialogue_text (λ k. bytes (codes "0123456789")))
    ≡ none
interact_with_diff-overflow_example =
    interact_with_diff-overflow (codes "lucasgan") [] (codes "hello") [] (codes "q\n") true arrays
      (world no_error dialogue_text (λ k. bytes (codes "0123456789"))) (codes "0123456789")
      hello-IsText.0 hello-IsText.1 (one_line-IsLine (codes "hello") refl) tt (omega arith)
      (omega arith) (omega arith) refl refl refl refl refl refl refl refl (omega arith)

-- LAST, and then a number.
abbrev last_text : Bytes
last_text = codes "last\n2\nq\n"

interact_with_diff-last_example :
    (w1 : World) × (interact_with_diff
        (codes "lucasgan" ++ 0 ∷ [])
        arrays
        (world no_error last_text last_answers)
      ≡ some (tt, w1))
    × (w1.stdin ≡ codes "q\n")
    × (w1.sent ≡ wire (Wire.last (pos 2)) ∷ [])
    × (w1.stdout
        ≡ codes "Vous pouvez faire ces actions : MESS ou LAST\n"
          ++ (codes "Entrez le nombre de messages que vous souhaitez :\n"
              ++ (heading 2 ++ (said_all (old ∷ []) ++ (end_of_list ++ codes "\n")))))
unfolding spelled
interact_with_diff-last_example =
    interact_with_diff-last (codes "lucasgan" ++ 0 ∷ []) (codes "2") [] (codes "q\n") end_of_list
      (old ∷ []) false arrays (world no_error last_text last_answers)
      ((omega arith, omega arith), tt) (omega arith) (omega arith) tt (omega arith) (omega arith)
      refl refl refl refl refl refl refl (old-IsMessage, tt) end-IsMessage (omega arith)
      last_answers-come refl

-- An empty line, and then a name.
abbrev pseudo_text : Bytes
pseudo_text = codes "\nlucasgan07\nMESS\n"

abbrev at_prompt : World
at_prompt = world no_error pseudo_text (λ k. failed)

read_pseudo-terminates_example :
    ((k : ℕ) × (pseudo_text ≡ replicate k b'\n') × (read_pseudo 20 buffer at_prompt ≡ none))
    ⊎ ((k c : ℕ) × (rest line : Bytes) × (pseudo_text ≡ replicate k b'\n' ++ c ∷ rest)
        × (c ≢ b'\n')
        × (read_pseudo 20 buffer at_prompt
            ≡ some (done (c ∷ line), after_line (read_line 511 (c ∷ rest)).1 at_prompt)))
read_pseudo-terminates_example = read_pseudo-terminates 20 buffer at_prompt refl (omega arith)

abbrev refused : Setup
refused = record { address = true; socket = true; connected = false; sent = true }

dialogue-leaves_example :
    (w1 : World) × (dialogue 3
        (codes "lucasgan" ++ 0 ∷ [])
        buffer
        arrays
        (world refused (codes "r\n\nquit\nend") (λ k. failed))
      ≡ some (done tt, w1))
    × (w1.stdin ≡ codes "end")
dialogue-leaves_example =
    dialogue-leaves 3 (codes "lucasgan" ++ 0 ∷ []) buffer (codes "uit") (codes "end")
      (codes "r" ∷ [] ∷ []) arrays (world refused (codes "r\n\nquit\nend") (λ k. failed))
      (omega arith) (λ k. refl) refl
      (
        record {
          other = λ e. omega (arith, e);
          is_line = one_line-IsLine (codes "r") refl;
          fits = omega arith;
        },
        (record { other = λ e. omega (arith, e); is_line = tt; fits = omega arith }, tt),
      )
      (one_line-IsLine (codes "uit") refl) (omega arith) refl

dialogue-endless_example :
    (w1 : World) × (dialogue 1000
        (codes "lucasgan" ++ 0 ∷ [])
        buffer
        arrays
        (world refused [] (λ k. failed))
      ≡ some (out_of_fuel, w1))
dialogue-endless_example =
    dialogue-endless 1000 7 7 7 (codes "lucasgan" ++ 0 ∷ []) (replicate 509 7) arrays
      (world refused [] (λ k. failed)) (λ e. omega (arith, e)) refl (λ k. refl)

-- The first connection is refused, the others are accepted.
abbrev later_open : ℕ → Setup
later_open zero = refused
later_open (suc k) = no_error

abbrev at_end : World
at_end = record (world refused [] (λ k. failed)) { setups = later_open }

dialogue-fault_example : dialogue 2 (codes "lucasgan" ++ 0 ∷ []) buffer arrays at_end ≡ none
dialogue-fault_example =
    dialogue-fault 1 2 7 7 7 (codes "lucasgan" ++ 0 ∷ []) (replicate 509 7) arrays at_end
      (omega arith) (λ e. omega (arith, e)) refl first_refused (refl, refl, refl)
  where
    first_refused :
        (j : ℕ)
        → j < 1
        → ((later_open j).address && (later_open j).socket && (later_open j).connected) ≡ false
    first_refused zero less = refl
    first_refused (suc j) less = absurd (omega arith)

set_streamer-bounds_example :
    ((g1 : Globals) × (set_streamer globals
          (codes "127.0.0.1" ++ 0 ∷ [])
          (codes "4242" ++ 0 ∷ [])
          (codes "225.1.2.4" ++ 0 ∷ [])
          (codes "9998" ++ 0 ∷ [])
          (codes "/dev/pts/1" ++ 0 ∷ [])
          (world no_error [] (λ k. failed))
        ≡ some (g1, world no_error [] (λ k. failed)))
      × (text g1.adresse_diff ≡ some (codes "127.0.0.1"))
      × (g1.port_diff ≡ atoi (codes "4242"))
      × (text g1.adresse_multicast ≡ some (codes "225.1.2.4"))
      × (g1.port_multicast ≡ atoi (codes "9998"))
      × (text g1.terminal ≡ some (codes "/dev/pts/1")))
    × (set_streamer globals
          (codes "127.0.0.1" ++ 0 ∷ [])
          (codes "4242" ++ 0 ∷ [])
          (codes "225.1.2.4" ++ 0 ∷ [])
          (codes "9998" ++ 0 ∷ [])
          (codes "/dev/pts/10" ++ 0 ∷ [])
          (world no_error [] (λ k. failed))
        ≡ none)
unfolding plain
set_streamer-bounds_example =
    set_streamer-bounds globals (codes "127.0.0.1") (codes "4242") (codes "225.1.2.4")
      (codes "9998") (codes "/dev/pts/1") (codes "/dev/pts/10") (world no_error [] (λ k. failed))
      (plain-IsText (codes "127.0.0.1") refl) (plain-IsText (codes "4242") refl)
      (plain-IsText (codes "225.1.2.4") refl) (plain-IsText (codes "9998") refl)
      (plain-IsText (codes "/dev/pts/1") refl) (plain-IsText (codes "/dev/pts/10") refl)
      (omega arith) (omega arith) refl refl refl (omega arith) (omega arith)
