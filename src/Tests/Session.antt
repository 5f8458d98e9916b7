-- ===== src/Tests/Session.antt =====
-- The interactive client from its start to its end.
use net_radio.Common.{
  ◌++◌, ◌≡◌, refl, true, false, ℕ, zero, suc, some, [], ◌∷◌, pos, replicate, codes, arith,
}
use net_radio.Memory.Strings.{IsText}
use net_radio.Libc.Decimal.{fixed}
use net_radio.Message.Wire
use net_radio.Message.Wire.{wire}
use net_radio.Manager.Monitor.{Received, bytes}
use net_radio.Manager.Handlers.Lists.{announcement}
use net_radio.Manager.Handlers.Serve.{IsReceived}
use net_radio.Manager.Register.Slots.{items, item_of}
use net_radio.Client.Recv.{no_error}
use net_radio.Keyboard.Run.{World}
use net_radio.Keyboard.Main.{done, Buffers, keyboard_main}
use net_radio.Keyboard.Session.{
  IsSized, IsAllocated, keyboard_main-manager, keyboard_main-handle_list,
}
use net_radio.Keyboard.Session.Posting.{Post, IsPost, Answers}
use net_radio.Keyboard.Session.Whole.{keyboard_main-posts}
use net_radio.Keyboard.Served.{line, lines}
use net_radio.Tests.Messages.{buffer, hello-IsText}
use net_radio.Memory.Strings.{plain, plain-IsText}
use net_radio.Tests.Registrations.{rows, slots, romain_item, rows-Refines}
use net_radio.Tests.Client.{answers-come, list_run}
use net_radio.Tests.Keyboard.{world, arrays, globals, ackm_answers, one_line-IsLine, ackm-IsText}

abbrev served : ℕ → Received
served zero = bytes (codes "LINB 01\r\n")
served (suc k) = bytes romain_item

served-fits : (k : ℕ) → IsReceived (served k)
unfolding item_of
served-fits zero = omega arith
served-fits (suc k) = omega arith

abbrev buffers : Buffers
buffers = record {
  pseudo_id = buffer;
  next = buffer;
  streamer = arrays;
  mess = replicate 10 7;
  buf = buffer;
  buf_diff = buffer;
}

buffers-IsSized : IsSized buffers
buffers-IsSized = record {
  pseudo_id = refl;
  next = refl;
  mes_type = refl;
  mes_buf = refl;
  mess_buf = refl;
  answer = refl;
  mess = refl;
  buf = refl;
  buf_diff = refl;
}

globals-IsAllocated : IsAllocated globals
globals-IsAllocated = record {
  adresse_diff = refl;
  adresse_multicast = refl;
  terminal = refl;
  adresse_manager = refl;
}

argument-IsText : IsText (codes "127.0.0.1") × IsText (codes "4242")
unfolding plain
argument-IsText = (plain-IsText (codes "127.0.0.1") refl, plain-IsText (codes "4242") refl)

keyboard_main-manager_example :
    (w1 : World) × (keyboard_main 1 globals buffers
        ((codes "127.0.0.1" ++ 0 ∷ []) ∷ (codes "4242" ++ 0 ∷ []) ∷ [])
        (world no_error [] served)
      ≡ some (done (pos 0), w1))
keyboard_main-manager_example =
    keyboard_main-manager 1 globals buffers (codes "127.0.0.1") (codes "4242")
      (world no_error [] served) globals-IsAllocated buffers-IsSized argument-IsText.0
      argument-IsText.1 (omega arith) served-fits

keyboard_main-handle_list_example :
    (w1 : World) × (keyboard_main 1 globals buffers
        ((codes "127.0.0.1" ++ 0 ∷ []) ∷ (codes "4242" ++ 0 ∷ []) ∷ [])
        (world no_error [] served)
      ≡ some (done (pos 0), w1))
    × (w1.stdout ≡ line (codes "LINB 01\r\n") ++ lines (romain_item ∷ []))
    × (w1.sent ≡ codes "LIST\r\n" ∷ [])
unfolding items announcement fixed
keyboard_main-handle_list_example =
    keyboard_main-handle_list 1 globals buffers (codes "127.0.0.1") (codes "4242") 2 rows slots
      buffer (codes "LINB 01\r\n") (romain_item ∷ []) (world no_error [] served) globals-IsAllocated
      buffers-IsSized argument-IsText.0 argument-IsText.1 (omega arith) (omega arith) (omega arith)
      rows-Refines refl list_run refl refl refl answers-come

-- Two posts: one after which the user stays, and one after which the user leaves.
abbrev first_post : Post
first_post = record { capitals = true; more = []; message = codes "hello"; reply = codes "o" }

abbrev last_post : Post
last_post = record {
  capitals = false;
  more = codes "age";
  message = codes "bye";
  reply = codes "q";
}

first_post-IsPost : IsPost first_post
first_post-IsPost = record {
  more_line = tt;
  more_fits = omega arith;
  message_text = hello-IsText.1;
  message_line = one_line-IsLine (codes "hello") refl;
  some_char = omega arith;
  message_fits = omega arith;
  reply_line = one_line-IsLine (codes "o") refl;
  reply_fits = omega arith;
}

last_post-IsPost : IsPost last_post
unfolding plain
last_post-IsPost = record {
  more_line = one_line-IsLine (codes "age") refl;
  more_fits = omega arith;
  message_text = plain-IsText (codes "bye") refl;
  message_line = one_line-IsLine (codes "bye") refl;
  some_char = omega arith;
  message_fits = omega arith;
  reply_line = one_line-IsLine (codes "q") refl;
  reply_fits = omega arith;
}

abbrev session : World
session = world no_error (codes "\nlucasgan\nMESS\nhello\no\nmessage\nbye\nq\nend") ackm_answers

session-Answers : Answers session
session-Answers = record {
  setups = λ k. refl;
  sends = λ k. refl;
  recvs = λ k. record {
    answer = codes "ACKM\r\n";
    given = refl;
    plain = ackm-IsText;
    short = omega arith;
  };
}

keyboard_main-posts_example :
    (w1 : World) × (keyboard_main 2 globals buffers
        ((codes "127.0.0.1" ++ 0 ∷ [])
          ∷ (codes "4242" ++ 0 ∷ [])
          ∷ (codes "127.0.0.1" ++ 0 ∷ [])
          ∷ (codes "4242" ++ 0 ∷ [])
          ∷ (codes "4242" ++ 0 ∷ [])
          ∷ [])
        session
      ≡ some (done (pos 0), w1))
    × (w1.stdin ≡ codes "end")
    × (w1.sent
        ≡ wire (Wire.mess (codes "lucasgan") (codes "hello"))
          ∷ wire (Wire.mess (codes "lucasgan") (codes "bye"))
          ∷ [])
keyboard_main-posts_example =
    keyboard_main-posts 2 1 globals buffers (codes "127.0.0.1") (codes "4242") (codes "127.0.0.1")
      (codes "4242") (codes "4242") (codes "lucasgan") (codes "end") (first_post ∷ []) last_post
      session (omega arith) (omega arith) globals-IsAllocated buffers-IsSized argument-IsText.0
      argument-IsText.1 argument-IsText.0 argument-IsText.1 argument-IsText.1 (omega arith)
      (omega arith) (omega arith) hello-IsText.0 (one_line-IsLine (codes "lucasgan") refl)
      (omega arith) (omega arith) (first_post-IsPost, (λ e. omega (arith, e)), tt) last_post-IsPost
      refl session-Answers refl
