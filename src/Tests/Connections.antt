-- ===== src/Tests/Connections.antt =====
-- Instances of the theorems on `handle_mess` and `handle_tcp`, on the register of Registrations.
use net_radio.Common.{
  Option, ℕ, true, false, negsuc, List, ◌≡◌, refl, some, [], ◌∷◌, ◌++◌, Bytes, replicate, codes,
  arith,
}
use net_radio.Memory.{str_eq}
use net_radio.Message.Types.{kind_of, msglen}
use net_radio.Message.Verify.Conforms.{verify_msg-conforms}
use net_radio.Message.Verify.Reads.{get_msg_type-append}
use net_radio.Message.Verify.Grammar.{conforms, matches, head_is, starts_digits}
use net_radio.Manager.Register.{Register}
use net_radio.Manager.Register.Slots.{items, register, Refines}
use net_radio.Manager.Monitor.{bytes}
use net_radio.Manager.Monitor.Watching.{survives}
use net_radio.Manager.Monitor.Printed.{is_safe, has_end}
use net_radio.Manager.Monitor.Answers.{passes}
use net_radio.Manager.Handlers.{failures, Call, left, registered, handle_mess, handle_tcp}
use net_radio.Manager.Handlers.Forward.{AllDeliver, handle_mess-forwards}
use net_radio.Memory.Strings.{IsText, plain, plain-IsText}
use net_radio.Manager.Handlers.Regi.{admit}
use net_radio.Manager.Handlers.Serve.{serve, front, reply, handle_tcp-serve}
use net_radio.Tests.Messages.{romain_regi, buffer}
use net_radio.Tests.Registrations.{romain_item, rows, slots, broken_off, rows-Refines}

abbrev hello_mess : Bytes
hello_mess = codes "MESS lucasgan hello" ++ (replicate 135 b'#' ++ codes "\r\n")

abbrev hello_call : Call
hello_call = record {
  streamer_ip = codes "192.168.000.015";
  port = 5000;
  client_id = codes "lucasgan";
  client_msg = codes "hello" ++ replicate 135 b'#';
}

handle_tcp-serve_example :
    (rows1 : Register) × (handle_tcp true 2 rows buffer buffer buffer 7
        (λ k. true)
        (bytes romain_regi)
        broken_off
      ≡ some (rows1, registered (left 1) (codes "REOK\r\n")))
    × Refines rows1 slots
unfolding serve front conforms kind_of msglen matches head_is starts_digits register survives passes
    admit str_eq reply is_safe has_end
handle_tcp-serve_example =
    handle_tcp-serve true 2 rows slots (omega arith) (omega arith) rows-Refines buffer buffer 7
      (λ k. true) refl refl broken_off ((omega arith, refl), ((omega arith, refl), tt)) buffer
      (bytes romain_regi) refl (omega arith)

hello_mess-IsText : IsText hello_mess
unfolding plain
hello_mess-IsText = plain-IsText hello_mess refl

-- Every text is read as the same address.
abbrev one_address : Bytes → Option ℕ
one_address t = some 7

handle_mess-forwards_example :
    (calls : List Call) × (handle_mess (λ k. false) 2 rows (hello_mess ++ 0 ∷ []) 7
      ≡ some (calls, negsuc 0))
    × AllDeliver one_address
        (replicate 157 7)
        (replicate 6 7)
        (codes "\r\n")
        hello_mess
        (romain_item ∷ [])
        calls
unfolding failures items conforms kind_of msglen matches head_is
handle_mess-forwards_example =
    handle_mess-forwards one_address (λ k. false) 2 rows slots hello_mess [] (replicate 157 7)
      (replicate 6 7) (codes "\r\n") 7 (omega arith) rows-Refines hello_mess-IsText
      (verify_msg-conforms hello_mess [] hello_mess-IsText)
      (get_msg_type-append hello_mess [] hello_mess-IsText) refl refl (omega arith)
