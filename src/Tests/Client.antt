-- ===== src/Tests/Client.antt =====
-- A client that asks the manager of Registrations for its list, and one that sends a message.
use net_radio.Common.{
  ◌++◌, false, ℕ, zero, suc, ◌≡◌, refl, Option, none, some, [], ◌∷◌, Bytes, pos, length,
  length-replicate, replicate, get_elem?, codes, arith,
}
use net_radio.Libc.Decimal.{fixed}
use net_radio.Memory.{str_eq}
use net_radio.Client.{Delivery, listing, get_streamer_list, send_mess_to_streamer}
use net_radio.Client.Recv.{no_error}
use net_radio.Client.Listed.{get_streamer_list-handle_list}
use net_radio.Manager.Handlers.{handle_list}
use net_radio.Manager.Handlers.Lists.{announcement, handle_list-items}
use net_radio.Manager.Monitor.{Received, bytes, failed}
use net_radio.Manager.Register.Refines.{row_of}
use net_radio.Manager.Register.Slots.{items}
use net_radio.Client.Last.{messages, get_last_mess}
use net_radio.Client.Last.Ended.{IsMessage, in_block, get_last_mess-ended, get_last_mess-overflow}
use net_radio.Message.Types.{oldm, endm, kind_of}
use net_radio.Message.Wire
use net_radio.Message.Wire.{wire}
use net_radio.Client.Sent.{send_mess_to_streamer-wire}
use net_radio.Tests.Messages.{buffer, hello-IsText}
use net_radio.Memory.Strings.{plain, plain-IsText}
use net_radio.Tests.Registrations.{rows, slots, romain_item, rows-Refines}

abbrev pub malloc : ℕ → Option Bytes
malloc n = some (replicate n 7)

pub malloc-enough : (n : ℕ) → (block : Bytes) × (malloc n ≡ some block) × (length block ≡ n)
malloc-enough n = (replicate n 7, refl, length-replicate n 7)

abbrev pub answers : ℕ → Received
answers k = bytes romain_item

pub answers-come :
    (k : ℕ) (m : Bytes) → get_elem? (romain_item ∷ []) k ≡ some m → answers k ≡ bytes m
answers-come zero m h = cc
answers-come (suc k) m h = cc

pub list_run : handle_list 2 rows buffer ≡ some (codes "LINB 01\r\n" ∷ romain_item ∷ [])
unfolding items announcement fixed
list_run = handle_list-items 2 rows slots buffer (omega arith) (omega arith) rows-Refines refl

get_streamer_list-handle_list_example :
    get_streamer_list malloc no_error (bytes (codes "LINB 01\r\n")) answers buffer buffer
    ≡ some (some (codes "LIST\r\n"), listing (pos 1) (row_of romain_item ∷ []))
unfolding items
get_streamer_list-handle_list_example =
    get_streamer_list-handle_list malloc 2 rows slots buffer buffer buffer (codes "LINB 01\r\n")
      (romain_item ∷ []) answers malloc-enough (omega arith) (omega arith) rows-Refines refl refl
      refl list_run answers-come

abbrev some_address : Bytes → Option ℕ
some_address t = some 7

abbrev hello_sent : Delivery
hello_sent = record {
  address = 7;
  port = 4242;
  message = wire (Wire.mess (codes "lucasgan") (codes "hello"));
}

send_mess_to_streamer-wire_example :
    (send_mess_to_streamer some_address []
        (pos 4242)
        no_error
        (bytes (codes "RENO\r\n"))
        (replicate 157 7)
        (replicate 6 7)
        (codes "lucasgan" ++ 0 ∷ [])
        (codes "hello" ++ 0 ∷ [])
      ≡ some (some hello_sent, false))
    × (send_mess_to_streamer some_address []
          (pos 4242)
          no_error
          failed
          (replicate 157 7)
          (replicate 6 7)
          (codes "lucasgan" ++ 0 ∷ [])
          (codes "hello" ++ 0 ∷ [])
        ≡ some (some hello_sent, false))
unfolding str_eq
send_mess_to_streamer-wire_example =
    send_mess_to_streamer-wire some_address [] 7 (pos 4242) (codes "lucasgan") (codes "hello")
      (codes "RENO\r\n") (replicate 157 7) (replicate 6 7) refl hello-IsText.0 hello-IsText.1
      (omega arith) refl refl

abbrev pub old : Bytes
old = codes "OLDM 0001 lucasgan hello\r\n"

abbrev pub end_of_list : Bytes
end_of_list = codes "ENDM\r\n"

abbrev pub last_answers : ℕ → Received
last_answers zero = bytes old
last_answers (suc k) = bytes end_of_list

pub last_answers-come :
    (k : ℕ) (t : Bytes) → get_elem? (old ∷ []) k ≡ some t → last_answers k ≡ bytes t
last_answers-come zero t h = cc
last_answers-come (suc k) t h = cc

pub old-IsMessage : IsMessage oldm old
unfolding plain kind_of
old-IsMessage = record { plain = plain-IsText old refl; type = refl; size = omega arith }

pub end-IsMessage : IsMessage endm end_of_list
unfolding plain kind_of
end-IsMessage = record { plain = plain-IsText end_of_list refl; type = refl; size = omega arith }

get_last_mess-ended_example :
    get_last_mess malloc no_error last_answers (replicate 11 7) (pos 2)
    ≡ some (
      some (wire (Wire.last (pos 2))),
      messages (pos 1) (in_block (malloc-enough 162).0 old ∷ []),
    )
get_last_mess-ended_example =
    get_last_mess-ended malloc malloc-enough 2 (old ∷ []) end_of_list (replicate 11 7) last_answers
      (old-IsMessage, tt) end-IsMessage (omega arith) refl last_answers-come refl

get_last_mess-overflow_example :
    get_last_mess malloc no_error last_answers (replicate 11 7) (pos 1) ≡ none
get_last_mess-overflow_example =
    get_last_mess-overflow malloc malloc-enough 1 (old ∷ []) (replicate 11 7) last_answers
      (old-IsMessage, tt) refl refl last_answers-come
