-- ===== src/Tests/Messages.antt =====
-- c/message_test.c, and instances of the theorems on messages.
use net_radio.Common.{
  ℕ, ◌≡◌, refl, ap, true, false, Option, none, some, [], ◌∷◌, ◌++◌, Bytes, pos, length,
  length-replicate, replicate, codes, arith, ◌⊎◌,
}
use net_radio.Memory.Strings.{IsText, plain, plain-IsText}
use net_radio.Message.Types
use net_radio.Libc.Decimal.{fixed, format_int}
use net_radio.Memory.{strlen}
use net_radio.Message.Types.{MsgType, msglen, get_msg_type, kind_of}
use net_radio.Message.Build.{message, aborted, create_message}
use net_radio.Message.Wire
use net_radio.Message.Wire.{Stream, Message, kind, args, wire}
use net_radio.Message.Build.Create.{create_message-wire, create_message-malloc}
use net_radio.Message.Build.Length.{msglen-wire}
use net_radio.Message.Verify.{verify_msg, verify_fields, char_is, verify_int}
use net_radio.Message.Verify.Grammar.{matches, head_is}
use net_radio.Message.Verify.Conforms.{verify_msg-format}
use net_radio.Message.Verify.Accepts.{verify_msg-create_message, verify_msg-short_diff}
use net_radio.Manager.Monitor.{no_malloc}

abbrev romain : Stream
romain = record {
  id = codes "romain";
  ip1 = 0x19000001;
  port1 = pos 4242;
  ip2 = 0xc0a8000f;
  port2 = pos 5000;
}

abbrev pub romain_regi : Bytes
romain_regi = codes "REGI romain## 025.000.000.001 4242 192.168.000.015 5000\r\n"

abbrev too_long : Stream
too_long = record {
  id = codes "romainbouarah";
  ip1 = 0x19000001;
  port1 = pos 19000;
  ip2 = 0xc0a8000f;
  port2 = pos 1234567;
}

-- A buffer of 512 bytes with something in it.
abbrev pub buffer : Bytes
buffer = replicate 512 7

romain-IsText : IsText (codes "romain")
unfolding plain
romain-IsText = plain-IsText (codes "romain") refl

pub hello-IsText : IsText (codes "lucasgan") × IsText (codes "hello")
unfolding plain
hello-IsText = (plain-IsText (codes "lucasgan") refl, plain-IsText (codes "hello") refl)

item_is_cut :
    wire (Wire.item too_long) ≡ codes "ITEM romainbo 025.000.000.001 1900 192.168.000.015 1234\r\n"
unfolding wire format_int fixed
item_is_cut = refl

regi_accepted : verify_msg (romain_regi ++ 0 ∷ []) ≡ some true
unfolding verify_msg get_msg_type strlen kind_of verify_fields msglen char_is verify_int
regi_accepted = refl

ackm_refused : verify_msg (codes "ACKM\t\n" ++ 0 ∷ []) ≡ some false
unfolding verify_msg get_msg_type strlen kind_of verify_fields msglen char_is
ackm_refused = refl

linb_refused : verify_msg (codes "LINB 151\r\n" ++ 0 ∷ []) ≡ some false
unfolding verify_msg get_msg_type strlen kind_of verify_fields msglen char_is verify_int
linb_refused = refl

last_accepted : verify_msg (codes "LAST 151\r\n" ++ 0 ∷ []) ≡ some true
unfolding verify_msg get_msg_type strlen kind_of verify_fields msglen char_is verify_int
last_accepted = refl

create_message-wire_example :
    create_message no_malloc (some buffer) Types.regi (args (Wire.regi romain))
    ≡ some (message (romain_regi ++ 0 ∷ replicate 454 7))
unfolding create_message kind wire fixed format_int
create_message-wire_example =
    create_message-wire no_malloc (Wire.regi romain) buffer romain-IsText (omega arith)

abbrev malloc : ℕ → Option Bytes
malloc n = some (replicate n 7)

malloc-length : (n : ℕ) (block : Bytes) → malloc n ≡ some block → length block ≡ n
malloc-length n block h =
    let same : replicate n 7 ≡ block = cc in
    let fill : ℕ = 7 in omega (arith, ap length same, length-replicate n fill)

create_message-malloc_example :
    (create_message malloc none Types.endm [] ≡ some (message (codes "ENDM\r\n" ++ 0 ∷ [])))
    ⊎ ((malloc 7 ≡ none) × (create_message malloc none Types.endm [] ≡ some aborted))
unfolding kind args wire
create_message-malloc_example = create_message-malloc malloc Wire.endm tt malloc-length

msglen-wire_example : msglen Types.regi ≡ some 57
unfolding msglen kind wire fixed format_int
msglen-wire_example = msglen-wire (Wire.regi romain)

verify_msg-format_example : verify_msg (codes "LINB_15\r\n" ++ 0 ∷ codes "15") ≡ some false
unfolding plain msglen kind_of matches head_is
verify_msg-format_example =
    verify_msg-format (codes "LINB_15\r\n") (codes "15") (plain-IsText (codes "LINB_15\r\n") refl)

verify_msg-create_message_example :
    (out : Bytes) × (create_message no_malloc
        (some buffer)
        (kind (Wire.mess (codes "lucasgan") (codes "hello")))
        (args (Wire.mess (codes "lucasgan") (codes "hello")))
      ≡ some (message out))
    × (verify_msg out ≡ some true)
unfolding wire
verify_msg-create_message_example =
    verify_msg-create_message no_malloc (Wire.mess (codes "lucasgan") (codes "hello")) buffer
      hello-IsText tt (omega arith)

verify_msg-short_diff_example :
    (verify_msg (wire (Wire.diff (pos 5) (codes "lucasgan") (codes "hello")) ++ 0 ∷ [])
      ≡ some false)
    × (verify_msg (wire (Wire.oldm (pos 5) (codes "lucasgan") (codes "hello")) ++ 0 ∷ [])
        ≡ some false)
verify_msg-short_diff_example =
    verify_msg-short_diff (pos 5) (codes "lucasgan") (codes "hello") [] hello-IsText tt
      (omega arith)
