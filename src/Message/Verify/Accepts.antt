-- ===== src/Message/Verify/Accepts.antt =====
-- Which messages of `create_message` are accepted by `verify_msg`.
use net_radio.Common.{
  ℕ, ◌+◌, ◌-◌, ◌≤◌, ◌≡◌, refl, ap, ◌∙◌, Bool, true, false, Option, some, [], ◌∷◌, ◌++◌, Bytes,
  length, drop, take, replicate, drop-append_of_ge, drop-replicate, take-eq_self, arith, ℤ,
}
use net_radio.Message.Types.{
  msg_end, msg_mess_size, msg_nb_mess_size, msg_num_diff_size, msg_type_size, kind_of, has_len,
  default_char,
}
use net_radio.Message.Build.{create_message, message}
use net_radio.Message.Build.Create.{create_message-wire}
use net_radio.Message.Build.Length.{msglen-wire}
use net_radio.Message.Build.Layout.{wire-IsText}
use net_radio.Message.Verify.{verify_msg}
use net_radio.Message.Verify.Conforms.{verify_msg-conforms}
use net_radio.Message.Verify.Grammar.{head_is, matches, checked, conforms}
use net_radio.Message.Verify.Matches.{
  HasNaturals, IsNatural, matches-mess, matches-stream, matches-diff, matches-number_field,
  matches-end,
}
use net_radio.Message.Wire
use net_radio.Message.Wire.{Message, kind, args, IsWritable, text_field, fields, name, wire}

-- DIFF and OLDM are accepted only with a space at index 131 of their text field, all others always.
abbrev pub verdict : Message → Bool
verdict (Wire.diff n i m) = head_is b' ' (drop 131 (text_field msg_mess_size m))
verdict (Wire.oldm n i m) = head_is b' ' (drop 131 (text_field msg_mess_size m))
verdict _ = true

matches-fields :
    (m : Message) → HasNaturals m → matches (checked (kind m)) (fields m ++ msg_end) ≡ verdict m
unfolding kind fields
matches-fields (Wire.diff n i m) h = matches-diff n i m h
matches-fields (Wire.oldm n i m) h = matches-diff n i m h
matches-fields (Wire.mess i m) h = matches-mess i m
matches-fields (Wire.item s) (h1, h2) = matches-stream s h1 h2
matches-fields (Wire.regi s) (h1, h2) = matches-stream s h1 h2
matches-fields (Wire.last n) h = matches-number_field msg_nb_mess_size [] n msg_end h ∙ matches-end
matches-fields (Wire.linb n) h = matches-number_field msg_num_diff_size [] n msg_end h ∙ matches-end
matches-fields _ h = matches-end

-- The first four characters name the type, and the fields stand behind them.
kind_of-wire : (m : Message) → kind_of (take msg_type_size (wire m)) ≡ kind m
unfolding kind_of wire name kind
kind_of-wire Wire.ackm = refl
kind_of-wire _ = refl

drop-wire : (m : Message) → drop msg_type_size (wire m) ≡ fields m ++ msg_end
unfolding wire name
drop-wire Wire.ackm = refl
drop-wire _ = refl

has_len-wire : (m : Message) → has_len (length (wire m)) (kind m) ≡ true
has_len-wire m = rw (msglen-wire m, has_len) (ground arith)

conforms-wire : (m : Message) → HasNaturals m → conforms (wire m) ≡ verdict m
unfolding conforms
conforms-wire m h = rw (kind_of-wire m, has_len-wire m, drop-wire m) (matches-fields m h)

-- A message that `create_message` has written is read by `verify_msg` with this verdict: every type is
-- accepted but DIFF and OLDM, which are accepted exactly if the character at index 131 of the text
-- field is a space. The numbers of the message are not negative, its texts hold no '\0', and the
-- buffer has room.
pub verify_msg-create_message :
    (malloc : ℕ → Option Bytes) (m : Message) (buf : Bytes)
    → IsWritable m
    → HasNaturals m
    → length (wire m) + 1 ≤ length buf
    → (out : Bytes) × (create_message malloc (some buf) (kind m) (args m) ≡ some (message out))
      × (verify_msg out ≡ some (verdict m))
verify_msg-create_message malloc m buf ok naturals room =
    let behind = drop (length (wire m) + 1) buf in
    (
      wire m ++ 0 ∷ behind,
      create_message-wire malloc m buf ok room,
      verify_msg-conforms (wire m) behind (wire-IsText m ok) ∙ ap some (conforms-wire m naturals),
    )

head_is-short :
    (m : Bytes) → length m ≤ 131 → head_is b' ' (drop 131 (text_field msg_mess_size m)) ≡ false
unfolding head_is text_field
head_is-short m h =
    let n = length m in
    rw
      (
        take-eq_self 140 m (omega arith),
        drop-append_of_ge 131 m (replicate (140 - n) default_char) h,
        drop-replicate (131 - n) (140 - n) default_char,
      )
      (let nine : 140 - n - (131 - n) ≡ 9 = omega arith in rw nine)

-- The bytes of a DIFF or OLDM in the protocol's format are refused by `verify_msg` if the text has at
-- most 131 characters. The number is not negative, the id and the text hold no '\0', and anything may
-- stand behind the '\0' of the message.
pub verify_msg-short_diff :
    (n : ℤ) (i m r : Bytes)
    → IsWritable (Wire.diff n i m)
    → IsNatural n
    → length m ≤ 131
    → (verify_msg (wire (Wire.diff n i m) ++ 0 ∷ r) ≡ some false)
      × (verify_msg (wire (Wire.oldm n i m) ++ 0 ∷ r) ≡ some false)
verify_msg-short_diff n i m r ok natural short =
    let refused = head_is-short m short in
    (
      verify_msg-conforms _ r (wire-IsText (Wire.diff n i m) ok)
          ∙ ap some (conforms-wire (Wire.diff n i m) natural ∙ refused),
      verify_msg-conforms _ r (wire-IsText (Wire.oldm n i m) ok)
          ∙ ap some (conforms-wire (Wire.oldm n i m) natural ∙ refused),
    )
