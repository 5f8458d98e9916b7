-- ===== src/Message/Verify/Matches.antt =====
-- The formats of Grammar, read on the bytes of a message, field by field.
use net_radio.Common.{
  ℕ, ◌<◌, ◌≡◌, refl, ap, ◌∙◌, Bool, true, false, ◌&&◌, List, [], ◌∷◌, ◌++◌, append_assoc, Bytes,
  length, drop, drop-append_left, drop-append_of_le, drop-drop, length-drop, arith, ℤ, pos, negsuc,
  All, All-take, sym,
}
use net_radio.Libc.Decimal.{IsDigit, fixed, format_int-IsDigit, fixed-IsDigit, length-fixed}
use net_radio.Message.Types
use net_radio.Message.Types.{
  msg_end, msg_id_size, msg_mess_size, msg_nb_mess_size, msg_num_diff_size, msg_num_mess_size,
  separator_char, msglen, kind_of, msg_type_size, has_len,
}
use net_radio.Message.Build.Fields.{length-text_field}
use net_radio.Message.Build.Length.{length-int_field}
use net_radio.Message.Verify.Grammar.{
  endpoint, space, Field, char, digits, any, head_is, starts_digits, matches, checked,
}
use net_radio.Message.Wire
use net_radio.Message.Wire.{
  Message, Stream, kind, IsWritable, int_field, text_field, ip_field, id_mess_fields,
  endpoint_fields, stream_fields, number_field, fields, name, wire,
}

abbrev pub IsNatural : ℤ → Type 0
IsNatural (pos n) = Unit
IsNatural (negsuc n) = ⊥

-- The numbers of the message are not negative.
abbrev pub HasNaturals : Message → Type 0
HasNaturals (Wire.diff n i m) = IsNatural n
HasNaturals (Wire.oldm n i m) = IsNatural n
HasNaturals (Wire.item s) = IsNatural s.port1 × IsNatural s.port2
HasNaturals (Wire.regi s) = IsNatural s.port1 × IsNatural s.port2
HasNaturals (Wire.last n) = IsNatural n
HasNaturals (Wire.linb n) = IsNatural n
HasNaturals _ = Unit

starts_digits-append :
    (t rest : Bytes) → All IsDigit t → starts_digits (length t) (t ++ rest) ≡ true
unfolding starts_digits
starts_digits-append [] rest h = refl
starts_digits-append (c ∷ t) rest (hc, ht) = ground (arith, starts_digits-append t rest ht)

matches-digits :
    (w : ℕ) (fs : List Field) (t rest : Bytes)
    → All IsDigit t
    → length t ≡ w
    → matches (digits w ∷ fs) (t ++ rest) ≡ matches fs rest
unfolding matches
matches-digits w fs t rest h e =
    rw (← e) (rw (starts_digits-append t rest h, drop-append_left t rest))

matches-any :
    (w : ℕ) (fs : List Field) (t rest : Bytes)
    → length t ≡ w
    → matches (any w ∷ fs) (t ++ rest) ≡ matches fs rest
unfolding matches
matches-any w fs t rest e = rw (← e) (rw (drop-append_left t rest))

matches-char :
    (c : ℕ) (fs : List Field) (rest : Bytes) → matches (char c ∷ fs) (c ∷ rest) ≡ matches fs rest
unfolding head_is matches
matches-char c fs rest = ground arith

int_field-IsDigit : (w : ℕ) (n : ℤ) → IsNatural n → All IsDigit (int_field w n)
unfolding int_field
int_field-IsDigit w (pos n) h = All-take _ w _ (format_int-IsDigit w n)
int_field-IsDigit w (negsuc n) h = absurd h

matches-int_field :
    (w : ℕ) (fs : List Field) (n : ℤ) (rest : Bytes)
    → IsNatural n
    → matches (digits w ∷ fs) (int_field w n ++ rest) ≡ matches fs rest
matches-int_field w fs n rest h =
    matches-digits w fs (int_field w n) rest (int_field-IsDigit w n h) (length-int_field w n)

matches-text_field :
    (w : ℕ) (fs : List Field) (t rest : Bytes)
    → matches (any w ∷ fs) (text_field w t ++ rest) ≡ matches fs rest
matches-text_field w fs t rest = matches-any w fs (text_field w t) rest (length-text_field w t)

matches-fixed :
    (fs : List Field) (n : ℕ) (rest : Bytes)
    → matches (digits 3 ∷ fs) (fixed 3 n ++ rest) ≡ matches fs rest
matches-fixed fs n rest =
    matches-digits 3 fs (fixed 3 n) rest (fixed-IsDigit 3 n) (length-fixed 3 n)

pub matches-number_field :
    (w : ℕ) (fs : List Field) (n : ℤ) (rest : Bytes)
    → IsNatural n
    → matches (char b' ' ∷ digits w ∷ fs) (number_field w n ++ rest) ≡ matches fs rest
unfolding number_field
matches-number_field w fs n rest h =
    matches-char b' ' (digits w ∷ fs) (int_field w n ++ rest) ∙ matches-int_field w fs n rest h

pub matches-end : matches [] msg_end ≡ true
unfolding head_is matches
matches-end = refl

pub matches-mess :
    (i m : Bytes) → matches (checked Types.mess) (id_mess_fields i m ++ msg_end) ≡ true
unfolding id_mess_fields
matches-mess i m = simp (append_assoc, matches-char, matches-text_field) matches-end

matches-endpoint :
    (fs : List Field) (a : ℕ) (port : ℤ) (rest : Bytes)
    → IsNatural port
    → matches (endpoint fs) (endpoint_fields a port ++ rest) ≡ matches fs rest
unfolding endpoint_fields ip_field
matches-endpoint fs a port rest h =
    simp (append_assoc, matches-char, matches-fixed) (matches-int_field 4 fs port rest h)

pub matches-stream :
    (s : Stream)
    → IsNatural s.port1
    → IsNatural s.port2
    → matches (checked Types.item) (stream_fields s ++ msg_end) ≡ true
unfolding stream_fields
matches-stream s h1 h2 =
    simp (append_assoc, matches-char, matches-text_field)
      (matches-endpoint (endpoint []) s.ip1 s.port1 (endpoint_fields s.ip2 s.port2 ++ msg_end) h1
        ∙ (matches-endpoint [] s.ip2 s.port2 msg_end h2 ∙ matches-end))

head_is-append : (c : ℕ) (s rest : Bytes) → 0 < length s → head_is c (s ++ rest) ≡ head_is c s
unfolding head_is
head_is-append c [] rest h = elim h [ ]
head_is-append c (x ∷ s) rest h = refl

and_true : (b : Bool) → (b && (head_is b'\r' msg_end && head_is b'\n' (b'\n' ∷ []))) ≡ b
unfolding head_is
and_true true = refl
and_true false = refl

-- DIFF and OLDM: the code looks for its last separator in the middle of the text.
matches-late_separator :
    (i t : Bytes)
    → length i ≡ 8
    → length t ≡ 140
    → matches (any 140 ∷ space ∷ any 8 ∷ []) (i ++ b' ' ∷ (t ++ msg_end))
      ≡ head_is b' ' (drop 131 t)
unfolding matches
matches-late_separator i t hi ht =
    let skip : drop 140 (i ++ b' ' ∷ (t ++ msg_end)) ≡ drop 131 (t ++ msg_end) =
      sym (drop-drop 8 132 (i ++ b' ' ∷ (t ++ msg_end)))
      ∙ ap (drop 132)
          (ap (λ k. drop k (i ++ b' ' ∷ (t ++ msg_end))) (sym hi) ∙ drop-append_left i _) in
    let last : drop 140 (t ++ msg_end) ≡ msg_end =
      ap (λ k. drop k (t ++ msg_end)) (sym ht) ∙ drop-append_left t msg_end in
    let rest : 0 < length (drop 131 t) = omega (arith, length-drop 131 t) in
    let end : drop 9 (drop 131 t ++ msg_end) ≡ msg_end =
      ap (drop 9) (sym (drop-append_of_le 131 t msg_end (omega arith)))
      ∙ (drop-drop 131 9 (t ++ msg_end) ∙ last) in
    simp
      (
        skip,
        drop-drop,
        drop-append_of_le 131 t msg_end (omega arith),
        end,
        head_is-append b' ' (drop 131 t) msg_end rest,
      )
      (and_true (head_is b' ' (drop 131 t)))

pub matches-diff :
    (n : ℤ) (i m : Bytes)
    → IsNatural n
    → matches
        (checked Types.diff)
        ((number_field msg_num_mess_size n ++ id_mess_fields i m) ++ msg_end)
      ≡ head_is b' ' (drop 131 (text_field msg_mess_size m))
unfolding id_mess_fields
matches-diff n i m h = simp append_assoc (
    matches-number_field 4 _ n _ h
    ∙ (matches-char b' ' _ _
        ∙ matches-late_separator (text_field msg_id_size i) (text_field msg_mess_size m)
            (length-text_field msg_id_size i) (length-text_field msg_mess_size m)))
