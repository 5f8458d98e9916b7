-- ===== src/Message/Verify/Conforms.antt =====
-- `verify_msg` against the formats of Grammar; it reads only inside the text and its '\0'.
use net_radio.Common.{
  ap, ◌∙◌, ℕ, ◌+◌, ◌≤◌, ◌<◌, ◌≡◌, refl, Bool, false, ◌&&◌, ◌||◌, some, ◌∷◌, ◌++◌, Bytes, ◌==◌, ltb,
  length, drop, drop-drop, take, arith, Bool-cases, inl, inr, ==-eq_true, if◌then◌else◌,
}
use net_radio.Memory.Strings.{IsText, strlen-append}
use net_radio.Message.Types.{
  MsgType, ackm, diff, item, last, linb, mess, oldm, regi, unknown, kind_of, msg_type_size, has_len,
  msglen, max_msg_size,
}
use net_radio.Message.Verify.{
  verify_msg, verify_fields, verify_diff, verify_mess, verify_item, verify_last, verify_linb,
  verify_plain, verify_separator, verify_ip_addr, verify_end, is_unknown,
}
use net_radio.Message.Verify.Reads.{
  and_assoc, and_then-some, char_is-drop, verify_int-drop, get_msg_type-append,
}
use net_radio.Message.Verify.Grammar.{
  head_is, starts_digits, ends, checked, matches, conforms, format, is_misread, misread_fields,
}

abbrev expected : MsgType → Bytes → Bool
expected type s = has_len (length s) type && matches (checked type) (drop msg_type_size s)

ruleset expected_laws = (and_then-some, and_assoc, drop-drop)

-- The reads of an address at index `k`.
abbrev is_address : Bytes → Bool
is_address s =
    starts_digits 3 s
    && (head_is b'.' (drop 3 s)
        && (starts_digits 3 (drop 4 s)
            && (head_is b'.' (drop 7 s)
                && (starts_digits 3 (drop 8 s)
                    && (head_is b'.' (drop 11 s) && starts_digits 3 (drop 12 s))))))

module _ (s r : Bytes) where
  verify_end-drop :
      (k : ℕ) → k + 2 ≤ length s → verify_end (drop k (s ++ 0 ∷ r)) ≡ some (ends (drop k s))
  unfolding verify_end
  verify_end-drop k h =
      rw
        (
          drop-drop k 1 (s ++ 0 ∷ r),
          char_is-drop b'\r' k s r (omega arith),
          char_is-drop b'\n' (k + 1) s r (omega arith),
          drop-drop k 1 s,
        )
        (and_then-some _ _)

  verify_ip_addr-drop :
      (k : ℕ)
      → k + 15 ≤ length s
      → verify_ip_addr (drop k (s ++ 0 ∷ r)) ≡ some (is_address (drop k s))
  unfolding verify_ip_addr
  verify_ip_addr-drop k h =
      let char_at = λ (j : ℕ) (p : j < 15). char_is-drop b'.' (k + j) s r (omega arith) in
      let int_at = λ (j : ℕ) (p : j + 3 ≤ 15). verify_int-drop (k + j) 3 s r (omega arith) in
      simp (
        drop-drop,
        verify_int-drop k 3 s r (omega arith),
        char_at 3 (omega arith),
        int_at 4 (omega arith),
        char_at 7 (omega arith),
        int_at 8 (omega arith),
        char_at 11 (omega arith),
        int_at 12 (omega arith),
        and_then-some,
      )

  verify_separator-drop :
      (k : ℕ)
      → k < length s
      → verify_separator (drop k (s ++ 0 ∷ r)) ≡ some (head_is b' ' (drop k s))
  unfolding verify_separator
  verify_separator-drop k h = char_is-drop b' ' k s r h

  verify_last-expected : verify_last (length s) (s ++ 0 ∷ r) ≡ some (expected last s)
  unfolding verify_last msglen matches
  verify_last-expected = elim (Bool-cases (length s == 10)) [
    | inl e ↦
        let n = ==-eq_true (length s) 10 e in
        rw
          (
            e,
            verify_separator-drop 4 (omega arith),
            verify_int-drop 5 3 s r (omega arith),
            verify_end-drop 8 (omega arith),
          )
          (simp expected_laws)
    | inr e ↦ rw e
  ]

  verify_linb-expected : verify_linb (length s) (s ++ 0 ∷ r) ≡ some (expected linb s)
  unfolding verify_linb msglen matches
  verify_linb-expected = elim (Bool-cases (length s == 9)) [
    | inl e ↦
        let n = ==-eq_true (length s) 9 e in
        rw
          (
            e,
            verify_separator-drop 4 (omega arith),
            verify_int-drop 5 2 s r (omega arith),
            verify_end-drop 7 (omega arith),
          )
          (simp expected_laws)
    | inr e ↦ rw e
  ]

  verify_mess-expected : verify_mess (length s) (s ++ 0 ∷ r) ≡ some (expected mess s)
  unfolding verify_mess msglen matches
  verify_mess-expected = elim (Bool-cases (length s == 156)) [
    | inl e ↦
        let n = ==-eq_true (length s) 156 e in
        rw
          (
            e,
            verify_separator-drop 4 (omega arith),
            verify_separator-drop 13 (omega arith),
            verify_end-drop 154 (omega arith),
          )
          (simp expected_laws)
    | inr e ↦ rw e
  ]

  verify_diff-expected : verify_diff (length s) (s ++ 0 ∷ r) ≡ some (expected diff s)
  unfolding verify_diff msglen matches
  verify_diff-expected = elim (Bool-cases (length s == 161)) [
    | inl e ↦
        let n = ==-eq_true (length s) 161 e in
        rw
          (
            e,
            verify_separator-drop 4 (omega arith),
            verify_int-drop 5 4 s r (omega arith),
            verify_separator-drop 9 (omega arith),
            verify_separator-drop 150 (omega arith),
            verify_end-drop 159 (omega arith),
          )
          (simp expected_laws)
    | inr e ↦ rw e
  ]

  verify_item-expected : verify_item (length s) (s ++ 0 ∷ r) ≡ some (expected item s)
  unfolding verify_item msglen matches
  verify_item-expected = elim (Bool-cases (length s == 57)) [
    | inl e ↦
        let n = ==-eq_true (length s) 57 e in
        rw
          (
            e,
            verify_separator-drop 4 (omega arith),
            verify_separator-drop 13 (omega arith),
            verify_ip_addr-drop 14 (omega arith),
            verify_separator-drop 29 (omega arith),
            verify_int-drop 30 4 s r (omega arith),
            verify_separator-drop 34 (omega arith),
            verify_ip_addr-drop 35 (omega arith),
            verify_separator-drop 50 (omega arith),
            verify_int-drop 51 4 s r (omega arith),
            verify_end-drop 55 (omega arith),
          )
          (simp expected_laws)
    | inr e ↦ rw e
  ]

  verify_plain-expected :
      verify_plain (length s) (s ++ 0 ∷ r) ≡ some ((length s == 6) && ends (drop msg_type_size s))
  unfolding verify_plain msglen matches
  verify_plain-expected = elim (Bool-cases (length s == 6)) [
    | inl e ↦ let n = ==-eq_true (length s) 6 e in rw (e, verify_end-drop 4 (omega arith))
    | inr e ↦ rw e
  ]

  verify_fields-expected :
      (type : MsgType) → verify_fields type (length s) (s ++ 0 ∷ r) ≡ some (expected type s)
  unfolding verify_fields msglen matches
  verify_fields-expected diff = verify_diff-expected
  verify_fields-expected oldm = verify_diff-expected
  verify_fields-expected mess = verify_mess-expected
  verify_fields-expected item = verify_item-expected
  verify_fields-expected regi = verify_item-expected
  verify_fields-expected last = verify_last-expected
  verify_fields-expected linb = verify_linb-expected
  verify_fields-expected unknown = refl
  verify_fields-expected _ = verify_plain-expected

-- The first test of `verify_msg` refuses nothing that the length of the type would allow.
guard-has_len :
    (type : MsgType) (n : ℕ) (b : Bool)
    → (if is_unknown type || ltb n 6 || ltb max_msg_size n
        then some false
        else some (has_len n type && b))
      ≡ some (has_len n type && b)
unfolding msglen
guard-has_len ackm n b = ground arith
guard-has_len _ n b = ground arith

-- On every text, `verify_msg` gives the verdict of the checked fields.
pub verify_msg-conforms : (s r : Bytes) → IsText s → verify_msg (s ++ 0 ∷ r) ≡ some (conforms s)
unfolding verify_msg conforms
verify_msg-conforms s r h =
    let type = kind_of (take msg_type_size s) in
    rw (get_msg_type-append s r h, strlen-append s r h, verify_fields-expected s r type)
      (guard-has_len type (length s) (matches (checked type) (drop msg_type_size s)))

-- The verdict of the format, or of what is looked at in its place.
format_verdict : MsgType → Bytes → Bool
format_verdict type s =
    has_len (length s) type
    && (if is_misread type then misread_fields s else matches (format type) (drop msg_type_size s))

expected-format_verdict : (type : MsgType) (s : Bytes) → expected type s ≡ format_verdict type s
unfolding format_verdict misread_fields matches
expected-format_verdict diff s = simp drop-drop
expected-format_verdict oldm s = simp drop-drop
expected-format_verdict _ s = refl

-- The verdict of `verify_msg` on a text, which holds no '\0'; nothing is read behind the text's end.
-- If its type is not DIFF or OLDM, it is accepted exactly if it has the length and the fields of the
-- protocol's format for its type. A DIFF or OLDM is accepted exactly if it has the length of its
-- type, a space behind the type, four digits, a space, and "\r\n" at the end, and a space at index
-- 150; the format has the space behind the id at index 18, and there the code does not look.
pub verify_msg-format :
    (s r : Bytes)
    → IsText s
    → let type = kind_of (take msg_type_size s) in
      verify_msg (s ++ 0 ∷ r)
      ≡ some (
          has_len (length s) type
          && (if is_misread type
              then misread_fields s
              else matches (format type) (drop msg_type_size s)))
unfolding format_verdict conforms
verify_msg-format s r h =
    verify_msg-conforms s r h ∙ ap some (expected-format_verdict (kind_of (take msg_type_size s)) s)
