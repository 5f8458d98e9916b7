-- ===== src/Message/Verify/Reads.antt =====
-- The reads of `verify_msg` inside a text.
use net_radio.Common.{
  ℕ, zero, suc, ◌+◌, ◌≤◌, ◌<◌, ◌≡◌, refl, Bool, true, false, ◌&&◌, some, [], ◌∷◌, ◌++◌,
  append_assoc, Bytes, ◌and_then◌, length, drop, take, replicate, replicate-concat, All-take, arith,
  ◌-◌,
}
use net_radio.Memory.{text, ncpy_bytes}
use net_radio.Memory.Strings.{IsText, text-append, text_prefix-append}
use net_radio.Message.Types.{get_msg_type, kind_of, msg_type_size}
use net_radio.Message.Verify.{char_is, verify_int}
use net_radio.Message.Verify.Grammar.{head_is, starts_digits}

pub and_then-some : (a b : Bool) → (some a and_then some b) ≡ some (a && b)
and_then-some true b = refl
and_then-some false b = refl

pub and_assoc : (a b c : Bool) → ((a && b) && c) ≡ (a && (b && c))
and_assoc true b c = refl
and_assoc false b c = refl

pub char_is-drop :
    (c k : ℕ) (s r : Bytes)
    → k < length s
    → char_is c (drop k (s ++ 0 ∷ r)) ≡ some (head_is c (drop k s))
unfolding char_is head_is
char_is-drop c k [] r h = elim h [ ]
char_is-drop c zero (x ∷ s) r h = refl
char_is-drop c (suc k) (x ∷ s) r h = char_is-drop c k s r (omega arith)

verify_int-append :
    (w : ℕ) (s r : Bytes) → w ≤ length s → verify_int (s ++ 0 ∷ r) w ≡ some (starts_digits w s)
unfolding verify_int starts_digits
verify_int-append zero s r h = refl
verify_int-append (suc w) [] r h = elim h [ ]
verify_int-append (suc w) (c ∷ s) r h = ground (arith, verify_int-append w s r)

pub verify_int-drop :
    (k w : ℕ) (s r : Bytes)
    → k + w ≤ length s
    → verify_int (drop k (s ++ 0 ∷ r)) w ≡ some (starts_digits w (drop k s))
verify_int-drop zero w s r h = verify_int-append w s r (omega arith)
verify_int-drop (suc k) w [] r h = absurd (omega arith)
verify_int-drop (suc k) w (x ∷ s) r h = verify_int-drop k w s r (omega arith)

pub copied : (t : Bytes) → IsText t → text (ncpy_bytes msg_type_size t ++ 0 ∷ []) ≡ some t
copied t h =
    let pad = msg_type_size - length t in
    rw (append_assoc, replicate-concat {A = ℕ} pad 0) (text-append t (replicate pad 0) h)

-- `get_msg_type` reads at most four characters of a text.
pub get_msg_type-append :
    (s r : Bytes) → IsText s → get_msg_type (s ++ 0 ∷ r) ≡ some (kind_of (take msg_type_size s))
unfolding get_msg_type
get_msg_type-append s r h =
    rw (text_prefix-append msg_type_size s r h)
      (rw (copied (take msg_type_size s) (All-take _ msg_type_size s h)))
