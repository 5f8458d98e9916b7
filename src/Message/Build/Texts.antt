-- ===== src/Message/Build/Texts.antt =====
-- The string arguments of `create_message` are read up to their '\0'.
use net_radio.Common.{ℕ, ◌≡◌, refl, Option, some, [], ◌∷◌, ◌++◌, Bytes, ◌>>=◌}
use net_radio.Memory.Strings.{IsText, text_prefix-append}
use net_radio.Message.Types.{mess, msglen, msg_id_size, msg_mess_size}
use net_radio.Message.Build.{
  str, add_separator, add_string, va_str, add_id_mess, add_fields, set_msg_type, add_msg_end,
  message, write_message, create_in, create_message,
}

add_string-text :
    (s r : Bytes) (w : ℕ) (buf : Bytes)
    → IsText s
    → add_string buf (s ++ 0 ∷ r) w ≡ add_string buf (s ++ 0 ∷ []) w
unfolding add_string
add_string-text s r w buf h = rw (text_prefix-append w s r h, text_prefix-append w s [] h) refl

add_id_mess-texts :
    (ret i r m q : Bytes)
    → IsText i
    → IsText m
    → add_id_mess ret (str (i ++ 0 ∷ r) ∷ str (m ++ 0 ∷ q) ∷ [])
      ≡ add_id_mess ret (str (i ++ 0 ∷ []) ∷ str (m ++ 0 ∷ []) ∷ [])
unfolding add_id_mess va_str
add_id_mess-texts ret i r m q hi hm = λ j. add_separator ret >>= λ ret1.
    add_string-text i r msg_id_size ret1 hi j >>= λ ret2.
    add_separator ret2 >>= λ ret3. add_string-text m q msg_mess_size ret3 hm j

pub create_message-texts :
    (malloc : ℕ → Option Bytes) (buf i r m q : Bytes)
    → IsText i
    → IsText m
    → create_message malloc (some buf) mess (str (i ++ 0 ∷ r) ∷ str (m ++ 0 ∷ q) ∷ [])
      ≡ create_message malloc (some buf) mess (str (i ++ 0 ∷ []) ∷ str (m ++ 0 ∷ []) ∷ [])
unfolding create_message create_in write_message add_fields msglen
create_message-texts malloc buf i r m q hi hm = λ j. set_msg_type buf mess >>= λ ret1.
    add_id_mess-texts ret1 i r m q hi hm j >>= λ ret2.
    add_msg_end ret2 >>= λ ret3. some (message ret3)
