-- ===== src/Message/Build/Fields.antt =====
-- Each function of c/message.c that adds a field appends exactly that field to the text in the
-- buffer, if there is room.
use native.Mathlib.Numerals.{add-one}
use net_radio.Libc.Decimal.{format_int-IsText}
use net_radio.Common.{
  drop-cons, ℕ, ◌+◌, ◌-◌, ◌≤◌, ◌≡◌, refl, Option, some, [], ◌∷◌, ◌++◌, append_assoc, Bytes, ◌>>=◌,
  ℤ, length, take, drop, replicate, length-append, length-concat, length-drop, length-take,
  length-replicate, drop-drop, drop-append_left, All-append, All-take, All-replicate, arith,
}
use net_radio.Memory.{poke, memmove}
use net_radio.Memory.Strings.{
  IsText, strlen-append, strcat-append, text_prefix-append, memmove-append, poke-append,
}
use net_radio.Message.Types.{separator_char, default_char, msg_end}
use net_radio.Message.Build.{add_separator, add_int, add_string, add_msg_end}
use net_radio.Message.Wire.{int_field, text_field}

-- `step` appends `t` to the text in the buffer and goes on with `k` of the buffer.
abbrev pub Appends : {A : Type 0} → (Bytes → Option A) → Bytes → (Bytes → A) → Type 0
Appends step t k =
    (s r : Bytes)
    → IsText s
    → length t ≤ length r
    → step (s ++ 0 ∷ r) ≡ some (k ((s ++ t) ++ 0 ∷ drop (length t) r))

pub last-Appends :
    {A B : Type 0} (f : Bytes → Option A) (g : A → B) {t : Bytes} (k : Bytes → A)
    → Appends f t k
    → Appends (λ b. f b >>= λ x. some (g x)) t (λ b. g (k b))
last-Appends f g k hf s r hs h = rw (hf s r hs h)

pub then-Appends :
    {A B : Type 0} (f : Bytes → Option A) (g : A → Option B) {t u : Bytes} (k : Bytes → A)
    (k' : Bytes → B)
    → IsText t
    → Appends f t k
    → Appends (λ b. g (k b)) u k'
    → Appends (λ b. f b >>= g) (t ++ u) k'
then-Appends f g {t} {u} k k' ht hf hg s r hs h =
    rw
      (
        hf s r hs (omega (arith, length-append t u)),
        hg (s ++ t) (drop (length t) r) (All-append _ s t hs ht)
            (omega (arith, length-append t u, length-drop (length t) r)),
        append_assoc s t u,
        drop-drop,
        length-append t u,
      )
      refl

pub separator-Appends : Appends add_separator (separator_char ∷ []) (λ b. b)
unfolding add_separator
separator-Appends s [] hs h = elim h [ ]
separator-Appends s (x ∷ r) hs h =
    rw (strlen-append s (x ∷ r) hs, poke-append s 0 separator_char (x ∷ r), add-one, append_assoc)
      (simp (length-concat, append_assoc) at (poke-append (s ++ separator_char ∷ []) x 0 r))

pub int_field-IsText : (w : ℕ) (n : ℤ) → IsText (int_field w n)
unfolding int_field
int_field-IsText w n = All-take _ w _ (format_int-IsText w n)

pub int-Appends : (w : ℕ) (n : ℤ) → Appends (λ b. add_int b n w) (int_field w n) (λ b. b)
unfolding add_int int_field
int-Appends w n s r hs h =
    rw append_assoc (strcat-append (int_field w n) s r hs (int_field-IsText w n) h)

pub end-Appends : Appends add_msg_end msg_end (λ b. b)
unfolding add_msg_end
end-Appends s r hs h = rw append_assoc (strcat-append msg_end s r hs (omega arith) h)

pub text_field-IsText : (w : ℕ) (s : Bytes) → IsText s → IsText (text_field w s)
unfolding text_field
text_field-IsText w s hs =
    All-append _ (take w s) _ (All-take _ w s hs) (All-replicate _ _ default_char (omega arith))

pub length-text_field : (w : ℕ) (s : Bytes) → length (text_field w s) ≡ w
unfolding text_field
length-text_field w s =
    let filled = w - length (take w s) in
    omega (
      arith,
      length-append (take w s) (replicate filled default_char),
      length-take w s,
      length-replicate {A = ℕ} filled default_char,
    )

zeros : ℕ → Bytes → Bytes
zeros w p = replicate (w - length p) 0

filler : ℕ → Bytes → Bytes
filler w p = replicate (w - length p) default_char

length-zeros : (w : ℕ) (p : Bytes) → length (zeros w p) ≡ w - length p
unfolding zeros
length-zeros w p = length-replicate _ 0

length-filler : (w : ℕ) (p : Bytes) → length (filler w p) ≡ w - length p
unfolding filler
length-filler w p = length-replicate _ default_char

-- `stpncpy`, `memset` and the closing '\0', with `p` the copied prefix.
module _ (s p r : Bytes) (w : ℕ) (fits : length p ≤ w) (room : w ≤ length r) where
  copied :
      memmove (length s) (p ++ zeros w p) (s ++ 0 ∷ r)
      ≡ some ((s ++ p) ++ (zeros w p ++ drop w (0 ∷ r)))
  copied =
      let len : length (p ++ zeros w p) ≡ w =
        omega (arith, length-append p (zeros w p), length-zeros w p) in
      rw (memmove-append (p ++ zeros w p) s (0 ∷ r) (omega arith), len) (simp append_assoc)

  filled :
      memmove (length s + length p) (filler w p) ((s ++ p) ++ (zeros w p ++ drop w (0 ∷ r)))
      ≡ some (((s ++ p) ++ filler w p) ++ drop w (0 ∷ r))
  filled =
      let same : length (filler w p) ≡ length (zeros w p) =
        omega (arith, length-zeros w p, length-filler w p) in
      let behind = length-append (zeros w p) (drop w (0 ∷ r)) in
      rw
        (
          ← length-append s p,
          memmove-append (filler w p) (s ++ p) (zeros w p ++ drop w (0 ∷ r))
              (omega (arith, same, behind)),
          same,
          drop-append_left,
        )
        (simp append_assoc)

  closed :
      poke (length s + w) 0 (((s ++ p) ++ filler w p) ++ drop w (0 ∷ r))
      ≡ some (((s ++ p) ++ filler w p) ++ 0 ∷ drop w r)
  closed =
      let (y, e) = drop-cons w 0 r room in
      let len : length ((s ++ p) ++ filler w p) ≡ length s + w =
        omega (arith, length-append (s ++ p) (filler w p), length-append s p, length-filler w p) in
      rw (e, ← len) (poke-append ((s ++ p) ++ filler w p) y 0 (drop w r))

pub string-Appends :
    (w : ℕ) (t rest : Bytes)
    → IsText t
    → Appends (λ b. add_string b (t ++ 0 ∷ rest) w) (text_field w t) (λ b. b)
unfolding add_string zeros filler text_field
string-Appends w t rest ht s r hs h =
    let p = take w t in
    let fits : length p ≤ w = omega (arith, length-take w t) in
    let room : w ≤ length r = omega (arith, length-text_field w t) in
    rw
      (
        strlen-append s r hs,
        text_prefix-append w t rest ht,
        copied s p r w fits room,
        filled s p r w fits room,
        closed s p r w fits room,
        length-text_field w t,
      )
      (simp append_assoc)
