-- ===== src/Memory/Strings.antt =====
-- What the string functions do to an array that holds a text.
use net_radio.Common.{
  Bool, not, ◌&&◌, and-eq_true, Bool-cases, ◌==◌, inl, inr, >>=-eq-some, ℕ, zero, suc, ◌+◌, ◌≤◌,
  ◌≡◌, ◌≢◌, refl, ap, some, [], ◌∷◌, ◌++◌, append_assoc, Bytes, take, drop, length, length-concat,
  All, true, arith,
}
use native.Mathlib.Numerals.{add-one}
use net_radio.Memory.{poke, memmove, strlen, text, text_prefix, str_eq, strcpy, strcat}

-- Text: no '\0' among the bytes.
abbrev pub IsText : Bytes → Type 0
IsText = All (λ b. b ≢ 0)

-- The same as a test.
unfoldable pub plain : Bytes → Bool
plain [] = true
plain (c ∷ s) = not (c == 0) && plain s

pub plain-IsText : (s : Bytes) → plain s ≡ true → IsText s
unfolding plain
plain-IsText [] h = tt
plain-IsText (c ∷ s) h =
    let (nonzero, rest) = and-eq_true (not (c == 0)) (plain s) h in
    (ground arith, plain-IsText s rest)

pub text-append : (s r : Bytes) → IsText s → text (s ++ 0 ∷ r) ≡ some s
unfolding text
text-append [] r h = refl
text-append (x ∷ s) r (hx, hs) = ground (arith, text-append s r hs)

-- Every text that is found lies at the front of its array, with its '\0' behind it.
pub text-eq_some :
    (m : Bytes) {t : Bytes} → text m ≡ some t → IsText t × ((r : Bytes) × (m ≡ t ++ 0 ∷ r))
unfolding text
text-eq_some [] h = cc
text-eq_some (x ∷ m) {t} h = elim (Bool-cases (x == 0)) [
  | inl e ↦ let t_nil : t ≡ [] = ground arith in (rw t_nil tt, (m, ground arith))
  | inr e ↦
      let (t', found, t_eq) = >>=-eq-some (text m) _ (rw e at h) in
      let (t'_text, (r, m_eq)) = text-eq_some m found in
      let t_cons : t ≡ x ∷ t' = ground arith in
      (rw t_cons (ground arith, t'_text), (r, rw t_cons (ap (λ k. x ∷ k) m_eq)))
]

pub text_prefix-append :
    (w : ℕ) (s r : Bytes) → IsText s → text_prefix w (s ++ 0 ∷ r) ≡ some (take w s)
unfolding text_prefix
text_prefix-append zero s r h = refl
text_prefix-append (suc w) [] r h = refl
text_prefix-append (suc w) (x ∷ s) r (hx, hs) = ground (arith, text_prefix-append w s r hs)

pub text_prefix-IsText : (w : ℕ) (m : Bytes) {t : Bytes} → text_prefix w m ≡ some t → IsText t
unfolding text_prefix
text_prefix-IsText zero m {t} h = let e : t ≡ [] = ground arith in rw e tt
text_prefix-IsText (suc w) [] h = cc
text_prefix-IsText (suc w) (x ∷ m) {t} h = elim (Bool-cases (x == 0)) [
  | inl e ↦ let t_nil : t ≡ [] = ground arith in rw t_nil tt
  | inr e ↦
      let (t', found, t_eq) = >>=-eq-some (text_prefix w m) _ (rw e at h) in
      let t_cons : t ≡ x ∷ t' = ground arith in
      rw t_cons (ground arith, text_prefix-IsText w m found)
]

pub str_eq-eq_true : (s t : Bytes) → str_eq s t ≡ true → s ≡ t
unfolding str_eq
str_eq-eq_true [] [] h = refl
str_eq-eq_true [] (b ∷ t) h = cc
str_eq-eq_true (a ∷ s) [] h = cc
str_eq-eq_true (a ∷ s) (b ∷ t) h = ground (arith, str_eq-eq_true s t)

pub strlen-append : (s r : Bytes) → IsText s → strlen (s ++ 0 ∷ r) ≡ some (length s)
unfolding strlen
strlen-append [] r h = refl
strlen-append (x ∷ s) r (hx, hs) = ground (arith, strlen-append s r hs)

pub poke-append :
    (s : Bytes) (x v : ℕ) (r : Bytes) → poke (length s) v (s ++ x ∷ r) ≡ some (s ++ v ∷ r)
unfolding poke
poke-append [] x v r = refl
poke-append (y ∷ s) x v r = rw (poke-append s x v r)

-- A run that fits replaces as many bytes behind `s`.
pub memmove-append :
    (t s r : Bytes)
    → length t ≤ length r
    → memmove (length s) t (s ++ r) ≡ some (s ++ (t ++ drop (length t) r))
unfolding memmove
memmove-append [] s r h = refl
memmove-append (b ∷ t) s [] h = elim h [ ]
memmove-append (b ∷ t) s (x ∷ r) h =
    rw (poke-append s x b r)
      (simp (length-concat, append_assoc) at (memmove-append t (s ++ b ∷ []) r (omega arith)))

pub strcpy-append :
    (t s r q : Bytes)
    → IsText t
    → length t + 1 ≤ length r
    → strcpy (length s) (t ++ 0 ∷ q) (s ++ r) ≡ some (s ++ (t ++ 0 ∷ drop (length t + 1) r))
unfolding strcpy
strcpy-append t s r q ht h =
    rw
      (
        text-append t q ht,
        memmove-append (t ++ 0 ∷ []) s r (omega (arith, length-concat t 0)),
        length-concat,
        add-one,
        append_assoc,
      )
      refl

-- `strcat` on an array with a text and enough room behind it.
pub strcat-append :
    (t s r : Bytes)
    → IsText s
    → IsText t
    → length t ≤ length r
    → strcat (t ++ 0 ∷ []) (s ++ 0 ∷ r) ≡ some (s ++ (t ++ 0 ∷ drop (length t) r))
unfolding strcat
strcat-append t s r hs ht h =
    rw (strlen-append s r hs) (rw (strcpy-append t s (0 ∷ r) [] ht (omega arith), add-one) refl)
