-- ===== src/Libc/Decimal.antt =====
-- Decimal numbers: `printf ("%.*d")` and the octets of `inet_ntop`.
use native.Mathlib.Numerals.{sub-one}
use native.Mathlib.Nat.{suc-sub-suc}
use net_radio.Common.{
  replicate-concat, ℕ, zero, suc, ◌+◌, ◌-◌, ◌/◌, ◌%◌, ◌^◌, ◌≤◌, ◌<◌, ◌≡◌, ◌≢◌, refl, ap, [], ◌∷◌,
  ◌++◌, append_assoc, Bytes, ltb, if◌then◌else◌, ℤ, pos, negsuc, length, length-append,
  length-replicate, replicate, codes, All, All-append, All-replicate, arith, Bool-cases, inl, inr,
  lt-ltb, ltb-eq_true, length-concat,
}

abbrev pub IsDigit : ℕ → Type 0
IsDigit c = (b'0' ≤ c) × (c ≤ b'9')

-- The decimal digits of `n`; fuel `n` is enough, since each round divides by ten.
digits : ℕ → ℕ → Bytes
digits zero n = (b'0' + n % 10) ∷ []
digits (suc f) n =
    let rest = digits f (n / 10) in
    if ltb n 10 then (b'0' + n) ∷ [] else rest ++ (b'0' + n % 10) ∷ []

unfoldable pub decimal : ℕ → Bytes
unfolding digits
decimal n = digits n n

-- `"%.*d"`: the number with at least `w` digits.
unfoldable pub format_int : ℕ → ℤ → Bytes
unfolding decimal
format_int w (pos n) = let d = decimal n in replicate (w - length d) b'0' ++ d
format_int w (negsuc n) = let d = decimal (n + 1) in b'-' ∷ (replicate (w - length d) b'0' ++ d)

-- `inet_ntop` of an IPv4 address: its four bytes in decimal, with dots between.
-- An address is `ntohl (s_addr)`.
abbrev pub octet : ℕ → ℕ → ℕ
octet k a = a / 256 ^ (3 - k) % 256

unfoldable pub inet_ntop : ℕ → Bytes
unfolding decimal
inet_ntop a =
    decimal (octet 0 a)
    ++ b'.' ∷ (decimal (octet 1 a) ++ b'.' ∷ (decimal (octet 2 a) ++ b'.' ∷ decimal (octet 3 a)))

print_zero : decimal 0 ≡ codes "0"
unfolding decimal
print_zero = refl

print_ip : inet_ntop 0xc0a8000f ≡ codes "192.168.0.15"
unfolding inet_ntop
print_ip = refl

digits-IsDigit : (f n : ℕ) → All IsDigit (digits f n)
unfolding digits
digits-IsDigit zero n = ((omega arith, omega arith), tt)
digits-IsDigit (suc f) n = elim (Bool-cases (ltb n 10)) [
  | inl e ↦ rw e (ground arith)
  | inr e ↦
      rw e (All-append IsDigit (digits f (n / 10)) _ (digits-IsDigit f (n / 10)) (ground arith))
]

pub decimal-IsDigit : (n : ℕ) → All IsDigit (decimal n)
unfolding decimal
decimal-IsDigit n = digits-IsDigit n n

-- The last `w` decimal digits of `n`.
unfoldable pub fixed : ℕ → ℕ → Bytes
fixed zero n = []
fixed (suc w) n = fixed w (n / 10) ++ (b'0' + n % 10) ∷ []

pub length-fixed : (w n : ℕ) → length (fixed w n) ≡ w
unfolding fixed
length-fixed zero n = refl
length-fixed (suc w) n =
    omega (arith, length-append (fixed w (n / 10)) ((b'0' + n % 10) ∷ []), length-fixed w (n / 10))

fixed-zero : (w : ℕ) → fixed w 0 ≡ replicate w b'0'
unfolding fixed
fixed-zero zero = refl
fixed-zero (suc w) = rw (fixed-zero w) (replicate-concat w b'0')

-- One digit, padded.
pad_digit : (w n : ℕ) → n < 10 → replicate w b'0' ++ (b'0' + n) ∷ [] ≡ fixed (suc w) n
unfolding fixed
pad_digit w n h =
    let q : n / 10 ≡ 0 = omega arith in
    let r : n % 10 ≡ n = omega arith in rw (q, r, fixed-zero w) refl

pad-digits :
    (f w n : ℕ)
    → n ≤ f
    → n < 10 ^ suc w
    → replicate (suc w - length (digits f n)) b'0' ++ digits f n ≡ fixed (suc w) n
unfolding digits fixed
pad-digits zero w n fuel h =
    let r : n ≡ 0 = omega arith in rw (r, sub-one) (pad_digit w 0 (omega arith))
pad-digits (suc f) zero n fuel h = rw (lt-ltb n 10 (omega arith)) (pad_digit 0 n (omega arith))
pad-digits (suc f) (suc w) n fuel h = elim (Bool-cases (ltb n 10)) [
  | inl e ↦ rw e (rw sub-one (pad_digit (suc w) n (ltb-eq_true n 10 e)))
  | inr e ↦
      let ih = pad-digits f w (n / 10) (ground arith) (ground arith) in
      rw (e, length-concat, suc-sub-suc, ← append_assoc) (ap (λ t. t ++ (b'0' + n % 10) ∷ []) ih)
]

-- A number below `10 ^ w` is printed with exactly its `w` digits.
pub format_int-fixed : (w n : ℕ) → n < 10 ^ suc w → format_int (suc w) (pos n) ≡ fixed (suc w) n
unfolding format_int
format_int-fixed w n h = pad-digits n w n (omega arith) h

-- The same for a number as such, padded by hand.
pub pad-decimal :
    (w n : ℕ)
    → n < 10 ^ suc w
    → replicate (suc w - length (decimal n)) b'0' ++ decimal n ≡ fixed (suc w) n
unfolding decimal
pad-decimal w n h = pad-digits n w n (omega arith) h

pub length-decimal : (w n : ℕ) → n < 10 ^ suc w → length (decimal n) ≤ suc w
length-decimal w n h = omega (
  arith,
  ap length (pad-decimal w n h),
  length-fixed (suc w) n,
  length-append (replicate (suc w - length (decimal n)) b'0') (decimal n),
)

lt-length-digits : (f n : ℕ) → 0 < length (digits f n)
unfolding digits
lt-length-digits zero n = omega arith
lt-length-digits (suc f) n = elim (Bool-cases (ltb n 10)) [
  | inl e ↦ rw e (omega arith)
  | inr e ↦ rw e (omega (arith, length-concat (digits f (n / 10)) (b'0' + n % 10)))
]

pub decimal-ne-nil : (n : ℕ) → decimal n ≢ []
unfolding decimal
decimal-ne-nil n h = omega (arith, lt-length-digits n n, ap length h)

-- `"%.*d"` never prints fewer than `w` characters.
pub le-length-format_int : (w : ℕ) (n : ℤ) → w ≤ length (format_int w n)
unfolding format_int
le-length-format_int w (pos n) = omega (
  arith,
  length-append (replicate (w - length (decimal n)) b'0') (decimal n),
  length-replicate {A = ℕ} (w - length (decimal n)) b'0',
)
le-length-format_int w (negsuc n) = omega (
  arith,
  length-append (replicate (w - length (decimal (n + 1))) b'0') (decimal (n + 1)),
  length-replicate {A = ℕ} (w - length (decimal (n + 1))) b'0',
)

-- A number that is not negative is printed with digits only.
pub format_int-IsDigit : (w n : ℕ) → All IsDigit (format_int w (pos n))
unfolding format_int
format_int-IsDigit w n =
    All-append IsDigit _ (decimal n)
      (All-replicate IsDigit (w - length (decimal n)) b'0' (omega arith)) (decimal-IsDigit n)

pub IsDigit-IsText : (t : Bytes) → All IsDigit t → All (λ b. b ≢ 0) t
IsDigit-IsText [] h = tt
IsDigit-IsText (c ∷ t) (hc, ht) = (omega arith, IsDigit-IsText t ht)

-- A print holds no '\0'.
pub format_int-IsText : (w : ℕ) (n : ℤ) → All (λ b. b ≢ 0) (format_int w n)
unfolding format_int
format_int-IsText w (pos n) = IsDigit-IsText _ (format_int-IsDigit w n)
format_int-IsText w (negsuc n) = (omega arith, IsDigit-IsText _ (format_int-IsDigit w (n + 1)))

pub fixed-IsDigit : (w n : ℕ) → All IsDigit (fixed w n)
unfolding fixed
fixed-IsDigit zero n = tt
fixed-IsDigit (suc w) n =
    All-append IsDigit (fixed w (n / 10)) _ (fixed-IsDigit w (n / 10))
      ((omega arith, omega arith), tt)
