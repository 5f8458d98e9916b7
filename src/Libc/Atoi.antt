-- ===== src/Libc/Atoi.antt =====
-- `atoi`, as `(int) strtol (s, NULL, 10)`: a `long` has 64 bits and stops at its ends, and an `int`
-- keeps its low 32 bits.
use net_radio.Common.{
  ℕ, ◌+◌, ◌-◌, ◌*◌, ◌%◌, ◌^◌, ◌<◌, ◌≡◌, refl, [], ◌∷◌, Bytes, ℤ, pos, negsuc, if◌then◌else◌, ltb,
  leb, codes, arith, ap, ◌∙◌, true, false, All, ◌==◌,
}
use net_radio.Libc.Number.{is_digit, is_space, skip_spaces, sign, spelled}
use net_radio.Libc.Decimal.{IsDigit}

-- The number that the digits at the front spell behind `n`.
unfoldable pub leading : ℕ → Bytes → ℕ
leading n [] = n
leading n (c ∷ s) = let rest = leading (n * 10 + (c - b'0')) s in if is_digit c then rest else n

-- The `int` with these low 32 bits.
abbrev pub int_of : ℕ → ℤ
int_of bits = if ltb bits (2 ^ 31) then pos bits else negsuc (2 ^ 32 - 1 - bits)

-- The low 64 bits of `-n` and of `n`, for a number that is kept within the range of a `long`.
abbrev pub negative_bits : ℕ → ℕ
negative_bits n = (2 ^ 64 - (if leb (2 ^ 63) n then 2 ^ 63 else n)) % 2 ^ 64

abbrev pub positive_bits : ℕ → ℕ
positive_bits n = if leb (2 ^ 63) n then 2 ^ 63 - 1 else n

unfoldable pub atoi : Bytes → ℤ
unfolding leading
atoi s =
    let (negative, unsigned) = sign (skip_spaces s) in
    let n = leading 0 unsigned in
    int_of ((if negative then negative_bits n else positive_bits n) % 2 ^ 32)

atoi_run : atoi (codes " -4x") ≡ negsuc 3
unfolding atoi skip_spaces sign
atoi_run = refl

atoi_wraps : atoi (codes "4294967297") ≡ pos 1
unfolding atoi skip_spaces sign
atoi_wraps = refl

leading-spelled : (s : Bytes) (n : ℕ) → All IsDigit s → leading n s ≡ spelled n s
unfolding leading spelled
leading-spelled [] n h = refl
leading-spelled (c ∷ s) n (hc, hs) =
    let digit : is_digit c ≡ true = ground arith in
    rw digit (leading-spelled s (n * 10 + (c - b'0')) hs)

int_of-small : (n : ℕ) → n < 2 ^ 31 → int_of (positive_bits n % 2 ^ 32) ≡ pos n
int_of-small n h = ground arith

-- The digits of a number that is an `int` are read as this number.
pub atoi-spelled :
    (c : ℕ) (s : Bytes)
    → All IsDigit (c ∷ s)
    → spelled 0 (c ∷ s) < 2 ^ 31
    → atoi (c ∷ s) ≡ pos (spelled 0 (c ∷ s))
unfolding atoi skip_spaces sign
atoi-spelled c s (hc, hs) small =
    let plain : is_space c ≡ false = ground arith in
    let no_minus : (c == b'-') ≡ false = ground arith in
    let no_plus : (c == b'+') ≡ false = ground arith in
    let value = leading-spelled (c ∷ s) 0 (hc, hs) in
    rw (plain, no_minus, no_plus)
      (ap (λ n. int_of (positive_bits n % 2 ^ 32)) value ∙ int_of-small (spelled 0 (c ∷ s)) small)
