-- ===== src/Libc/Number.antt =====
-- `strtoul` in base ten, for an `unsigned long` of 64 bits.
use net_radio.Common.{
  ℕ, ◌+◌, ◌-◌, ◌*◌, ◌%◌, ◌^◌, ◌≤◌, ◌≡◌, refl, Bool, true, false, ◌&&◌, ◌||◌, [], ◌∷◌, Bytes, leb,
  ◌==◌, if◌then◌else◌, codes, All, arith,
}
use net_radio.Libc.Decimal.{IsDigit}

abbrev pub is_space : ℕ → Bool
is_space c = c == b' ' || (leb 9 c && leb c 13)

abbrev pub is_digit : ℕ → Bool
is_digit c = leb b'0' c && leb c b'9'

unfoldable pub skip_spaces : Bytes → Bytes
skip_spaces [] = []
skip_spaces (c ∷ s) = let rest = skip_spaces s in if is_space c then rest else c ∷ s

-- Is there a '-', and what stands behind the sign?
unfoldable pub sign : Bytes → Bool × Bytes
sign [] = (false, [])
sign (c ∷ s) = if c == b'-' then (true, s) else if c == b'+' then (false, s) else (false, c ∷ s)

-- The number of digits read, the number that they spell behind `n`, and the rest.
read_digits : ℕ → ℕ → Bytes → record { count : ℕ; value : ℕ; rest : Bytes }
read_digits k n [] = record { count = k; value = n; rest = [] }
read_digits k n (c ∷ s) =
    let next = read_digits (k + 1) (n * 10 + (c - b'0')) s in
    if is_digit c then next else record { count = k; value = n; rest = c ∷ s }

-- What a call gives: the value, whether `errno` is set to ERANGE, whether `end` is the start of the
-- text (nothing was converted), and the text that `end` leads to.
pub record Conversion : Type 0 where
  pub value : ℕ
  pub range_error : Bool
  pub nothing : Bool
  pub end : Bytes

abbrev pub ulong_mod : ℕ
ulong_mod = 2 ^ 64

unfoldable pub strtoul : Bytes → Conversion
unfolding skip_spaces sign read_digits
strtoul s =
    let (negative, unsigned) = sign (skip_spaces s) in
    let r = read_digits 0 0 unsigned in
    if r.count == 0
    then record { value = 0; range_error = false; nothing = true; end = s }
    else if leb ulong_mod r.value
    then record { value = ulong_mod - 1; range_error = true; nothing = false; end = r.rest }
    else record {
      value = if negative then (ulong_mod - r.value) % ulong_mod else r.value;
      range_error = false;
      nothing = false;
      end = r.rest;
    }

strtoul_run : (strtoul (codes " 42x")).value ≡ 42
unfolding strtoul
strtoul_run = refl

-- The number that a run of digits spells behind `n`.
unfoldable pub spelled : ℕ → Bytes → ℕ
spelled n [] = n
spelled n (c ∷ s) = spelled (n * 10 + (c - b'0')) s

read_digits-spelled :
    (s : Bytes) (k n : ℕ)
    → All IsDigit s
    → ((read_digits k n s).value ≡ spelled n s)
      × ((read_digits k n s).rest ≡ [])
      × (k ≤ (read_digits k n s).count)
unfolding read_digits spelled
read_digits-spelled [] k n h = (refl, refl, omega arith)
read_digits-spelled (c ∷ s) k n (hc, hs) =
    let ih = read_digits-spelled s (k + 1) (n * 10 + (c - b'0')) hs in
    let digit : is_digit c ≡ true = ground arith in rw digit (ih.0, ih.1, omega arith)

-- What `strtoul` gives for a run of digits.
abbrev pub number : ℕ → Conversion
number v =
    if leb ulong_mod v
    then record { value = ulong_mod - 1; range_error = true; nothing = false; end = [] }
    else record { value = v; range_error = false; nothing = false; end = [] }

pub strtoul-digits :
    (c : ℕ) (s : Bytes) → All IsDigit (c ∷ s) → strtoul (c ∷ s) ≡ number (spelled 0 (c ∷ s))
unfolding strtoul spelled
strtoul-digits c s (hc, hs) =
    let (value_eq, rest_eq, le_count) = read_digits-spelled s 1 (0 * 10 + (c - b'0')) hs in
    let plain : is_space c ≡ false = ground arith in
    let no_minus : (c == b'-') ≡ false = ground arith in
    let no_plus : (c == b'+') ≡ false = ground arith in
    let digit : is_digit c ≡ true = ground arith in
    let found : ((read_digits 1 (0 * 10 + (c - b'0')) s).count == 0) ≡ false = ground arith in
    rw (plain, no_minus, no_plus, digit, found, value_eq, rest_eq)
