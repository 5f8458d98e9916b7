-- ===== src/Utils/Numbers.antt =====
-- What `set_uint_from_string` accepts, for texts of digits.
use net_radio.Common.{
  ◌%◌, ◌^◌, ◌≡◌, ◌≢◌, refl, ◌&&◌, none, some, [], ◌∷◌, ◌++◌, Bytes, ltb, if◌then◌else◌, All, arith,
}
use net_radio.Memory.Strings.{text-append}
use net_radio.Libc.Decimal.{IsDigit, IsDigit-IsText}
use net_radio.Libc.Number.{spelled, strtoul-digits}
use net_radio.Utils.{set_uint_from_string}

-- A text of digits is accepted exactly if its number is below 2 ^ 64 and the low 32 bits of it are
-- below 2 ^ 31, and these low bits are the result.
pub set_uint_from_string-digits :
    (s r : Bytes)
    → s ≢ []
    → All IsDigit s
    → set_uint_from_string (s ++ 0 ∷ r)
      ≡ some (
          if ltb (spelled 0 s) (2 ^ 64) && ltb (spelled 0 s % 2 ^ 32) (2 ^ 31)
          then some (spelled 0 s % 2 ^ 32)
          else none)
unfolding set_uint_from_string
set_uint_from_string-digits [] r ne h = absurd (ne refl)
set_uint_from_string-digits (c ∷ s) r ne h =
    rw (text-append (c ∷ s) r (IsDigit-IsText (c ∷ s) h), strtoul-digits c s h) (ground arith)
