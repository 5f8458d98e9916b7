-- ===== src/Manager/Options/Digits.antt =====
-- The command line with numbers written in digits.
use net_radio.Common.{
  ◌^◌, ◌<◌, ◌≡◌, ◌≢◌, refl, true, false, ◌||◌, some, [], ◌∷◌, ◌++◌, Bytes, All, ltb, if◌then◌else◌,
  Bool-cases, inl, inr, arith,
}
use net_radio.Libc.Decimal.{IsDigit}
use net_radio.Libc.Number.{spelled}
use net_radio.Utils.{set_uint_from_string}
use net_radio.Utils.Numbers.{set_uint_from_string-digits}
use net_radio.Manager.Options.{nb_seconds_one_day, opt_d, opt_v, usage, continue, configure}

-- A number in digits, in the range of an `int`.
pub record IsNumber (s : Bytes) : Type 0 where
  pub nonempty : s ≢ []
  pub plain : All IsDigit s
  pub small : spelled 0 s < 2 ^ 31

set_uint-IsNumber :
    (s : Bytes) → IsNumber s → set_uint_from_string (s ++ 0 ∷ []) ≡ some (some (spelled 0 s))
set_uint-IsNumber s h =
    let n = spelled 0 s in
    let small = h.small in
    rw (set_uint_from_string-digits s [] h.nonempty h.plain) (ground (arith, small))

-- `manager -v -d DELAY PORT NB_DIFF` with its numbers in digits below 2 ^ 31 goes on with these numbers
-- if the delay is at most a day and NB_DIFF from 1 to 99, and otherwise ends by `usage` with a failure.
-- In neither case does it leave an argument's text.
pub configure-digits :
    (delay port nb : Bytes)
    → IsNumber delay
    → IsNumber port
    → IsNumber nb
    → configure (opt_v ∷ opt_d (delay ++ 0 ∷ []) ∷ []) ((port ++ 0 ∷ []) ∷ (nb ++ 0 ∷ []) ∷ [])
      ≡ some (
          if ltb nb_seconds_one_day (spelled 0 delay)
            || (ltb 99 (spelled 0 nb) || ltb (spelled 0 nb) 1)
          then usage false
          else continue (record {
            settings = record { verbose = true; check_delay = spelled 0 delay };
            port = spelled 0 port;
            nb_diff = spelled 0 nb;
          }))
unfolding configure
configure-digits delay port nb hd hp hn =
    rw (set_uint-IsNumber delay hd) (elim (Bool-cases (ltb nb_seconds_one_day (spelled 0 delay))) [
      | inl big ↦ rw big refl
      | inr small ↦ rw small (rw (set_uint-IsNumber port hp, set_uint-IsNumber nb hn) refl)
    ])
