-- ===== src/Message/Verify/Positions.antt =====
-- Where the fields of an accepted text lie.
use net_radio.Common.{
  ℕ, zero, suc, ◌+◌, ◌≡◌, true, and-eq_true, List, [], ◌∷◌, ◌++◌, Bytes, take, drop, drop-drop, All,
  arith,
}
use net_radio.Libc.Decimal.{IsDigit}
use net_radio.Message.Verify.{isdigit}
use net_radio.Message.Verify.Grammar.{Field, char, digits, any, starts_digits, matches}

abbrev pub width : Field → ℕ
width (char c) = 1
width (digits w) = w
width (any w) = w

abbrev pub widths : List Field → ℕ
widths [] = 0
widths (f ∷ fs) = width f + widths fs

matches-tail :
    (f : Field) (fs : List Field) (s : Bytes)
    → matches (f ∷ fs) s ≡ true
    → matches fs (drop (width f) s) ≡ true
unfolding matches
matches-tail (char c) fs s h = (and-eq_true _ _ h).1
matches-tail (digits w) fs s h = (and-eq_true _ _ h).1
matches-tail (any w) fs s h = h

-- The fields behind the first ones match what lies behind these.
pub matches-behind :
    (fs gs : List Field) (s : Bytes)
    → matches (fs ++ gs) s ≡ true
    → matches gs (drop (widths fs) s) ≡ true
matches-behind [] gs s h = h
matches-behind (f ∷ fs) gs s h =
    let rest = matches-behind fs gs (drop (width f) s) (matches-tail f (fs ++ gs) s h) in
    rw (drop-drop (width f) (widths fs) s) at rest

starts_digits-IsDigit : (w : ℕ) (s : Bytes) → starts_digits w s ≡ true → All IsDigit (take w s)
unfolding starts_digits
starts_digits-IsDigit zero s h = tt
starts_digits-IsDigit (suc w) [] h = tt
starts_digits-IsDigit (suc w) (c ∷ s) h =
    let (first, rest) = and-eq_true (isdigit c) (starts_digits w s) h in
    (ground arith, starts_digits-IsDigit w s rest)

-- A field of digits holds digits.
pub matches-IsDigit :
    (w : ℕ) (fs : List Field) (s : Bytes)
    → matches (digits w ∷ fs) s ≡ true
    → All IsDigit (take w s)
unfolding matches
matches-IsDigit w fs s h = starts_digits-IsDigit w s (and-eq_true _ _ h).0
