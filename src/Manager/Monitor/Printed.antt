-- ===== src/Manager/Monitor/Printed.antt =====
-- When `verbose_print_message` of c/manager.c stays inside the array that it prints.
use net_radio.Common.{
  ◌≡◌, refl, Bool, true, false, Bool-cases, inl, inr, ◌==◌, ◌||◌, Option, none, some, [], ◌∷◌, ◌++◌,
  Bytes, if◌then◌else◌, ◌>>=◌, arith,
}
use net_radio.Utils.{print_raw_char, print_raw_string}
use net_radio.Manager.Monitor.{verbose_print_message}

-- There is a '\0' in the array.
unfoldable pub has_end : Bytes → Bool
has_end [] = false
has_end (c ∷ m) = c == 0 || has_end m

-- The array has a '\0', or it is not printed.
unfoldable pub is_safe : (verbose : Bool) → Bytes → Bool
is_safe true m = has_end m
is_safe false m = true

pub has_end-append : (m r : Bytes) → has_end (m ++ 0 ∷ r) ≡ true
unfolding has_end
has_end-append [] r = refl
has_end-append (c ∷ m) r = rw (has_end-append m r) (ground arith)

pub has_end-append_left : (m r : Bytes) → has_end m ≡ true → has_end (m ++ r) ≡ true
unfolding has_end
has_end-append_left [] r h = cc
has_end-append_left (c ∷ m) r h = elim (Bool-cases (c == 0)) [
  | inl e ↦ rw e refl
  | inr e ↦ rw e (has_end-append_left m r (rw e at h))
]

print-end : (m : Bytes) → has_end m ≡ true → (out : Bytes) × (print_raw_string m ≡ some out)
unfolding has_end print_raw_string
print-end [] h = cc
print-end (c ∷ m) h = elim (Bool-cases (c == 0)) [
  | inl e ↦ ([], rw e refl)
  | inr e ↦ let (out, run) = print-end m (rw e at h) in (print_raw_char c ++ out, rw (e, run) refl)
]

print-no_end : (m : Bytes) → has_end m ≡ false → print_raw_string m ≡ none
unfolding has_end print_raw_string
print-no_end [] h = refl
print-no_end (c ∷ m) h = elim (Bool-cases (c == 0)) [
  | inl e ↦ absurd (let wrong = rw e at h in cc)
  | inr e ↦ rw (e, print-no_end m (rw e at h)) refl
]

-- What follows the print is done exactly if the print is safe.
pub verbose_print_message-then {ℓ} :
    {A : Type ℓ} (verbose : Bool) (intro m : Bytes) (next : Option A)
    → (verbose_print_message verbose intro m >>= λ printed. next)
      ≡ (if is_safe verbose m then next else none)
unfolding verbose_print_message is_safe
verbose_print_message-then true intro m next = elim (Bool-cases (has_end m)) [
  | inl e ↦ let (out, run) = print-end m e in rw (run, e) refl
  | inr e ↦ rw (print-no_end m e, e) refl
]
verbose_print_message-then false intro m next = refl

pub is_safe-end : (verbose : Bool) (m : Bytes) → has_end m ≡ true → is_safe verbose m ≡ true
unfolding is_safe
is_safe-end true m h = h
is_safe-end false m h = refl

pub verbose_print_message-end {ℓ} :
    {A : Type ℓ} (verbose : Bool) (intro m : Bytes) (next : Option A)
    → has_end m ≡ true
    → (verbose_print_message verbose intro m >>= λ printed. next) ≡ next
verbose_print_message-end verbose intro m next h =
    rw (verbose_print_message-then verbose intro m next, is_safe-end verbose m h) refl
