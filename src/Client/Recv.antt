-- ===== src/Client/Recv.antt =====
-- What `recv` leaves in an array.
use net_radio.Common.{
  ℕ, suc, ◌+◌, ◌≤◌, refl, ap, ◌∙◌, inl, inr, none, ◌>>=◌, Option-cases, arith, ◌≡◌, some, [], ◌∷◌,
  ◌++◌, Bytes, length, drop, true,
}
use net_radio.Memory.{memmove, poke}
use net_radio.Memory.Bounds.{length-poke, poke-overflow}
use net_radio.Manager.Monitor.{bytes}
use net_radio.Manager.Handlers.Serve.{received, bind-run}
use net_radio.Client.{Setup, recv_text}

abbrev pub no_error : Setup
no_error = record { address = true; socket = true; connected = true; sent = true }

pub recv_text-append :
    (a m : Bytes)
    → length a + 1 ≤ length m
    → recv_text (bytes a) m ≡ some (some (a ++ 0 ∷ drop (length a + 1) m))
unfolding recv_text
recv_text-append a m room =
    bind-run (memmove 0 a m) (λ m1. poke (length a) 0 m1) (λ m2. some (some m2)) (received a m room)

-- Bytes that reach the end of the array leave no room for the '\0'.
memmove-overflow :
    (i : ℕ) (a m : Bytes)
    → length m ≤ i + length a
    → (memmove i a m >>= λ m1. poke (i + length a) 0 m1) ≡ none
unfolding memmove
memmove-overflow i [] m h = poke-overflow (i + 0) 0 m (omega arith)
memmove-overflow i (b ∷ a) m h = elim (Option-cases (poke i b m)) [
  | inl e ↦ rw e refl
  | inr (m1, e) ↦
      let same = length-poke i b m e in
      rw e (
        ap (λ n. memmove (suc i) a m1 >>= λ m2. poke n 0 m2) (omega arith)
        ∙ memmove-overflow (suc i) a m1 (omega arith))
]

pub recv_text-overflow : (a m : Bytes) → length m ≤ length a → recv_text (bytes a) m ≡ none
unfolding recv_text
recv_text-overflow a m over =
    let fault = memmove-overflow 0 a m (omega arith) in
    elim (Option-cases (memmove 0 a m)) [
      | inl e ↦ rw e refl
      | inr (m1, e) ↦
          let at_end : poke (length a) 0 m1 ≡ none =
            ap (λ n. poke n 0 m1) (omega arith) ∙ (rw e at fault) in
          rw e (rw at_end refl)
    ]
