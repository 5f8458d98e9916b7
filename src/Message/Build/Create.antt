-- ===== src/Message/Build/Create.antt =====
-- `create_message` against the protocol's bytes: its result on every branch.
use net_radio.Common.{
  drop-eq_nil, ◌⊎◌, inl, inr, Option-cases, ℕ, ◌+◌, ◌≤◌, ◌≡◌, Option, none, some, [], ◌∷◌, ◌++◌,
  Bytes, length, drop, arith,
}
use net_radio.Message.Build.{create_in, create_message, aborted, message}
use net_radio.Message.Build.Layout.{write_message-wire}
use net_radio.Message.Build.Length.{msglen-wire}
use net_radio.Message.Wire.{Message, kind, args, IsWritable, wire}

-- In a buffer with room for the bytes of a message and a '\0', `create_message` writes exactly these
-- bytes and a '\0', and leaves the rest of the buffer as it was; no access lies outside the buffer.
-- The string arguments hold no '\0' before their end.
pub create_message-wire :
    (malloc : ℕ → Option Bytes) (m : Message) (buf : Bytes)
    → IsWritable m
    → length (wire m) + 1 ≤ length buf
    → create_message malloc (some buf) (kind m) (args m)
      ≡ some (message (wire m ++ 0 ∷ drop (length (wire m) + 1) buf))
unfolding create_message create_in
create_message-wire malloc m buf ok room =
    rw (msglen-wire m, create_message) (write_message-wire m buf ok room)

-- With a null pointer for a buffer, the block that is asked of `malloc` is filled exactly: the bytes
-- of the message and a '\0'. A `malloc` that fails ends in the abort of `assert`.
pub create_message-malloc :
    (malloc : ℕ → Option Bytes) (m : Message)
    → IsWritable m
    → ((n : ℕ) (block : Bytes) → malloc n ≡ some block → length block ≡ n)
    → (create_message malloc none (kind m) (args m) ≡ some (message (wire m ++ 0 ∷ [])))
      ⊎ ((malloc (length (wire m) + 1) ≡ none)
          × (create_message malloc none (kind m) (args m) ≡ some aborted))
unfolding create_message create_in
create_message-malloc malloc m ok sized = elim (Option-cases (malloc (length (wire m) + 1))) [
  | inl e ↦ inr (e, rw (msglen-wire m, create_message) (rw (e, create_in)))
  | inr (block, e) ↦
      let size = sized (length (wire m) + 1) block e in
      inl (
        rw (msglen-wire m, create_message)
          (rw (e, create_in)
            (rw (
              write_message-wire m block ok (omega arith),
              drop-eq_nil (length (wire m) + 1) block (omega arith),
            ))))
]
