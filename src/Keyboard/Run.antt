-- ===== src/Keyboard/Run.antt =====
-- The standard streams and the sockets as one world, which every call takes and gives on. What is
-- typed, and what each call of `socket`, `connect`, `send` and `recv` gives, is in the world at first.
-- `none` is a fault: a null pointer that is read through, or an access outside an array. What goes to
-- the standard error is left out.
use net_radio.Common.{
  ℕ, zero, suc, ◌-◌, Bool, Option, none, some, List, [], ◌∷◌, ◌++◌, Bytes, ◌==◌, if◌then◌else◌,
}
use net_radio.Memory.{memmove, text}
use net_radio.Client.{Setup}
use net_radio.Client as Client
use net_radio.Message.Types.{MsgType}
use net_radio.Message.Build.{Arg, create_message}
use net_radio.Manager.Monitor.{Received, no_malloc, written}

pub record World : Type 0 where
  pub stdin : Bytes
  pub stdout : Bytes
  pub setups : ℕ → Setup
  pub sends : ℕ → Bool
  pub sent : List Bytes
  pub recvs : ℕ → Received

abbrev pub Run : Type 0 → Type 0
Run A = World → Option (A × World)

abbrev pub pure : {A : Type 0} → A → Run A
pure a w = some (a, w)

infixl 5 ◌>>=◌ ◌>>◌
abbrev pub ◌>>=◌ : {A B : Type 0} → Run A → (A → Run B) → Run B
◌>>=◌ m f w = elim (m w) [ none ↦ none | some (a, w1) ↦ f a w1 ]

abbrev pub ◌>>◌ : {B : Type 0} → Run (Unit {0}) → Run B → Run B
m >> k = m >>= λ _. k

-- A step that does not look at the world.
abbrev pub lift : {A : Type 0} → Option A → Run A
lift none w = none
lift (some a) w = some (a, w)

abbrev pub print : Bytes → Run (Unit {0})
print t w = some (tt, record w { stdout = w.stdout ++ t })

-- `printf ("%s", m)`
unfoldable pub print_text : Bytes → Run (Unit {0})
print_text m = do t ← lift (text m); print t

-- A call of `create_message` on a buffer.
unfoldable pub create : Bytes → MsgType → List Arg → Run Bytes
create m type args = do
  created ← lift (create_message no_malloc (some m) type args)
  lift (written created)

-- The next address, socket and connection.
abbrev pub set_up : Run Setup
set_up w = some (w.setups 0, record w { setups = λ k. w.setups (suc k) })

-- `send` of the text of a buffer: does it succeed? Only what is sent is kept.
unfoldable pub send_text : Bytes → Run Bool
send_text m = do
  t ← lift (text m)
  λ w. some (
    w.sends 0,
    record w {
      sends = λ k. w.sends (suc k);
      sent = if w.sends 0 then w.sent ++ t ∷ [] else w.sent;
    },
  )

-- `recv` into an array, and the '\0' behind it; none for an error.
unfoldable pub recv_text : Bytes → Run (Option Bytes)
recv_text m = do
  r ← λ w. some (w.recvs 0, record w { recvs = λ k. w.recvs (suc k) })
  lift (Client.recv_text r m)

-- The next line of the input, of at most `n` characters with its newline, and what is left.
unfoldable pub read_line : ℕ → Bytes → Bytes × Bytes
read_line zero s = ([], s)
read_line (suc n) [] = ([], [])
read_line (suc n) (c ∷ s) =
    let (l, rest) = read_line n s in if c == b'\n' then (c ∷ [], s) else (c ∷ l, rest)

-- `fgets` into an array; none for a null pointer, at the end of the input.
unfoldable pub fgets : Bytes → (size : ℕ) → Run (Option Bytes)
unfolding read_line
fgets m size w = elim w.stdin [
  | [] ↦ some (none, w)
  | c ∷ s ↦
      let (l, rest) = read_line (size - 1) (c ∷ s) in
      elim (memmove 0 (l ++ 0 ∷ []) m) [
        | none ↦ none
        | some m1 ↦ some (some m1, record w { stdin = rest })
      ]
]

-- `*(fgets (m, size, stdin))` reads through a null pointer at the end of the input.
unfoldable pub fgets_line : Bytes → (size : ℕ) → Run Bytes
unfolding fgets
fgets_line m size = do line ← fgets m size; lift line
