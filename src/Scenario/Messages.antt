-- ===== src/Scenario/Messages.antt =====
-- The messages of the scenario.
use net_radio.Common.{
  ℕ, zero, suc, ◌+◌, ◌-◌, ◌^◌, ◌≤◌, ◌<◌, ◌≡◌, ◌≢◌, refl, ap, ◌∙◌, Bool, true, Option, some, List,
  [], ◌∷◌, ◌++◌, Bytes, All, All-append, All-take, ℤ, pos, length, length-append, length-take,
  length-concat, append_assoc, take, take-eq_self, replicate, length-replicate, drop, codes, arith,
}
use net_radio.Memory.Strings.{IsText, memmove-append, text-append, plain, plain-IsText}
use net_radio.Libc.Decimal.{
  format_int, decimal, length-decimal, format_int-IsText, IsDigit, IsDigit-IsText,
}
use net_radio.Libc.Number.{spelled}
use net_radio.Libc.Atoi.{atoi, atoi-spelled}
use net_radio.Message.Types.{mess}
use net_radio.Message.Build.{str}
use net_radio.Message.Build.Texts.{create_message-texts}
use net_radio.Message.Wire
use net_radio.Message.Wire.{kind, args, wire}
use net_radio.Manager.Monitor.{bytes, no_malloc}
use net_radio.Manager.Handlers.{send_message}
use net_radio.Manager.Handlers.Lists.{send_message-wire}
use net_radio.Client.{Delivery, send_mess_to, send_mess_to_streamer}
use net_radio.Client.Recv.{no_error}
use net_radio.Client.Sent.{delivered, length-mess, recv_ackm-ackm}
use net_radio.Scenario.{
  snprintf, Thread, mess_streamer, greeting, joined, create_threads, run_threads, run_clients,
  scenario_main,
}

-- The text at the front of the array, cut to leave room for its '\0'.
snprintf-text :
    (size : ℕ) (t array : Bytes)
    → 0 < size
    → length array ≡ size
    → (r : Bytes) × (snprintf size t array ≡ some (take (size - 1) t ++ 0 ∷ r))
unfolding snprintf
snprintf-text size t array some_room len =
    let kept = take (size - 1) t ++ 0 ∷ [] in
    let fits : length kept ≤ length array =
      omega (arith, length-concat (take (size - 1) t) 0, length-take (size - 1) t) in
    (
      drop (length kept) array,
      memmove-append kept [] array fits ∙ ap some (append_assoc (take (size - 1) t) (0 ∷ []) _),
    )

-- `send_message` reads its texts up to their '\0'.
send_message-texts :
    (i r m q buf : Bytes)
    → IsText i
    → IsText m
    → 156 < length buf
    → send_message buf mess (str (i ++ 0 ∷ r) ∷ str (m ++ 0 ∷ q) ∷ []) ≡ some (wire (Wire.mess i m))
unfolding send_message kind args
send_message-texts i r m q buf hi hm room =
    let len = length-mess i m in
    rw (create_message-texts no_malloc buf i r m q hi hm)
      (send_message-wire (Wire.mess i m) buf (hi, hm) (omega (arith, len)))

-- The numbers of the scenario have at most ten digits, so its text is never cut.
length-format_int : (i : ℕ) → i < 2 ^ 31 → length (format_int 1 (pos i)) ≤ 10
unfolding format_int
length-format_int i small = omega (
  arith,
  length-append (replicate (1 - length (decimal i)) b'0') (decimal i),
  length-replicate {A = ℕ} (1 - length (decimal i)) b'0',
  length-decimal 9 i (omega arith),
)

-- The pseudonym and the text of client `i`, and its message.
abbrev pub name_of : ℕ → Bytes
name_of i = take 7 (codes "cli" ++ format_int 1 (pos i))

abbrev pub message_of : ℕ → Bytes
message_of i = wire (Wire.mess (name_of i) (greeting (pos i)))

length-greeting : (i : ℕ) → i < 2 ^ 31 → length (greeting (pos i)) ≤ 139
length-greeting i small =
    let digits = format_int 1 (pos i) in
    omega (arith, length-append digits (codes ". Au revoir !"), length-format_int i small)

name_of-IsText : (i : ℕ) → IsText (name_of i)
unfolding plain
name_of-IsText i =
    All-take (λ b. b ≢ 0) 7 (codes "cli" ++ format_int 1 (pos i))
      (All-append (λ b. b ≢ 0) (codes "cli") (format_int 1 (pos i))
        (plain-IsText (codes "cli") refl) (format_int-IsText 1 (pos i)))

greeting-IsText : (i : ℕ) → IsText (greeting (pos i))
unfolding plain
greeting-IsText i =
    All-append (λ b. b ≢ 0) (codes "Bonjour je suis le client n ")
      (format_int 1 (pos i) ++ codes ". Au revoir !")
      (plain-IsText (codes "Bonjour je suis le client n ") refl)
      (All-append (λ b. b ≢ 0) (format_int 1 (pos i)) (codes ". Au revoir !")
        (format_int-IsText 1 (pos i)) (plain-IsText (codes ". Au revoir !") refl))

-- What the clients from `i` on send to an address and port, and get.
abbrev pub results : (address : ℕ) → (port : ℤ) → (i n : ℕ) → List (Option Delivery × Bool)
results address port i zero = []
results address port i (suc n) =
    (some (delivered address port (message_of i)), true) ∷ results address port (suc i) n

-- A thread whose arrays have the sizes of the code, and whose calls have no error; the answer begins
-- with ACKM and has at most two more bytes.
pub record Works (t : Thread) : Type 0 where
  pub id_given : t.id_given ≡ true
  pub created : t.created ≡ true
  pub client_id : length t.client_id ≡ 8
  pub msg : length t.msg ≡ 140
  pub mess_buf : length t.mess_buf ≡ 157
  pub ackm_buf : length t.ackm_buf ≡ 6
  pub setup : t.setup ≡ no_error
  pub rest : Bytes
  pub short : length rest ≤ 2
  pub answer : t.answer ≡ bytes (codes "ACKM" ++ rest)

mess_streamer-message_of :
    (inet_aton : Bytes → Option ℕ) (ip : Bytes) (address : ℕ) (port : ℤ) (i : ℕ) (t : Thread)
    → inet_aton ip ≡ some address
    → i < 2 ^ 31
    → Works t
    → mess_streamer inet_aton ip port (pos i) t
      ≡ some (some (delivered address port (message_of i)), true)
unfolding mess_streamer send_mess_to_streamer send_mess_to
mess_streamer-message_of inet_aton ip address port i t known small h =
    let (r, named) =
      snprintf-text 8 (codes "cli" ++ format_int 1 (pos i)) t.client_id (omega arith) h.client_id in
    let (q, cut) = snprintf-text 140 (greeting (pos i)) t.msg (omega arith) h.msg in
    let id : snprintf 8 (codes "cli" ++ format_int 1 (pos i)) t.client_id
        ≡ some (name_of i ++ 0 ∷ r) =
      named in
    let whole : take 139 (greeting (pos i)) ≡ greeting (pos i) =
      take-eq_self 139 (greeting (pos i)) (length-greeting i small) in
    let said : snprintf 140 (greeting (pos i)) t.msg ≡ some (greeting (pos i) ++ 0 ∷ q) =
      cut ∙ ap (λ s. some (s ++ 0 ∷ q)) whole in
    let sent =
      send_message-texts (name_of i) r (greeting (pos i)) q t.mess_buf (name_of-IsText i)
        (greeting-IsText i) (let len = h.mess_buf in omega arith) in
    rw (id, said, h.setup, h.answer)
      (rw (known, send_mess_to_streamer)
        (rw (sent, recv_ackm-ackm h.rest t.ackm_buf h.short h.ackm_buf) refl))

create_threads-Works :
    (threads : ℕ → Thread) (i n : ℕ)
    → ((k : ℕ) → Works (threads k))
    → create_threads true threads i n ≡ some true
unfolding create_threads
create_threads-Works threads i zero h = refl
create_threads-Works threads i (suc n) h =
    let t = h i in rw (t.id_given, t.created, create_threads-Works threads (suc i) n h) refl

run_threads-results :
    (inet_aton : Bytes → Option ℕ) (ip : Bytes) (address : ℕ) (port : ℤ) (threads : ℕ → Thread)
    (i n : ℕ)
    → inet_aton ip ≡ some address
    → i + n ≤ 2 ^ 31
    → ((k : ℕ) → Works (threads k))
    → run_threads inet_aton ip port threads i n ≡ some (results address port i n)
unfolding run_threads
run_threads-results inet_aton ip address port threads i zero known small h = refl
run_threads-results inet_aton ip address port threads i (suc n) known small h =
    rw
      (
        mess_streamer-message_of inet_aton ip address port i (threads i) known (omega arith) (h i),
        run_threads-results inet_aton ip address port threads (suc i) n known (omega arith) h,
      )
      refl

-- The scenario with a number of clients in digits, when every thread is created and no call has an
-- error: client `i` sends exactly one MESS to the address that `inet_aton` reads in the second
-- argument and to the port in the third, with the pseudonym cli and its number, of which the first 7
-- characters are kept, and with the whole of its text; each one sees the ACKM, and the program ends.
-- The number is an `int`, the arrays have the sizes of the code, and each answer begins with ACKM.
pub scenario_main-results :
    (inet_aton : Bytes → Option ℕ) (address : ℕ)
    (threads : (streamer_ip : Bytes) → (streamer_port : ℤ) → ℕ → Thread) (c : ℕ) (d ip port : Bytes)
    → inet_aton ip ≡ some address
    → All IsDigit (c ∷ d)
    → spelled 0 (c ∷ d) < 2 ^ 31
    → IsText port
    → ((k : ℕ) → Works (threads ip (atoi port) k))
    → scenario_main inet_aton true threads (((c ∷ d) ++ 0 ∷ []) ∷ ip ∷ (port ++ 0 ∷ []) ∷ [])
      ≡ some (joined (results address (atoi port) 0 (spelled 0 (c ∷ d))))
unfolding scenario_main run_clients
scenario_main-results inet_aton address threads c d ip port known h small hp works =
    let n = spelled 0 (c ∷ d) in
    rw (text-append (c ∷ d) [] (IsDigit-IsText (c ∷ d) h), text-append port [] hp)
      (rw (atoi-spelled c d h small, create_threads-Works (threads ip (atoi port)) 0 n works)
        (rw
          (run_threads-results inet_aton ip address (atoi port) (threads ip (atoi port)) 0 n known
            (omega arith) works)
          refl))
