-- ===== src/Scenario.antt =====
-- c/scenario_many_clients.c: threads that each send one message to a broadcaster, behind a barrier for
-- all of them. Each thread has its own arrays and its own results of the calls on sockets.
pub mod Messages
use net_radio.Common.{
  ℕ, zero, suc, ◌-◌, Bool, true, false, Option, none, some, List, [], ◌∷◌, ◌++◌, Bytes, ℤ, pos,
  negsuc, ◌>>=◌, length, take, if◌then◌else◌, ◌&&◌, codes,
}
use net_radio.Memory.{memmove, text}
use net_radio.Libc.Decimal.{format_int}
use net_radio.Libc.Atoi.{atoi}
use net_radio.Message.Types.{msg_id_size, msg_mess_size}
use net_radio.Manager.Monitor.{Received}
use net_radio.Client.{Delivery, Setup, send_mess_to_streamer}

-- `snprintf` of a text.
unfoldable pub snprintf : (size : ℕ) → (t array : Bytes) → Option Bytes
snprintf size t array = memmove 0 (take (size - 1) t ++ 0 ∷ []) array

-- A thread: do `malloc` and `pthread_create` succeed for it, its arrays, and what its connection gives.
pub record Thread : Type 0 where
  pub id_given : Bool
  pub created : Bool
  pub client_id : Bytes
  pub msg : Bytes
  pub mess_buf : Bytes
  pub ackm_buf : Bytes
  pub setup : Setup
  pub answer : Received

-- The text of a client.
abbrev pub greeting : ℤ → Bytes
greeting id = codes "Bonjour je suis le client n " ++ (format_int 1 id ++ codes ". Au revoir !")

unfoldable pub mess_streamer :
    (inet_aton : Bytes → Option ℕ)
    → (streamer_ip : Bytes) → (streamer_port : ℤ) → (id : ℤ) → Thread
    → Option (Option Delivery × Bool)
unfolding snprintf
mess_streamer inet_aton streamer_ip streamer_port id t = do
  client_id ← snprintf msg_id_size (codes "cli" ++ format_int 1 id) t.client_id
  msg ← snprintf msg_mess_size (greeting id) t.msg
  send_mess_to_streamer inet_aton streamer_ip streamer_port t.setup t.answer t.mess_buf t.ackm_buf
      client_id msg

-- What the program comes to: the text of `usage`; waiting for its first thread, which stands at the
-- barrier for ever since another one was not created; or what each thread has sent and got.
pub data Ending : Type 0 where
  usage : Ending
  waiting : Ending
  joined : List (Option Delivery × Bool) → Ending

-- The loop that creates the threads: are all of them there? A store through a null pointer is a fault.
unfoldable pub create_threads :
    (tid_given : Bool) → (threads : ℕ → Thread) → (i rounds : ℕ) → Option Bool
create_threads tid_given threads i zero = some true
create_threads tid_given threads i (suc rounds) =
    let rest = create_threads tid_given threads (suc i) rounds in
    if (threads i).id_given && tid_given
    then (rest >>= λ all. some ((threads i).created && all))
    else none

-- The threads behind the barrier, in the order of their numbers.
unfoldable pub run_threads :
    (inet_aton : Bytes → Option ℕ)
    → (streamer_ip : Bytes) → (streamer_port : ℤ) → (threads : ℕ → Thread) → (i rounds : ℕ)
    → Option (List (Option Delivery × Bool))
unfolding mess_streamer
run_threads inet_aton streamer_ip streamer_port threads i zero = some []
run_threads inet_aton streamer_ip streamer_port threads i (suc rounds) = do
  result ← mess_streamer inet_aton streamer_ip streamer_port (pos i) (threads i)
  results ← run_threads inet_aton streamer_ip streamer_port threads (suc i) rounds
  some (result ∷ results)

-- The rounds of a loop up to `nb_clients`.
abbrev pub client_rounds : ℤ → ℕ
client_rounds (pos n) = n
client_rounds (negsuc n) = 0

-- `main` from the array `tid` on: does `malloc` give it? The join of a thread that was not created, the
-- first one, is a fault, since its place in `tid` holds anything.
unfoldable pub run_clients :
    (inet_aton : Bytes → Option ℕ)
    → (streamer_ip : Bytes) → (streamer_port : ℤ) → (tid_given : Bool) → (threads : ℕ → Thread) → ℤ
    → Option Ending
unfolding create_threads run_threads
run_clients inet_aton streamer_ip streamer_port tid_given threads nb_clients =
    create_threads tid_given threads 0 (client_rounds nb_clients) >>= λ all.
    if all
    then (run_threads inet_aton streamer_ip streamer_port threads 0 (client_rounds nb_clients)
        >>= λ results. some (joined results))
    else (if (threads 0).created then some waiting else none)

-- `main` on the arguments behind the program's name; `threads` has what each connection to the address
-- and port of the last two gives.
unfoldable pub scenario_main :
    (inet_aton : Bytes → Option ℕ)
    → (tid_given : Bool) → (threads : (streamer_ip : Bytes) → (streamer_port : ℤ) → ℕ → Thread)
    → List Bytes
    → Option Ending
unfolding run_clients
scenario_main inet_aton tid_given threads (nb ∷ ip ∷ port ∷ []) = do
  nb_text ← text nb
  port_text ← text port
  run_clients inet_aton ip (atoi port_text) tid_given (threads ip (atoi port_text)) (atoi nb_text)
scenario_main inet_aton tid_given threads _ = some usage
