-- ===== src/Tests/Scenario.antt =====
-- The scenario with two clients.
use net_radio.Libc.Atoi.{atoi}
use net_radio.Memory.{str_eq}
use net_radio.Client.{Delivery}
use net_radio.Common.{
  Option, none, take, if◌then◌else◌, ◌*◌, ◌^◌, ◌+◌, ℕ, ◌≡◌, refl, true, some, [], ◌∷◌, ◌++◌, Bytes,
  ℤ, codes, replicate, arith,
}
use net_radio.Memory.Strings.{plain, plain-IsText}
use net_radio.Libc.Number.{sign, skip_spaces, spelled}
use net_radio.Manager.Monitor.{bytes}
use net_radio.Client.Recv.{no_error}
use net_radio.Scenario.{Thread, joined, scenario_main}
use net_radio.Scenario.Messages.{message_of, scenario_main-results}

abbrev threads : Bytes → ℤ → ℕ → Thread
threads ip port k = record {
  id_given = true;
  created = true;
  client_id = replicate 8 7;
  msg = replicate 140 7;
  mess_buf = replicate 157 7;
  ackm_buf = replicate 6 7;
  setup = no_error;
  answer = bytes (codes "ACKM\r\n");
}

-- It reads one address only.
abbrev inet_aton : Bytes → Option ℕ
inet_aton t = if str_eq (codes "127.0.0.1") (take 9 t) then some (127 * 2 ^ 24 + 1) else none

abbrev sent_to : ℕ → Delivery
sent_to i = record { address = 127 * 2 ^ 24 + 1; port = 4242; message = message_of i }

scenario_main-results_example :
    scenario_main inet_aton true threads
      ((codes "2" ++ 0 ∷ []) ∷ (codes "127.0.0.1" ++ 0 ∷ []) ∷ (codes "4242" ++ 0 ∷ []) ∷ [])
    ≡ some (joined ((some (sent_to 0), true) ∷ (some (sent_to 1), true) ∷ []))
unfolding spelled plain str_eq atoi sign skip_spaces
scenario_main-results_example =
    scenario_main-results inet_aton (127 * 2 ^ 24 + 1) threads b'2' [] (codes "127.0.0.1" ++ 0 ∷ [])
      (codes "4242") refl ((omega arith, omega arith), tt) (omega arith)
      (plain-IsText (codes "4242") refl)
      (λ k. record {
        id_given = refl;
        created = refl;
        client_id = refl;
        msg = refl;
        mess_buf = refl;
        ackm_buf = refl;
        setup = refl;
        rest = codes "\r\n";
        short = omega arith;
        answer = refl;
      })
