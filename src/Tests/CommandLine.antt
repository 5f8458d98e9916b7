-- ===== src/Tests/CommandLine.antt =====
-- `manager -v -d 60 4242 2`, and a state of the manager that it starts.
use net_radio.Common.{
  ℕ, zero, suc, ◌≡◌, refl, true, false, none, some, List, [], ◌∷◌, ◌++◌, Bytes, pos, negsuc, codes,
  length, replicate, arith,
}
use net_radio.Libc.Number.{spelled}
use net_radio.Memory.{poke}
use net_radio.Manager.Handlers.{handle_list}
use net_radio.Manager.Handlers.Lists.{announcement}
use net_radio.Manager.Options.{Opt, opt_v, opt_d, Configuration, continue, configure}
use net_radio.Manager.Options.Digits.{IsNumber, configure-digits}
use net_radio.Manager.Options.Bounds.{InBounds, configure-InBounds, configure-handle_list}
use net_radio.Manager.Register.{Register, init_register}
use net_radio.Manager.Register.Slots.{Refines}
use net_radio.Manager.System.{System, Reach, start}
use net_radio.Manager.Start.{Opened, exited, killed, sigpipe, Round, State, run_manager}
use net_radio.Manager.Start.Accepting.{Stands, run_manager-serves}
use net_radio.Tests.Messages.{buffer}
use net_radio.Tests.Registrations.{all_digits, all_digits-IsDigit, rows, slots, rows-Refines}

sixty : IsNumber (codes "60")
unfolding spelled all_digits
sixty = record {
  nonempty = λ h. cc;
  plain = all_digits-IsDigit (codes "60") refl;
  small = omega arith;
}

a_port : IsNumber (codes "4242")
unfolding spelled all_digits
a_port = record {
  nonempty = λ h. cc;
  plain = all_digits-IsDigit (codes "4242") refl;
  small = omega arith;
}

two : IsNumber (codes "2")
unfolding spelled all_digits
two = record {
  nonempty = λ h. cc;
  plain = all_digits-IsDigit (codes "2") refl;
  small = omega arith;
}

abbrev options : List Opt
options = opt_v ∷ opt_d (codes "60" ++ 0 ∷ []) ∷ []

abbrev arguments : List Bytes
arguments = (codes "4242" ++ 0 ∷ []) ∷ (codes "2" ++ 0 ∷ []) ∷ []

abbrev started : Configuration
started = record {
  settings = record { verbose = true; check_delay = 60 };
  port = 4242;
  nb_diff = 2;
}

configure-digits_example : configure options arguments ≡ some (continue started)
unfolding spelled
configure-digits_example = configure-digits (codes "60") (codes "4242") (codes "2") sixty a_port two

goes_on : configure options arguments ≡ some (continue started)
unfolding spelled
goes_on = configure-digits (codes "60") (codes "4242") (codes "2") sixty a_port two

configure-InBounds_example : InBounds started
configure-InBounds_example = configure-InBounds options arguments started goes_on

abbrev hundred_rows : Register
hundred_rows = replicate 100 (replicate 58 0)

abbrev at_start : System
at_start = record { rows = hundred_rows; watchers = [] }

zero_rows-Refines : (n : ℕ) → Refines (replicate n (replicate 58 0)) (replicate n none)
zero_rows-Refines zero = tt
zero_rows-Refines (suc n) = ((refl, refl), zero_rows-Refines n)

at_start-Reach : Reach 2 100 at_start
unfolding init_register poke
at_start-Reach = start hundred_rows (zero_rows-Refines 100) refl

configure-handle_list_example :
    (entries : List Bytes) × (handle_list 2 hundred_rows buffer ≡ some (announcement 0 ∷ entries))
    × (length entries ≡ 0)
configure-handle_list_example =
    configure-handle_list options arguments started at_start buffer goes_on at_start-Reach refl

-- The first call of `accept` fails, and the thread of the third is not created.
abbrev three_clients : List Round
three_clients =
    record {
      block = true;
      descriptor = negsuc 0;
      client_port = 0;
      client_addr = 0;
      created = true;
      broken_pipe = false;
    }
    ∷ record {
      block = true;
      descriptor = pos 4;
      client_port = 5000;
      client_addr = 0x7f000001;
      created = true;
      broken_pipe = false;
    }
    ∷ record {
      block = true;
      descriptor = pos 5;
      client_port = 5001;
      client_addr = 0x7f000001;
      created = false;
      broken_pipe = false;
    }
    ∷ []

abbrev no_block : Round
no_block = record {
  block = false;
  descriptor = pos 0;
  client_port = 0;
  client_addr = 0;
  created = false;
  broken_pipe = false;
}

abbrev hung_up : Round
hung_up = record {
  block = true;
  descriptor = pos 6;
  client_port = 5002;
  client_addr = 0x7f000001;
  created = true;
  broken_pipe = true;
}

abbrev opened : Opened
opened = record { socket = true; bound = true; listening = true }

run_manager-serves_example :
    (rows1 : Register) × (on exit broken : State) × Refines rows1 (none ∷ none ∷ [])
    × (run_manager options arguments rows opened three_clients ≡ some (rows1, some 4242, on))
    × Stands on three_clients none
    × (run_manager options arguments rows opened (three_clients ++ no_block ∷ [])
        ≡ some (rows1, some 4242, exit))
    × Stands exit three_clients (some (exited 1))
    × (run_manager options arguments rows opened (three_clients ++ hung_up ∷ [])
        ≡ some (rows1, some 4242, broken))
    × Stands broken (three_clients ++ hung_up ∷ []) (some (killed sigpipe))
unfolding spelled
run_manager-serves_example =
    run_manager-serves (codes "60") (codes "4242") (codes "2") rows slots opened three_clients []
      no_block hung_up sixty a_port two (omega arith) (omega arith) (omega arith) (omega arith)
      rows-Refines refl refl refl ((refl, refl, ((refl, refl, ((refl, refl, tt)))))) refl refl refl
