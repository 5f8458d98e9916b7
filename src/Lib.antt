-- ===== src/Lib.antt =====
-- NetRadio: broadcasters send a stream of short texts by multicast, clients list and follow them, and
-- a manager keeps the register of the broadcasters. This library is about the C half: the messages
-- (c/message.c, c/message.h), the helpers on strings (c/utils.c), the manager (c/manager.c), the
-- requests of a client (c/client.c), the interactive client (c/client_keyboard.c), and the scenario of
-- many clients (c/scenario_many_clients.c).
--
-- The parts and their files:
--
-- - Memory: `char` arrays and <string.h>. An array is the list of its bytes from a pointer on; every
--   read and write stays in the array or gives `none`, so a theorem that a function gives `some` says
--   also that it never leaves its arrays. The rest of a buffer is kept, with whatever it holds.
-- - Libc: the prints of numbers and addresses, `strtok`, `strtoul` and `atoi`.
-- - Message: `create_message` and `verify_msg`. Types has the types and their sizes, Build the
--   `add_...` functions and `create_message` with its variadic arguments and its three ways to end,
--   Verify the `verify_...` functions. The references are written apart from the code: Wire gives each
--   message, a value, its bytes; Verify/Grammar gives each type its fields. A character is a number below
--   256; `msg_type` is an enumeration, with `unknown` for -1.
-- - Utils: the functions of c/utils.c. A `long` has 64 bits, an `int` 32, and the
--   wrap-around from one to the other is written out.
-- - Manager: Register holds `broadcaster_register` with its critical sections, Monitor the rounds of
--   `monitor_broadcaster`, Handlers what a thread does with a connection, System the threads
--   together. Register/Slots is the abstract view: a row of slots, each free or held by the text of an
--   ITEM; `Refines` says that the array stands for the slots. Handlers/Serve is the reference for a
--   whole connection, on slots. Options is the command line of `main`, Start what `main` does with it:
--   `init_manager`, the loop of `start_manager`, and `usage`.
-- - Client: `get_streamer_list`, `send_mess_to_streamer` and `get_last_mess` of c/client.c, the client's
--   side of a LIST, a MESS and a LAST.
-- - Keyboard: c/client_keyboard.c. A function of it is a run on a world: what is typed, and what each
--   call of `connect`, `send` and `recv` gives, stands in it at first, and what is printed and sent is
--   added. Manager is the client of a manager, Streamer that of a broadcaster, Multicast the thread that
--   shows the multicast, Main the arguments and the loops of `main`; Session puts them together. The
--   `char` arrays on the stack are arguments. `fgets` at the end of the input gives a null pointer, and
--   reading through it is a fault.
-- - Scenario: the threads of c/scenario_many_clients.c, each with its own arrays and connection.
-- - Tests: runs on concrete values.
--
-- `handle_tcp` receives one message and checks it by `verify_msg`; a REGI goes to `handle_regi`, which
-- writes it into the register as an ITEM and watches the broadcaster by RUOK and IMOK until it stops
-- to answer; a LIST gets a LINB and the ITEMs; a MESS goes to every broadcaster. What `recv`, `send`
-- and `malloc` give is an argument. Each function that holds the mutex is one step here. A run
-- of a handler is that of its thread alone; System has the critical sections of any number of threads
-- in any order.
--
-- Loops are by recursion on their bound, on the bytes, or on the rounds given. The digits of a
-- number are found on a fuel that is the number itself, which is enough since each step divides it
-- by ten. The two loops of the interactive client that have no bound are on fuel, and a run that
-- uses it up says so: the loop for the pseudonym needs no more rounds than there are characters
-- typed, that over the dialogues no more than there are lines, if one of these leaves it.
--
-- In the verbose mode of the manager, `monitor_broadcaster` and `handle_tcp` print what they have
-- received: these prints are reads up to a '\0'. `inet_aton` is a parameter of what sends a MESS.
-- Between two rounds of `start_manager` a thread may have raised SIGPIPE, which ends the program;
-- the handlers by themselves, and the clients, are followed for calls of `send` that do not raise
-- it.
--
-- Not modelled: what the handlers of c/manager.c print, what is written to the standard
-- error, the unit tests of c/message_test.c beyond the cases in Tests, and the Java half. The calls of
-- the operating system are arguments: their results are given, and no more is said about them.
pub mod Common
pub mod Memory
pub mod Message
pub mod Libc
pub mod Manager
pub mod Utils
pub mod Client
pub mod Keyboard
pub mod Scenario
pub mod Tests
