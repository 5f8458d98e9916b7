-- ===== src/Utils.antt =====
-- c/utils.c: reading an `unsigned int` from a string, printing a string with its control characters
-- made visible, and printing the address of a client.
pub mod Numbers
use net_radio.Common.{
  ℕ, zero, suc, ◌+◌, ◌-◌, ◌/◌, ◌%◌, ◌^◌, ◌≤◌, ◌<◌, Bool, true, false, ◌&&◌, ◌||◌, Option, none,
  some, List, [], ◌∷◌, ◌++◌, Bytes, leb, ltb, ◌==◌, if◌then◌else◌, ◌>>=◌, not, codes, pos,
}
use net_radio.Memory.{text}
use net_radio.Libc.Decimal.{format_int, inet_ntop}
use net_radio.Libc.Number.{strtoul, Conversion}

-- `isprint` in the C locale
abbrev isprint : ℕ → Bool
isprint c = leb 32 c && leb c 126

-- `"%x"` of one digit
hex_digit : ℕ → ℕ
hex_digit d = if ltb d 10 then b'0' + d else b'a' + (d - 10)

-- `printf ("%02x", c)`: a `char` above 127 is negative, and is printed as the `int` 0xffffffcc.
hex : ℕ → Bytes
hex c =
    let two = hex_digit (c / 16) ∷ hex_digit (c % 16) ∷ [] in
    if ltb c 128 then two else codes "ffffff" ++ two

-- What `print_raw_char` prints.
unfoldable pub print_raw_char : ℕ → Bytes
unfolding hex hex_digit
print_raw_char c =
    if isprint c
    then c ∷ []
    else if c == b'\n'
    then codes "\\n"
    else if c == b'\t'
    then codes "\\t"
    else if c == b'\r'
    then codes "\\r"
    else if c == 11
    then codes "\\v"
    else hex c

-- The loop of `print_raw_string`, up to the '\0'; a string with none is read out of its array.
unfoldable pub print_raw_string : Bytes → Option Bytes
unfolding print_raw_char
print_raw_string [] = none
print_raw_string (c ∷ str) =
    let rest = print_raw_string str in
    if c == 0 then some [] else rest >>= λ out. some (print_raw_char c ++ out)

-- `*end != 0`
abbrev is_more : Bytes → Bool
is_more [] = false
is_more (c ∷ t) = true

-- What `print_sockaddr_in_info` prints of a port and an address in host order.
unfoldable pub print_sockaddr_in_info : (port address : ℕ) → Bytes
print_sockaddr_in_info port address =
    codes "Port client    : "
    ++ (format_int 1 (pos port)
        ++ (codes "\nIP client      : " ++ (inet_ntop address ++ codes "\n")))

-- The number that `set_uint_from_string` stores, or none for its `false`. The `unsigned long` is
-- stored in an `int`, which keeps its low 32 bits and is negative from 2 ^ 31 on.
unfoldable pub set_uint_from_string : Bytes → Option (Option ℕ)
set_uint_from_string str = do
  t ← text str
  let c = strtoul t
  let val = c.value % 2 ^ 32
  some (if c.range_error || c.nothing || is_more c.end || leb (2 ^ 31) val then none else some val)
