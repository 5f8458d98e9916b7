-- ===== src/Libc.antt =====
-- The functions of the C library, beside those of <string.h>, that the sources call: decimal print,
-- `inet_ntop`, `strtok`, `strtoul`, `atoi`.
pub mod Atoi
pub mod Decimal
pub mod Number
pub mod Token
