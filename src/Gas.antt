-- ===== src/Gas.antt =====
-- source/io.c: registers behind a Generic Address Structure. Bytes and 64-bit values are numbers,
-- and what the source computes in `uacpi_u8` is taken modulo 256.
pub mod Access
pub mod Width
pub mod Transfer
