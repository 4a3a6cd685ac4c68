-- ===== src/Stdlib.antt =====
-- source/stdlib.c: the parts of the C library that the program brings along.
pub mod Memory
pub mod Format
pub mod Printf
