-- ===== src/Text.antt =====
-- The string routines of source/stdlib.c and the text conversions of source/utilities.c.
pub mod CString
pub mod Chars
pub mod Integer
pub mod Eisa
