-- ===== src/Field.antt =====
-- source/io.c up to line 397: bit fields in buffers and behind operation regions.
pub mod Copy
pub mod Buffer
pub mod Unit
