-- ===== src/Tables.antt =====
-- source/tables.c and include/uacpi/internal/dynamic_array.h: the tables that are installed.
pub mod Array
pub mod Table
pub mod Control
pub mod Search
pub mod Fadt
pub mod Install
