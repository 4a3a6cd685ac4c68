-- ===== src/Mutex.antt =====
-- source/mutex.c and include/uacpi/internal/mutex.h: the locks of the library.
pub mod Native
pub mod GlobalLock
pub mod RwLock
pub mod Recursive
pub mod Aml
