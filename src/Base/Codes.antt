-- ===== src/Base/Codes.antt =====
-- include/uacpi/status.h. `err` holds every value but UACPI_STATUS_OK, so that the test
-- `ret != UACPI_STATUS_OK` of the source is a match on two constructors. The codes with a
-- bytecode-related origin are left out, since nothing that is modelled returns them.
use mathlib.Core.Path.{◌≡◌, refl}
use mathlib.Core.Logic.{◌⊎◌, inl, inr}

pub data Error : Type 0 where
  mapping_failed out_of_memory bad_checksum invalid_signature invalid_table_length not_found : Error
  invalid_argument unimplemented already_exists internal_error type_mismatch : Error
  init_level_mismatch namespace_node_dangling no_handler no_resource_end_tag : Error
  compiled_out hardware_timeout timeout overridden denied : Error

pub data Status : Type 0 where
  ok : Status
  err : Error → Status

pub Status-cases : (r : Status) → (r ≡ ok) ⊎ ((e : Error) × (r ≡ err e))
Status-cases ok = inl refl
Status-cases (err e) = inr (e, refl)
