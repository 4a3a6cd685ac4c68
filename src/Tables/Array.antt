-- ===== src/Tables/Array.antt =====
-- include/uacpi/internal/dynamic_array.h, for `table_array` of source/tables.c: some elements stand
-- in the array's record, the others in an allocated block. A block of no elements is UACPI_NULL.
pub mod Laws
use u_acpi.Base.{
  ℕ, ◌+◌, ◌-◌, ◌*◌, ◌/◌, ◌%◌, ◌^◌, ◌≡◌, Bool, true, false, Option, none, some, ◌==◌, if◌then◌else◌,
  ltb, leb,
}
use u_acpi.Host.{MemoryHost}

-- UACPI_STATIC_TABLE_ARRAY_LEN and sizeof(struct uacpi_installed_table).
abbrev pub inline_capacity : ℕ
inline_capacity = 16

abbrev pub type_size : ℕ
type_size = 64

pub record DynamicArray (A : Type 0) : Type 0 where
  pub inline_storage : ℕ → A
  pub dynamic_storage : ℕ → A
  pub dynamic_capacity : ℕ
  pub size_including_inline : ℕ

-- The size in bytes of the block that replaces a full one.
unfoldable pub grown_bytes : ℕ → ℕ
grown_bytes dynamic_capacity =
    let half = dynamic_capacity / 2 * type_size % 2 ^ 64 in
    if dynamic_capacity == 0
    then type_size * inline_capacity
    else ((if half == 0 then half + type_size else half) + dynamic_capacity * type_size) % 2 ^ 64

module _ {A : Type 0} where
  abbrev pub capacity : DynamicArray A → ℕ
  capacity a = (inline_capacity + a.dynamic_capacity) % 2 ^ 64

  -- `table_array_at`, and the element that the pointer is to.
  unfoldable pub at : DynamicArray A → ℕ → Option A
  at a i =
      if leb a.size_including_inline i
      then none
      else some (
          if ltb i inline_capacity
          then a.inline_storage i
          else a.dynamic_storage (i - inline_capacity))

  -- A write through such a pointer.
  unfoldable pub put : DynamicArray A → ℕ → A → DynamicArray A
  put a i x =
      if ltb i inline_capacity
      then record a { inline_storage = λ j. if j == i then x else a.inline_storage j }
      else record a {
        dynamic_storage = λ j. if j == i - inline_capacity then x else a.dynamic_storage j;
      }

  -- A larger block with the old one's elements; `junk` is what else the kernel's memory holds.
  unfoldable pub grow :
      {W : Type 0} → MemoryHost W → A → DynamicArray A → W → Bool × DynamicArray A × W
  unfolding grown_bytes
  grow m junk a w =
      let bytes = grown_bytes a.dynamic_capacity in
      let dynamic_size = a.size_including_inline - inline_capacity in
      let (success, w1) = m.alloc bytes w in
      let new : DynamicArray A = record a {
        dynamic_capacity = bytes / type_size;
        dynamic_storage = λ i. if ltb i dynamic_size then a.dynamic_storage i else junk;
      } in
      let freed =
        if a.dynamic_capacity == 0 then w1 else m.free (dynamic_size * type_size % 2 ^ 64) w1 in
      if success then (true, new, freed) else (false, a, w1)

  -- `table_array_alloc`: the new element is the last one.
  unfoldable pub alloc :
      {W : Type 0} → MemoryHost W → A → DynamicArray A → W → Bool × DynamicArray A × W
  unfolding grow
  alloc m junk a w =
      let full =
        if leb inline_capacity a.size_including_inline
        then a.size_including_inline - inline_capacity == a.dynamic_capacity
        else false in
      let (success, a', w') = if full then grow m junk a w else (true, a, w) in
      if success
      then (true, record a' { size_including_inline = (a'.size_including_inline + 1) % 2 ^ 64 }, w')
      else (false, a', w')
