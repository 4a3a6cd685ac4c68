-- ===== src/Text/CString.antt =====
-- source/stdlib.c: the string routines. A C string is the list of its bytes before the
-- terminator, so that the end of the list is the terminating NUL.
pub mod Laws
use u_acpi.Base.{ℕ, List, [], ◌∷◌, ◌==◌, if◌then◌else◌, ◌||◌, not}
use u_acpi.Base.Int.{ℤ, pos, sub_ℕ}

-- The byte difference at the first place where the strings differ, or where one ends.
unfoldable pub strcmp : List ℕ → List ℕ → ℤ
strcmp [] [] = pos 0
strcmp [] (y ∷ ys) = sub_ℕ 0 y
strcmp (x ∷ xs) [] = sub_ℕ x 0
strcmp (x ∷ xs) (y ∷ ys) = if (x == 0 || y == 0) || not (x == y) then sub_ℕ x y else strcmp xs ys
