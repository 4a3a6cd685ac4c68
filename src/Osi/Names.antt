-- ===== src/Osi/Names.antt =====
-- How the searches of source/osi.c see a list of interfaces that was changed.
use u_acpi.Base.{
  ℕ, zero, suc, ◌≡◌, refl, Bool, true, false, none, List, [], ◌∷◌, ◌==◌, bit_and, if◌then◌else◌,
  arith,
}
use mathlib.Core.Option
use u_acpi.Base.Int.{ℤ, pos, negsuc, is_zero}
use u_acpi.Text.CString.Laws.{strcmp_swap, strcmp_self, strcmp_trans}
use u_acpi.Osi.Table.{
  Interface, find_interface, set_disabled, set_host_disabled, unlink, configure, same,
}

pub same_self : (a : List ℕ) → same a a ≡ true
unfolding same
same_self a = rw (strcmp_self a)

pub same_comm : (a b : List ℕ) → same a b ≡ same b a
unfolding same
same_comm a b = rw (strcmp_swap a b) (ground arith)

is_zero-eq : (z : ℤ) → is_zero z ≡ true → z ≡ pos 0
is_zero-eq (pos zero) h = refl
is_zero-eq (pos (suc n)) h = cc
is_zero-eq (negsuc n) h = cc

-- Equal names compare alike with any third.
pub same_trans : (a b c : List ℕ) → same a b ≡ true → same a c ≡ same b c
unfolding same
same_trans a b c h = rw (strcmp_trans a b c (is_zero-eq _ h))

abbrev pub with_disabled : Bool → Interface → Interface
with_disabled d i = record i { disabled = d }

-- A write to the flag of one name shows in the search for that name alone.
pub find-set_disabled :
    (n m : List ℕ) (d : Bool) (is : List Interface)
    → find_interface n (set_disabled m d is) ≡ (
        if same m n
        then Option.map (with_disabled d) (find_interface n is)
        else find_interface n is)
unfolding find_interface set_disabled
find-set_disabled n m d [] = ground arith
find-set_disabled n m d (i ∷ is) =
    ground (
      arith,
      find-set_disabled n m d is,
      same_trans i.name m n,
      same_trans i.name n m,
      same_comm n m,
    )

-- Names that compare equal are found at one place.
pub find_same :
    (a b : List ℕ) (is : List Interface)
    → same a b ≡ true
    → find_interface a is ≡ find_interface b is
unfolding find_interface
find_same a b [] h = refl
find_same a b (i ∷ is) h =
    ground
      (arith, find_same a b is, same_trans a b i.name h, same_comm a i.name, same_comm b i.name)

-- No other interface of the list has the name.
abbrev pub Lacks : List ℕ → List Interface → Type 0
Lacks n [] = Unit {0}
Lacks n (i ∷ is) = (same i.name n ≡ false) × Lacks n is

-- No two interfaces have one name.
abbrev pub Distinct : List Interface → Type 0
Distinct [] = Unit {0}
Distinct (i ∷ is) = Lacks i.name is × Distinct is

pub Lacks-find : (n : List ℕ) (is : List Interface) → Lacks n is → find_interface n is ≡ none
unfolding find_interface
Lacks-find n [] l = refl
Lacks-find n (i ∷ is) l = ground (arith, Lacks-find n is l.1)

pub find-Lacks : (n : List ℕ) (is : List Interface) → find_interface n is ≡ none → Lacks n is
unfolding find_interface
find-Lacks n [] e = tt
find-Lacks n (i ∷ is) e = ground (arith, find-Lacks n is)

-- Unlinking takes one name out, where no name stands twice.
pub find-unlink :
    (n m : List ℕ) (is : List Interface)
    → Distinct is
    → find_interface n (unlink m is) ≡ (if same m n then none else find_interface n is)
unfolding find_interface unlink
find-unlink n m [] d = ground arith
find-unlink n m (i ∷ is) d = ground (
  arith,
  find-unlink n m is d.1,
  Lacks-find i.name is d.0,
  find_same i.name n is,
  same_trans i.name m n,
  same_trans i.name n m,
  same_comm n m,
)

-- What the bulk configuration does to one interface.
abbrev pub configured : Bool → ℕ → Interface → Interface
configured d kind i = if bit_and kind i.kind == 0 then i else with_disabled d i

pub find-configure :
    (n : List ℕ) (d : Bool) (kind : ℕ) (is : List Interface)
    → find_interface n (configure d kind is) ≡ Option.map (configured d kind) (find_interface n is)
unfolding find_interface configure
find-configure n d kind [] = refl
find-configure n d kind (i ∷ is) = ground (arith, find-configure n d kind is)

Lacks-set_disabled :
    (n m : List ℕ) (d : Bool) (is : List Interface) → Lacks n is → Lacks n (set_disabled m d is)
unfolding set_disabled
Lacks-set_disabled n m d [] l = tt
Lacks-set_disabled n m d (i ∷ is) l = ground (arith, Lacks-set_disabled n m d is l.1)

pub set_disabled-Distinct :
    (m : List ℕ) (d : Bool) (is : List Interface) → Distinct is → Distinct (set_disabled m d is)
unfolding set_disabled
set_disabled-Distinct m d [] u = tt
set_disabled-Distinct m d (i ∷ is) u =
    ground (arith, set_disabled-Distinct m d is u.1, Lacks-set_disabled i.name m d is u.0)

Lacks-set_host_disabled :
    (n : List ℕ) (t : ℕ) (d : Bool) (is : List Interface)
    → Lacks n is
    → Lacks n (set_host_disabled t d is)
unfolding set_host_disabled
Lacks-set_host_disabled n t d [] l = tt
Lacks-set_host_disabled n t d (i ∷ is) l = ground (arith, Lacks-set_host_disabled n t d is l.1)

pub set_host_disabled-Distinct :
    (t : ℕ) (d : Bool) (is : List Interface) → Distinct is → Distinct (set_host_disabled t d is)
unfolding set_host_disabled
set_host_disabled-Distinct t d [] u = tt
set_host_disabled-Distinct t d (i ∷ is) u =
    ground (arith, set_host_disabled-Distinct t d is u.1, Lacks-set_host_disabled i.name t d is u.0)

Lacks-configure :
    (n : List ℕ) (d : Bool) (k : ℕ) (is : List Interface) → Lacks n is → Lacks n (configure d k is)
unfolding configure
Lacks-configure n d k [] l = tt
Lacks-configure n d k (i ∷ is) l = ground (arith, Lacks-configure n d k is l.1)

pub configure-Distinct :
    (d : Bool) (k : ℕ) (is : List Interface) → Distinct is → Distinct (configure d k is)
unfolding configure
configure-Distinct d k [] u = tt
configure-Distinct d k (i ∷ is) u =
    ground (arith, configure-Distinct d k is u.1, Lacks-configure i.name d k is u.0)

Lacks-unlink : (n m : List ℕ) (is : List Interface) → Lacks n is → Lacks n (unlink m is)
unfolding unlink
Lacks-unlink n m [] l = tt
Lacks-unlink n m (i ∷ is) l = ground (arith, Lacks-unlink n m is l.1)

pub unlink-Distinct : (m : List ℕ) (is : List Interface) → Distinct is → Distinct (unlink m is)
unfolding unlink
unlink-Distinct m [] u = tt
unlink-Distinct m (i ∷ is) u =
    ground (arith, unlink-Distinct m is u.1, Lacks-unlink i.name m is u.0)
