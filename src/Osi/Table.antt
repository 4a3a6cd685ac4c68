-- ===== src/Osi/Table.antt =====
-- source/osi.c: the interfaces that the library knows by itself, and searches of the list.
-- A linked list of interfaces is a list, in the order of its links.
use Prim.Native.Char.{code}
use Prim.Native.String.{String}
use u_acpi.Base.{
  ℕ, Bool, true, false, Option, none, some, List, [], ◌∷◌, ◌==◌, if◌then◌else◌, bit_and,
}
use u_acpi.Base.Int.{is_zero}
use u_acpi.Text.CString.{strcmp}

pub record Interface : Type 0 where
  pub name : List ℕ
  pub weight : ℕ
  pub kind : ℕ
  pub host_type : ℕ
  pub disabled : Bool
  pub dynamic : Bool

-- UACPI_INTERFACE_KIND_VENDOR and UACPI_INTERFACE_KIND_FEATURE.
abbrev pub kind_vendor : ℕ
kind_vendor = 1

abbrev pub kind_feature : ℕ
kind_feature = 2

-- The bytes of an ASCII literal.
abbrev pub codes : String → List ℕ
codes String.[] = []
codes (String.◌∷◌ c s) = code c ∷ codes s

-- The macro WINDOWS, given the whole string; the weight is the vendor interface's number.
windows : String → ℕ → Interface
windows string vendor = record {
  name = codes string;
  weight = vendor;
  kind = kind_vendor;
  host_type = 0;
  disabled = false;
  dynamic = false;
}

-- The macro HOST_FEATURE.
host_feature : String → ℕ → Interface
host_feature string type = record {
  name = codes string;
  weight = 0;
  kind = kind_feature;
  host_type = type;
  disabled = true;
  dynamic = false;
}

unfoldable pub predefined_interfaces : List Interface
unfolding windows host_feature
predefined_interfaces =
    windows "Windows 2000" 1
    ∷ windows "Windows 2001" 2
    ∷ windows "Windows 2001 SP1" 3
    ∷ windows "Windows 2001.1" 4
    ∷ windows "Windows 2001 SP2" 5
    ∷ windows "Windows 2001.1 SP1" 6
    ∷ windows "Windows 2006" 7
    ∷ windows "Windows 2006.1" 8
    ∷ windows "Windows 2006 SP1" 9
    ∷ windows "Windows 2006 SP2" 10
    ∷ windows "Windows 2009" 11
    ∷ windows "Windows 2012" 12
    ∷ windows "Windows 2013" 13
    ∷ windows "Windows 2015" 14
    ∷ windows "Windows 2016" 15
    ∷ windows "Windows 2017" 16
    ∷ windows "Windows 2017.2" 17
    ∷ windows "Windows 2018" 18
    ∷ windows "Windows 2018.2" 19
    ∷ windows "Windows 2019" 20
    ∷ windows "Windows 2020" 21
    ∷ windows "Windows 2021" 22
    ∷ windows "Windows 2022" 23
    ∷ host_feature "Module Device" 1
    ∷ host_feature "Processor Device" 2
    ∷ host_feature "3.0 Thermal Model" 3
    ∷ host_feature "3.0 _SCP Extensions" 4
    ∷ host_feature "Processor Aggregator Device" 5
    ∷ record {
      name = codes "Extended Address Space Descriptor";
      weight = 0;
      kind = 0;
      host_type = 0;
      disabled = false;
      dynamic = false;
    }
    ∷ []

-- Whether `uacpi_strcmp` finds the names equal.
unfoldable pub same : List ℕ → List ℕ → Bool
same a b = is_zero (strcmp a b)

unfoldable pub find_interface : List ℕ → List Interface → Option Interface
find_interface name [] = none
find_interface name (i ∷ is) = if same i.name name then some i else find_interface name is

unfoldable pub find_host_interface : ℕ → List Interface → Option Interface
find_host_interface type [] = none
find_host_interface type (i ∷ is) =
    if i.host_type == type then some i else find_host_interface type is

-- The writes through the pointer that a search returned, at its place in the list.
unfoldable pub set_disabled : List ℕ → Bool → List Interface → List Interface
set_disabled name d [] = []
set_disabled name d (i ∷ is) =
    if same i.name name then record i { disabled = d } ∷ is else i ∷ set_disabled name d is

unfoldable pub set_host_disabled : ℕ → Bool → List Interface → List Interface
set_host_disabled type d [] = []
set_host_disabled type d (i ∷ is) =
    if i.host_type == type then record i { disabled = d } ∷ is else i ∷ set_host_disabled type d is

-- The unlinking of a dynamic interface.
unfoldable pub unlink : List ℕ → List Interface → List Interface
unlink name [] = []
unlink name (i ∷ is) = if same i.name name then is else i ∷ unlink name is

-- The loop of `uacpi_bulk_configure_interfaces`.
unfoldable pub configure : Bool → ℕ → List Interface → List Interface
configure d kind [] = []
configure d kind (i ∷ is) =
    (if bit_and kind i.kind == 0 then i else record i { disabled = d }) ∷ configure d kind is

-- The reset of a predefined interface in `uacpi_deinitialize_interfaces`.
unfoldable pub reset : Interface → Interface
reset i = record i { disabled = i.kind == kind_feature }

-- The interfaces that the deinitialization keeps, reset; the dynamic ones are freed.
unfoldable pub reset_all : List Interface → List Interface
unfolding reset
reset_all [] = []
reset_all (i ∷ is) = if i.dynamic then reset_all is else reset i ∷ reset_all is
