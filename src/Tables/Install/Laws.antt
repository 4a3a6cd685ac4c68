-- ===== src/Tables/Install/Laws.antt =====
-- What the installation of a table in source/tables.c reports.
use u_acpi.Base.{
  ℕ, suc, ◌≡◌, ◌≢◌, ◌≤◌, Bool, true, false, ◌==◌, if◌then◌else◌, ltb, not, ◌||◌, ◌&&◌, Option, some,
  Status, Status-cases, ok, arith,
}
use u_acpi.Host.{LockHost, MemoryHost}
use u_acpi.Stdlib.Memory.{Memory}
use u_acpi.Tables.Table.{InstalledTable, TableHost, Origin, firmware_physical}
use u_acpi.Tables.Search.{Found}
use u_acpi.Tables.Install.{
  check_expected_signature, dsdt_signature, handle_table_override, is_firmware_physical, conclude,
  physical_checks, InstallHost, InstallState, physical, hdr_size, get_external_table_header,
  install_physical_by, install, in_world, Disposition, verify_and_install_table, ask_handler,
}

module _ {W : Type 0} (l : LockHost W) (h : TableHost W) (m : MemoryHost W) (i : InstallHost W)
    (junk : InstalledTable) where
  conclude-ok :
      (wanted : Bool) (virt len : ℕ) (r : Status × Option Found × InstallState W)
      → (conclude l h m i junk wanted virt len r).0 ≡ ok
  unfolding conclude
  conclude-ok wanted virt len r = ground (arith, Status-cases r.0)

  physical_checks-ok :
      (ret signed : Status) (is_short is_unmapped : Bool) (s1 s2 : InstallState W)
      (r : Status × Option Found × InstallState W)
      → ret ≡ ok
      → is_short ≡ false
      → signed ≡ ok
      → is_unmapped ≡ false
      → r.0 ≡ ok
      → (physical_checks l h m i junk ret is_short signed is_unmapped s1 s2 r).0 ≡ ok
  unfolding physical_checks
  physical_checks-ok ret signed is_short is_unmapped s1 s2 r a b c d e =
      ground (arith, a, b, c, d, e)

  maps-virt :
      (maps : Bool) (x : ℕ × W) (w : W)
      → x.0 ≢ 0
      → maps && ((if maps then x else (0, w)).0 == 0) ≡ false
  maps-virt true x w p = ground (arith, p)
  maps-virt false x w p = ground arith

  by-hides :
      (dsdt : ℕ → InstallState W → Status × Option Found × InstallState W)
      (override : Disposition → ℕ → InstallState W → Status × Option Found × InstallState W)
      (phys : ℕ) (expected : Option Memory) (origin : Origin) (wanted : Bool) (s : InstallState W)
      → let header = get_external_table_header l h m i junk phys (s.state.world) in
        header.0 ≡ ok
        → hdr_size ≤ header.1.length
        → check_expected_signature l h m i junk header.1 expected ≡ ok
        → (h.map_table phys header.1.length header.2).0 ≢ 0
        → (install_physical_by l h m i junk dsdt override phys expected origin wanted s).0 ≡ ok
  unfolding install_physical_by
  by-hides dsdt override phys expected origin wanted s e b c p =
      let header = get_external_table_header l h m i junk phys (s.state.world) in
      let has_handler = not (s.state.installation_handler == 0) in
      let maps = has_handler || wanted in
      let x = h.map_table phys header.1.length header.2 in
      let v : ℕ × W = if maps then x else (0, header.2) in
      let s2 = in_world l h m i junk s v.1 in
      let go_on = λ (t : InstallState W).
        verify_and_install_table l h m i junk dsdt header.1 phys v.0 origin wanted t in
      let r =
        if is_firmware_physical origin && has_handler
        then ask_handler l h m i junk override go_on v.0 s2
        else go_on s2 in
      let signed = check_expected_signature l h m i junk header.1 expected in
      physical_checks-ok header.0 signed (ltb header.1.length hdr_size) (maps && (v.0 == 0))
        (in_world l h m i junk s header.2) s2 (conclude l h m i junk wanted v.0 header.1.length r) e
        (ground (arith, b)) c (maps-virt maps x header.2 p)
        (conclude-ok wanted v.0 header.1.length r)

  -- Once the header of a table at a physical address could be read, is not too short, passes the
  -- check of its signature, if one is expected, and the table could be mapped, its installation, with
  -- any depth of nested ones left, is reported as OK, whatever became of it: the handler's denial or
  -- replacement, a wrong checksum, and a lack of memory are not reported.
  pub install-hides :
      (n phys : ℕ) (expected : Option Memory) (origin : Origin) (wanted : Bool) (s : InstallState W)
      → let header = get_external_table_header l h m i junk phys (s.state.world) in
        header.0 ≡ ok
        → hdr_size ≤ header.1.length
        → check_expected_signature l h m i junk header.1 expected ≡ ok
        → (h.map_table phys header.1.length header.2).0 ≢ 0
        → (install l h m i junk (suc n) (physical phys expected) origin wanted s).0 ≡ ok
  unfolding install
  install-hides n phys expected origin wanted s e b c p =
      by-hides
        (λ address t.
          install l h m i junk n (physical address (some dsdt_signature)) firmware_physical false t)
        (handle_table_override l h m i junk (install l h m i junk n) wanted) phys expected origin
        wanted s e b c p
