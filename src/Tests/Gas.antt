-- ===== src/Tests/Gas.antt =====
-- Concrete runs of source/io.c and source/registers.c.
use u_acpi.Base.{◌*◌, ◌%◌, ◌^◌, ◌≡◌, inl, inr, refl, none, some, ok, arith}
use u_acpi.Gas.Access.{Gas}
use u_acpi.Gas.Transfer.{gas_read}
use u_acpi.Gas.Transfer.Single.{gas_read_whole}
use u_acpi.Registers.Table.{Blocks, RegisterSpec, port, preserve}
use u_acpi.Tests.World.{World, all_free, ports}

abbrev memory_gas : Gas
memory_gas = record {
  address_space_id = 0;
  register_bit_width = 8;
  register_bit_offset = 8;
  access_size = 3;
  address = 0x1000;
}

abbrev whole_gas : Gas
whole_gas = record {
  address_space_id = 0;
  register_bit_width = 32;
  register_bit_offset = 0;
  access_size = 3;
  address = 0x1000;
}

abbrev port_gas : Gas
port_gas = record {
  address_space_id = 1;
  register_bit_width = 16;
  register_bit_offset = 0;
  access_size = 2;
  address = 0x400;
}

abbrev blocks : Blocks
blocks = record {
  pm1a_status = port_gas;
  pm1b_status = port_gas;
  pm1a_enable = port_gas;
  pm1b_enable = port_gas;
  pm1a_control = port_gas;
  pm1b_control = port_gas;
  pm_timer = port_gas;
  pm2_control = port_gas;
  sleep_control = port_gas;
  sleep_status = port_gas;
  reset = port_gas;
  smi_cmd = 0xb2;
}

abbrev reg : RegisterSpec
reg = record {
  access_kind = preserve;
  access_width = 1;
  accessor0 = port 0xb2;
  accessor1 = none;
  write_only_mask = 0;
  preserve_mask = 6;
}

gas_read_whole_example :
    let (virt, w1) = ports.map_memory whole_gas.address 4 all_free in
    let (value, w2) = ports.load virt 4 w1 in
    gas_read ports (some whole_gas) all_free
    ≡ (ok, value % 2 ^ (4 * 8), ports.unmap_memory virt (4 * 8) w2)
gas_read_whole_example =
    gas_read_whole ports whole_gas 4 all_free (inr (inr (inl refl))) refl refl refl (omega arith)
      (ground arith) (omega arith) (ground arith)
