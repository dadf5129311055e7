-- ===== src/Tests/Registers.antt =====
-- A configuration space whose registers hold their own addresses.
use global_components.Prelude.{
  ℕ, ◌+◌, ◌-◌, ◌*◌, ◌/◌, ◌%◌, ◌^◌, ◌≡◌, refl, arith, ◌==◌, if◌then◌else◌,
}
use global_components.Prelude.Int.{ℤ, pos}
use global_components.PciConfig.Config.{
  IoSize, IoPorts, iosize_8, iosize_16, iosize_32, config_address, pci_config_read8,
  pci_config_read16, pci_config_read32,
}
use global_components.PciConfig.Narrow.{IsDataPort, pci_config_read32_parts}

abbrev register_of : ℕ → ℕ
register_of hw = hw % 2 ^ 32

abbrev read_port : ℕ → ℕ → IoSize → ℤ × ℕ × ℕ
read_port hw port iosize_8 = (pos 0, register_of hw / 2 ^ (8 * (port - 3324)) % 2 ^ 8, hw)
read_port hw port iosize_16 = (pos 0, register_of hw / 2 ^ (8 * (port - 3324)) % 2 ^ 16, hw)
read_port hw port iosize_32 = (pos 0, register_of hw, hw)

abbrev ports : IoPorts ℕ
ports = record {
  port_out = λ hw port size val. if port == 3320 then val else hw;
  port_in = read_port;
}

ports-IsDataPort : IsDataPort ports register_of
ports-IsDataPort = record {
  fits = λ hw. omega arith;
  whole = λ hw. refl;
  halves = λ hw i h. let e : 8 * (3324 + i * 2 - 3324) ≡ 16 * i = omega arith in rw e refl;
  bytes = λ hw i h. let e : 8 * (3324 + i - 3324) ≡ 8 * i = omega arith in rw e refl;
}

first_device : config_address 0 1 0 9 ≡ 0x80000808
unfolding config_address
first_device = refl

pci_config_read32_parts_example :
    let register = (pci_config_read32 ports 0 1 0 9 0).0 in
    ((pci_config_read8 ports 0 1 0 9 0).0 ≡ register / 2 ^ 8 % 2 ^ 8)
    × ((pci_config_read16 ports 0 1 0 9 0).0 ≡ register / 2 ^ 0 % 2 ^ 16)
pci_config_read32_parts_example =
    pci_config_read32_parts ports register_of 0 1 0 9 0 ports-IsDataPort
