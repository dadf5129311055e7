-- ===== src/PciConfig/Config.antt =====
-- components/PCIConfigIO/src/pci.c: the reads and writes of configuration registers.
use global_components.Prelude.{ℕ, ◌+◌, ◌*◌, ◌/◌, ◌%◌, ◌^◌, ◌==◌, if◌then◌else◌}
use global_components.Prelude.Int.{ℤ, pos, negsuc}
use Prim.Native.Nat.{bit_and, bit_or}

-- The sizes of an access in bytes.
pub data IoSize : Type 0 where
  iosize_8 iosize_16 iosize_32 : IoSize

-- The I/O ports over the state `Hw` of the hardware: `port_in` gives the error and the result.
pub record IoPorts (Hw : Type 0) : Type 0 where
  pub port_out : Hw → ℕ → IoSize → ℕ → Hw
  pub port_in : Hw → ℕ → IoSize → ℤ × ℕ × Hw

abbrev pub config_addr : ℕ
config_addr = 3320

abbrev pub config_data : ℕ
config_data = 3324

-- The 32 bits that select a register; `<<` keeps 32 bits.
unfoldable pub config_address : ℕ → ℕ → ℕ → ℕ → ℕ
config_address bus dev fun offset =
    let lbus = bus * 2 ^ 16 % 2 ^ 32 in
    let ldev = dev * 2 ^ 11 % 2 ^ 32 in
    let lfun = fun * 2 ^ 8 % 2 ^ 32 in
    bit_or (bit_or (bit_or (bit_or lbus ldev) lfun) (bit_and offset 252)) 2147483648

-- The result of a read, of which `n` values fit the type; 0 on an error.
unfoldable pub result_or_0 : {Hw : Type 0} → ℕ → ℤ × ℕ × Hw → ℕ × Hw
result_or_0 n (pos e, result, hw) = if e == 0 then (result % n, hw) else (0, hw)
result_or_0 n (negsuc e, result, hw) = (0, hw)

module _ {Hw : Type 0} (io : IoPorts Hw) where
  unfoldable pub config_select : ℕ → ℕ → ℕ → ℕ → Hw → Hw
  config_select bus dev fun offset hw =
      io.port_out hw config_addr iosize_32 (config_address bus dev fun offset)

  -- `offset & 3` is the remainder by 4.
  unfoldable pub pci_config_read8 : ℕ → ℕ → ℕ → ℕ → Hw → ℕ × Hw
  pci_config_read8 bus dev fun offset hw =
      result_or_0 (2 ^ 8)
        (io.port_in (config_select bus dev fun offset hw) (config_data + offset % 4) iosize_8)

  -- `offset & 2` is twice the second bit.
  unfoldable pub pci_config_read16 : ℕ → ℕ → ℕ → ℕ → Hw → ℕ × Hw
  pci_config_read16 bus dev fun offset hw = result_or_0 (2 ^ 16) (
      io.port_in (config_select bus dev fun offset hw) (config_data + offset / 2 % 2 * 2) iosize_16)

  unfoldable pub pci_config_read32 : ℕ → ℕ → ℕ → ℕ → Hw → ℕ × Hw
  pci_config_read32 bus dev fun offset hw =
      result_or_0 (2 ^ 32) (io.port_in (config_select bus dev fun offset hw) config_data iosize_32)

  unfoldable pub pci_config_write8 : ℕ → ℕ → ℕ → ℕ → ℕ → Hw → Hw
  pci_config_write8 bus dev fun offset val hw =
      io.port_out (config_select bus dev fun offset hw) (config_data + offset % 4) iosize_8 val

  unfoldable pub pci_config_write16 : ℕ → ℕ → ℕ → ℕ → ℕ → Hw → Hw
  pci_config_write16 bus dev fun offset val hw =
      io.port_out (config_select bus dev fun offset hw) (config_data + offset / 2 % 2 * 2) iosize_16
        val

  unfoldable pub pci_config_write32 : ℕ → ℕ → ℕ → ℕ → ℕ → Hw → Hw
  pci_config_write32 bus dev fun offset val hw =
      io.port_out (config_select bus dev fun offset hw) config_data iosize_32 val
