-- ===== src/PciConfig/Narrow.antt =====
-- components/PCIConfigIO/src/pci.c: narrow reads give the parts of a register.
use global_components.Prelude.{ℕ, ◌+◌, ◌*◌, ◌/◌, ◌%◌, ◌^◌, ◌<◌, ◌≡◌, arith}
use global_components.Prelude.Int.{pos}
use native.Mathlib.Nat.{mod-eq_of_lt, mod-mod}
use global_components.PciConfig.Config.{
  IoPorts, config_select, result_or_0, pci_config_read8, pci_config_read16, pci_config_read32,
  iosize_8, iosize_16, iosize_32,
}

-- What the hardware documents of the data port: it gives the selected register `dword`, and a narrow
-- access at a byte of the port the bytes from there on.
pub record IsDataPort {Hw : Type 0} (io : IoPorts Hw) (dword : Hw → ℕ) : Type 0 where
  pub fits : (hw : Hw) → dword hw < 2 ^ 32
  pub whole : (hw : Hw) → io.port_in hw 3324 iosize_32 ≡ (pos 0, dword hw, hw)
  pub halves :
      (hw : Hw) (i : ℕ)
      → i < 2
      → io.port_in hw (3324 + i * 2) iosize_16 ≡ (pos 0, dword hw / 2 ^ (16 * i) % 2 ^ 16, hw)
  pub bytes :
      (hw : Hw) (i : ℕ)
      → i < 4
      → io.port_in hw (3324 + i) iosize_8 ≡ (pos 0, dword hw / 2 ^ (8 * i) % 2 ^ 8, hw)

module _ {Hw : Type 0} (io : IoPorts Hw) where
  -- On hardware with such a data port a read of 8 or 16 bits gives the part of the register that a
  -- read of 32 bits gives whole, and the part is the one that the lowest bits of the offset name.
  pub pci_config_read32_parts :
      (dword : Hw → ℕ) (bus dev fun offset : ℕ) (hw : Hw)
      → IsDataPort io dword
      → let register = (pci_config_read32 io bus dev fun offset hw).0 in
        ((pci_config_read8 io bus dev fun offset hw).0 ≡ register / 2 ^ (8 * (offset % 4)) % 2 ^ 8)
        × ((pci_config_read16 io bus dev fun offset hw).0
            ≡ register / 2 ^ (16 * (offset / 2 % 2)) % 2 ^ 16)
  unfolding pci_config_read8 pci_config_read16 pci_config_read32 result_or_0
  pci_config_read32_parts dword bus dev fun offset hw port =
      let t = config_select io bus dev fun offset hw in
      let whole = port.whole t in
      let small : dword t % 2 ^ 32 ≡ dword t = mod-eq_of_lt (port.fits t) in
      let byte = port.bytes t (offset % 4) (omega arith) in
      let half = port.halves t (offset / 2 % 2) (omega arith) in
      rw (whole, byte, half, small) (mod-mod _ _, mod-mod _ _)
