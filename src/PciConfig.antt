-- ===== src/PciConfig.antt =====
-- components/PCIConfigIO/src/pci.c: the configuration space of PCI.
pub mod Config
pub mod Narrow
