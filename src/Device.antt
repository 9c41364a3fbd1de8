-- ===== src/Device.antt =====
-- The devices of src/device and the bus that maps them.
pub mod Uart
pub mod Mmio
pub mod Bus
pub mod Virtio
