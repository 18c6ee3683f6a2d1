-- ===== src/Firmware.antt =====
-- The programs that run on the simulated core: RISCV-VP/sm_tlm_uart and RISCV-VP/sm3_nice_uart,
-- RISCV-VP/sm4_nice_uart. The instructions of the coprocessor are parameters of the two ciphers.
pub mod Arrays
pub mod Sm4
pub mod Sm3
pub mod Driver
