-- ===== src/Nice.antt =====
-- RISCV-VP/nice.h: the NICE coprocessor as the simulator sees it. `Cipher` holds the functions that
-- it computes, `Link` the exchange of a request and an answer over the serial port, `Terminal` the
-- set-up of the port.
pub mod Cipher
pub mod Link
pub mod Terminal
