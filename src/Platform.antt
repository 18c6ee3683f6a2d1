-- ===== src/Platform.antt =====
-- The address map of RISCV-VP/tiny32_main.cpp: the options, the ports of the bus and the sockets
-- behind them, in every build without `USING_AHB`. The bus itself is a header's, and a parameter.
pub mod Routes
pub mod Examples
use vcil.Prelude.{
  ℕ, ◌+◌, ◌-◌, ◌*◌, ◌^◌, ◌%◌, Bool, true, false, ◌&&◌, Option, none, some, List, [], ◌∷◌, ◌++◌, map,
  leb, u32,
}

-- `USING_SM3`, `USING_SM4` and `USING_SM3_SM4`, the last with `USING_Bridge_UART` or without.
pub data Devices : Type 0 where
  no_device using_sm3 using_sm4 : Devices
  using_sm3_sm4 : Bool → Devices

-- What a socket of the bus is bound to.
pub data Target : Type 0 where
  mem clint sys sm3 sm4 sm4_uart : Target

-- The two addresses of a `PortMapping`, both inside.
pub record PortMapping : Type 0 where
  pub start : ℕ
  pub end_ : ℕ

-- The part of the options that gives the memory; the addresses of the devices cannot be set.
pub record TinyOptions : Type 0 where
  pub mem_size : ℕ
  pub mem_start_addr : ℕ
  pub mem_end_addr : ℕ

unfoldable pub tiny_options : TinyOptions
tiny_options =
    let size = 1024 * 1024 * 32 in
    record { mem_size = size; mem_start_addr = 0; mem_end_addr = u32 (0 + size + 2 ^ 32 - 1) }

abbrev given : Option ℕ → ℕ → ℕ
given none d = d
given (some v) d = v

-- `memory-start` and `memory-size`, where they are given.
unfoldable pub parse : Option ℕ → Option ℕ → TinyOptions → TinyOptions
parse memory_start memory_size o =
    let start = given memory_start o.mem_start_addr in
    let size = given memory_size o.mem_size in
    record {
      mem_size = size;
      mem_start_addr = start;
      mem_end_addr = u32 (start + size + 2 ^ 32 - 1);
    }

abbrev pub port_mapping : TinyOptions → Target → PortMapping
port_mapping o mem = record { start = o.mem_start_addr; end_ = o.mem_end_addr }
port_mapping o clint = record { start = 0x02000000; end_ = 0x0200ffff }
port_mapping o sys = record { start = 0x02010000; end_ = 0x020103ff }
port_mapping o sm3 = record { start = 0x50002000; end_ = 0x50002068 }
port_mapping o sm4 = record { start = 0x50003000; end_ = 0x50003024 }
port_mapping o sm4_uart = record { start = 0x50004000; end_ = 0x50004018 }

-- The sockets in the order of the ports.
unfoldable pub isocks : Devices → List Target
isocks no_device = mem ∷ clint ∷ sys ∷ []
isocks using_sm3 = mem ∷ clint ∷ sys ∷ sm3 ∷ []
isocks using_sm4 = mem ∷ clint ∷ sys ∷ sm4 ∷ []
isocks (using_sm3_sm4 false) = mem ∷ clint ∷ sys ∷ sm3 ∷ sm4 ∷ []
isocks (using_sm3_sm4 true) = mem ∷ clint ∷ sys ∷ sm3 ∷ sm4 ∷ sm4_uart ∷ []

-- The ports of every build.
abbrev common_ports : TinyOptions → List PortMapping
common_ports o = port_mapping o mem ∷ port_mapping o clint ∷ port_mapping o sys ∷ []

-- `bus.ports`.
unfoldable pub ports : Devices → TinyOptions → List PortMapping
ports no_device o = common_ports o
ports using_sm3 o = common_ports o ++ port_mapping o sm3 ∷ []
ports using_sm4 o = common_ports o ++ port_mapping o sm4 ∷ []
ports (using_sm3_sm4 false) o = common_ports o ++ port_mapping o sm3 ∷ port_mapping o sm4 ∷ []
ports (using_sm3_sm4 true) o =
    common_ports o ++ port_mapping o sm3 ∷ port_mapping o sm4 ∷ port_mapping o sm4_uart ∷ []

-- The second parameter of `SimpleBus`.
unfoldable pub bus_size : Devices → ℕ
bus_size no_device = 3
bus_size using_sm3 = 4
bus_size using_sm4 = 4
bus_size (using_sm3_sm4 false) = 5
bus_size (using_sm3_sm4 true) = 6

-- `PortMapping::contains`.
abbrev pub contains : PortMapping → ℕ → Bool
contains p a = leb p.start a && leb a p.end_
