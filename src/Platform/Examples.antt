-- ===== src/Platform/Examples.antt =====
-- The platform with the bridge and a memory of 32 MB, over a bus that is computed.
use vcil.Prelude.{
  ℕ, ◌-◌, ◌<◌, ◌≡◌, refl, Bool, true, false, none, some, [], ◌∷◌, length, get_elem?, if◌then◌else◌,
  arith,
}
use vcil.Bridge.{Bridge, buffer_word}
use vcil.Bridge.Examples.{device, remaining, idle, device-IsResponsive}
use vcil.Firmware.Driver.{le, run_instruction}
use vcil.Platform.{
  Devices, no_device, using_sm3, using_sm4, using_sm3_sm4, sm4_uart, port_mapping, isocks, ports,
  bus_size, contains, tiny_options, parse,
}
use vcil.Platform.Routes.{
  SimpleBus, BusLaws, after, options, to_bridge, route, run_instruction-to_bridge,
}

first_port : SimpleBus
first_port [] a = none
first_port (p ∷ ps) a =
    let rest = after (first_port ps a) in if contains p a then some (0, a - p.start) else rest

first_port-BusLaws : BusLaws first_port
unfolding first_port
first_port-BusLaws = record {
  empty = λ a. refl;
  here = λ p ps a h. rw h refl;
  next = λ p ps a h. rw h refl;
}

route_example :
    (j : ℕ) × (first_port (ports (using_sm3_sm4 true) (options 0 0x02000000)) 0x50004014
      ≡ some (j, 0x50004014 - (port_mapping (options 0 0x02000000) sm4_uart).start))
    × (get_elem? (isocks (using_sm3_sm4 true)) j ≡ some sm4_uart)
unfolding isocks
route_example =
    route first_port first_port-BusLaws (using_sm3_sm4 true) 0 0x02000000 5 sm4_uart 0x50004014
      (omega arith) (omega arith) refl refl

bounded : (d : Bool) → remaining d < 2
bounded true = omega arith
bounded false = omega arith

run_instruction-to_bridge_example :
    (b' : Bridge Bool) × (run_instruction device
        (to_bridge first_port (options 0 0x02000000))
        2
        0x7b710000
        0x12345678
        0
        le
        0xdeadbeef
        idle
      ≡ some (buffer_word b'.read_buff, b'))
    × (b'.state ≡ 5)
run_instruction-to_bridge_example =
    run_instruction-to_bridge first_port first_port-BusLaws 0 0x02000000 device 2 1 0x7b710000
      0x12345678 0 0xdeadbeef remaining idle (omega arith) (omega arith) device-IsResponsive
      (omega arith) bounded

-- Without options the memory is that of the source, and every build has as many ports as its bus.
defaults : parse none none tiny_options ≡ tiny_options
unfolding parse tiny_options
defaults = refl

bus_size-ports : (d : Devices) → length (ports d tiny_options) ≡ bus_size d
unfolding ports bus_size
bus_size-ports no_device = refl
bus_size-ports using_sm3 = refl
bus_size-ports using_sm4 = refl
bus_size-ports (using_sm3_sm4 true) = refl
bus_size-ports (using_sm3_sm4 false) = refl
