-- ===== src/Firmware/Driver/Examples.antt =====
-- An instruction issued to a device that is ready at the second request.
use vcil.Prelude.{ℕ, ◌-◌, ◌<◌, ◌≡◌, Bool, true, false, arith}
use vcil.Bridge.Examples.{device, remaining, idle}
use vcil.Firmware.Driver.{le, run_instruction}
use vcil.Firmware.Driver.Protocol.{IsMapping, exchange, run_instruction-exchange}

abbrev bus : ℕ → ℕ
bus addr = addr - 0x50004000

bus-IsMapping : IsMapping bus
bus-IsMapping offset h = omega arith

run_instruction-exchange_example :
    run_instruction device bus 2 0x7b710000 0x12345678 0 le 0xdeadbeef idle
    ≡ exchange device 2 0x7b710000 0x12345678 0 idle
run_instruction-exchange_example =
    run_instruction-exchange device 2 bus 0x7b710000 0x12345678 0 0xdeadbeef idle bus-IsMapping
      (omega arith)

bounded : (d : Bool) → remaining d < 2
bounded true = omega arith
bounded false = omega arith
