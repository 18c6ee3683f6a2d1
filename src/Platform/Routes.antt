-- ===== src/Platform/Routes.antt =====
-- Where the bus of RISCV-VP/tiny32_main.cpp delivers an address.
use vcil.Prelude.{
  ℕ, zero, suc, subst, ◌+◌, ◌-◌, ◌^◌, ◌<◌, ◌≤◌, ◌≡◌, refl, ap, sym, ◌∙◌, true, false, ◌&&◌, Option,
  none, some, List, [], ◌∷◌, map, get_elem?, leb, ltb, if◌then◌else◌, arith, Bool-cases, inl, inr,
}
use vcil.Bridge.{Port, Bridge, buffer_word}
use vcil.Bridge.Writes.{IsResponsive}
use vcil.Firmware.Driver.{le, run_instruction}
use vcil.Firmware.Driver.Protocol.{IsMapping, run_instruction-returns}
use vcil.Platform.{
  Devices, no_device, using_sm3, using_sm4, using_sm3_sm4, Target, mem, clint, sys, sm3, sm4,
  sm4_uart, PortMapping, TinyOptions, tiny_options, parse, port_mapping, isocks, ports, contains,
}

-- `SimpleBus`, of a header outside the repository: the number of the socket to which it delivers an
-- address, and the address that it delivers.
abbrev pub SimpleBus : Type 0
SimpleBus = List PortMapping → ℕ → Option (ℕ × ℕ)

abbrev pub after : Option (ℕ × ℕ) → Option (ℕ × ℕ)
after none = none
after (some (i, a)) = some (suc i, a)

-- The bus takes the first port that contains the address, and subtracts the start of the port.
pub record BusLaws (bus : SimpleBus) : Type 0 where
  pub empty : (a : ℕ) → bus [] a ≡ none
  pub here :
      (p : PortMapping) (ps : List PortMapping) (a : ℕ)
      → contains p a ≡ true
      → bus (p ∷ ps) a ≡ some (0, a - p.start)
  pub next :
      (p : PortMapping) (ps : List PortMapping) (a : ℕ)
      → contains p a ≡ false
      → bus (p ∷ ps) a ≡ after (bus ps a)

-- The memory ends below the interrupt controller.
abbrev pub MemoryIsBelow : TinyOptions → Type 0
MemoryIsBelow o = o.mem_end_addr < 0x02000000

-- The only target whose port can contain the address.
owner : ℕ → Target
owner a =
    if ltb a 0x02000000
    then mem
    else (if ltb a 0x02010000
        then clint
        else (if ltb a 0x50002000
            then sys
            else (if ltb a 0x50003000 then sm3 else (if ltb a 0x50004000 then sm4 else sm4_uart))))

contains-owner :
    (o : TinyOptions) (t : Target) (a : ℕ)
    → MemoryIsBelow o
    → contains (port_mapping o t) a ≡ true
    → owner a ≡ t
unfolding owner
contains-owner o mem a below h = ground arith
contains-owner o clint a below h = ground arith
contains-owner o sys a below h = ground arith
contains-owner o sm3 a below h = ground arith
contains-owner o sm4 a below h = ground arith
contains-owner o sm4_uart a below h = ground arith

-- The ports are those of the sockets, in their order.
ports-isocks : (d : Devices) (o : TinyOptions) → ports d o ≡ map (port_mapping o) (isocks d)
unfolding ports isocks
ports-isocks no_device o = refl
ports-isocks using_sm3 o = refl
ports-isocks using_sm4 o = refl
ports-isocks (using_sm3_sm4 true) o = refl
ports-isocks (using_sm3_sm4 false) o = refl

module _ (bus : SimpleBus) (laws : BusLaws bus) (o : TinyOptions) where
  abbrev IsDelivered : List Target → Target → ℕ → Type 0
  IsDelivered ts t a =
      (j : ℕ) × (bus (map (port_mapping o) ts) a ≡ some (j, a - (port_mapping o t).start))
      × (get_elem? ts j ≡ some t)

  IsDelivered-first :
      (x : Target) (ts : List Target) (t : Target) (a : ℕ)
      → x ≡ t
      → contains (port_mapping o t) a ≡ true
      → IsDelivered (x ∷ ts) t a
  IsDelivered-first x ts t a same h = (
    0,
    subst (λ y. bus (map (port_mapping o) (x ∷ ts)) a ≡ some (0, a - (port_mapping o y).start)) same
        (laws.here (port_mapping o x) (map (port_mapping o) ts) a
          (subst (λ y. contains (port_mapping o y) a ≡ true) (sym same) h)),
    ap some same,
  )

  delivered :
      (ts : List Target) (i : ℕ) (t : Target) (a : ℕ)
      → MemoryIsBelow o
      → get_elem? ts i ≡ some t
      → contains (port_mapping o t) a ≡ true
      → IsDelivered ts t a
  delivered [] i t a below at h = absurd (no_target at)
    where
      no_target : none ≡ some t → ⊥
      no_target e = cc
  delivered (x ∷ ts) zero t a below at h = IsDelivered-first x ts t a (some_same at) h
    where
      some_same : some x ≡ some t → x ≡ t
      some_same e = cc
  delivered (x ∷ ts) (suc i) t a below at h = elim (Bool-cases (contains (port_mapping o x) a)) [
    | inl in_x ↦
        IsDelivered-first x ts t a
          (sym (contains-owner o x a below in_x) ∙ contains-owner o t a below h) h
    | inr not_x ↦
        let (j, e, found) = delivered ts i t a below at h in
        (suc j, laws.next (port_mapping o x) (map (port_mapping o) ts) a not_x ∙ ap after e, found)
  ]

-- The options with a memory of `size` bytes from `start`.
abbrev pub options : ℕ → ℕ → TinyOptions
options start size = parse (some start) (some size) tiny_options

-- The port of the memory holds the addresses that the options give to it, and no others.
pub parse-contains :
    (start size a : ℕ)
    → 0 < size
    → start + size ≤ 2 ^ 32
    → contains (port_mapping (parse (some start) (some size) tiny_options) mem) a
      ≡ (leb start a && ltb a (start + size))
unfolding parse
parse-contains start size a p fits = ground arith

module _ (bus : SimpleBus) (laws : BusLaws bus) (d : Devices) (start size : ℕ) where
  -- In every build, with a memory that is not empty and ends below the interrupt controller, an
  -- address of the port of a target is delivered to that target's socket, and to no other, as the
  -- offset from the start of the port. The bus takes the first port that contains an address.
  pub route :
      (i : ℕ) (t : Target) (a : ℕ)
      → 0 < size
      → start + size ≤ 0x02000000
      → get_elem? (isocks d) i ≡ some t
      → contains (port_mapping (options start size) t) a ≡ true
      → (j : ℕ) × (bus (ports d (options start size)) a
          ≡ some (j, a - (port_mapping (options start size) t).start))
        × (get_elem? (isocks d) j ≡ some t)
  unfolding parse
  route i t a p fits at h =
      subst
        (λ ps.
          (j : ℕ) × (bus ps a ≡ some (j, a - (port_mapping (options start size) t).start))
          × (get_elem? (isocks d) j ≡ some t))
        (sym (ports-isocks d (options start size)))
        (delivered bus laws (options start size) (isocks d) i t a (omega arith) at h)

abbrev offset_of : Option (ℕ × ℕ) → ℕ
offset_of none = 0
offset_of (some (j, offset)) = offset

-- The address that the bridge is given.
abbrev pub to_bridge : SimpleBus → TinyOptions → ℕ → ℕ
to_bridge bus o a = offset_of (bus (ports (using_sm3_sm4 true) o) a)

module _ (bus : SimpleBus) (laws : BusLaws bus) (start size : ℕ) where
  -- The bus is what the driver expects of it.
  pub to_bridge-IsMapping :
      0 < size → start + size ≤ 0x02000000 → IsMapping (to_bridge bus (options start size))
  unfolding isocks
  to_bridge-IsMapping p fits offset l =
      let (j, e, _) =
        route bus laws (using_sm3_sm4 true) start size 5 sm4_uart (0x50004000 + offset) p fits refl
          (ground arith) in
      ap offset_of e ∙ omega arith

  -- On the platform with the bridge, where the memory ends below the interrupt controller, an
  -- instruction that the driver issues returns, with the word that the bridge has read and the bridge
  -- in the state 5, if the device answers every request within `n` reads and becomes ready, and the
  -- fuel is enough for both.
  pub run_instruction-to_bridge :
      {D : Type 0} (port : Port D) (fuel n code rs1 rs2 rdata : ℕ) (remaining : D → ℕ)
      (b : Bridge D)
      → 0 < size
      → start + size ≤ 0x02000000
      → IsResponsive port n remaining
      → n ≤ fuel
      → ((d : D) → remaining d < fuel)
      → (b' : Bridge D) × (run_instruction port
            (to_bridge bus (options start size))
            fuel
            code
            rs1
            rs2
            le
            rdata
            b
          ≡ some (buffer_word b'.read_buff, b'))
        × (b'.state ≡ 5)
  run_instruction-to_bridge port fuel n code rs1 rs2 rdata remaining b p fits responsive l h =
      run_instruction-returns port fuel (to_bridge bus (options start size)) n code rs1 rs2 rdata
        remaining b (to_bridge-IsMapping p fits) responsive l h
