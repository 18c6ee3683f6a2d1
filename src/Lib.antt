-- ===== src/Lib.antt =====
-- The virtual prototype of a RISC-V core with SM3 and SM4 extensions, RISCV-VP: the timing models
-- of the simulated core, its traps, interrupts, control registers and step, the coprocessor, the
-- bridge to the serial port, and the programs that use them.
--
-- Parts and files:
-- Prelude: shared names, lists and integers over the native numbers, words of a fixed width, and
-- the laws of bit operations (Prelude/Bits).
-- Timing: RISCV-VP/timing.h. Timing/Pipeline is HiFive1PipelineTiming (with E203_TIMING, which the
-- file defines), Timing/Predictor is HiFive1RAS, HiFive1BTB, HiFive1BHT and HiFive1BranchPredictor,
-- Timing/Cache is InstrMemoryProxyWithHiFive1CacheTiming. Methods keep their names. Predictor and
-- cache hold a pointer to the pipeline in C++; here the pipeline is handed in and out. A failed
-- assert is `none`, and so is an index out of range.
-- Nice: RISCV-VP/nice.h. Nice/Cipher is what the four instructions compute (the branches without
-- the serial port), Nice/Link the exchange of SM3_NICE and SM4_NICE with the device, Nice/Terminal
-- the set-up of the port (open_dev, set_dev), which the bridge has word for word.
-- Bridge: RISCV-VP/Bridge_Socket_Uart.cpp, SM4_write, SM4_read and b_transport.
-- Firmware: RISCV-VP/sm_tlm_uart/sm3.h and sm4.h. Firmware/Sm3 and Firmware/Sm4 are the algorithms
-- over two instructions that are parameters, Firmware/Driver the register protocol that issues an
-- instruction through the bridge. Firmware/Sm3/Standard and Firmware/Sm4/Standard state the hash of
-- GB/T 32905 and the cipher of GB/T 32907 apart from the programs, and Firmware/Sm3/Digests and
-- Firmware/Sm4/Ciphers compare the programs with them. The algorithms of insn.c in
-- RISCV-VP/sm3_nice_uart and RISCV-VP/sm4_nice_uart are the same.
-- Iss: RISCV-VP/iss.cpp. Iss is traps and returns, Iss/Interrupt the pending interrupts,
-- Iss/Privilege the return instructions, Iss/Arith multiplication and division, Iss/Csr the control
-- registers and their instructions, Iss/Step run_step, run and the accounting, which advances the
-- pipeline of Timing where PIPELINE_TIMING is defined and else counts the cycles of the operation. Iss/Exec is exec_step: Alu, Branch and Amo are the values of the
-- instructions, Instr and Custom their execution, Step the fetch and the dispatch, and Machine the
-- loop of Iss/Step with these instructions in it. Iss/Exec/Builds compares the builds with
-- PIPELINE_TIMING and BRANCH_TIMING with the one without, Iss/Exec/Progress follows an instruction
-- to its end, and Iss/Exec/Faults, Order and Custom/Meaning hold further theorems. Iss/Float is the
-- floating-point instructions of exec_step, over units of their own.
-- Platform: RISCV-VP/tiny32_main.cpp, the address map: the options for the memory, the ports of the
-- bus and the sockets behind them. Platform/Routes joins it with the driver and the bridge.
--
-- How they interact: the step advances the pipeline; instructions on control registers,
-- multiplications, divisions and loads leave results pending in it; branches and instruction
-- fetches stall it. The programs compute with the instructions of the coprocessor, either directly
-- or through the driver, which writes to the bridge over the bus; bridge and coprocessor exchange
-- bytes with the same device.
--
-- Integers: machine words are native numbers with their wrap written out (u8, u32, u64); an `int`
-- that may be negative is a ℤ. A shift of a 32-bit word by 32, which C leaves undefined, gives 0,
-- so that a rotation by 0 gives the word itself.
--
-- Loops: loops with a counted range are structural. The loops that wait for a device, the loop of
-- the driver on addr_state and the loop of run take fuel, and `none` means that it ran out; the
-- theorems on the waits state how much is enough. The loop of run need not end, as a simulation
-- need not.
--
-- Parameters: what is outside the repository is an argument with the documented behaviour as
-- hypotheses: the device behind the serial port and POSIX (with `close` as on Linux), the bus, rand(), the memory behind the
-- cache, and the masks, addresses and bit positions of the headers of the core (csr.h, iss.h). The
-- execution of an instruction (exec_step) is a parameter of the step, so that its theorems hold for
-- every instruction. Iss/Exec takes the memory, the decoder, the checks of alignment and the timing
-- of an access to a register as parameters (Hardware, Frontend): read, u_read, shamt and write of
-- iss.h are the register's with that timing. A coprocessor whose device does not answer within the
-- fuel stops the core, so that the theorem on the end of a step asks for an answer. Iss/Float takes
-- the arithmetic of SoftFloat.
--
-- Not modelled: of exec_step the load and store of AMO (execute_amo is outside the repository),
-- system calls (sys), WFI and SFENCE.VMA; the construction of the SystemC modules and the other
-- options of tiny32_main.cpp, tracing and the debug interface, the main programs, and the Verilog
-- of the FPGA.
pub mod Prelude
pub mod Timing
pub mod Nice
pub mod Firmware
pub mod Bridge
pub mod Iss
pub mod Platform
