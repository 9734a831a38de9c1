-- ===== src/Lib.antt =====
-- DolRecomp: a verification of parts of the static recompiler for GameCube, Wii and Wii U code.
--
-- The program reads an executable (src/frontend/container), decodes its instruction words
-- (src/frontend/decoder.c), looks for code that patches itself (src/analysis/smc.c), and emits C
-- or LLVM code. The development models the decoder, that analysis, the tests for data among the code
-- (src/analysis/embedded_data.c), the DOL and REL containers and the control-flow graph that the C backend cuts
-- blocks from (src/backend/c_cfg.c), and the processor that the C code runs on (src/cpu/cpu.c). The decoder feeds the analysis and the graph, and both skip the
-- words that are taken for data.
--
-- Base holds the shared names: tests, lists over the native numbers, machine words (Base/Word),
-- laws of the bit operations (Base/Bits, Base/Masks, Base/Shifts), bytes in memory (Base/Bytes, with
-- the laws of Base/Memory), code that may give up (Base/Maybe) and C's `switch` as a table (Base/Switch).
--
-- Decoder models src/frontend/decoder.c and decoder.h. `PpcOpcode` is the enum PPCOpcode,
-- `PpcInst` the struct PPCInst, whose signed immediate is kept as its bit pattern. `Forms` holds
-- the `decode_*` helpers under their names. `ppc_decode` is cut by primary opcode into `Paired`,
-- `Branch`, `Extended`, `Float` and `Decode`; each `switch` is a table, and a `default` is the last
-- argument of `switch`. The disassembler and the opcode names, which only print, are not modelled.
--
-- Smc models src/analysis/smc.c. `Known` holds the registers that the analysis knows, as a
-- function from a register's number; `Stores` the size and the form of a store and the overlap
-- with code sections; `Update` the function `update_known_regs`; `Ranges` the functions `smc_note`
-- and `analyze_smc_section`, with the array of ranges as a list, the newest first, and `realloc`
-- as a parameter. `Machine` and `Written` are no part of the program: they say what each instruction does to the
-- general registers and which bytes a store writes, by the architecture. The report's file output and the frees are not modelled.
--
-- Embedded models src/analysis/embedded_data.c: `Words` holds its functions under their names.
--
-- Dol models src/frontend/container/dol.c and dol.h: `File` the header and its bytes, `Layout` the
-- test of the layout, `dol_load` and the reads of a section, whose pointer is an offset. The file and
-- the success of `malloc` and `fread` are parameters; the print and the free are not modelled.
--
-- Rel models src/frontend/container/rel.c and rel.h: `File` the sections, the structs and the address
-- of a place, `Load` the functions `rel_load_image` and `rel_load`, `Patch` the function `apply_relocation`
-- and `Relocate` the function `rel_apply_relocations`; `places` of `Places` is no part of the program, but what the
-- format of a relocation list says of its places. A write past the end of a list of bytes does nothing. What fails is `none`, since the caller then frees the
-- module. `Host` holds the file and which allocations succeed; a map of modules is a list.
--
-- Cpu models src/cpu/cpu.c and cpu.h, what the generated code runs on: `State` the struct CPUState, `Memory`
-- the functions `mem_*`, `Exceptions`, `Registers` (`ppc_mfspr`, `ppc_mtspr`) and `Operations` the rest. The
-- callbacks of the host are the parameter `Callbacks`, any functions of the state; a floating-point register is
-- its 64 bits. A read returns the state with the value, since a callback may change it. The set-up and the
-- floating-point arithmetic are not modelled.
--
-- Ir models the analysis of addresses of the intermediate representation, src/ir/dolir_address.c, with the types
-- of dolir.h: `Values` the ranges of values and what an operation makes of them, `Classify` the domains of addresses,
-- `Addresses` the function `dolir_analyze_addresses`, with an array as a list and the success of its allocations as a
-- parameter. `eval_binary` of `Sound` is no part of the program: it is what an operation gives on numbers.
-- A range of MEM1 and the function `resolve_addr` of Cpu meet in `Windows`. The construction, the effects and the
-- print of the representation are not modelled.
--
-- Cfg models src/backend/c_cfg.c. `Classes` and `Movable` hold the `instruction_*` tests, `Graph` the
-- struct CFunctionCFG, `c_function_cfg_contains` and `c_function_cfg_can_loop_directly`, `Build` the
-- loops of `c_function_cfg_build`. An array of `count` elements is a list, and whether the five
-- allocations succeed is a parameter. `needs_counter` of `Raises` is no part of the program: it is the
-- architecture's list. `c_function_cfg_destroy`, which frees, is not modelled.
--
-- One loop takes fuel, `walk` over the relocations of a module, with a round for each byte of the file and one more:
-- an entry takes eight bytes. Each other loop is a recursion on a list or on the rounds left.
--
-- Not modelled: the RPX container and the disc images of src/frontend/container, the construction of the intermediate
-- representation (src/ir), the code generators, the application (src/app) and the layer
-- above the operating system (src/platform).
mod Base
pub mod Decoder
pub mod Smc
pub mod Cfg
pub mod Embedded
pub mod Dol
pub mod Cpu
pub mod Ir
pub mod Rel
