-- ===== src/Lib.antt =====
-- VADM, a virtual machine that runs simple Amiga programs: the translator from 680x0 to x86-64 code.
--
-- The program's parts. `loader.c` loads a program image, `tlcache.c` keeps for each translation unit
-- (a piece of 680x0 code up to a branch or a return) the block of x86 code that it is translated to,
-- `translate.c` sets units up and translates them, `codegen.c` holds the routines that write x86
-- code, `execute.c` builds the jump tables of the libraries (`libs/`) and runs the code. A unit is
-- translated when it is about to be executed: `setup_tu` fills a block with a stub that calls
-- `translate_tu`, which translates the unit's instructions behind the stub and puts a jump over the
-- stub; a conditional branch ends a unit, and its handler calls `setup_tu` for the two units that
-- may follow.
--
-- The files.
-- Base: shared helpers. The memory is a function from addresses to bytes, and code that writes at
-- a position takes and returns the memory and the position (Base.Bytes). A call of C code that may
-- do what C leaves undefined, or that an `assert` may stop, returns an `Outcome`.
-- X86: a decoder for the x86-64 instructions that the program generates, written from the manual.
-- Its `Generates` says of a routine which bytes it writes, at any position, and which instructions
-- they decode to.
-- Codegen: codegen.c and codegen.h, the functions emit_*, with the register numbers in
-- Codegen.Register and the constants in Codegen.Opcode.
-- TlCache: tlcache.c and tlcache.h. The tree is a data type. `malloc` is a parameter, which tells by
-- the number of a call whether it succeeds; the memory of the root node, which `tc_init` leaves as
-- it is, is a parameter too. A lookup or a put that would follow anything but a node is a `fault`.
-- Translate: translate.c and translate.h. Operand: read_word, read_dword, extract_operand. Encode:
-- the functions x86_encode_*. Handlers: the functions m68k_*. Table: valid_ea_mode, the opcode table
-- and init_opc_info_lookup_tbl. Setup: setup_tu. Unit: translate_tu. State holds the state that they
-- share: the memory, the cache and the lookup table, which is a function from opcodes.
-- The other modules of Translate are about these: Fields the fields of an opcode, Listing the
-- instructions that the encodings write, Register and Move the handlers, Opcodes the table, Stub and
-- Entries setup_tu, Branch and Links m68k_bcc, Runs and Result translate_tu. Moves states the handlers
-- of MOVE and MOVEA by the classes of their operands, and Registers compares the registers of the
-- encodings with those of codegen.c.
-- The execution of the generated code. X86.Machine has the state of the x86 processor and a function that
-- executes the decoded instructions; a call of a C function is a parameter, which gives the state behind
-- the call, and that it keeps to the calling convention is a hypothesis (Codegen.Calls). The flags
-- other than the zero flag that an operation sets are a parameter. Codegen.Transparent is about a call
-- between the saving and the restoring of the program's state, Translate.Entering about a stub,
-- Execute.Running and Execute.Calling about a thunk, Translate.LibraryCall about JSR,
-- Execute.Reaching about the way from JSR to the C function, with Libs.Signatures about the functions
-- that a thunk could not call. Translate.Meaning is what the 680x0 instructions mean; Translate.Simulation, Steps,
-- Correct, Program and Branching are about the code of an instruction and that of a whole unit, Within about the block that it stays in.
-- Loader: loader.c and loader.h. A step goes on, or returns false, or does what C leaves undefined, or
-- runs out of fuel (Loader.State). Holds, Access, Invariant, Relocations, Blocks and Result show what
-- holds after any file; Printer and Placed say how a program is written to a file and what it is to be
-- in the memory, and Contents, Groups, BlockRuns and RoundTrip that this is what the loader does.
-- Execute: execute.c and execute.h. The file itself has emit_thunk_for_func and setup_jump_tables, with
-- the reading of the signatures in Execute.Text; Process has load_library and exec_program. Moves, Thunk,
-- Entries, JumpTable, Library and Loading are about what these write, Ending about how exec_program
-- ends; Pages is a concrete `mmap`.
-- Libs: libs/libdos.c and libs/libexec.c, the tables of functions in Dos and Exec (the addresses of
-- compiled functions are parameters), exec_open_library in Open; Tables is about the tables, Start about
-- the start of the program with both libraries.
--
-- Main: vadm.c, with the results of all system calls as parameters; Main.Runs is about a run on a file
-- with code where these succeed, Main.Ends about all ways in which `main` ends.
--
-- Outside the program. `dlopen`, `dlsym` and `mmap` are parameters; of `mmap` it is used that it maps
-- whole pages at the address that it is given and changes no other memory, and that it fails where no
-- page begins. The results of `fork` and `wait` are parameters of exec_program. A variable that
-- `sscanf` may leave as it is has a parameter for its first value. The functions strlcpy, strlcat and
-- strtok are modelled on the characters before the NUL.
--
-- Numbers. Addresses and machine words are natural numbers, with the cuts to 8, 16, 32 and 64 bits
-- written out where C makes them. A local operand that a handler does not initialise is a parameter:
-- it may hold anything. The address of the compiled `translate_tu` is a parameter.
--
-- Fuel. The loop of `translate_tu` has no bound, since it ends at a terminal instruction. The model
-- takes fuel, one for each instruction, and returns `none` if that runs out. The loops of the cache
-- run over the 21 bits of a key and the loop that builds the table over 65536 opcodes, by structural
-- recursion. The loops of the loader read the file, so that fuel for each byte of it is enough.
--
-- Not modelled: util.c, dos_put_str and log_func_name, which only write text, exec_close_library, which
-- does nothing. Jumps of the generated code are decoded, and not followed when it is executed. The
-- messages of the program are
-- left out, and so is the variant of `m68k_bcc` and `m68k_movea` for the unit tests (TEST).
pub mod Base
pub mod X86
pub mod Codegen
pub mod TlCache
pub mod Translate
pub mod Loader
pub mod Execute
pub mod Libs
pub mod Main
