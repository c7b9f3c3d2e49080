-- ===== src/Execute/Tests/Calls.antt =====
-- The call of `PutStr` by a program, in the small library: the theorem applied.
use mathlib.Core.List.{Memᴰ}
use vadm.Base.{
  ℕ, ◌-◌, ◌+◌, ◌≡◌, refl, arith, none, false, List, [], ◌∷◌, u32, sign_extend, ◌==◌, leb,
  if◌then◌else◌, get_or, some,
}
use vadm.Base.Bytes.{Memory}
use vadm.X86.{Instruction}
use vadm.X86.Machine.{Processor}
use vadm.Codegen.Sample.{stack_top, seven, flags_set, seven-KeepsConvention}
use vadm.TlCache.{null, node}
use vadm.Translate.State.{State}
use vadm.Translate.Operand.{Operand, read_word}
use vadm.Translate.Handlers.{m68k_jsr}
use vadm.Translate.Register.{Emits}
use vadm.Translate.LibraryCall.{Returns, CallsLibrary}
use vadm.Execute.{FuncInfo}
use vadm.Execute.Loading.{load_library-IsLoaded}
use vadm.Execute.Pages.{zeroed, map_pages, map_pages-IsMapping}
use vadm.Execute.Thunk.{thunk_size}
use vadm.Execute.Reaching.{Reaches, on_entry, m68k_jsr-Reaches}
use vadm.Execute.Tests.{
  log, name_at, one_in_d1, signature, one_is_unclobbered, d0_is_free, small_table, small_dlopen,
  small_dlsym, lib_path, start, small_library, small_library-IsLibrary,
}

-- jsr -948(a6)
abbrev jsr_code : List ℕ
jsr_code = 0x4e ∷ 0xae ∷ 0xfc ∷ 0x4c ∷ []

-- Behind the opcode.
abbrev at_jsr : State
at_jsr = record {
  machine = record {
    memory = λ q. if leb 0x10_0000 q then get_or jsr_code (q - 0x10_0000) 0 else 0;
    tlcache = record {
      p_root_node = node null null;
      p_first_code_block = 0x7000_0000;
      p_next_code_block = 0x7000_0000;
      malloc_calls = 2;
    };
    opc_info_lookup_tbl = λ opcode. none;
    initialized = false;
  };
  inpos = 0x10_0002;
  outpos = 0x7000_0080;
}

abbrev chance : Operand
chance = record { op_type = 0; op_length = 0; op_value = 0 }

displacement : read_word at_jsr.memory 0x10_0002 ≡ 0xfc4c
unfolding read_word
displacement = refl

abbrev put_str : FuncInfo
put_str = record {
  offset = 0x3b4;
  p_name = "PutStr";
  p_arg_regs = "101";
  p_func = some 0x5557_0000;
}

abbrev tables : Memory
tables =
    (load_library-IsLoaded log name_at 0 0 small_dlopen small_dlsym map_pages lib_path start 1
      small_table 1000 (thunk_size one_in_d1 0 + 0) (zeroed 0x20_0000 0x10000 (λ q. 0)) []
      map_pages-IsMapping refl refl small_library-IsLibrary refl tt).0

-- A6 holds the base of the library.
abbrev guest : Processor
guest = record {
  regs = λ r. if r == 4 then 0x7ffe_0008 else if r == 6 then 0x21_0000 else 5;
  flags = 0x246;
  mem = tables;
}

seven-Returns : (address : ℕ) → Returns seven address
seven-Returns address = record {
  stack_pointer = λ m. ground arith;
  top_kept = λ m q above below. refl;
}

m68k_jsr-Reaches_example :
    (listing : List Instruction) × Emits at_jsr 0x10_0004 2 listing 10
      (m68k_jsr chance 0x4eae at_jsr)
    × CallsLibrary seven flags_set
        (sign_extend 16 32 (read_word at_jsr.memory 0x10_0002))
        guest
        listing
    × (u32 (0x21_0000 + sign_extend 16 32 (read_word at_jsr.memory 0x10_0002)) ≡ 0x20_fc4c)
    × Reaches seven flags_set log name_at 0 0 small_library put_str 0x5557_0000 one_in_d1 0 tables
        stack_top
        (on_entry seven flags_set
          (sign_extend 16 32 (read_word at_jsr.memory 0x10_0002))
          guest
          0x7000_008a)
m68k_jsr-Reaches_example =
    m68k_jsr-Reaches seven flags_set log name_at 0 0 small_library put_str 0x5557_0000 one_in_d1 0
      chance 0x4eae at_jsr guest 0x21_0000 stack_top 0x7000_008a refl refl (omega arith)
      (omega (arith, displacement)) (omega arith) (omega arith)
      (load_library-IsLoaded log name_at 0 0 small_dlopen small_dlsym map_pages lib_path start 1
        small_table 1000 (thunk_size one_in_d1 0 + 0) (zeroed 0x20_0000 0x10000 (λ q. 0)) []
        map_pages-IsMapping refl refl small_library-IsLibrary refl tt).2.0
      (Memᴰ.tail (Memᴰ.head refl)) refl signature (omega arith) one_is_unclobbered d0_is_free
      (seven-KeepsConvention log) (seven-KeepsConvention 0x5557_0000) (seven-Returns _)
      (λ q. ground arith) (ground arith) (omega arith) (omega arith)
