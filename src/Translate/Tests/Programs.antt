-- ===== src/Translate/Tests/Programs.antt =====
-- States for the tests: a program at 0x10_0000, an empty cache, and a block for the code.
use vadm.Base.{ℕ, refl, arith, Bool, true, false, none, List, get_or, if◌then◌else◌, leb, ◌-◌}
use vadm.Base.Bytes.{Memory}
use vadm.TlCache.{TranslationCache, null, node}
use vadm.Translate.State.{Machine, State}
use vadm.Translate.Operand.{Operand, op_areg_offset}
use vadm.Translate.Entries.{IsReady}

-- The program stands at 0x10_0000, and nothing but zeros elsewhere.
abbrev pub code_at : ℕ → List ℕ → Memory
code_at base code q = if leb base q then get_or code (q - base) 0 else 0

abbrev pub empty_cache : TranslationCache
empty_cache = record {
  p_root_node = node null null;
  p_first_code_block = 0x7000_0000;
  p_next_code_block = 0x7000_0000;
  malloc_calls = 2;
}

abbrev pub machine_of : List ℕ → Machine
machine_of code = record {
  memory = code_at 0x10_0000 code;
  tlcache = empty_cache;
  opc_info_lookup_tbl = λ opcode. none;
  initialized = false;
}

-- Behind the opcode, with the output behind the stub of the first block.
abbrev pub state_of : List ℕ → State
state_of code = record { machine = machine_of code; inpos = 0x10_0002; outpos = 0x7000_0080 }

abbrev pub unset : Operand
unset = record { op_type = 0; op_length = 0; op_value = 0 }

-- What the local operand of `m68k_jsr` may hold by chance.
abbrev pub library_base : Operand
library_base = record { op_type = op_areg_offset; op_length = 4; op_value = 6 }

abbrev pub always : ℕ → Bool
always n = true

pub machine_IsReady : (code : List ℕ) → IsReady (machine_of code)
machine_IsReady code = record {
  cache = record { tree = (tt, tt); root = refl };
  block = omega arith;
}
