-- ===== src/Translate/State.antt =====
-- What the functions of translate.c share: the memory, the translation cache that `gp_tlcache` points
-- to, the table of `translate_tu`, and the two positions of a translation.
use vadm.Base.{ℕ, Bool, Option}
use vadm.Base.Bytes.{Memory, Out}
use vadm.TlCache.{TranslationCache}

-- The handlers, for the function pointers of the opcode table.
pub data OpcodeHandler : Type 0 where
  rts tst_32 jsr subq_32 movea moveq bcc move : OpcodeHandler

pub record OpcodeInfo : Type 0 where
  pub opc_handler : OpcodeHandler
  pub opc_mask : ℕ
  pub opc_match : ℕ
  pub opc_ea_mask : ℕ
  pub opc_terminal : Bool

-- The state that outlives a call. `opc_info_lookup_tbl` and `initialized` are the static variables
-- of `translate_tu`.
pub record Machine : Type 0 where
  pub memory : Memory
  pub tlcache : TranslationCache
  pub opc_info_lookup_tbl : ℕ → Option OpcodeInfo
  pub initialized : Bool

-- In a translation: the positions in the 680x0 code and in the x86 code.
pub record State : Type 0 where
  pub machine : Machine
  pub open machine use *
  pub inpos : ℕ
  pub outpos : ℕ

-- Code is written at the output position, which moves on.
unfoldable pub emit : (Out → Out) → State → State
emit f s =
    let o : Out = f (record { mem = s.memory; pos = s.outpos }) in
    record { machine = record s.machine { memory = o.mem }; inpos = s.inpos; outpos = o.pos }

-- The input position moves to `p`.
abbrev pub at_input : ℕ → State → State
at_input p s = record { machine = s.machine; inpos = p; outpos = s.outpos }
