-- ===== src/Translate/Entering.antt =====
-- The entry into a translation unit that is not translated yet: the execution of its stub.
use mathlib.Core.Path.{subst}
use vadm.Base.{
  ℕ, ◌^◌, ◌<◌, ◌≤◌, ◌≡◌, sym, ◌∙◌, Bool, Option, none, some, List, [], ◌++◌, replicate, arith, u64,
}
use vadm.Base.Bytes.{Memory, read_bytes}
use vadm.Base.Outcome.{Outcome, returns}
use vadm.X86.{Instruction, nop}
use vadm.X86.Listing.{Disassembles}
use vadm.X86.Machine.{Processor, rsp_of}
use vadm.Codegen.Calls.{KeepsConvention}
use vadm.Codegen.Transparent.{
  IsTransparent, transparent_call, IsTransparent-nops, transparent_call-IsTransparent,
}
use vadm.TlCache.{tc_get_addr}
use vadm.Translate.State.{Machine}
use vadm.Translate.Setup.{setup_tu}
use vadm.Translate.Stub.{IsStub, stub_listing}
use vadm.Translate.Entries.{IsReady, SetsUp, setup_tu-SetsUp}

module _ (call : ℕ → Processor → Processor) (flags_of : ℕ → Processor → ℕ)
    (translate_tu_addr p_m68k_code stack_top : ℕ) (m : Processor) where
  -- The 128 bytes at the address are a listing that calls `translate_tu` with the unit's address and
  -- changes nothing else.
  pub record Enters (mem : Memory) (p_x86_code : ℕ) : Type 0 where
    pub listing : List Instruction
    pub reads : Disassembles (read_bytes mem p_x86_code 128) listing []
    pub transparent :
        IsTransparent call flags_of translate_tu_addr (u64 p_m68k_code) stack_top m listing

  module _ (keeps : KeepsConvention call (u64 translate_tu_addr) stack_top)
      (words : (q : ℕ) → m.regs q < 2 ^ 64) (flags_word : m.flags < 2 ^ 64) (room : 104 ≤ rsp_of m)
      (top : rsp_of m ≤ stack_top) where
    IsStub-Enters :
        (p_x86_code : ℕ) (mem : Memory)
        → IsStub translate_tu_addr p_m68k_code p_x86_code mem
        → Enters mem p_x86_code
    IsStub-Enters p_x86_code mem stub = record {
      listing = stub_listing translate_tu_addr p_m68k_code ++ replicate 66 nop;
      reads = stub.reads;
      transparent =
          IsTransparent-nops call flags_of translate_tu_addr (u64 p_m68k_code) stack_top m
            (stub_listing translate_tu_addr p_m68k_code) 66
            (subst
              (λ (a : ℕ).
                IsTransparent call flags_of translate_tu_addr (u64 p_m68k_code) stack_top m
                  (transparent_call translate_tu_addr a))
              once
              (transparent_call-IsTransparent call flags_of translate_tu_addr (u64 p_m68k_code)
                stack_top m keeps (omega arith) words flags_word room top));
    }
      where
        once : u64 p_m68k_code ≡ u64 (u64 p_m68k_code)
        once = omega arith

    -- When `setup_tu`, on a ready machine, returns an address for a unit below 4 GB without an entry,
    -- the 128 bytes there are code that runs through to the place of the translated code behind it. From
    -- any state of the processor whose values fit in 64 bits, with 104 bytes of stack below RSP, this
    -- code calls `translate_tu` once, with the address of the unit in RDI and RSP on a 16-byte boundary;
    -- then all 16 registers, the flags and the stack are as before, and the rest of the memory is as
    -- `translate_tu` leaves it. It is assumed that the compiled `translate_tu` keeps to the calling
    -- convention.
    pub setup_tu-Enters :
        (malloc : ℕ → Bool) (s after : Machine) (x : ℕ)
        → IsReady s
        → p_m68k_code < 2 ^ 32
        → tc_get_addr s.tlcache p_m68k_code ≡ returns none
        → setup_tu malloc translate_tu_addr p_m68k_code s ≡ returns (some x, after)
        → Enters after.memory x
    setup_tu-Enters malloc s after x ready small empty set = rw place (
        subst (λ (r : Machine). Enters r.memory s.tlcache.p_next_code_block) same
          (IsStub-Enters s.tlcache.p_next_code_block sets_up.after.memory at_block))
      where
        sets_up :
            SetsUp translate_tu_addr p_m68k_code s (setup_tu malloc translate_tu_addr p_m68k_code s)
        sets_up = setup_tu-SetsUp malloc translate_tu_addr p_m68k_code s ready small

        both :
            ◌≡◌ {A = Outcome (Option ℕ × Machine)}
              (returns (sets_up.address, sets_up.after))
              (returns (some x, after))
        both = sym sets_up.result_returns ∙ set

        same : sets_up.after ≡ after
        same = cc both

        address : sets_up.address ≡ some x
        address = cc both

        place : x ≡ s.tlcache.p_next_code_block
        place = (sets_up.new x empty address).0

        at_block :
            IsStub translate_tu_addr p_m68k_code s.tlcache.p_next_code_block sets_up.after.memory
        at_block = (sets_up.new x empty address).1
