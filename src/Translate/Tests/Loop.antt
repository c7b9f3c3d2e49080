-- ===== src/Translate/Tests/Loop.antt =====
-- The loop subq.l #1, d0; bne to itself, translated and executed.
use vadm.Base.{ℕ, ◌^◌, ◌<◌, ◌≡◌, refl, ap, arith, Bool, none, List, [], ◌∷◌, ℤ}
use vadm.Base.Outcome.{Outcome, returns, fault}
use vadm.Codegen.Sample.{seven, flags_set}
use vadm.TlCache.{TranslationCache, tc_get_addr, tc_put_addr, get_walk, put_walk, has_bit}
use vadm.Translate.State.{Machine, State}
use vadm.Translate.Operand.{read_word}
use vadm.Translate.Handlers.{m68k_bcc}
use vadm.Translate.Unit.{Uninitialized, with_table}
use vadm.Translate.Runs.{opcode_at, behind}
use vadm.Translate.Result.{at_start}
use vadm.Translate.Fields.{ea_field}
use vadm.Translate.Opcodes.{classify}
use vadm.Translate.Meaning.{M68k, set_data, tells_zero}
use vadm.Translate.Simulation.{difference}
use vadm.Translate.Program.{IsInstruction, is_subq, translated}
use vadm.Translate.Tests.Programs.{empty_cache, machine_of, unset, always}

abbrev put_into : Outcome (Bool × TranslationCache) → TranslationCache
put_into fault = empty_cache
put_into (returns (done, cache)) = cache

-- The first block is that of the unit.
cache : TranslationCache
unfolding tc_put_addr put_walk has_bit
cache = put_into (
    tc_put_addr always (record empty_cache { p_next_code_block = 0x7000_0400 }) 0x10_0000
      0x7000_0000)

abbrev code : List ℕ
code = 0x53 ∷ 0x80 ∷ 0x66 ∷ 0xfc ∷ []

abbrev machine : Machine
machine = record (machine_of code) { tlcache = cache }

no_entry : tc_get_addr machine.tlcache 0x10_0004 ≡ returns none
unfolding cache tc_get_addr get_walk has_bit tc_put_addr put_walk
no_entry = refl

abbrev nothing_set : Uninitialized
nothing_set = record { first = λ p. unset; second = λ p. unset }

abbrev at_subq : State
at_subq = at_start 0x10_0000 0x7000_0000 machine

first_word : opcode_at at_subq ≡ 0x5380
unfolding read_word with_table cache
first_word = refl

subq_word : opcode_at at_subq < 2 ^ 16
subq_word = omega (arith, first_word)

subq_instruction :
    IsInstruction at_subq
      (λ r. set_data (ea_field (opcode_at at_subq)) (difference (opcode_at at_subq) r) r)
      (tells_zero (difference (opcode_at at_subq)))
unfolding classify
subq_instruction =
    is_subq (ap classify first_word) (omega (arith, first_word)) (omega (arith, first_word))
      (ground (arith, first_word))

abbrev at_bne : State
at_bne =
    (translated seven flags_set always 0x5555_0000 nothing_set at_subq _ _ subq_word
      subq_instruction).result.1

bne_call : Outcome (ℤ × State)
bne_call = m68k_bcc always 0x5555_0000 (opcode_at at_bne) (behind at_bne)

state_left : Outcome (ℤ × State) → State
state_left fault = at_bne
state_left (returns (n, after)) = after

abbrev meaning : M68k → M68k
meaning r = set_data (ea_field (opcode_at at_subq)) (difference (opcode_at at_subq) r) r

abbrev zero_afterwards : M68k → ℕ → ℕ
zero_afterwards = tells_zero (difference (opcode_at at_subq))

next_block : machine.tlcache.p_next_code_block ≡ 0x7000_0400
unfolding cache
next_block = refl
