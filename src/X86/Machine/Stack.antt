-- ===== src/X86/Machine/Stack.antt =====
-- Registers pushed on the stack and popped from it.
use mathlib.Core.List.{reverse, reverse-cons, map-append}
use mathlib.Core.Path.{subst}
use vadm.Base.{
  ℕ, suc, ◌+◌, ◌-◌, ◌*◌, ◌^◌, ◌<◌, ◌≤◌, ◌≡◌, ◌≢◌, refl, ap, ◌∙◌, ◌⊎◌, inr, arith, ◌==◌, ◌||◌, Bool,
  false, List, [], ◌∷◌, ◌++◌, map, All, length, if◌then◌else◌,
}
use vadm.Base.Bytes.{Memory}
use vadm.X86.{Instruction, push, pop}
use vadm.X86.Machine.Step.{
  Processor, through, rsp_of, set_reg, fetch64, save64, push_value, popped, step, execute,
  execute-append, fetch64-save64, fetch64_ext, save64_outside,
}

-- Below the address stand the values of the registers, the first one on top.
abbrev pub Saved : List ℕ → (ℕ → ℕ) → ℕ → Memory → Type 0
Saved [] v sp mem = Unit {0}
Saved (r ∷ rs) v sp mem = (fetch64 mem (sp - 8) ≡ v r) × Saved rs v (sp - 8) mem

unfoldable pub contains : List ℕ → ℕ → Bool
contains [] q = false
contains (r ∷ rs) q = r == q || contains rs q

pub Saved-ext :
    (rs : List ℕ) (v : ℕ → ℕ) (sp : ℕ) (mem mem' : Memory)
    → length rs * 8 ≤ sp
    → ((q : ℕ) → sp ≤ q + length rs * 8 → q < sp → mem' q ≡ mem q)
    → Saved rs v sp mem
    → Saved rs v sp mem'
Saved-ext [] v sp mem mem' room h s = tt
Saved-ext (r ∷ rs) v sp mem mem' room h s = (
  fetch64_ext (sp - 8) mem' mem (λ q a b. h q (omega arith) (omega arith)) ∙ s.0,
  Saved-ext rs v (sp - 8) mem mem' (omega arith) (λ q a b. h q (omega arith) (omega arith)) s.1,
)

module _ (call : ℕ → Processor → Processor) (flags_of : ℕ → Processor → ℕ) (v : ℕ → ℕ)
    (words : (q : ℕ) → v q < 2 ^ 64) where
  -- The registers are pushed: their values stand on the stack, and all else is as before.
  pub record Pushes (rs : List ℕ) (m : Processor) : Type 0 where
    pub after : Processor
    pub runs : execute call flags_of (map push rs) m ≡ through after
    pub regs : (q : ℕ) → q ≢ 4 → after.regs q ≡ m.regs q
    pub lowered : rsp_of after + length rs * 8 ≡ rsp_of m
    pub flags : after.flags ≡ m.flags
    pub saved : Saved rs v (rsp_of m) after.mem
    pub outside : (q : ℕ) → (q < rsp_of after) ⊎ (rsp_of m ≤ q) → after.mem q ≡ m.mem q

  module _ (r : ℕ) (rs : List ℕ) (m : Processor) (other : r ≢ 4) (same : m.regs r ≡ v r)
      (room : suc (length rs) * 8 ≤ rsp_of m) (word : rsp_of m < 2 ^ 64)
      (rest : Pushes rs (push_value (m.regs r) m)) where
    abbrev next : Processor
    next = push_value (m.regs r) m

    sp : rsp_of next ≡ rsp_of m - 8
    sp = ground arith

    here : (q : ℕ) → (q < rsp_of m - 8) ⊎ (rsp_of m ≤ q) → next.mem q ≡ m.mem q
    here q h = rw sp (save64_outside (rsp_of m - 8) (m.regs r) q m.mem (ground (arith, h)))

    top : fetch64 rest.after.mem (rsp_of m - 8) ≡ v r
    top =
        fetch64_ext (rsp_of m - 8) rest.after.mem next.mem
          (λ q a b. rest.outside q (inr (omega (arith, sp))))
        ∙ ap (λ (a : ℕ). fetch64 (save64 a (m.regs r) m.mem) (rsp_of m - 8)) sp
        ∙ fetch64-save64 (rsp_of m - 8) (m.regs r) m.mem
        ∙ omega (arith, same, words r)

    Pushes-cons : Pushes (r ∷ rs) m
    unfolding execute step
    Pushes-cons = record {
      after = rest.after;
      runs = rest.runs;
      regs = λ q h. rest.regs q h ∙ ground (arith, h);
      lowered = omega (arith, rest.lowered, sp);
      flags = rest.flags;
      saved = (top, subst (λ (a : ℕ). Saved rs v a rest.after.mem) sp rest.saved);
      outside = λ q h.
          rest.outside q (ground (arith, h, sp, rest.lowered))
          ∙ here q (ground (arith, h, sp, rest.lowered));
    }

  pub pushes :
      (rs : List ℕ) (m : Processor)
      → All (λ r. (r < 16) × (r ≢ 4)) rs
      → ((q : ℕ) → q < 16 → q ≢ 4 → m.regs q ≡ v q)
      → length rs * 8 ≤ rsp_of m
      → rsp_of m < 2 ^ 64
      → Pushes rs m
  unfolding execute step
  pushes [] m others same room word = record {
    after = m;
    runs = refl;
    regs = λ q h. refl;
    lowered = omega arith;
    flags = refl;
    saved = tt;
    outside = λ q h. refl;
  }
  pushes (r ∷ rs) m others same room word =
      Pushes-cons r rs m others.0.1 (same r others.0.0 others.0.1) room word (
        pushes rs (push_value (m.regs r) m) others.1 (λ q small h. ground (arith, same q small))
          (ground arith) (ground arith))

  -- The registers are popped in the reverse order: they get back what stands on the stack.
  pub record Pops (rs : List ℕ) (m : Processor) : Type 0 where
    pub after : Processor
    pub runs : execute call flags_of (map pop (reverse rs)) m ≡ through after
    pub regs : (q : ℕ) → q ≢ 4 → after.regs q ≡ (if contains rs q then v q else m.regs q)
    pub raised : rsp_of after ≡ rsp_of m + length rs * 8
    pub flags : after.flags ≡ m.flags
    pub memory : after.mem ≡ m.mem

  module _ (r : ℕ) (rs : List ℕ) (m : Processor) (other : r ≢ 4)
      (saved : fetch64 m.mem (rsp_of m + length rs * 8) ≡ v r)
      (word : rsp_of m + suc (length rs) * 8 < 2 ^ 64) (rest : Pops rs m) where
    abbrev last : Processor
    last = set_reg r (fetch64 rest.after.mem (rsp_of rest.after)) (popped rest.after)

    value : fetch64 rest.after.mem (rsp_of rest.after) ≡ v r
    value = rw (rest.memory, rest.raised) saved

    split : map pop (reverse (r ∷ rs)) ≡ map pop (reverse rs) ++ pop r ∷ []
    split = ap (map pop) (reverse-cons r rs) ∙ map-append pop (reverse rs) (r ∷ [])

    Pops-cons : Pops (r ∷ rs) m
    unfolding execute step contains
    Pops-cons = record {
      after = last;
      runs =
          ap (λ (l : List Instruction). execute call flags_of l m) split
          ∙ execute-append call flags_of (map pop (reverse rs)) (pop r ∷ []) m
          ∙ rw rest.runs refl;
      regs = λ q h. ground (arith, value, rest.regs q, h);
      raised = ground (arith, other, rest.raised);
      flags = rest.flags;
      memory = rest.memory;
    }

  pub pops :
      (rs : List ℕ) (m : Processor) (sp : ℕ)
      → All (λ r. (r < 16) × (r ≢ 4)) rs
      → rsp_of m + length rs * 8 ≡ sp
      → sp < 2 ^ 64
      → Saved rs v sp m.mem
      → Pops rs m
  unfolding execute step contains
  pops [] m sp others e word saved = record {
    after = m;
    runs = refl;
    regs = λ q h. refl;
    raised = omega arith;
    flags = refl;
    memory = refl;
  }
  pops (r ∷ rs) m sp others e word saved =
      Pops-cons r rs m others.0.1 (ap (fetch64 m.mem) (omega (arith, e)) ∙ saved.0)
        (omega (arith, e, word))
        (pops rs m (sp - 8) others.1 (omega (arith, e)) (omega arith) saved.1)
