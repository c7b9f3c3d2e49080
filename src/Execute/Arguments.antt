-- ===== src/Execute/Arguments.antt =====
-- The moves of the arguments in a thunk, executed: which signatures let every argument arrive.
use vadm.Base.{
  ℕ, ◌<◌, ◌≤◌, ◌≡◌, ◌≢◌, refl, sym, ap, ◌∙◌, inl, inr, arith, ◌==◌, ◌&&◌, ◌||◌, not, Bool, true,
  false, ltb, Bool-cases, and-parts, ==_iff, List, [], ◌∷◌, map, length, All, u32,
}
use vadm.Base.Bytes.{store}
use vadm.Base.Tables.{tabulate, tabulate_ext, tabulate_ext₂}
use vadm.X86.Machine.{Processor, through, step, execute, contains}
use vadm.Codegen.Preserved.{may_change}
use vadm.Execute.Moves.{held, argument_register, move_arguments}

-- The registers after the moves.
abbrev pub moved : List ℕ → (ℕ → ℕ) → ℕ → ℕ
moved [] f = f
moved (d ∷ ds) f = moved ds (store (argument_register (length ds)) (u32 (f (held d))) f)

pub execute-move_arguments :
    (call : ℕ → Processor → Processor) (flags_of : ℕ → Processor → ℕ) (args : List ℕ)
    (m : Processor)
    → execute call flags_of (move_arguments args) m
      ≡ through (record m { regs = moved args m.regs })
unfolding execute step
execute-move_arguments call flags_of [] m = refl
execute-move_arguments call flags_of (d ∷ ds) m =
    execute-move_arguments call flags_of ds
      (record m { regs = store (argument_register (length ds)) (u32 (m.regs (held d))) m.regs })

-- No move overwrites a register that a later move reads.
unfoldable pub is_unclobbered : List ℕ → Bool
unfolding contains
is_unclobbered [] = true
is_unclobbered (d ∷ ds) =
    not (contains (map held ds) (argument_register (length ds))) && is_unclobbered ds

-- Each argument of the C function, the last one first, is the value of its 680x0 register.
abbrev pub Delivered : List ℕ → (ℕ → ℕ) → (ℕ → ℕ) → Type 0
Delivered [] f g = Unit {0}
Delivered (d ∷ ds) f g = (g (argument_register (length ds)) ≡ u32 (f (held d))) × Delivered ds f g

-- The registers of the arguments differ.
distinct : (i k : ℕ) → i < 6 → k < 6 → i ≢ k → (argument_register i == argument_register k) ≡ false
unfolding tabulate
distinct i k hi hk differs =
    tabulate_ext₂ 6 6 (λ i k. argument_register i == argument_register k) (λ i k. i == k) i k refl
      hi hk
    ∙ ground (arith, differs)

may_be_changed : (k : ℕ) → k < 6 → may_change (argument_register k) ≡ true
unfolding tabulate
may_be_changed k h = tabulate_ext 6 (λ k. may_change (argument_register k)) (λ k. true) k refl h

store_self : (t v : ℕ) (f : ℕ → ℕ) → store t v f t ≡ v
store_self t v f = ground arith

moved_other :
    (ds : List ℕ) (f : ℕ → ℕ) (q : ℕ)
    → ((k : ℕ) → k < length ds → (argument_register k == q) ≡ false)
    → moved ds f q ≡ f q
moved_other [] f q h = refl
moved_other (d ∷ ds) f q h =
    moved_other ds (store (argument_register (length ds)) (u32 (f (held d))) f) q
      (λ k a. h k (omega arith))
    ∙ rw (h (length ds) (omega arith)) refl

-- A register that a called function preserves is not moved to.
pub moved_preserved :
    (args : List ℕ) (f : ℕ → ℕ) (q : ℕ)
    → length args ≤ 6
    → may_change q ≡ false
    → moved args f q ≡ f q
moved_preserved args f q few no_change = moved_other args f q apart
  where
    apart : (k : ℕ) → k < length args → (argument_register k == q) ≡ false
    apart k h = elim (Bool-cases (argument_register k == q)) [
      | inl e ↦
          let same : argument_register k ≡ q = (==_iff (argument_register k) q).0 e in
          cc (may_be_changed k (omega arith), no_change, ap may_change same)
      | inr e ↦ e
    ]

pub neither : (a b : Bool) → (a || b) ≡ false → (a ≡ false) × (b ≡ false)
neither true b h = cc
neither false b h = (refl, h)

negated : (b : Bool) → not b ≡ true → b ≡ false
negated true h = cc
negated false h = refl

apart : (a b : ℕ) → (a == b) ≡ false → (b == a) ≡ false
apart a b h = ground (arith, h)

Delivered-ext :
    (ds : List ℕ) (t v : ℕ) (f g : ℕ → ℕ)
    → contains (map held ds) t ≡ false
    → Delivered ds (store t v f) g
    → Delivered ds f g
unfolding contains
Delivered-ext [] t v f g h p = tt
Delivered-ext (d ∷ ds) t v f g h p =
    (p.0 ∙ rw (apart (held d) t parts.0) refl, Delivered-ext ds t v f g parts.1 p.1)
  where
    parts : ((held d == t) ≡ false) × (contains (map held ds) t ≡ false)
    parts = neither (held d == t) (contains (map held ds) t) h

-- If no move overwrites a register that a later one reads, all arguments arrive.
pub moved-Delivered :
    (args : List ℕ) (f : ℕ → ℕ)
    → length args ≤ 6
    → is_unclobbered args ≡ true
    → Delivered args f (moved args f)
unfolding is_unclobbered
moved-Delivered [] f few h = tt
moved-Delivered (d ∷ ds) f few h = (
  moved_other ds next target others_differ ∙ store_self target value f,
  Delivered-ext ds target value f (moved ds next) (negated (contains (map held ds) target) parts.0)
      (moved-Delivered ds next (omega arith) parts.1),
)
  where
    target : ℕ
    target = argument_register (length ds)

    value : ℕ
    value = u32 (f (held d))

    next : ℕ → ℕ
    next = store target value f

    parts : (not (contains (map held ds) target) ≡ true) × (is_unclobbered ds ≡ true)
    parts = and-parts (not (contains (map held ds) target)) (is_unclobbered ds) h

    others_differ : (k : ℕ) → k < length ds → (argument_register k == target) ≡ false
    others_differ k a = distinct k (length ds) (omega arith) (omega arith) (omega arith)

held_bounds : (d : ℕ) → d < 15 → (held d < 16) × (held d ≢ 4)
unfolding tabulate
held_bounds d h =
    ground (arith, tabulate_ext 15 (λ d. ltb (held d) 16 && not (held d == 4)) (λ d. true) d refl h)

argument_register_bounds :
    (k : ℕ)
    → k < 6
    → (argument_register k ≢ 0) × (argument_register k ≢ 4) × (argument_register k ≢ 5)
unfolding tabulate
argument_register_bounds k h = ground (
  arith,
  tabulate_ext 6
      (λ k.
        not (argument_register k == 0)
        && not (argument_register k == 4)
        && not (argument_register k == 5))
      (λ k. true) k refl h,
)

-- The same for registers with the same values.
pub Delivered-same :
    (args : List ℕ) (f f' g g' : ℕ → ℕ)
    → length args ≤ 6
    → All (λ d. d < 15) args
    → ((q : ℕ) → q < 16 → q ≢ 4 → f' q ≡ f q)
    → ((q : ℕ) → q ≢ 0 → q ≢ 4 → q ≢ 5 → g' q ≡ g q)
    → Delivered args f g
    → Delivered args f' g'
Delivered-same [] f f' g g' few small hf hg p = tt
Delivered-same (d ∷ ds) f f' g g' few small hf hg p = (
  hg (argument_register (length ds)) target.0 target.1 target.2
      ∙ p.0
      ∙ sym (ap u32 (hf (held d) source.0 source.1)),
  Delivered-same ds f f' g g' (omega arith) small.1 hf hg p.1,
)
  where
    source : (held d < 16) × (held d ≢ 4)
    source = held_bounds d small.0

    target :
        (argument_register (length ds) ≢ 0)
        × (argument_register (length ds) ≢ 4)
        × (argument_register (length ds) ≢ 5)
    target = argument_register_bounds (length ds) (omega arith)
