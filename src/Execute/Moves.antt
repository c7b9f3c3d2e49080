-- ===== src/Execute/Moves.antt =====
-- The moves of the arguments in a thunk, and the signatures that say where the arguments are.
use vadm.Base.{
  ℕ, zero, suc, ◌+◌, ◌-◌, ◌<◌, ◌≤◌, ◌≡◌, refl, ap, arith, ltb, ltb→lt, leb, ◌&&◌, true, some, List,
  [], ◌∷◌, ◌++◌, map, All, length, length-append, get_or, if◌then◌else◌,
}
use vadm.Base.Bytes.{Out, write_bytes}
use vadm.Base.Tables.{tabulate, tabulate_ext}
use vadm.Base.Outcome.{returns}
use vadm.X86.{Instruction, bits32, mov_reg}
use vadm.X86.Listing.{Generates, ◌▷◌}
use vadm.Codegen.Register.{x86_reg_for_m68k_reg, x86_regs_for_func_args}
use vadm.Codegen.{emit_move_reg_to_reg}
use vadm.Codegen.Encoding.{hardware, emit_move_reg_to_reg-Generates}
use vadm.Execute.Text.{text_at, scan_digit}
use vadm.Execute.{element, scan_at, last_index, arg_round, arg_loop}

length-map : {A B : Type 0} (f : A → B) (xs : List A) → length (map f xs) ≡ length xs
length-map f [] = refl
length-map f (x ∷ xs) = omega (arith, length-map f xs)

-- A register or a small number as a digit of a signature.
abbrev pub hex_digit : ℕ → ℕ
hex_digit d = if ltb d 10 then 48 + d else 55 + d

scan_digit-hex_digit : (d v : ℕ) (rest : List ℕ) → d < 16 → scan_digit (hex_digit d ∷ rest) v ≡ d
unfolding scan_digit
scan_digit-hex_digit d v rest h = ground arith

pub scan_at_lem :
    (text : List ℕ) (i d v : ℕ) (rest : List ℕ)
    → d < 16
    → text_at text i ≡ some (hex_digit d ∷ rest)
    → scan_at text i v ≡ returns d
unfolding scan_at
scan_at_lem text i d v rest h at = rw (at, scan_at, scan_digit-hex_digit d v rest h)

-- Behind a character, the text goes on at the next position.
pub text_at_next :
    (text : List ℕ) (i c : ℕ) (rest : List ℕ)
    → text_at text i ≡ some (c ∷ rest)
    → text_at text (i + 1) ≡ some rest
unfolding text_at
text_at_next [] zero c rest h = cc
text_at_next (d ∷ text) zero c rest h = cc
text_at_next [] (suc i) c rest h = cc
text_at_next (d ∷ text) (suc i) c rest h =
    let e : suc i + 1 ≡ suc (i + 1) = omega arith in rw e (text_at_next text i c rest h)

-- The hardware number of the register that holds a 680x0 register, and of the registers for the
-- arguments of a C function.
abbrev pub held : ℕ → ℕ
held d = hardware (get_or x86_reg_for_m68k_reg d 0)

abbrev pub argument_register : ℕ → ℕ
argument_register k = hardware (get_or x86_regs_for_func_args k 0)

-- The moves of the arguments, whose registers are given in reverse order.
abbrev pub move_arguments : List ℕ → List Instruction
move_arguments [] = []
move_arguments (d ∷ ds) =
    mov_reg bits32 (held d) (argument_register (length ds)) ∷ move_arguments ds

abbrev move_size : ℕ → ℕ → ℕ
move_size d k =
    if leb 8 (get_or x86_reg_for_m68k_reg d 0) && leb 8 (get_or x86_regs_for_func_args k 0)
    then 2
    else 3

abbrev pub moves_size : List ℕ → ℕ
moves_size [] = 0
moves_size (d ∷ ds) = move_size d (length ds) + moves_size ds

-- The text is a signature: the registers of the arguments, that of the result, and their number.
pub record IsSignature (text args : List ℕ) (result : ℕ) : Type 0 where
  pub spelled : text ≡ map hex_digit args ++ hex_digit result ∷ hex_digit (length args) ∷ []
  pub registers : All (λ d. d < 16) args
  pub result_register : result < 16
  pub few : length args ≤ 6

nothing : Generates (λ o. o) [] 0
unfolding write_bytes
nothing = record { code = []; writes = λ o. refl; reads = λ rest. refl; sized = refl }

abbrev AtElement : (xs : List ℕ) (i : ℕ) → Type 0
AtElement xs i = element xs i ≡ returns (get_or xs i 0)

source_there : (d : ℕ) → d < 16 → AtElement x86_reg_for_m68k_reg d
source_there d h =
    unfold tabulate element in
    tabulate_ext 16 (element x86_reg_for_m68k_reg) (λ d. returns (get_or x86_reg_for_m68k_reg d 0))
      d refl h

target_there : (k : ℕ) → k < 6 → AtElement x86_regs_for_func_args k
target_there k h =
    unfold tabulate element in
    tabulate_ext 6 (element x86_regs_for_func_args)
      (λ k. returns (get_or x86_regs_for_func_args k 0)) k refl h

source_small : (d : ℕ) → d < 16 → get_or x86_reg_for_m68k_reg d 0 < 16
source_small d h =
    unfold tabulate in
    ltb→lt (get_or x86_reg_for_m68k_reg d 0) 16
      (tabulate_ext 16 (λ d. ltb (get_or x86_reg_for_m68k_reg d 0) 16) (λ d. true) d refl h)

target_small : (k : ℕ) → k < 6 → get_or x86_regs_for_func_args k 0 < 16
target_small k h =
    unfold tabulate in
    ltb→lt (get_or x86_regs_for_func_args k 0) 16
      (tabulate_ext 6 (λ k. ltb (get_or x86_regs_for_func_args k 0) 16) (λ k. true) k refl h)

-- What the loop does: it returns, and writes the moves.
pub record Moves (left argnum nargs : ℕ) (text args : List ℕ) (regnum : ℕ) : Type 0 where
  pub run : Out → Out
  pub scanned : ℕ
  pub result_returns :
      (p : Out) → arg_loop left argnum nargs text regnum p ≡ returns (scanned, run p)
  pub generates : Generates run (move_arguments args) (moves_size args)

module _ (d argnum nargs regnum : ℕ) (ds text rest : List ℕ) (small : d < 16) (few : length ds < 6)
    (e : nargs ≡ argnum + suc (length ds))
    (at : text_at text argnum ≡ some (map hex_digit (d ∷ ds) ++ rest))
    (others : Moves (length ds) (argnum + 1) nargs text ds d) where
  abbrev source : ℕ
  source = get_or x86_reg_for_m68k_reg d 0

  abbrev target : ℕ
  target = get_or x86_regs_for_func_args (length ds) 0

  index : nargs - argnum - 1 ≡ length ds
  index = omega (arith, e)

  one_round :
      (p : Out)
      → arg_round argnum nargs text regnum p ≡ returns (d, emit_move_reg_to_reg p source target 0)
  unfolding arg_round
  one_round p = rw (
    scan_at_lem text argnum d regnum (map hex_digit ds ++ rest) small at,
    source_there d small,
    index,
    target_there (length ds) few,
  )

  Moves-round : Moves (suc (length ds)) argnum nargs text (d ∷ ds) regnum
  unfolding arg_loop
  Moves-round = record {
    run = λ p. others.run (emit_move_reg_to_reg p source target 0);
    scanned = others.scanned;
    result_returns =
        λ p. rw (one_round p) (others.result_returns (emit_move_reg_to_reg p source target 0));
    generates =
        emit_move_reg_to_reg-Generates 0 source target (omega arith) (source_small d small)
          (target_small (length ds) few)
        ▷ others.generates;
  }

pub arg_loop-Moves :
    (args : List ℕ) (argnum nargs regnum : ℕ) (text rest : List ℕ)
    → All (λ d. d < 16) args
    → length args ≤ 6
    → nargs ≡ argnum + length args
    → text_at text argnum ≡ some (map hex_digit args ++ rest)
    → Moves (length args) argnum nargs text args regnum
unfolding arg_loop
arg_loop-Moves [] argnum nargs regnum text rest small few e at = record {
  run = λ p. p;
  scanned = regnum;
  result_returns = λ p. refl;
  generates = nothing;
}
arg_loop-Moves (d ∷ ds) argnum nargs regnum text rest (hd, hds) few e at =
    Moves-round d argnum nargs regnum ds text rest hd (omega arith) e at (
      arg_loop-Moves ds (argnum + 1) nargs d text rest hds (omega arith) (omega arith)
        (text_at_next text argnum (hex_digit d) (map hex_digit ds ++ rest) at))

pub text_at-map : (f : ℕ → ℕ) (xs ys : List ℕ) → text_at (map f xs ++ ys) (length xs) ≡ some ys
unfolding text_at
text_at-map f [] ys = refl
text_at-map f (x ∷ xs) ys = text_at-map f xs ys

pub last_index-map :
    (f : ℕ → ℕ) (xs : List ℕ) (a b : ℕ)
    → last_index (map f xs ++ a ∷ b ∷ []) ≡ returns (length xs + 1)
last_index-map f [] a b = refl
last_index-map f (x ∷ xs) a b =
    ap returns (omega (arith, length-append (map f xs) (a ∷ b ∷ []), length-map f xs))
