-- ===== src/Translate/Runs.antt =====
-- `translate_tu` as a sequence of translated instructions that ends with a terminal one.
use vadm.Base.{
  ℕ, zero, suc, ◌+◌, ◌<◌, ◌≡◌, refl, inl, inr, arith, Bool, true, false, Bool-cases, Option, none,
  some, ℤ, is_minus_one,
}
use vadm.Base.Outcome.{Outcome, returns, fault}
use vadm.Translate.State.{OpcodeInfo, Machine, State, at_input}
use vadm.Translate.Operand.{read_word}
use vadm.Translate.Unit.{
  Uninitialized, call_handler, write_jump, after_handler, at_opcode, translate_loop,
}

-- The opcode at the input position, and the state behind it.
abbrev pub opcode_at : State → ℕ
opcode_at s = read_word s.memory s.inpos

abbrev pub behind : State → State
behind s = at_input (s.inpos + 2) s

abbrev pub returned : Option ℕ → Machine → Option (Outcome (Option ℕ × Machine))
returned address m = some (returns (address, m))

-- The block with the jump over the stub.
abbrev pub linked : ℕ → State → Machine
linked p_x86_code s = write_jump p_x86_code s.machine

module _ (malloc : ℕ → Bool) (translate_tu_addr : ℕ) (u : Uninitialized) where
  -- The table knows the opcode, and its handler succeeds and leaves the state.
  pub record Handled (terminal : Bool) (s after : State) : Type 0 where
    pub info : OpcodeInfo
    pub nbytes_used : ℤ
    pub found : s.opc_info_lookup_tbl (opcode_at s) ≡ some info
    pub kind : info.opc_terminal ≡ terminal
    pub handled :
        call_handler malloc translate_tu_addr u info.opc_handler (opcode_at s) (behind s)
        ≡ returns (nbytes_used, after)
    pub succeeded : is_minus_one nbytes_used ≡ false

  -- A number of instructions that are not terminal, and then one that is.
  pub data Runs : ℕ → State → State → Type 0 where
    last : {s after : State} → Handled true s after → Runs 0 s after
    next :
        {n : ℕ} {s mid after : State}
        → Handled false s mid
        → Runs n mid after
        → Runs (suc n) s after

  abbrev pub loop : ℕ → ℕ → State → Option (Outcome (Option ℕ × Machine))
  loop = translate_loop malloc translate_tu_addr u

  no_fuel : (n : ℕ) → n < 0 → ⊥
  no_fuel n h = omega arith

  -- More fuel than there are instructions that are not terminal is enough.
  pub translate_loop_complete :
      (n fuel p_x86_code : ℕ) (s after : State)
      → Runs n s after
      → n < fuel
      → loop fuel p_x86_code s ≡ returned (some p_x86_code) (linked p_x86_code after)
  unfolding translate_loop
  translate_loop_complete n zero p_x86_code s after r h = elim (no_fuel n h) [ ]
  translate_loop_complete _ (suc fuel) p_x86_code s after (last r) h =
      rw (r.found, r.handled, r.succeeded, r.kind) refl
  translate_loop_complete _ (suc fuel) p_x86_code s after (next {n} {mid} r rs) h =
      rw (r.found, r.handled, r.succeeded, r.kind)
        (translate_loop_complete n fuel p_x86_code mid after rs (omega arith))

  -- What the loop has done if it returns an address.
  pub record Ran (p_x86_code fuel : ℕ) (s : State) (x : ℕ) (m : Machine) : Type 0 where
    pub count : ℕ
    pub after : State
    pub runs : Runs count s after
    pub enough : count < fuel
    pub address : x ≡ p_x86_code
    pub machine : m ≡ linked p_x86_code after

  module _ (fuel p_x86_code x : ℕ) (m : Machine)
      (rest : (s : State)
        → loop fuel p_x86_code s ≡ returned (some x) m
        → Ran p_x86_code fuel s x m)
      (s : State) where
    null_result :
        {a : Machine} → returned none a ≡ returned (some x) m → Ran p_x86_code (suc fuel) s x m
    null_result h = cc

    same_result :
        {a : ℕ} {b : Machine} → returned (some a) b ≡ returned (some x) m → (x ≡ a) × (m ≡ b)
    same_result h = (cc, cc)

    after_next :
        {mid : State}
        → Handled false s mid
        → Ran p_x86_code fuel mid x m
        → Ran p_x86_code (suc fuel) s x m
    after_next h r = record {
      count = suc r.count;
      after = r.after;
      runs = next h r.runs;
      enough = omega (arith, r.enough);
      address = r.address;
      machine = r.machine;
    }

    from_state :
        (info : OpcodeInfo) (nbytes_used : ℤ) (after : State)
        → s.opc_info_lookup_tbl (opcode_at s) ≡ some info
        → call_handler malloc translate_tu_addr u info.opc_handler (opcode_at s) (behind s)
          ≡ returns (nbytes_used, after)
        → after_handler malloc translate_tu_addr u p_x86_code info.opc_terminal
            (loop fuel p_x86_code)
            (returns (nbytes_used, after))
          ≡ returned (some x) m
        → Ran p_x86_code (suc fuel) s x m
    from_state info nbytes_used after e c h = elim (Bool-cases (is_minus_one nbytes_used)) [
      | inl failed ↦ null_result (rw failed at h)
      | inr ok ↦ elim (Bool-cases info.opc_terminal) [
        | inl is_last ↦
            let (a, b) = same_result (rw (ok, is_last) at h) in
            record {
              count = 0;
              after = after;
              runs = last (handled is_last ok);
              enough = omega arith;
              address = a;
              machine = b;
            }
        | inr is_next ↦ after_next (handled is_next ok) (rest after (rw (ok, is_next) at h))
      ]
    ]
      where
        handled :
            {terminal : Bool}
            → info.opc_terminal ≡ terminal
            → is_minus_one nbytes_used ≡ false
            → Handled terminal s after
        handled kind ok = record {
          info = info;
          nbytes_used = nbytes_used;
          found = e;
          kind = kind;
          handled = c;
          succeeded = ok;
        }

    from_info :
        (found : Option OpcodeInfo)
        → s.opc_info_lookup_tbl (opcode_at s) ≡ found
        → at_opcode malloc translate_tu_addr u p_x86_code
            (loop fuel p_x86_code)
            (opcode_at s)
            (behind s)
            found
          ≡ returned (some x) m
        → Ran p_x86_code (suc fuel) s x m
    from_info none e h = cc
    from_info (some info) e h =
        from_result
          (call_handler malloc translate_tu_addr u info.opc_handler (opcode_at s) (behind s)) refl h
      where
        from_result :
            (result : Outcome (ℤ × State))
            → call_handler malloc translate_tu_addr u info.opc_handler (opcode_at s) (behind s)
              ≡ result
            → after_handler malloc translate_tu_addr u p_x86_code info.opc_terminal
                (loop fuel p_x86_code)
                result
              ≡ returned (some x) m
            → Ran p_x86_code (suc fuel) s x m
        from_result fault c k = cc
        from_result (returns (nbytes_used, after)) c k = from_state info nbytes_used after e c k

  -- Whatever the fuel, if the loop returns an address then it is that of the block, and the loop
  -- has translated instructions up to a terminal one, and put the jump at the start of the block.
  pub translate_loop_sound :
      (fuel p_x86_code x : ℕ) (m : Machine) (s : State)
      → loop fuel p_x86_code s ≡ returned (some x) m
      → Ran p_x86_code fuel s x m
  unfolding translate_loop
  translate_loop_sound zero p_x86_code x m s h = cc
  translate_loop_sound (suc fuel) p_x86_code x m s h =
      from_info fuel p_x86_code x m (translate_loop_sound fuel p_x86_code x m) s
        (s.opc_info_lookup_tbl (opcode_at s)) refl h
