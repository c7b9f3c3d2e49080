-- ===== src/Loader/Relocations.antt =====
-- The relocations and the symbols: each loop ends, and keeps the variables valid.
use vadm.Base.{ℕ, zero, suc, ◌+◌, ◌-◌, ◌*◌, ◌<◌, ◌≤◌, ◌≡◌, refl, arith, ◌==◌, leb, true, u32}
use vadm.Base.Bytes.{Memory}
use vadm.Loader.State.{Image, Loader}
use vadm.Loader.Holds.{Holds, Holds-bind, Holds-map, Holds-require, Holds-if}
use vadm.Loader.Access.{write-SameBeside, at_hunk_lem, read_dword_lem}
use vadm.Loader.Invariant.{IsHunk, IsValid, ValidFrom, DwordRead, hunk_address_lem, write-IsValid}
use vadm.Loader.{
  is_hunk_memory, ntohl, htonl, hunk_start_address, fix_loop, reloc_group, reloc_loop, symbol_loop,
}

pub at_position :
    (m₀ : Memory) (s : Loader) (p : ℕ) → IsValid m₀ s → IsValid m₀ (record s { pos = p })
at_position m₀ s p v = write-IsValid m₀ s s.memory p (λ q h. refl) v

module _ (image : Image) (m₀ : Memory) where
  fix_loop_lem :
      (left ref_hnum : ℕ) (s : Loader)
      → IsValid m₀ s
      → Holds (ValidFrom m₀ s.pos) (fix_loop image left ref_hnum s)
  unfolding fix_loop
  fix_loop_lem zero ref_hnum s v = (v, omega arith)
  fix_loop_lem (suc left) ref_hnum s v =
      Holds-bind (DwordRead image s.pos) (ValidFrom m₀ s.pos) _ _ (read_dword_lem image s.pos)
        λ r read.
          Holds-bind IsHunk (ValidFrom m₀ s.pos) _ _
            (hunk_address_lem s.hunk_addresses s.hunk_num v.addresses)
            λ hunk h.
              Holds-bind (λ x. is_hunk_memory (hunk + r.0) 4 ≡ true) (ValidFrom m₀ s.pos) _ _
                (at_hunk_lem (hunk + r.0) 4)
                λ x inside.
                  Holds-bind
                    (λ y.
                      leb (ntohl s.memory (hunk + r.0)) (0xffffffff - hunk_start_address) ≡ true)
                    (ValidFrom m₀ s.pos) _ _ (Holds-require _)
                    λ y small.
                      Holds-bind IsHunk (ValidFrom m₀ s.pos) _ _
                        (hunk_address_lem s.hunk_addresses ref_hnum v.addresses)
                        λ ref h'.
                          Holds-map (ValidFrom m₀ r.1) (ValidFrom m₀ s.pos) _
                            (fix_loop_lem left ref_hnum _ (
                              write-IsValid m₀ s _ r.1
                                (write-SameBeside (htonl (u32 (ntohl s.memory (hunk + r.0) + ref)))
                                  (hunk + r.0) 4 s.memory refl inside)
                                v))
                            λ t ok. (ok.0, omega (arith, ok.1, read.0))

  reloc_group_lem :
      (n last_hnum : ℕ) (s : Loader)
      → IsValid m₀ s
      → Holds (ValidFrom m₀ s.pos) (reloc_group image n last_hnum s)
  unfolding reloc_group
  reloc_group_lem n last_hnum s v =
      Holds-bind (DwordRead image s.pos) (ValidFrom m₀ s.pos) _ _ (read_dword_lem image s.pos)
        λ r read.
          Holds-bind (λ x. leb r.0 last_hnum ≡ true) (ValidFrom m₀ s.pos) _ _ (Holds-require _)
            λ x known.
              Holds-map (ValidFrom m₀ r.1) (ValidFrom m₀ s.pos) _
                (fix_loop_lem n r.0 _ (at_position m₀ s r.1 v))
                λ t ok. (ok.0, omega (arith, ok.1, read.0))

  -- The fuel is enough, since each group is read from the file.
  pub reloc_loop_lem :
      (fuel last_hnum : ℕ) (s : Loader)
      → 0 < fuel
      → image.mapped < s.pos + fuel
      → IsValid m₀ s
      → Holds (ValidFrom m₀ s.pos) (reloc_loop image fuel last_hnum s)
  unfolding reloc_loop
  reloc_loop_lem zero last_hnum s some_left enough v = omega (arith, some_left)
  reloc_loop_lem (suc fuel) last_hnum s some_left enough v =
      Holds-bind (DwordRead image s.pos) (ValidFrom m₀ s.pos) _ _ (read_dword_lem image s.pos)
        λ r read.
          Holds-if (ValidFrom m₀ s.pos) (r.0 == 0) _ _
            (λ e. (at_position m₀ s r.1 v, omega (arith, read.0)))
            λ e.
              Holds-bind (ValidFrom m₀ r.1) (ValidFrom m₀ s.pos) _ _
                (reloc_group_lem r.0 last_hnum _ (at_position m₀ s r.1 v))
                λ s' ok.
                  Holds-map (ValidFrom m₀ s'.pos) (ValidFrom m₀ s.pos) _
                    (reloc_loop_lem fuel last_hnum s' (omega (arith, enough, read.1))
                      (omega (arith, enough, read.0, ok.1)) ok.0)
                    λ t ok'. (ok'.0, omega (arith, ok'.1, ok.1, read.0))

  pub symbol_loop_lem :
      (fuel pos : ℕ)
      → 0 < fuel
      → image.mapped < pos + fuel
      → Holds (λ (pos' : ℕ). pos ≤ pos') (symbol_loop image fuel pos)
  unfolding symbol_loop
  symbol_loop_lem zero pos some_left enough = omega (arith, some_left)
  symbol_loop_lem (suc fuel) pos some_left enough =
      Holds-bind (DwordRead image pos) (λ (pos' : ℕ). pos ≤ pos') _ _ (read_dword_lem image pos)
        λ r read.
          let next : ℕ = r.1 + u32 (u32 (r.0 + 1) * 4) in
          Holds-if (λ (pos' : ℕ). pos ≤ pos') (r.0 == 0) _ _ (λ e. omega (arith, read.0))
            λ e.
              Holds-map (λ (pos' : ℕ). next ≤ pos') (λ (pos' : ℕ). pos ≤ pos') _
                (symbol_loop_lem fuel next (omega (arith, enough, read.1))
                  (omega (arith, enough, read.0)))
                λ t ok. omega (arith, ok, read.0)
