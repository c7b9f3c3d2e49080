-- ===== src/Loader/Blocks.antt =====
-- The blocks of a file, and the whole load: it ends, and the variables are valid.
use vadm.Base.{
  ℕ, ◌+◌, ◌-◌, ◌*◌, ◌^◌, ◌≡◌, ◌∙◌, arith, ◌==◌, leb, Bool, true, u32, Option, some,
  length-replicate, replicate,
}
use vadm.Base.Bytes.{Memory}
use mathlib.Core.Path.{subst}
use vadm.Execute.Library.{IsMapping}
use vadm.Loader.State.{continues, require, or_refused, Image, Loader}
use vadm.Loader.Holds.{Holds, Holds-bind, Holds-map, Holds-require, Holds-if, Holds-or_refused}
use vadm.Loader.Access.{SameBeside, write-SameBeside, at_hunk_lem, read_dword_lem, memcpy_lem}
use vadm.Loader.Invariant.{
  IsHunk, IsValid, ValidFrom, DwordRead, SizesRead, hunk_address_lem, write-IsValid, size_loop_lem,
}
use vadm.Loader.Relocations.{at_position}
use vadm.Loader.{
  hunk_start_address, max_hunks, max_hunk_size, is_hunk_memory, load_header, code_loaded,
  load_contents, load_bss, skip_debug,
}

-- Code that begins at a hunk.
code_loaded-IsValid :
    (m₀ : Memory) (hunk nbytes : ℕ) (s : Loader)
    → IsHunk hunk
    → IsValid m₀ s
    → Holds (ValidFrom m₀ s.pos) (code_loaded hunk nbytes s)
code_loaded-IsValid m₀ hunk nbytes s h v =
    Holds-bind (λ (x : Bool). leb nbytes (max_hunk_size - 4) ≡ true) (ValidFrom m₀ s.pos)
      (require (leb nbytes (max_hunk_size - 4)))
      (λ x. continues (record s { code = some (hunk, nbytes) })) (Holds-require _)
      λ x small.
        let done : ValidFrom m₀ s.pos (record s { code = some (hunk, nbytes) }) = (
          record {
            addresses = v.addresses;
            outside = v.outside;
            code = λ a n e.
                let at : hunk ≡ a = cc e in
                let sized : nbytes ≡ n = cc e in (subst IsHunk at h, ground (arith, small, sized));
          },
          omega arith,
        ) in
        done

module _ (image : Image) (m₀ : Memory) where
  pub contents_lem :
      (is_code : Bool) (s : Loader)
      → IsValid m₀ s
      → Holds (ValidFrom m₀ s.pos) (load_contents image is_code s)
  unfolding load_contents
  contents_lem is_code s v =
      Holds-bind (DwordRead image s.pos) (ValidFrom m₀ s.pos) _ _ (read_dword_lem image s.pos)
        λ r read.
          Holds-bind IsHunk (ValidFrom m₀ s.pos) _ _
            (hunk_address_lem s.hunk_addresses s.hunk_num v.addresses)
            λ hunk h.
              Holds-bind (SameBeside s.memory) (ValidFrom m₀ s.pos) _ _
                (memcpy_lem image hunk r.1 (u32 (r.0 * 4)) s.memory)
                λ m same.
                  let behind : ℕ = r.1 + u32 (r.0 * 4) in
                  let v' : IsValid m₀ (record s { pos = behind; memory = m }) =
                    write-IsValid m₀ s m behind same v in
                  Holds-if (ValidFrom m₀ s.pos) is_code _ _
                    (λ e.
                      Holds-map (ValidFrom m₀ behind) (ValidFrom m₀ s.pos) _
                        (code_loaded-IsValid m₀ hunk (u32 (r.0 * 4)) _ h v')
                        λ t ok. (ok.0, omega (arith, ok.1, read.0)))
                    λ e. (v', omega (arith, read.0))

  pub bss_lem : (s : Loader) → IsValid m₀ s → Holds (ValidFrom m₀ s.pos) (load_bss image s)
  unfolding load_bss
  bss_lem s v =
      Holds-bind (DwordRead image s.pos) (ValidFrom m₀ s.pos) _ _ (read_dword_lem image s.pos)
        λ r read.
          Holds-bind IsHunk (ValidFrom m₀ s.pos) _ _
            (hunk_address_lem s.hunk_addresses s.hunk_num v.addresses)
            λ hunk h.
              Holds-bind (λ (x : Bool). is_hunk_memory hunk (u32 (r.0 * 4)) ≡ true)
                (ValidFrom m₀ s.pos) _ _ (at_hunk_lem hunk (u32 (r.0 * 4)))
                λ x inside. (
                  write-IsValid m₀ s _ r.1
                      (write-SameBeside (replicate (u32 (r.0 * 4)) 0) hunk (u32 (r.0 * 4)) s.memory
                        (length-replicate (u32 (r.0 * 4)) 0) inside)
                      v,
                  omega (arith, read.0),
                )

  pub debug_lem : (s : Loader) → IsValid m₀ s → Holds (ValidFrom m₀ s.pos) (skip_debug image s)
  unfolding skip_debug
  debug_lem s v =
      Holds-bind (DwordRead image s.pos) (ValidFrom m₀ s.pos) _ _ (read_dword_lem image s.pos)
        λ r read. (at_position m₀ s (r.1 + u32 (r.0 * 4)) v, omega (arith, read.0))

  pub header_lem :
      (mmap : ℕ → ℕ → Memory → Option Memory) (s : Loader)
      → IsMapping mmap
      → IsValid m₀ s
      → Holds (ValidFrom m₀ s.pos) (load_header image mmap s)
  unfolding load_header
  header_lem mmap s mapping v =
      Holds-bind (DwordRead image s.pos) (ValidFrom m₀ s.pos) _ _ (read_dword_lem image s.pos)
        λ r₁ read₁.
          Holds-bind (λ (x : Bool). (r₁.0 == 0) ≡ true) (ValidFrom m₀ s.pos) (require (r₁.0 == 0)) _
            (Holds-require (r₁.0 == 0))
            λ x none_resident.
              Holds-bind (DwordRead image r₁.1) (ValidFrom m₀ s.pos) _ _ (read_dword_lem image r₁.1)
                λ r₂ read₂.
                  Holds-bind (DwordRead image r₂.1) (ValidFrom m₀ s.pos) _ _
                    (read_dword_lem image r₂.1)
                    λ r₃ read₃.
                      Holds-bind (DwordRead image r₃.1) (ValidFrom m₀ s.pos) _ _
                        (read_dword_lem image r₃.1)
                        λ r₄ read₄.
                          Holds-bind
                            (λ (x : Bool). leb (u32 (r₄.0 + 2 ^ 32 - r₃.0 + 1)) max_hunks ≡ true)
                            (ValidFrom m₀ s.pos)
                            (require (leb (u32 (r₄.0 + 2 ^ 32 - r₃.0 + 1)) max_hunks)) _
                            (Holds-require (leb (u32 (r₄.0 + 2 ^ 32 - r₃.0 + 1)) max_hunks))
                            λ y few.
                              Holds-bind
                                (λ m.
                                  mmap hunk_start_address (max_hunks * max_hunk_size) s.memory
                                  ≡ some m)
                                (ValidFrom m₀ s.pos)
                                (or_refused
                                  (mmap hunk_start_address (max_hunks * max_hunk_size) s.memory))
                                _
                                (Holds-or_refused
                                  (mmap hunk_start_address (max_hunks * max_hunk_size) s.memory))
                                λ m is_mapped.
                                  Holds-bind (SizesRead r₄.1) (ValidFrom m₀ s.pos) _ _
                                    (size_loop_lem image m₀ (r₄.0 + 1 - r₃.0) r₃.0 0
                                      hunk_start_address r₄.1 s.hunk_addresses (omega arith)
                                      (omega arith) v.addresses)
                                    λ t ok.
                                      let done : ValidFrom m₀ s.pos (record s {
                                        pos = t.1;
                                        memory = m;
                                        hunk_addresses = t.0;
                                      }) =
                                        (
                                          record {
                                            addresses = ok.0;
                                            outside = λ q beside.
                                                mapping.keeps hunk_start_address
                                                  (max_hunks * max_hunk_size) s.memory m is_mapped q
                                                  beside
                                                ∙ v.outside q beside;
                                            code = v.code;
                                          },
                                          omega (arith, ok.1, read₁.0, read₂.0, read₃.0, read₄.0),
                                        ) in
                                      done
