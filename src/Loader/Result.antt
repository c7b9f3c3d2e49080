-- ===== src/Loader/Result.antt =====
-- The loop over the blocks and the whole load: it ends, and the variables are valid.
use vadm.Base.{
  ℕ, zero, suc, ◌+◌, ◌<◌, ◌≤◌, ◌≡◌, refl, arith, ◌==◌, ltb, Bool, true, false, Option, some, none,
}
use vadm.Base.Bytes.{Memory}
use vadm.Execute.Library.{IsMapping}
use vadm.Loader.State.{continues, ◌>>=◌, require, or_refused, Image, BlockTypes, Loader}
use vadm.Loader.Holds.{Holds, Holds-bind, Holds-map, Holds-require, Holds-if, Holds-or_refused}
use vadm.Loader.Access.{read_dword_lem}
use vadm.Loader.Invariant.{IsValid, ValidFrom, DwordRead}
use vadm.Loader.Relocations.{at_position, reloc_loop_lem, symbol_loop_lem}
use vadm.Loader.Blocks.{contents_lem, bss_lem, debug_lem, header_lem}
use vadm.Loader.{read_dword, symbol_loop, load_block, next_block, block_loop, load_program}

module _ (types : BlockTypes) (mmap : ℕ → ℕ → Memory → Option Memory) (stale_last_hnum : ℕ → ℕ)
    (mapping : IsMapping mmap) where
  module _ (image : Image) (m₀ : Memory) (fuel : ℕ) (positive : 0 < fuel) where
    symbols_lem :
        (s : Loader)
        → image.mapped < s.pos + fuel
        → IsValid m₀ s
        → Holds
            (ValidFrom m₀ s.pos)
            (symbol_loop image fuel s.pos >>= λ pos. continues (record s { pos = pos }))
    symbols_lem s enough v =
        Holds-bind (λ (pos : ℕ). s.pos ≤ pos) (ValidFrom m₀ s.pos) (symbol_loop image fuel s.pos)
          (λ pos. continues (record s { pos = pos }))
          (symbol_loop_lem image m₀ fuel s.pos positive enough)
          λ pos behind. (at_position m₀ s pos v, behind)

    block_lem :
        (block_type : ℕ) (s : Loader)
        → image.mapped < s.pos + fuel
        → IsValid m₀ s
        → Holds (ValidFrom m₀ s.pos) (load_block image types mmap stale_last_hnum fuel block_type s)
    unfolding load_block
    block_lem block_type s enough v =
        let valid : Loader → Type 0 = ValidFrom m₀ s.pos in
        Holds-if valid (block_type == types.hunk_header) _ _
          (λ e. header_lem image m₀ mmap s mapping v)
          λ e₁.
            Holds-if valid (block_type == types.hunk_code) _ _ (λ e. contents_lem image m₀ true s v)
              λ e₂.
                Holds-if valid (block_type == types.hunk_data) _ _
                  (λ e. contents_lem image m₀ false s v)
                  λ e₃.
                    Holds-if valid (block_type == types.hunk_bss) _ _ (λ e. bss_lem image m₀ s v)
                      λ e₄.
                        Holds-if valid (block_type == types.hunk_reloc32) _ _
                          (λ e.
                            reloc_loop_lem image m₀ fuel (stale_last_hnum s.pos) s positive enough
                              v)
                          λ e₅.
                            Holds-if valid (block_type == types.hunk_symbol) _ _
                              (λ e. symbols_lem s enough v)
                              λ e₆.
                                Holds-if valid (block_type == types.hunk_debug) _ _
                                  (λ e. debug_lem image m₀ s v)
                                  λ e₇.
                                    Holds-if valid (block_type == types.hunk_end) _ _
                                      (λ e. (
                                        record {
                                          addresses = v.addresses;
                                          outside = v.outside;
                                          code = v.code;
                                        },
                                        omega arith,
                                      ))
                                      λ e₈. tt

    next_block_lem :
        (s : Loader)
        → image.mapped < fuel
        → IsValid m₀ s
        → Holds
            (λ t. ValidFrom m₀ (s.pos + 4) t)
            (next_block image types mmap stale_last_hnum fuel s)
    unfolding next_block
    next_block_lem s enough v =
        Holds-bind (DwordRead image s.pos) (ValidFrom m₀ (s.pos + 4)) (read_dword image s.pos) _
          (read_dword_lem image s.pos)
          λ r read.
            Holds-map (ValidFrom m₀ r.1) (ValidFrom m₀ (s.pos + 4)) _
              (block_lem r.0 (record s { pos = r.1 }) (omega (arith, enough))
                (at_position m₀ s r.1 v))
              λ t ok. (ok.0, omega (arith, ok.1, read.0))

    block_loop_lem :
        (rounds : ℕ) (s : Loader)
        → image.mapped < fuel
        → image.size ≤ s.pos + rounds
        → IsValid m₀ s
        → Holds (IsValid m₀) (block_loop image types mmap stale_last_hnum rounds fuel s)
    unfolding block_loop
    block_loop_lem zero s enough short v =
        Holds-if (IsValid m₀) (ltb s.pos image.size) _ _ (λ e. ground (arith, short, e)) λ e. v
    block_loop_lem (suc rounds) s enough short v =
        Holds-if (IsValid m₀) (ltb s.pos image.size) _ _
          (λ e.
            Holds-bind (ValidFrom m₀ (s.pos + 4)) (IsValid m₀)
              (next_block image types mmap stale_last_hnum fuel s)
              (block_loop image types mmap stale_last_hnum rounds fuel) (next_block_lem s enough v)
              λ t ok. block_loop_lem rounds t enough (omega (arith, short, ok.1)) ok.0)
          λ e. v

  at_first :
      (m : Memory)
      → IsValid m
          (record { pos = 0; memory = m; hunk_addresses = λ i. none; hunk_num = 0; code = none })
  at_first m = record { addresses = λ i a e. cc e; outside = λ q h. refl; code = λ a n e. cc e }

  -- Whatever the file holds, `load_program` ends, if `mmap` changes only the pages that it maps: with more
  -- fuel than bytes of the file can be read, it does not run out of it. If it returns true, the memory
  -- outside of the four hunks is as it was, each hunk address is that of one of the four hunks, and
  -- the code begins at a hunk and leaves room for four bytes.
  pub load_program-IsValid :
      (fuel : ℕ) (installed restored : Bool) (opened : Option Image) (m : Memory)
      → ((image : Image)
          → opened ≡ some image
          → (image.mapped < fuel) × (image.size ≤ image.mapped))
      → Holds (IsValid m) (load_program types mmap stale_last_hnum fuel installed opened restored m)
  unfolding load_program
  load_program-IsValid fuel installed restored opened m enough =
      Holds-bind (λ (x : Bool). installed ≡ true) (IsValid m) (require installed) _
        (Holds-require installed)
        λ x ok.
          Holds-bind (λ image. opened ≡ some image) (IsValid m) (or_refused opened) _
            (Holds-or_refused opened)
            λ image is_opened.
              let (more, sized) = enough image is_opened in
              Holds-bind (IsValid m) (IsValid m)
                (block_loop image types mmap stale_last_hnum fuel fuel (record {
                  pos = 0;
                  memory = m;
                  hunk_addresses = λ i. none;
                  hunk_num = 0;
                  code = none;
                }))
                _
                (block_loop_lem image m fuel (omega (arith, more)) fuel _ more
                  (omega (arith, more, sized)) (at_first m))
                λ s v.
                  Holds-bind (λ (y : Bool). restored ≡ true) (IsValid m) (require restored) _
                    (Holds-require restored) λ y done. v
