-- ===== src/Execute/JumpTable.antt =====
-- The two jump tables of a library, for a whole table of functions.
use Prim.Native.String.{String}
use vadm.Base.{ℕ, ◌+◌, ◌-◌, ◌<◌, ◌≤◌, ◌≡◌, refl, arith, ◌⊎◌, inl, inr, List, All}
use vadm.Base.Bytes.{Memory, Out}
use vadm.Base.Outcome.{returns}
use vadm.Execute.{FuncInfo, lib_jump_tbl_size, jump_table_loop, setup_jump_tables}
use vadm.Execute.Thunk.{thunk_size}
use vadm.Execute.Entries.{
  IsTable, end, unimplemented, implemented, before_end, IsEntry, table_end, Built, build,
  interrupted, thunked, behind, Built-unimplemented, Built-implemented,
}

module _ (log_func_name_addr : ℕ) (string_addr : String → ℕ) (nargs₀ regnum₀ p_lib_base : ℕ) where
  -- The loop, from any table and position that leaves room for the thunks.
  build-Built :
      (limit low size : ℕ) (table : List FuncInfo) (p : Out)
      → IsTable limit low size table
      → limit ≤ lib_jump_tbl_size
      → p_lib_base ≤ p.pos
      → p.pos + size ≤ (table_end log_func_name_addr string_addr nargs₀ regnum₀ p_lib_base) - limit
      → Built log_func_name_addr string_addr nargs₀ regnum₀ p_lib_base low table p
          (build log_func_name_addr string_addr nargs₀ regnum₀ p_lib_base table p)
  unfolding jump_table_loop
  build-Built limit low _ _ p (end {rest} stop) limited from room = record {
    final = p;
    result_returns = rw stop;
    grows = omega arith;
    above = λ q h. refl;
    below = λ q h. refl;
    kept = λ h. h;
    entries = rw stop tt;
  }
  build-Built limit low size _ p (unimplemented {pfi} {rest} null positive ordered inside t) limited
        from room =
      Built-unimplemented log_func_name_addr string_addr nargs₀ regnum₀ p_lib_base pfi low limit
        rest p positive inside limited null ordered (omega arith)
        (build-Built limit pfi.offset size rest
          (interrupted log_func_name_addr string_addr nargs₀ regnum₀ p_lib_base pfi low limit rest p
            positive inside limited)
          t limited from room)
  build-Built limit low _ _ p
        (implemented {size} {pfi} {rest} p_func args result func signature positive ordered inside
          t)
        limited from room =
      let fits : p.pos + thunk_size args result
          ≤ (table_end log_func_name_addr string_addr nargs₀ regnum₀ p_lib_base) - limit =
        omega arith in
      Built-implemented log_func_name_addr string_addr nargs₀ regnum₀ p_lib_base pfi low limit rest
        p positive inside limited p_func args result func signature ordered from fits
        (build-Built limit (pfi.offset + 1) size rest
          (thunked log_func_name_addr string_addr nargs₀ regnum₀ p_lib_base pfi low limit rest p
            positive inside limited p_func args result func signature ordered from fits)
          t limited
          (omega (
            arith,
            behind log_func_name_addr string_addr nargs₀ regnum₀ p_lib_base pfi low limit rest p
                positive inside limited p_func args result func signature ordered from fits,
          ))
          (omega (
            arith,
            behind log_func_name_addr string_addr nargs₀ regnum₀ p_lib_base pfi low limit rest p
                positive inside limited p_func args result func signature ordered from fits,
          )))

  -- Let a table of functions end with an entry of offset 0. Let the offset of each function be at least
  -- that of the function before it, or 1 for the first, with five more if the function is implemented
  -- and one more if the one before it is, and at most `limit`, which is at most 64 KB. Let the
  -- signature of each implemented function be the hexadecimal digits of the registers of at most six
  -- arguments, of the register of the result, and of the number of arguments. Let all thunks together
  -- fit between the start of the library's memory and `limit` bytes before the end of its 64 KB. Then
  -- `setup_jump_tables` returns. In the memory that it leaves, the entry of each function that is not
  -- implemented is an interrupt, and that of each other function jumps to the function's thunk, which
  -- lies in the library's memory below the entry; and no memory outside the library's 64 KB is written.
  pub setup_jump_tables_lem :
      (limit size : ℕ) (table : List FuncInfo) (m : Memory)
      → IsTable limit 1 size table
      → limit ≤ lib_jump_tbl_size
      → p_lib_base + size
        ≤ (table_end log_func_name_addr string_addr nargs₀ regnum₀ p_lib_base) - limit
      → (after : Memory) × (setup_jump_tables log_func_name_addr string_addr nargs₀ regnum₀
            p_lib_base table m
          ≡ returns after)
        × All
            (IsEntry log_func_name_addr string_addr nargs₀ regnum₀ p_lib_base after)
            (before_end table)
        × ((q : ℕ)
            → (q < p_lib_base)
              ⊎ ((table_end log_func_name_addr string_addr nargs₀ regnum₀ p_lib_base) ≤ q)
            → after q ≡ m q)
  unfolding setup_jump_tables
  setup_jump_tables_lem limit size table m t limited room =
      let b : Built log_func_name_addr string_addr nargs₀ regnum₀ p_lib_base 1 table
          (record { mem = m; pos = p_lib_base })
          (build log_func_name_addr string_addr nargs₀ regnum₀ p_lib_base table
            (record { mem = m; pos = p_lib_base })) =
        build-Built limit 1 size table (record { mem = m; pos = p_lib_base }) t limited
          (omega arith) room in
      (
        b.final.mem,
        rw (b.result_returns),
        b.entries,
        λ q h. elim h [ inl low ↦ b.below q low | inr high ↦ b.above q (omega arith) ],
      )
