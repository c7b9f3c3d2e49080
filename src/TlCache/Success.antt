-- ===== src/TlCache/Success.antt =====
-- `tc_put_addr` when memory does not run out.
use vadm.Base.{
  ℕ, zero, suc, ◌+◌, ◌^◌, ◌<◌, ◌≡◌, refl, ◌∙◌, ap, inl, inr, eq→==, ◌==◌, bit_and, ◌%◌, some, Bool,
  true, false, Bool-cases, if◌then◌else◌, u32,
}
use vadm.Base.Outcome.{Outcome, returns, fault, ◌>>=◌}
use vadm.TlCache.{
  NodePointer, null, node, code, TranslationCache, Put, has_bit, put_walk, rebuild, enter,
  tc_put_addr, tc_get_addr,
}
use vadm.TlCache.Lookup.{IsCache, PutAddr, tc_put_addr-PutAddr}

-- The outcome, if it is one, reports success.
abbrev Done : Outcome Put → Type 0
Done (returns p) = p.done ≡ true
Done fault = Unit

rebuild-Done : (f : NodePointer → NodePointer) (o : Outcome Put) → Done o → Done (rebuild f o)
rebuild-Done f (returns p) h = h
rebuild-Done f fault h = tt

module _ (malloc : ℕ → Bool) (always : (n : ℕ) → malloc n ≡ true) where
  enter-Done :
      (t : NodePointer) (calls : ℕ) (walk : NodePointer → ℕ → Outcome Put)
      → ((t : NodePointer) (calls : ℕ) → Done (walk t calls))
      → Done (enter malloc t calls walk)
  enter-Done null calls walk h = rw (always calls) (h (node null null) (calls + 1))
  enter-Done (node l r) calls walk h = h (node l r) calls
  enter-Done (code a) calls walk h = h (code a) calls

  put_walk-Done :
      (k key p_dst_addr : ℕ) (t : NodePointer) (calls : ℕ)
      → Done (put_walk malloc k key p_dst_addr t calls)
  unfolding put_walk
  put_walk-Done zero key p_dst_addr null calls = tt
  put_walk-Done zero key p_dst_addr (code a) calls = tt
  put_walk-Done zero key p_dst_addr (node l r) calls = elim (Bool-cases (has_bit key 0)) [
    | inl e ↦ rw e
    | inr e ↦ rw e
  ]
  put_walk-Done (suc k) key p_dst_addr null calls = tt
  put_walk-Done (suc k) key p_dst_addr (code a) calls = tt
  put_walk-Done (suc k) key p_dst_addr (node l r) calls = elim (Bool-cases (has_bit key (suc k))) [
    | inl e ↦ rw e (
        rebuild-Done (λ t. node t r) _
          (enter-Done l calls (put_walk malloc k key p_dst_addr) (put_walk-Done k key p_dst_addr)))
    | inr e ↦ rw e (
        rebuild-Done (λ t. node l t) _
          (enter-Done r calls (put_walk malloc k key p_dst_addr) (put_walk-Done k key p_dst_addr)))
  ]

  put_succeeds :
      (c : TranslationCache) (p_src_addr p_dst_addr : ℕ) (done : Bool) (after : TranslationCache)
      → tc_put_addr malloc c p_src_addr p_dst_addr ≡ returns (done, after)
      → done ≡ true
  unfolding tc_put_addr
  put_succeeds c p_src_addr p_dst_addr done after h =
      from_walk (put_walk malloc 20 (u32 p_src_addr) p_dst_addr c.p_root_node c.malloc_calls)
        (put_walk-Done 20 (u32 p_src_addr) p_dst_addr c.p_root_node c.malloc_calls)
        (bit_and p_src_addr 0xffffffff00000000 == 0) h
    where
      finish : Put → Outcome (Bool × TranslationCache)
      finish p = returns (p.done, record c { p_root_node = p.tree; malloc_calls = p.calls })

      from_walk :
          (w : Outcome Put)
          → Done w
          → (fits : Bool) → (if fits then (w >>= finish) else fault) ≡ returns (done, after)
          → done ≡ true
      from_walk (returns p) d true e = cc
      from_walk (returns p) d false e = cc
      from_walk fault d true e = cc
      from_walk fault d false e = cc

  -- If no allocation fails, a put of a source address below 4 GB and a destination that is not NULL
  -- into a well-formed cache succeeds, and the lookup of the source address finds the destination.
  pub tc_put_addr-tc_get_addr :
      (c : TranslationCache) (p_src_addr p_dst_addr : ℕ)
      → IsCache c
      → p_src_addr < 2 ^ 32
      → 0 < p_dst_addr
      → (after : TranslationCache) × (tc_put_addr malloc c p_src_addr p_dst_addr
          ≡ returns (true, after))
        × (tc_get_addr after p_src_addr ≡ returns (some p_dst_addr))
  tc_put_addr-tc_get_addr c p_src_addr p_dst_addr v small positive = (
    p.after,
    p.result_returns ∙ ap (λ (b : Bool). returns (b, p.after)) done,
    p.found p_src_addr ∙ rw (done, eq→== (p_src_addr % 2 ^ 21) (p_src_addr % 2 ^ 21) refl) refl,
  )
    where
      p : PutAddr c p_src_addr p_dst_addr (tc_put_addr malloc c p_src_addr p_dst_addr)
      p = tc_put_addr-PutAddr malloc c p_src_addr p_dst_addr v small positive

      done : p.done ≡ true
      done = put_succeeds c p_src_addr p_dst_addr p.done p.after p.result_returns
