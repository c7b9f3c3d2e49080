-- ===== src/Execute/Pages.antt =====
-- Concrete calls of `mmap`: one that succeeds where a page begins, and one that always fails.
use vadm.Base.{
  ℕ, ◌+◌, ◌-◌, ◌*◌, ◌/◌, ◌%◌, ◌<◌, ◌≤◌, ◌≡◌, refl, sym, ap, ◌∙◌, arith, inl, inr, Bool-cases, false,
  ◌==◌, ltb, leb, ◌&&◌, ◌⊎◌, if◌then◌else◌, Option, none, some,
}
use vadm.Base.Bytes.{Memory}
use vadm.Execute.Process.{page_size}
use vadm.Execute.Library.{IsMapping}

-- Memory that is mapped is zeroed, in whole pages.
abbrev pub zeroed : ℕ → ℕ → Memory → Memory
zeroed addr len m q =
    if leb addr q && ltb q (addr + (len + page_size - 1) / page_size * page_size) then 0 else m q

abbrev pub map_pages : ℕ → ℕ → Memory → Option Memory
map_pages addr len m = if addr % page_size == 0 then some (zeroed addr len m) else none

zeroed_keeps :
    (addr len : ℕ) (m : Memory) (q : ℕ)
    → (q < addr) ⊎ (addr + (len + page_size - 1) / page_size * page_size ≤ q)
    → zeroed addr len m q ≡ m q
zeroed_keeps addr len m q h = ground (arith, h)

-- The page test decides.
kept :
    (addr len : ℕ) (m m' : Memory) (q : ℕ)
    → map_pages addr len m ≡ some m'
    → (q < addr) ⊎ (addr + (len + page_size - 1) / page_size * page_size ≤ q)
    → m' q ≡ m q
kept addr len m m' q e h = elim (Bool-cases (addr % page_size == 0)) [
  | inl page ↦
      let same : zeroed addr len m ≡ m' = cc (rw page at e) in
      ap (λ (f : Memory). f q) (sym same) ∙ zeroed_keeps addr len m q h
  | inr odd ↦ absurd (refused odd)
]
  where
    refused : (addr % page_size == 0) ≡ false → ⊥
    refused odd = cc (rw odd at e)

pub map_pages-IsMapping : IsMapping map_pages
map_pages-IsMapping = record {
  fails = λ addr len m h. let odd : (addr % page_size == 0) ≡ false = ground (arith, h) in rw odd;
  keeps = λ addr len m m' e q h. kept addr len m m' q e h;
}

abbrev pub map_nothing : ℕ → ℕ → Memory → Option Memory
map_nothing addr len m = none

pub map_nothing-IsMapping : IsMapping map_nothing
map_nothing-IsMapping = record { fails = λ addr len m h. refl; keeps = λ addr len m m' e q h. cc }
