-- ===== src/TlCache/Tree.antt =====
-- The tree of the cache as a finite map on keys of a number of bits.
use native.Mathlib.Nat.{one-le-pow}
use vadm.Base.{
  ℕ, zero, suc, ◌+◌, ◌*◌, ◌/◌, ◌%◌, ◌^◌, ◌<◌, ◌≡◌, refl, ap, ◌∙◌, ◌⊎◌, inl, inr, Bool, true, false,
  Option, none, some, arith, bit_and-two_pow, mod-two_pow-suc, mod-two_pow-lt, ◌==◌, eq→==,
  if◌then◌else◌, Bool-cases,
}
use vadm.Base.Outcome.{Outcome, returns}
use vadm.TlCache.{
  NodePointer, null, node, code, as_node_pointer, has_bit, is_null, Put, rebuild, enter, put_walk,
  get_walk,
}

-- A slot for a tree of `k` levels: empty, or a node with two such slots, and an address of code at
-- the lowest level.
abbrev pub IsTree : ℕ → NodePointer → Type 0
IsTree k null = Unit
IsTree zero (code a) = 0 < a
IsTree zero (node l r) = ⊥
IsTree (suc k) (node l r) = IsTree k l × IsTree k r
IsTree (suc k) (code a) = ⊥

-- The two keys agree in their `k` lowest bits.
abbrev pub same_key : ℕ → ℕ → ℕ → Bool
same_key k a b = a % 2 ^ k == b % 2 ^ k

pub same_key_self : (a : ℕ) → same_key 21 a a ≡ true
same_key_self a = eq→== (a % 2 ^ 21) (a % 2 ^ 21) refl

has_bit_lem : (a k : ℕ) → has_bit a k ≡ (a / 2 ^ k % 2 == 1)
unfolding has_bit
has_bit_lem a k = elim (low) [
  | inl e ↦ ground (arith, bit_and-two_pow a k, ap (λ (t : ℕ). t * 2 ^ k) e)
  | inr e ↦
      ground (arith, bit_and-two_pow a k, ap (λ (t : ℕ). t * 2 ^ k) e, one-le-pow k 2 (omega arith))
]
  where
    low : (a / 2 ^ k % 2 ≡ 0) ⊎ (a / 2 ^ k % 2 ≡ 1)
    low = omega arith

high_digit : (a k : ℕ) → a % 2 ^ suc k ≡ (if has_bit a k then 2 ^ k else 0) + a % 2 ^ k
high_digit a k = elim (low) [
  | inl e ↦ ground (arith, has_bit_lem a k, mod-two_pow-suc k a, ap (λ (t : ℕ). t * 2 ^ k) e)
  | inr e ↦ ground (arith, has_bit_lem a k, mod-two_pow-suc k a, ap (λ (t : ℕ). t * 2 ^ k) e)
]
  where
    low : (a / 2 ^ k % 2 ≡ 0) ⊎ (a / 2 ^ k % 2 ≡ 1)
    low = omega arith

-- Agreement in one bit more.
same_key-suc :
    (k a b : ℕ)
    → same_key (suc k) a b ≡ (
        if has_bit a k
        then (if has_bit b k then same_key k a b else false)
        else (if has_bit b k then false else same_key k a b))
same_key-suc k a b =
    ground (arith, high_digit a k, high_digit b k, mod-two_pow-lt k a, mod-two_pow-lt k b)

-- What a lookup of `key` finds after `p_dst_addr` was put under `key'`.
abbrev pub updated : ℕ → ℕ → ℕ → ℕ → Outcome (Option ℕ) → Outcome (Option ℕ)
updated k key' p_dst_addr key before =
    if same_key k key' key then returns (some p_dst_addr) else before

-- A lookup in a slot that may be empty.
abbrev slot_get : ℕ → ℕ → NodePointer → Outcome (Option ℕ)
slot_get k j t = if is_null t then returns none else get_walk k j t

get_walk-node :
    (k j : ℕ) (l r : NodePointer)
    → get_walk (suc k) j (node l r) ≡ (if has_bit j k then slot_get k j l else slot_get k j r)
unfolding get_walk
get_walk-node k j l r = elim (Bool-cases (has_bit j k)) [ inl e ↦ rw e | inr e ↦ rw e ]

-- The walk returns and leaves a tree in which its own key, and no other, has the new address if no
-- call of `malloc` failed, and otherwise the addresses that were there.
pub record Puts (k key p_dst_addr : ℕ) (t : NodePointer) (result : Outcome Put) : Type 0 where
  pub put : Put
  pub result_returns : result ≡ returns put
  pub tree : IsTree k put.tree
  pub not_null : is_null t ≡ false → is_null put.tree ≡ false
  pub found :
      (j : ℕ)
      → slot_get k j put.tree
        ≡ (if put.done then updated k key p_dst_addr j (slot_get k j t) else slot_get k j t)

as_code : (d : ℕ) → 0 < d → as_node_pointer d ≡ code d
as_code d pos = ground arith

leaf-found : (k d j : ℕ) → 0 < d → slot_get 0 j (as_node_pointer d) ≡ returns (some d)
unfolding get_walk
leaf-found k d j pos = rw (as_code d pos)

-- One level up: the slot below the bit that the key has was written, and the other was left.
module _ (k key d : ℕ) (l r : NodePointer) where
  node-left :
      {result : Outcome Put}
      → has_bit key k ≡ true
      → IsTree k r
      → Puts k key d l result
      → Puts (suc k) key d (node l r) (rebuild (λ t. node t r) result)
  node-left bit hr p = record {
    put = record p.put { tree = node p.put.tree r };
    result_returns = rw p.result_returns;
    tree = (p.tree, hr);
    not_null = λ _. refl;
    found = λ j. simp get_walk-node (ground (arith, p.found j, same_key-suc k key j));
  }

  node-right :
      {result : Outcome Put}
      → has_bit key k ≡ false
      → IsTree k l
      → Puts k key d r result
      → Puts (suc k) key d (node l r) (rebuild (λ t. node l t) result)
  node-right bit hl p = record {
    put = record p.put { tree = node l p.put.tree };
    result_returns = rw p.result_returns;
    tree = (hl, p.tree);
    not_null = λ _. refl;
    found = λ j. simp get_walk-node (ground (arith, p.found j, same_key-suc k key j));
  }

same_key-zero : (a b : ℕ) → same_key 0 a b ≡ true
same_key-zero a b = ground arith

leaf-Puts :
    (key d : ℕ) (t : NodePointer) (calls : ℕ)
    → 0 < d
    → Puts 0 key d t (returns (record { tree = as_node_pointer d; calls = calls; done = true }))
leaf-Puts key d t calls pos = record {
  put = record { tree = as_node_pointer d; calls = calls; done = true };
  result_returns = refl;
  tree = rw (as_code d pos) pos;
  not_null = λ _. rw (as_code d pos);
  found = λ j. leaf-found 0 d j pos ∙ rw same_key-zero;
}

pub fresh-found : (k j : ℕ) → get_walk (suc k) j (node null null) ≡ returns none
fresh-found k j = rw get_walk-node (ground arith)

-- Every walk for a put on a tree returns, whatever calls of `malloc` fail.
module _ (malloc : ℕ → Bool) where
  abbrev Walks : ℕ → ℕ → ℕ → Type 0
  Walks k key d =
      (l r : NodePointer) (calls : ℕ)
      → IsTree k l
      → IsTree k r
      → Puts (suc k) key d (node l r) (put_walk malloc k key d (node l r) calls)

  enter-Puts :
      (k key d : ℕ) (t : NodePointer) (calls : ℕ)
      → Walks k key d
      → IsTree (suc k) t
      → Puts (suc k) key d t (enter malloc t calls (put_walk malloc k key d))
  enter-Puts k key d (code a) calls walks ht = absurd ht
  enter-Puts k key d (node l r) calls walks ht = walks l r calls ht.0 ht.1
  enter-Puts k key d null calls walks ht = elim (Bool-cases (malloc calls)) [
    | inl e ↦ rw e (created (walks null null (calls + 1) tt tt))
    | inr e ↦ rw e (record {
      put = record { tree = null; calls = calls + 1; done = false };
      result_returns = refl;
      tree = tt;
      not_null = λ h. cc;
      found = λ j. refl;
    })
  ]
    where
      created :
          {result : Outcome Put}
          → Puts (suc k) key d (node null null) result
          → Puts (suc k) key d null result
      created p = record {
        put = p.put;
        result_returns = p.result_returns;
        tree = p.tree;
        not_null = λ h. cc;
        found = λ j. ground (arith, p.found j, fresh-found k j);
      }

  put_walk-Puts : (k key d : ℕ) → 0 < d → Walks k key d
  unfolding put_walk
  put_walk-Puts zero key d pos l r calls hl hr = elim (Bool-cases (has_bit key 0)) [
    | inl e ↦ rw e (node-left 0 key d l r e hr (leaf-Puts key d l calls pos))
    | inr e ↦ rw e (node-right 0 key d l r e hl (leaf-Puts key d r calls pos))
  ]
  put_walk-Puts (suc k) key d pos l r calls hl hr = elim (Bool-cases (has_bit key (suc k))) [
    | inl e ↦ rw e (
        node-left (suc k) key d l r e hr
          (enter-Puts k key d l calls (put_walk-Puts k key d pos) hl))
    | inr e ↦ rw e (
        node-right (suc k) key d l r e hl
          (enter-Puts k key d r calls (put_walk-Puts k key d pos) hr))
  ]

  pub put_root-Puts :
      (k key d : ℕ) (t : NodePointer) (calls : ℕ)
      → 0 < d
      → IsTree (suc k) t
      → is_null t ≡ false
      → Puts (suc k) key d t (put_walk malloc k key d t calls)
  put_root-Puts k key d (node l r) calls pos ht nn = put_walk-Puts k key d pos l r calls ht.0 ht.1
  put_root-Puts k key d (code a) calls pos ht nn = absurd ht
  put_root-Puts k key d null calls pos ht nn = cc

-- A lookup in a tree returns.
pub get_walk-returns :
    (k j : ℕ) (t : NodePointer)
    → IsTree k t
    → is_null t ≡ false
    → (found : Option ℕ) × (get_walk k j t ≡ returns found)
unfolding get_walk
get_walk-returns zero j (code a) ht nn = (some a, refl)
get_walk-returns zero j (node l r) ht nn = absurd ht
get_walk-returns zero j null ht nn = cc
get_walk-returns (suc k) j (code a) ht nn = absurd ht
get_walk-returns (suc k) j null ht nn = cc
get_walk-returns (suc k) j (node l r) ht nn = elim (Bool-cases (has_bit j k)) [
  | inl e ↦ rw e (slot-returns l (get_walk-returns k j l ht.0))
  | inr e ↦ rw e (slot-returns r (get_walk-returns k j r ht.1))
]
  where
    slot-returns :
        (c : NodePointer)
        → (is_null c ≡ false → (found : Option ℕ) × (get_walk k j c ≡ returns found))
        → (found : Option ℕ) × (slot_get k j c ≡ returns found)
    slot-returns null h = (none, refl)
    slot-returns (node l r) h = h refl
    slot-returns (code a) h = h refl

-- A lookup depends on the bits of the key that name the levels, and on no others.
pub get_walk-same_key :
    (k a b : ℕ) (t : NodePointer) → same_key k a b ≡ true → get_walk k a t ≡ get_walk k b t
get_walk-same_key zero a b null h = unfold get_walk in refl
get_walk-same_key zero a b (node l r) h = unfold get_walk in refl
get_walk-same_key zero a b (code c) h = unfold get_walk in refl
get_walk-same_key (suc k) a b null h = unfold get_walk in refl
get_walk-same_key (suc k) a b (code c) h = unfold get_walk in refl
get_walk-same_key (suc k) a b (node l r) h =
    simp get_walk-node
      (ground (arith, same_key-suc k a b, get_walk-same_key k a b l, get_walk-same_key k a b r))
