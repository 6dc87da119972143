-- ===== src/PageTable/Map.antt =====
-- What map_page does to the translation of addresses.
use dmaos.Base.{
  ℕ, ◌+◌, ◌*◌, ◌/◌, ◌%◌, ◌^◌, ◌≤◌, ◌<◌, ◌≡◌, refl, ◌≢◌, ◌⊎◌, inl, inr, Bool-cases, ◌==◌, true,
  false, arith, subst, sym, ◌∙◌, upd_self, upd_ne, upd, bit_or,
}
use mathlib.Core.Path.{ap₂}
use dmaos.Machine.Post.{ok-state}
use native.Mathlib.Decide.{dec_lt}
use dmaos.Page.Alloc.{alloc_pages-first}
use dmaos.Base.Bits.{bit_and-one, bit_or-one, bit_or_low}
use dmaos.Machine.{Kernel, Run, ok, panic, waiting, and_then, modify}
use dmaos.Machine.Consts.{page_size, num_pages}
use dmaos.Page.{alloc_pages, page_addr, taken, zero_words}
use dmaos.PageTable.{
  page_v, vpn1, entry_has, entry_addr, entry_of, slot, second_level, leaf_slot, leaf, ensure_table,
  map_page, set_word,
}

-- `PAGE_TABLE_TO_INDEX(paddr) << 10 | flags | PAGE_V` as a sum, for a page and flags of ten bits.
pub entry-sum :
    (paddr flags : ℕ)
    → paddr < 2 ^ 32
    → flags < 2 ^ 10
    → bit_or (bit_or (entry_of paddr) flags) page_v ≡ paddr / page_size * 1024 + flags / 2 * 2 + 1
entry-sum paddr flags hp hf =
    let e : entry_of paddr ≡ 2 ^ 10 * (paddr / page_size) = omega arith in
    rw (e, bit_or_low 10 (paddr / page_size) flags hf, bit_or-one) (omega arith)

-- The processor finds the page again in the entry, with the valid bit set.
pub entry_addr-entry :
    (paddr flags : ℕ)
    → paddr < 2 ^ 32
    → paddr % page_size ≡ 0
    → flags < 2 ^ 10
    → entry_addr (bit_or (bit_or (entry_of paddr) flags) page_v) ≡ paddr
entry_addr-entry paddr flags hp ha hf = rw (entry-sum paddr flags hp hf) (omega arith)

pub entry_has-valid : (e : ℕ) → entry_has e page_v ≡ true → e % 2 ≡ 1
entry_has-valid e h = ground (arith, bit_and-one e)

pub new_entry-sum :
    (paddr : ℕ) → paddr < 2 ^ 32 → bit_or (entry_of paddr) page_v ≡ paddr / page_size * 1024 + 1
new_entry-sum paddr hp = rw bit_or-one (omega arith)

has-valid_of_odd : (e : ℕ) → e % 2 ≡ 1 → entry_has e page_v ≡ true
has-valid_of_odd e h = ground (arith, bit_and-one e)

-- The managed memory starts at a page and ends below 4 GB.
pub record IsRam (free_ram : ℕ) : Type 0 where
  pub aligned : free_ram % page_size ≡ 0
  pub below : free_ram + num_pages * page_size ≤ 2 ^ 32

-- `t1` is a page that the allocator has given out.
pub record IsTable (free_ram : ℕ) (k : Kernel) (t1 : ℕ) : Type 0 where
  pub index : ℕ
  pub at : t1 ≡ page_addr free_ram index
  pub held : k.page_allocated index ≡ true

-- Two tables do not overlap.
abbrev pub Apart : ℕ → ℕ → Type 0
Apart a b = (a + page_size ≤ b) ⊎ (b + page_size ≤ a)

module _ (free_ram t1 va : ℕ) (ram : IsRam free_ram) where
  -- After `ensure_table` the first-level entry is valid, its table lies apart from the first level,
  -- and no other word of the first level has changed.
  record Ensured (k k' : Kernel) : Type 0 where
    valid : entry_has (k'.words (slot t1 (vpn1 va))) page_v ≡ true
    apart : Apart (second_level k'.words t1 va) t1
    others : (i : ℕ) → i < 1024 → i ≢ vpn1 va → k'.words (slot t1 i) ≡ k.words (slot t1 i)

  -- The state after a table has been made on the free page `i`.
  abbrev with_table : ℕ → Kernel → Kernel
  with_table i k =
      set_word (slot t1 (vpn1 va)) (bit_or (entry_of (page_addr free_ram i)) page_v)
        (taken free_ram i 1 k)

  with_table-Ensured :
      (k : Kernel) (i : ℕ)
      → IsTable free_ram k t1
      → k.page_allocated i ≡ false
      → i + 1 ≤ num_pages
      → Ensured k (with_table i k)
  with_table-Ensured k i t free small =
      let ne : i ≢ t.index = (λ e.
        let x : true ≡ false = sym t.held ∙ subst (λ j. k.page_allocated j ≡ false) e free in cc) in
      let p = page_addr free_ram i in
      let sum = new_entry-sum p (let b = ram.below in omega arith) in
      let at = t.at in
      let al = ram.aligned in
      let le = ram.below in
      let points : entry_addr (bit_or (entry_of p) page_v) ≡ p = rw sum (omega arith) in
      let here =
        upd_self (zero_words k.words p 4096) (slot t1 (vpn1 va)) (bit_or (entry_of p) page_v) in
      record {
        valid = has-valid_of_odd _ (rw (here, sum) (omega arith));
        apart =
            rw (here, points)
              (elim (dec_lt i t.index) [ yes h ↦ inl (omega arith) | no h ↦ inr (omega arith) ]);
        others = λ j lt q.
            rw
              (upd_ne (zero_words k.words p 4096) (slot t1 (vpn1 va)) (slot t1 j)
                (bit_or (entry_of p) page_v) (omega arith))
              (ground arith);
      }

  ensure_table-Ensured :
      (k : Kernel) {k' : Kernel}
      → IsTable free_ram k t1
      → (entry_has (k.words (slot t1 (vpn1 va))) page_v ≡ true
          → Apart (second_level k.words t1 va) t1)
      → ensure_table free_ram t1 va k ≡ ok tt k'
      → Ensured k k'
  unfolding ensure_table
  ensure_table-Ensured k {k'} t old h =
      elim (Bool-cases (entry_has (k.words (slot t1 (vpn1 va))) page_v)) [
        | inl e ↦
            let same : k ≡ k' = ground arith in
            subst (Ensured k) same (record { valid = e; apart = old e; others = λ i p q. refl })
        | inr e ↦ made (alloc_pages free_ram 1 k) refl (rw e at h)
      ]
    where
      made :
          (r : Run ℕ)
          → alloc_pages free_ram 1 k ≡ r
          → and_then r (λ pt. modify (set_word (slot t1 (vpn1 va)) (bit_or (entry_of pt) page_v)))
            ≡ ok tt k'
          → Ensured k k'
      made (ok pt k1) e h =
          let (i, at, free, _, eq, inside) = alloc_pages-first free_ram 1 k (omega arith) e in
          let put =
            λ (p : ℕ) (q : Kernel). set_word (slot t1 (vpn1 va)) (bit_or (entry_of p) page_v) q in
          let same : with_table i k ≡ k' = sym (ap₂ put at eq) ∙ ok-state h in
          let small : i + 1 ≤ num_pages = inside in
          let clear : k.page_allocated i ≡ false = free i (omega arith) (omega arith) in
          subst (Ensured k) same (with_table-Ensured k i t clear small)
      made panic e h = cc
      made waiting e h = cc

  -- A write to the leaf leaves the first level alone and is found by the walk.
  first_level-set :
      (words : ℕ → ℕ) (v : ℕ)
      → Apart (second_level words t1 va) t1
      → upd words (leaf_slot words t1 va) v (slot t1 (vpn1 va)) ≡ words (slot t1 (vpn1 va))
  first_level-set words v ap =
      upd_ne words (leaf_slot words t1 va) (slot t1 (vpn1 va)) v (omega arith)

  leaf-set :
      (words : ℕ → ℕ) (v : ℕ)
      → Apart (second_level words t1 va) t1
      → leaf (upd words (leaf_slot words t1 va) v) t1 va ≡ v
  leaf-set words v ap = rw (first_level-set words v ap) (upd_self words (leaf_slot words t1 va) v)

  -- After `map_page` of a page-aligned address the processor's walk from `t1` finds `paddr` with the
  -- given flags and the valid bit. The table must be one that the allocator gave out and lie apart from
  -- the second-level table of the address, if there is one.
  pub map_page-leaf :
      (paddr flags : ℕ) (k : Kernel) {k' : Kernel}
      → IsTable free_ram k t1
      → (entry_has (k.words (slot t1 (vpn1 va))) page_v ≡ true
          → Apart (second_level k.words t1 va) t1)
      → paddr < 2 ^ 32
      → flags < 2 ^ 10
      → map_page free_ram t1 va paddr flags k ≡ ok tt k'
      → (entry_has (k'.words (slot t1 (vpn1 va))) page_v ≡ true)
        × (leaf k'.words t1 va ≡ paddr / page_size * 1024 + flags / 2 * 2 + 1)
        × (entry_addr (leaf k'.words t1 va) ≡ paddr)
  unfolding map_page
  map_page-leaf paddr flags k {k'} t old hp hf h = elim (Bool-cases (va % page_size == 0)) [
    | inl a ↦ elim (Bool-cases (paddr % page_size == 0)) [
      | inl b ↦ mapped (ground arith) (ensure_table free_ram t1 va k) refl (rw (a, b) at h)
      | inr b ↦ ground arith
    ]
    | inr a ↦ ground arith
  ]
    where
      v : ℕ
      v = bit_or (bit_or (entry_of paddr) flags) page_v

      mapped :
          paddr % page_size ≡ 0
          → (r : Run (Unit {0})) → ensure_table free_ram t1 va k ≡ r
          → and_then r (λ _. modify (λ k. set_word (leaf_slot k.words t1 va) v k)) ≡ ok tt k'
          → (entry_has (k'.words (slot t1 (vpn1 va))) page_v ≡ true)
            × (leaf k'.words t1 va ≡ paddr / page_size * 1024 + flags / 2 * 2 + 1)
            × (entry_addr (leaf k'.words t1 va) ≡ paddr)
      mapped al (ok _ k1) e h =
          let en = ensure_table-Ensured k t old e in
          let same : set_word (leaf_slot k1.words t1 va) v k1 ≡ k' = ok-state h in
          let found = leaf-set k1.words v en.apart in
          let kept = first_level-set k1.words v en.apart in
          rw (← same) (
            rw kept en.valid,
            rw found (entry-sum paddr flags hp hf),
            rw found (entry_addr-entry paddr flags hp al hf),
          )
      mapped al panic e h = cc
      mapped al waiting e h = cc
