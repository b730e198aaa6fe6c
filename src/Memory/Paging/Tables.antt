-- ===== src/Memory/Paging/Tables.antt =====
-- The invariant of the page tables, and what it means that an entry leads to the next table.
use j_oe_s.Base.{
  ℕ, suc, ◌+◌, ◌%◌, ◌^◌, ◌<◌, ◌≤◌, ◌≡◌, ◌≢◌, ◌⊎◌, true, false, some, get_elem?, sub64, word64,
}
use j_oe_s.Memory.Region.{Region}
use j_oe_s.Memory.Pmm.{Pmm}
use j_oe_s.Memory.Pmm.State
use j_oe_s.Memory.Pmm.State.{Turned, Turned-get_elem?}
use j_oe_s.Memory.Pmm.Search.{IsOrdered}
use j_oe_s.Memory.Paging.{Paging, invalidate_tlb, table_at}
use j_oe_s.Memory.Paging.Entry.{is_present, is_large}
use j_oe_s.Memory.Paging.Frames.{IsUsed}
use j_oe_s.Memory.Paging.Owned.{IsOwned}

-- The regions are of whole pages, below the 2 ^ 40 bytes that a pointer in an entry can address.
abbrev pub IsAddressable : Pmm → Type 0
IsAddressable p =
    (i : ℕ) (r : Region)
    → get_elem? p.regions i ≡ some r
    → (r.base % 4096 ≡ 0) × (r.base + r.region_length ≤ 2 ^ 40)

-- Entry `i` of table `t`, of rank `k + 2`, points to a table.
pub record Child (s : Paging) (rank : ℕ → ℕ) (k t i : ℕ) : Type 0 where
  pub ranked : rank t ≡ suc (suc k)
  pub inside : i < 512
  pub there : is_present (s.entries t i) ≡ true
  pub small : (is_large (s.entries t i) ≡ false) ⊎ (k ≡ 2)

-- `rank` tells the tables of the address space by their height: 4 for a PML4, 1 for a PT, and 0 for a
-- page that is no table. An entry points to a table of the next rank, unless it is a large page, and
-- no two entries point to the same table. The pages of the tables are known to the memory manager and
-- in use.
pub record IsTables (s : Paging) (rank : ℕ → ℕ) : Type 0 where
  pub valid : State.IsValid s.pmm
  pub ordered : IsOrdered s.pmm.regions
  pub addressable : IsAddressable s.pmm
  pub offset : s.hhdm_offset + 2 ^ 40 < word64
  pub direct : 0 < s.hhdm_offset
  pub children :
      (t i k : ℕ)
      → rank t ≡ suc (suc k)
      → i < 512
      → is_present (s.entries t i) ≡ true
      → (is_large (s.entries t i) ≡ false) ⊎ (k ≡ 2)
      → rank (table_at s (s.entries t i)) ≡ suc k
  pub single :
      (t i t' i' k : ℕ)
      → Child s rank k t i
      → Child s rank k t' i'
      → table_at s (s.entries t i) ≡ table_at s (s.entries t' i')
      → (t ≡ t') × (i ≡ i')
  pub word : (t : ℕ) → rank t ≢ 0 → t < word64
  pub used : (t : ℕ) → rank t ≢ 0 → IsUsed s.pmm (sub64 t s.hhdm_offset)
  pub owned : (t : ℕ) → rank t ≢ 0 → IsOwned s.pmm (sub64 t s.hhdm_offset)

-- The entry `idx` of `table` points to the table `next`.
pub record Leads (s : Paging) (table idx next : ℕ) : Type 0 where
  pub there : is_present (s.entries table idx) ≡ true
  pub points : table_at s (s.entries table idx) ≡ next

-- How `s'` follows from `s` by a step from entry `idx` of `table`, of rank `k + 2`, down to `next`.
pub record Descended (s s' : Paging) (rank rank' : ℕ → ℕ) (k table idx next : ℕ) : Type 0 where
  pub keeps : IsTables s' rank'
  pub next_rank : rank' next ≡ suc k
  pub ranks : (t : ℕ) → rank t ≢ 0 → rank' t ≡ rank t
  pub leads : Leads s' table idx next
  pub small : (is_large (s'.entries table idx) ≡ false) ⊎ (k ≡ 2)
  pub frame : (t i : ℕ) → rank t ≢ 0 → (t ≢ table) ⊎ (i ≢ idx) → s'.entries t i ≡ s.entries t i
  pub same_offset : s'.hhdm_offset ≡ s.hhdm_offset
  pub new_or_old :
      ((is_present (s.entries table idx) ≡ true) × (s' ≡ s))
      ⊎ ((is_present (s.entries table idx) ≡ false) × ((i : ℕ) → i < 512 → s'.entries next i ≡ 0))

-- The TLB is not part of the tables.
pub invalidate_tlb-IsTables :
    (s : Paging) (rank : ℕ → ℕ) (virt : ℕ) → IsTables s rank → IsTables (invalidate_tlb virt s) rank
invalidate_tlb-IsTables s rank virt good = record {
  valid = good.valid;
  ordered = good.ordered;
  addressable = good.addressable;
  offset = good.offset;
  direct = good.direct;
  children = good.children;
  single = λ t i t' i' k c c'. good.single t i t' i' k (before t i k c) (before t' i' k c');
  word = good.word;
  used = good.used;
  owned = good.owned;
}
  where
    before : (t i k : ℕ) → Child (invalidate_tlb virt s) rank k t i → Child s rank k t i
    before t i k c = record {
      ranked = c.ranked;
      inside = c.inside;
      there = c.there;
      small = c.small;
    }
