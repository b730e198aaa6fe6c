-- ===== src/Memory/Paging/Clone.antt =====
-- kernel/src/memory/paging.c: `paging_clone_page_table`. The recursion goes one level down at a time,
-- so each level is a function of its own; the static indices of the levels above are arguments. A
-- pointer to a new PML4 that is NULL is `none`. The results of the mappings are ignored.
use j_oe_s.Base.{ℕ, zero, suc, ◌+◌, true, false, Option, none, some, add64, ◌==◌, if◌then◌else◌}
use j_oe_s.Memory.Pmm
use j_oe_s.Memory.Paging.{
  Paging, PagingStatus, paging_ok, paging_error, table_at, num_entries,
  map_page_without_tlb_invalidation,
}
use j_oe_s.Memory.Paging.Entry.{
  pdpr, pd, pt, page, PageSize, size_4kb, size_2mb, size_1gb, is_present, is_large, base_4kb,
  base_2mb, base_1gb, get_flags_from_entry, get_virt_address_from_indices,
}

-- The loop over the entries, with `left` rounds left.
unfoldable pub each_entry : ℕ → ℕ → (ℕ → Paging → Option Paging) → ℕ → Paging → Option Paging
each_entry zero idx body table s = some s
each_entry (suc left) idx body table s = elim (is_present (s.entries table idx)) [
  | false ↦ each_entry left (idx + 1) body table s
  | true ↦ elim (body idx s) [ none ↦ none | some s' ↦ each_entry left (idx + 1) body table s' ]
]

-- A mapping in the new PML4 whose result is ignored.
abbrev pub map_ignored : ℕ → ℕ → ℕ → PageSize → ℕ → Paging → Option Paging
map_ignored root phys virt page_size flags s =
    elim (map_page_without_tlb_invalidation s root phys virt page_size flags) [
      | none ↦ none
      | some (status, s') ↦ some s'
    ]

unfoldable pub clone_pt : ℕ → ℕ → ℕ → ℕ → ℕ → Paging → Option Paging
clone_pt root i4 i3 i2 table =
    each_entry num_entries 0
      (λ idx s.
        let raw = s.entries table idx in
        map_ignored root (base_4kb raw) (get_virt_address_from_indices i4 i3 i2 idx) size_4kb
          (get_flags_from_entry raw pt page) s)
      table

unfoldable pub clone_pd : ℕ → ℕ → ℕ → ℕ → Paging → Option Paging
clone_pd root i4 i3 table =
    each_entry num_entries 0
      (λ idx s.
        let raw = s.entries table idx in
        if is_large raw
        then map_ignored root (base_2mb raw) (get_virt_address_from_indices i4 i3 idx 0) size_2mb
            (get_flags_from_entry raw pd page) s
        else clone_pt root i4 i3 idx (table_at s raw) s)
      table

unfoldable pub clone_pdpr : ℕ → ℕ → ℕ → Paging → Option Paging
clone_pdpr root i4 table =
    each_entry num_entries 0
      (λ idx s.
        let raw = s.entries table idx in
        if is_large raw
        then map_ignored root (base_1gb raw) (get_virt_address_from_indices i4 idx 0 0) size_1gb
            (get_flags_from_entry raw pdpr page) s
        else clone_pd root i4 idx (table_at s raw) s)
      table

unfoldable pub clone_pml4 : ℕ → ℕ → Paging → Option Paging
clone_pml4 root table =
    each_entry num_entries 0 (λ idx s. clone_pdpr root idx (table_at s (s.entries table idx)) s)
      table

-- `paging_clone_page_table` at the level PML4: its result, and the new PML4.
unfoldable pub clone_page_table : Paging → ℕ → Option ℕ → Option (PagingStatus × Option ℕ × Paging)
clone_page_table s old (some root) = elim (clone_pml4 root old s) [
  | none ↦ none
  | some s' ↦ some (paging_ok, some root, s')
]
clone_page_table s old none = elim (Pmm.alloc s.pmm) [
  | none ↦ none
  | some (phys, pmm') ↦
      let root = add64 phys s.hhdm_offset in
      let t = record s { pmm = pmm' } in
      elim (root == 0) [
        | true ↦ some (paging_error, none, t)
        | false ↦ elim (clone_pml4 root old t) [
          | none ↦ none
          | some s' ↦ some (paging_ok, some root, s')
        ]
      ]
]
