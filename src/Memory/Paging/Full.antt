-- ===== src/Memory/Paging/Full.antt =====
-- What the paging code makes of a memory manager without a free page.
use j_oe_s.Base.{ℕ, ◌<◌, ◌≡◌, ◌≢◌, inl, inr, false, some, ne→==, ap, arith, add64, sub64, word64}
use j_oe_s.Memory.Pmm
use j_oe_s.Memory.Pmm.{Pmm}
use j_oe_s.Memory.Pmm.State
use j_oe_s.Memory.Pmm.State.{IsFull}
use j_oe_s.Memory.Pmm.Alloc.{alloc_lem}
use j_oe_s.Memory.Paging.{Paging, descend, write_entry, clear_table}
use j_oe_s.Memory.Paging.Entry.{Level, is_present, create_entry, pointer}

-- A valid memory manager without a free page returns NULL.
pub alloc_full : (p : Pmm) → State.IsValid p → IsFull p → Pmm.alloc p ≡ some (0, p)
alloc_full p valid full = elim (alloc_lem p valid) [
  | inl (ptr, index, n, p', e, t, keeps) ↦ absurd (ground (arith, full index n t.r t.was, t.before))
  | inr (e, rest) ↦ e
]

-- Where the memory manager is valid, no page is free and the direct map does not stand at 0, a
-- step down through an absent entry does not fail: NULL plus the offset of the direct map is not
-- NULL, and the physical page 0 is taken for the next table.
pub descend_full :
    (s : Paging) (table idx : ℕ) (level : Level)
    → State.IsValid s.pmm
    → IsFull s.pmm
    → 0 < s.hhdm_offset
    → s.hhdm_offset < word64
    → is_present (s.entries table idx) ≡ false
    → (s' : Paging) × (descend s table idx level ≡ some (some s.hhdm_offset, s'))
unfolding descend
descend_full s table idx level valid full pos small absent =
    let e = alloc_full s.pmm valid full in
    let same : add64 0 s.hhdm_offset ≡ s.hhdm_offset = omega arith in
    let not_null : add64 0 s.hhdm_offset ≢ 0 = λ z. absurd (omega (arith, z, same, pos)) in
    let entry = create_entry (sub64 (add64 0 s.hhdm_offset) s.hhdm_offset) 3 level pointer in
    let s' = write_entry (clear_table s (add64 0 s.hhdm_offset)) table idx entry in
    (
      s',
      rw (absent, descend, e, ne→== (add64 0 s.hhdm_offset) 0 not_null)
          (ap (λ q. some (some q, s')) same),
    )
