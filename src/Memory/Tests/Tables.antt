-- ===== src/Memory/Tests/Tables.antt =====
-- The theorems on the page tables at concrete states.
use j_oe_s.Base.{
  ◌-◌, ◌/◌, ◌%◌, ltb, none, [], ◌++◌, ◌≢◌, ap, sym, ◌∙◌, ◌&&◌, ℕ, zero, suc, ◌+◌, ◌^◌, ◌<◌, ◌≤◌,
  ◌≡◌, inl, inr, ◌==◌, ==_iff, Bool-cases, ltb, ltb→lt, ltb→le, true, none, some, [], ◌∷◌,
  get_elem?, refl, arith, subst, eq_of_some, ◌*◌, if◌then◌else◌,
}
use j_oe_s.Memory.Region.{Region, reserved, region_init, page_size_byte}
use j_oe_s.Memory.Region.Bitmap.{page_bit}
use j_oe_s.Memory.Region.Marks
use j_oe_s.Memory.Region.Marks.{
  pages, InPage, Differs, mark_page_used_lem, mark_page_free_lem, mark_page_free-mark_page_used,
}
use j_oe_s.Memory.Region.Init.{region_init-IsValid}
use j_oe_s.Memory.Pmm.{Pmm}
use j_oe_s.Memory.Pmm.State.{IsValid, IsFull}
use j_oe_s.Memory.Paging.{
  paging_error, table_at, Paging, paging_ok, map_page, resolve_virtual_address, invalidate_tlb,
  descend,
}
use j_oe_s.Memory.Paging.Taken.{map_page_taken}
use j_oe_s.Memory.Paging.Indices.{get_virt_address_from_indices-idx}
use j_oe_s.Memory.Paging.Entry.{
  pml4_idx, pdpr_idx, pd_idx, pt_idx, get_virt_address_from_indices, is_present, size_4kb, pml4,
}
use j_oe_s.Memory.Paging.Frames.{IsUsed, Supplies}
use j_oe_s.Memory.Paging.Owned.{IsOwned}
use j_oe_s.Memory.Paging.Tables.{IsTables}
use j_oe_s.Memory.Paging.Map.{IsVacant}
use j_oe_s.Memory.Paging.RoundTrip.{Mapped, resolve-map_page, unmap_page-map_page}
use j_oe_s.Memory.Paging.Unmap.{unmap_page}
use j_oe_s.Memory.Paging.Unmap.Page.{Unmapped}
use j_oe_s.Memory.Paging.Unmap.Outcome.{unmap_page_lem}
use j_oe_s.Memory.Paging.Dump.{Dump, dump_page_table}
use j_oe_s.Memory.Paging.Dump.Listing.{AreLow, list_pml4, dump_page_table_lem}
use j_oe_s.Memory.Tests.{
  low, high, rom, pmm, rom-IsValid, pmm-IsValid, pmm_regions, pmm_places, pmm-IsOrdered,
}
use j_oe_s.Memory.Paging.Full.{descend_full}

rom_pages_used : (n : ℕ) → n < 8 → page_bit rom.bitmap n ≡ true
rom_pages_used n lt =
    (region_init-IsValid 3145728 32768 reserved (omega arith) (inl refl)).1 n (omega arith)

rom_page-IsUsed : (m : ℕ) → IsUsed pmm (3145728 + m * 4096)
unfolding region_init
rom_page-IsUsed m i n r at =
    pmm_regions
      (λ i r.
        n < pages r → 3145728 + m * 4096 ≡ r.base + n * page_size_byte → page_bit r.bitmap n ≡ true)
      (λ lt place. absurd (omega (arith, lt, place)))
      (λ lt place. absurd (omega (arith, lt, place)))
      (λ lt place. rom_pages_used n (omega (arith, lt))) i r at

rom_page-IsOwned : (m : ℕ) → m < 8 → IsOwned pmm (3145728 + m * 4096)
unfolding region_init
rom_page-IsOwned m lt = record {
  index = 2;
  n = m;
  r = rom;
  at = refl;
  exists = omega (arith, lt);
  address = omega arith;
}

-- The direct map stands at 2 ^ 46, and one PML4, in a page of the third region, has no entries.
abbrev pub root : ℕ
root = 2 ^ 46 + 3158016

abbrev pub paging : Paging
paging = record { entries = λ t i. 0; pmm = pmm; hhdm_offset = 2 ^ 46; invalidated = [] }

abbrev pub rank : ℕ → ℕ
rank t = if t == root then 4 else 0

pub paging-IsTables : IsTables paging rank
paging-IsTables = record {
  valid = pmm-IsValid;
  ordered = pmm-IsOrdered;
  addressable = λ i r at. omega (arith, pmm_places i r at);
  offset = omega arith;
  direct = omega arith;
  children = λ t i k r lt there large. absurd (ground (arith, there));
  single = λ t i t' i' k c c' same. absurd (ground (arith, c.there));
  word = λ t h. elim (Bool-cases (t == root)) [
    | inl e ↦ omega (arith, (==_iff t root).0 e)
    | inr ne ↦ absurd (h (rw ne refl))
  ];
  owned = λ t h. elim (Bool-cases (t == root)) [
    | inl e ↦
        subst (λ q. IsOwned pmm q) (omega (arith, (==_iff t root).0 e))
          (rom_page-IsOwned 3 (omega arith))
    | inr ne ↦ absurd (h (rw ne refl))
  ];
  used = λ t h. elim (Bool-cases (t == root)) [
    | inl e ↦ subst (λ q. IsUsed pmm q) (omega (arith, (==_iff t root).0 e)) (rom_page-IsUsed 3)
    | inr ne ↦ absurd (h (rw ne refl))
  ];
}

pub pmm-Supplies : Supplies pmm 3
unfolding region_init
pmm-Supplies = (0, low, refl, omega arith)

paging-IsVacant : IsVacant paging 0x7f0000203000 size_4kb root
paging-IsVacant h = absurd (ground (arith, h))

resolve-map_page_example :
    (s' : Paging) × (rank' : ℕ → ℕ) × (map_page paging root 0x5000 0x7f0000203000 size_4kb 3
      ≡ some (paging_ok, invalidate_tlb 0x7f0000203000 s'))
    × Mapped paging (invalidate_tlb 0x7f0000203000 s') root 0x5000 0x7f0000203000 size_4kb
    × IsTables (invalidate_tlb 0x7f0000203000 s') rank'
    × (rank' root ≡ 4)
resolve-map_page_example =
    resolve-map_page paging rank root 0x5000 0x7f0000203000 3 size_4kb paging-IsTables refl
      pmm-Supplies (omega arith, omega arith) refl paging-IsVacant

unmap_page-map_page_example :
    (s' s'' : Paging) × (rank'' : ℕ → ℕ) × (map_page paging root 0x5000 0x7f0000203000 size_4kb 3
      ≡ some (paging_ok, s'))
    × (unmap_page s' root 0x7f0000203000 size_4kb ≡ some (paging_ok, s''))
    × ((virt' : ℕ)
        → resolve_virtual_address s'' root virt' ≡ resolve_virtual_address paging root virt')
    × IsTables s'' rank''
unmap_page-map_page_example =
    unmap_page-map_page paging rank root 0x5000 0x7f0000203000 3 size_4kb paging-IsTables refl
      pmm-Supplies (omega arith, omega arith) refl paging-IsVacant

-- A memory manager that knows one region, of used pages.
abbrev full_pmm : Pmm
full_pmm = record {
  memory_size_pages = 8;
  num_regions = 1;
  phys_to_virt_offset = 0;
  regions = rom ∷ [];
  region_cache = 0;
  bitmap_cache = 0;
}

full_regions :
    (P : Region → Type 0)
    → P rom
    → (i : ℕ) (r : Region) → get_elem? full_pmm.regions i ≡ some r
    → P r
full_regions P h zero r at = subst P (eq_of_some at) h
full_regions P h (suc i) r at = absurd (ground (arith, at))

full_pmm-IsValid : IsValid full_pmm
full_pmm-IsValid = record {
  count = refl;
  small = omega arith;
  each = full_regions (λ r. Marks.IsValid r) rom-IsValid;
  region_start = omega arith;
  bitmap_start = omega arith;
}

rom_size : pages rom ≡ 8
unfolding region_init
rom_size = omega arith

full_pmm-IsFull : IsFull full_pmm
full_pmm-IsFull i n r at = full_regions (λ r. page_bit r.bitmap n ≡ true) all_used i r at
  where
    all_used : page_bit rom.bitmap n ≡ true
    all_used = elim (Bool-cases (ltb n 8)) [
      | inl lt ↦ rom_pages_used n (ltb→lt n 8 lt)
      | inr ge ↦ rom-IsValid.behind n (omega (arith, ltb→le n 8 ge, rom_size))
    ]

abbrev full_paging : Paging
full_paging = record paging { pmm = full_pmm }

descend_full_example :
    (s' : Paging) × (descend full_paging root 7 pml4 ≡ some (some full_paging.hhdm_offset, s'))
descend_full_example =
    descend_full full_paging root 7 pml4 full_pmm-IsValid full_pmm-IsFull (omega arith)
      (omega arith) refl

-- The pages 3 to 6 of the third region hold a PML4, a PDPR, a PD and a PT that map one page.
abbrev table : ℕ → ℕ
table n = 2 ^ 46 + 3145728 + n * 4096

abbrev mapped : Paging
mapped = record paging {
  entries = λ t i.
      if t == table 3 && i == 254
      then 3145728 + 4 * 4096 + 3
      else if t == table 4 && i == 0
      then 3145728 + 5 * 4096 + 3
      else if t == table 5 && i == 1
      then 3145728 + 6 * 4096 + 3
      else if t == table 6 && i == 3
      then 0x5003
      else 0;
}

abbrev mapped_rank : ℕ → ℕ
mapped_rank t =
    if t == table 3
    then 4
    else if t == table 4
    then 3
    else if t == table 5
    then 2
    else if t == table 6
    then 1
    else 0

abbrev index : ℕ → ℕ
index n = if n == 3 then 254 else if n == 4 then 0 else if n == 5 then 1 else 3

-- `t` is one of the four tables.
abbrev IsTable : ℕ → ℕ → Type 0
IsTable t n = (t ≡ table n) × (3 ≤ n) × (n ≤ 6) × (mapped_rank t + n ≡ 7)

mapped-IsTable : (t : ℕ) → mapped_rank t ≢ 0 → (n : ℕ) × IsTable t n
mapped-IsTable t h = elim (Bool-cases (t == table 3)) [
  | inl e ↦ (3, ((==_iff t (table 3)).0 e, omega arith, omega arith, ground (arith, e)))
  | inr n3 ↦ elim (Bool-cases (t == table 4)) [
    | inl e ↦ (4, ((==_iff t (table 4)).0 e, omega arith, omega arith, ground (arith, e, n3)))
    | inr n4 ↦ elim (Bool-cases (t == table 5)) [
      | inl e ↦ (5, ((==_iff t (table 5)).0 e, omega arith, omega arith, ground (arith, e, n3, n4)))
      | inr n5 ↦ elim (Bool-cases (t == table 6)) [
        | inl e ↦
            (6, ((==_iff t (table 6)).0 e, omega arith, omega arith, ground (arith, e, n3, n4, n5)))
        | inr n6 ↦ absurd (h (rw (n3, n4, n5, n6) refl))
      ]
    ]
  ]
]

-- The only entry of a table leads to the next one.
mapped_entry :
    (t i n : ℕ)
    → IsTable t n
    → is_present (mapped.entries t i) ≡ true
    → (i ≡ index n) × (n ≤ 5 → table_at mapped (mapped.entries t i) ≡ table (n + 1))
mapped_entry t i n at there = ground (arith, at, there)

mapped_next : (n : ℕ) → 3 ≤ n → n ≤ 5 → mapped_rank (table (n + 1)) + n ≡ 6
mapped_next n low high = ground arith

mapped-IsTables : IsTables mapped mapped_rank
mapped-IsTables = record {
  valid = pmm-IsValid;
  ordered = pmm-IsOrdered;
  addressable = paging-IsTables.addressable;
  offset = omega arith;
  direct = omega arith;
  children = λ t i k r lt there small.
      let (n, at) = mapped-IsTable t (λ z. absurd (omega (arith, z, r))) in
      let (ei, en) = mapped_entry t i n at there in
      let next = en (omega (arith, at, r)) in
      omega (
        arith,
        ap mapped_rank next,
        mapped_next n (omega (arith, at)) (omega (arith, at, r)),
        at,
        r,
      );
  single = λ t i t' i' k c c' same.
      let (n, at) = mapped-IsTable t (λ z. absurd (omega (arith, z, c.ranked))) in
      let (n', at') = mapped-IsTable t' (λ z. absurd (omega (arith, z, c'.ranked))) in
      let en : n ≡ n' = omega (arith, at, at', c.ranked, c'.ranked) in
      let ei = (mapped_entry t i n at c.there).0 in
      let ei' = (mapped_entry t' i' n' at' c'.there).0 in
      (at.0 ∙ ap table en ∙ sym at'.0, ei ∙ ap index en ∙ sym ei');
  word = λ t h. let (n, at) = mapped-IsTable t h in omega (arith, at);
  owned = λ t h.
      let (n, at) = mapped-IsTable t h in
      subst (λ q. IsOwned pmm q) (omega (arith, at)) (rom_page-IsOwned n (omega (arith, at)));
  used = λ t h.
      let (n, at) = mapped-IsTable t h in
      subst (λ q. IsUsed pmm q) (omega (arith, at)) (rom_page-IsUsed n);
}

abbrev empty_dump : Dump
empty_dump = record { pml4_at = none; pdpr_at = none; pd_at = none; pt_at = none; lines = [] }

unmap_page_example :
    (s' : Paging) × (rank' : ℕ → ℕ) × (unmap_page mapped root 0x7f0000203000 size_4kb
      ≡ some (paging_ok, invalidate_tlb 0x7f0000203000 s'))
    × Unmapped mapped (invalidate_tlb 0x7f0000203000 s') root 0x7f0000203000 size_4kb
    × IsTables (invalidate_tlb 0x7f0000203000 s') rank'
    × (rank' root ≡ 4)
unmap_page_example =
    unmap_page_lem mapped mapped_rank root 0x7f0000203000 size_4kb mapped-IsTables refl
      (refl, (refl, refl, (refl, refl)))

mapped-AreLow : AreLow mapped mapped_rank
mapped-AreLow k t i c = ground arith

dump_page_table_example :
    (dump_page_table mapped root pml4 empty_dump).lines ≡ empty_dump.lines ++ list_pml4 mapped root
dump_page_table_example =
    dump_page_table_lem mapped mapped_rank mapped-IsTables mapped-AreLow root empty_dump refl

map_page_taken_example :
    map_page mapped root 0x9000 0x7f0000203000 size_4kb 3 ≡ some (paging_error, mapped)
map_page_taken_example =
    map_page_taken mapped root 0x9000 0x7f0000203000 3 size_4kb (refl, (refl, refl, (refl, refl)))
      refl

get_virt_address_from_indices_example :
    let virt = get_virt_address_from_indices 254 0 1 3 in
    (pml4_idx virt ≡ 254)
    × (pdpr_idx virt ≡ 0)
    × (pd_idx virt ≡ 1)
    × (pt_idx virt ≡ 3)
    × (virt % 4096 ≡ 0)
    × (virt / 2 ^ 47 ≡ (if ltb 254 256 then 0 else 2 ^ 17 - 1))
get_virt_address_from_indices_example =
    get_virt_address_from_indices-idx 254 0 1 3 (omega arith) (omega arith) (omega arith)
      (omega arith)
