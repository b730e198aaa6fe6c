-- ===== src/Memory/Pmm/Alloc.antt =====
-- `pmm_alloc`: the loop over the regions.
use j_oe_s.Base.{
  ℕ, zero, suc, ◌+◌, ◌*◌, ◌%◌, ◌^◌, ◌<◌, ◌≤◌, ◌≡◌, ◌≢◌, ◌⊎◌, inl, inr, true, false, Option, some,
  ◌==◌, Bool-cases, get_elem?, set, length, get_elem?_of_lt, lt_of_get_elem?, ==_iff, ==→ne, refl,
  ap, arith, add64, mul64, ltb, ltb→lt, ltb→le,
}
use j_oe_s.Memory.Region.{Region, page_size_byte}
use j_oe_s.Memory.Region.Bitmap.{page_bit}
use j_oe_s.Memory.Region.Marks
use j_oe_s.Memory.Region.Marks.{pages, Differs, InPage, mark_page_used_lem}
use j_oe_s.Memory.Pmm.{Pmm, scan_bytes, hit, take_page, alloc_loop, alloc}
use j_oe_s.Memory.Pmm.Scan.{scan_bytes_hit, visits}
use j_oe_s.Memory.Pmm.State.{IsValid, Turned, IsFull, IsValid-set, page_bit_of_none_free}

-- A page whose bit is clear is a page of the region.
page_exists : (r : Region) (n : ℕ) → Marks.IsValid r → page_bit r.bitmap n ≡ false → n < pages r
page_exists r n valid clear = elim (Bool-cases (ltb n (pages r))) [
  | inl h ↦ ltb→lt _ _ h
  | inr h ↦ absurd (ground (arith, valid.behind n (ltb→le _ _ h), clear))
]

-- The call returned the address of a page that was free, and marked that page as used.
abbrev pub Allocates : Pmm → Option (ℕ × Pmm) → Type 0
Allocates s result =
    (ptr index n : ℕ) × (s' : Pmm) × (result ≡ some (ptr, s'))
    × Turned s s' ptr index n true
    × IsValid s'

take_page-Allocates :
    (s t : Pmm) (index n : ℕ) (r : Region)
    → IsValid s
    → IsValid t
    → t.regions ≡ s.regions
    → get_elem? s.regions index ≡ some r
    → page_bit r.bitmap n ≡ false
    → Allocates s (take_page t index r n)
unfolding take_page
take_page-Allocates s t index n r valid valid' same at clear =
    let rv = valid.each index r at in
    let exists = page_exists r n rv clear in
    let ptr = add64 r.base (mul64 n page_size_byte) in
    let exact : ptr ≡ r.base + n * page_size_byte = omega (arith, rv.reach, exists) in
    let (r', marks, keeps, differs, fewer) =
      mark_page_used_lem r n rv ptr
        (record { from = omega (arith, exact); below = omega (arith, exact); exists = exists })
        clear in
    let t' = record t { regions = set t.regions index r' } in
    let now = ap (λ l. set l index r') same in
    (
      ptr,
      index,
      n,
      t',
      rw (marks, take_page),
      record {
        r = r;
        r' = r';
        was = at;
        exists = exists;
        address = exact;
        before = clear;
        now = now;
        differs = differs;
        counted = omega (arith, fewer);
      },
      IsValid-set t t' index r' valid' keeps refl refl valid'.region_start valid'.bitmap_start,
    )

module _ (s : Pmm) (valid : IsValid s) where
  abbrev visited : ℕ → ℕ
  visited j = (j + s.region_cache) % s.num_regions

  alloc_loop-skip :
      (left i : ℕ) (r : Region)
      → add64 i s.region_cache ≡ i + s.region_cache
      → get_elem? s.regions (visited i) ≡ some r
      → r.free_pages ≡ 0
      → alloc_loop (suc left) i s ≡ alloc_loop left (i + 1) s
  unfolding alloc_loop
  alloc_loop-skip left i r w at z = ground arith

  alloc_loop-hit :
      (left i b k : ℕ) (r : Region)
      → add64 i s.region_cache ≡ i + s.region_cache
      → get_elem? s.regions (visited i) ≡ some r
      → r.free_pages ≢ 0
      → scan_bytes r r.bitmap_size 0 s.bitmap_cache ≡ hit b k
      → alloc_loop (suc left) i s
        ≡ take_page
            (record s { region_cache = visited i; bitmap_cache = b })
            (visited i)
            r
            (b * 8 + k)
  unfolding alloc_loop
  alloc_loop-hit left i b k r w at ne h = ground arith

  abbrev NoneFree : ℕ → ℕ → Type 0
  NoneFree left i =
      (j : ℕ) (r : Region)
      → i ≤ j
      → j < i + left
      → get_elem? s.regions (visited j) ≡ some r
      → r.free_pages ≡ 0

  abbrev Outcome : ℕ → ℕ → Type 0
  Outcome left i =
      Allocates s (alloc_loop left i s) ⊎ ((alloc_loop left i s ≡ some (0, s)) × NoneFree left i)

  NoneFree-suc :
      (left i : ℕ) (r : Region)
      → get_elem? s.regions (visited i) ≡ some r
      → r.free_pages ≡ 0
      → NoneFree left (i + 1)
      → NoneFree (suc left) i
  NoneFree-suc left i r at z rest j r' p q at' = elim (Bool-cases (j == i)) [
    | inl e ↦ ground (arith, e, at, at', z)
    | inr ne ↦ rest j r' (omega (arith, ==→ne j i ne)) (omega arith) at'
  ]

  moved-IsValid :
      (i b : ℕ) (r : Region)
      → 0 < s.num_regions
      → b < r.bitmap_size
      → Marks.IsValid r
      → IsValid (record s { region_cache = visited i; bitmap_cache = b })
  moved-IsValid i b r pos h rv = record {
    count = valid.count;
    small = valid.small;
    each = valid.each;
    region_start = omega (arith, valid.small);
    bitmap_start = omega (arith, rv.size, rv.reach);
  }

  alloc_loop-Outcome : (left i : ℕ) → 0 < s.num_regions → i + left < 2 ^ 32 + 1 → Outcome left i
  alloc_loop-Outcome zero i pos small =
      inr (unfold alloc_loop in refl, λ j r p q at. absurd (omega arith))
  alloc_loop-Outcome (suc left) i pos small =
      let w : add64 i s.region_cache ≡ i + s.region_cache = omega (arith, valid.region_start) in
      let lt : visited i < length s.regions = omega (arith, valid.count) in
      let (r, at) = get_elem?_of_lt s.regions (visited i) lt in
      elim (Bool-cases (r.free_pages == 0)) [
        | inl none_free ↦
            let z = (==_iff r.free_pages 0).0 none_free in
            rw (alloc_loop-skip left i r w at z)
              (elim (alloc_loop-Outcome left (i + 1) pos (omega arith)) [
                | inl found ↦ inl found
                | inr (e, rest) ↦ inr (e, NoneFree-suc left i r at z rest)
              ])
        | inr some_free ↦
            let ne = ==→ne r.free_pages 0 some_free in
            let rv = valid.each (visited i) r at in
            let (b, k, h, hk, hb, clear) =
              scan_bytes_hit r rv s.bitmap_cache valid.bitmap_start ne in
            rw (alloc_loop-hit left i b k r w at ne h) (
              inl (
                take_page-Allocates s (record s { region_cache = visited i; bitmap_cache = b })
                  (visited i) (b * 8 + k) r valid (moved-IsValid i b r pos hb rv) refl at clear))
      ]

-- From a valid state `pmm_alloc` always returns. It hands out a page that was free, of a region
-- that the manager knows, marks it as used, counts it and changes no other page; or it returns
-- NULL, changing nothing, and then all pages of all regions are used. The state stays valid.
pub alloc_lem : (s : Pmm) → IsValid s → Allocates s (alloc s) ⊎ ((alloc s ≡ some (0, s)) × IsFull s)
unfolding alloc alloc_loop
alloc_lem s valid = elim (Bool-cases (s.num_regions == 0)) [
  | inl none_there ↦
      let z = (==_iff s.num_regions 0).0 none_there in
      inr (
        rw (z, alloc_loop),
        λ i n r at. absurd (omega (arith, lt_of_get_elem? s.regions i r at, valid.count)),
      )
  | inr some_there ↦
      let ne = ==→ne s.num_regions 0 some_there in
      elim (alloc_loop-Outcome s valid s.num_regions 0 (omega arith) (omega (arith, valid.small))) [
        | inl found ↦ inl found
        | inr (e, rest) ↦ inr (
          e,
          λ i n r at.
              let lt : i < s.num_regions =
                omega (arith, lt_of_get_elem? s.regions i r at, valid.count) in
              let (j, hj, round) = visits s.num_regions s.region_cache i lt in
              page_bit_of_none_free r n (valid.each i r at)
                (rest j r (omega arith) (omega arith) (rw round at)),
        )
      ]
]
