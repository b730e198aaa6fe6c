-- ===== src/Memory/Pmm/Pages.antt =====
-- `pmm_check_page` and `pmm_free` on an address of a known region, and a page's way through
-- `pmm_alloc`, `pmm_check_page` and `pmm_free`.
use j_oe_s.Base.{
  ℕ, ◌+◌, ◌*◌, ◌/◌, ◌%◌, ◌^◌, ◌<◌, ◌≤◌, ◌≡◌, true, false, none, some, if◌then◌else◌, get_elem?, set,
  get_elem?_of_lt, refl, arith, sub64,
}
use j_oe_s.Base.Bits.{bit_and-shifted_one}
use j_oe_s.Memory.Region.{Region, page_size_byte, region_ok, mark_page_free}
use j_oe_s.Memory.Region.Bitmap.{page_bit}
use j_oe_s.Memory.Region.Marks.{InPage, mark_page_free_lem}
use j_oe_s.Memory.Pmm.{Pmm, ok, found, get_region_containing_page, check_page, free}
use j_oe_s.Memory.Pmm.State.{IsValid, Turned, IsValid-set}
use j_oe_s.Memory.Pmm.Search.{
  IsOrdered, get_region_containing_page_found, get_region_containing_page_under,
}

-- `ptr` lies in page `n` of the region at `k`.
pub record Locates (s : Pmm) (ptr k n : ℕ) (r : Region) : Type 0 where
  pub at : get_elem? s.regions k ≡ some r
  pub inside : InPage r n ptr

module _ (s : Pmm) (ptr k n : ℕ) (r : Region) (valid : IsValid s) (ordered : IsOrdered s.regions)
    (here : Locates s ptr k n r) where
  searched : get_region_containing_page s ptr ≡ found k
  searched =
      get_region_containing_page_found s ptr k r valid ordered here.at
        (omega (arith, here.inside), omega (arith, here.inside))

  -- Of a valid state with ordered regions, `pmm_check_page` of an address in a known page returns
  -- 0 if the page is free. If the page is used it returns the mask of the page's bit, which is
  -- PMM_PAGE_USED only for every eighth page.
  pub check_page_lem : check_page s ptr ≡ some (if page_bit r.bitmap n then 2 ^ (n % 8) else 0)
  unfolding check_page
  check_page_lem =
      let rv = valid.each k r here.at in
      let (byte, e) = get_elem?_of_lt r.bitmap (n / 8) (omega (arith, rv, here.inside)) in
      let page : sub64 ptr r.base / page_size_byte ≡ n = omega (arith, rv, here.inside) in
      ground (
        arith,
        searched,
        here.at,
        page,
        e,
        bit_and-shifted_one byte (n % 8) (rv.bytes (n / 8) byte e),
      )

  pub free_at :
      (r' : Region)
      → mark_page_free r ptr ≡ some (region_ok, r')
      → free s ptr ≡ some (ok, record s { regions = set s.regions k r' })
  unfolding free
  free_at r' marks = ground (arith, searched, here.at, marks)

  -- Of a valid state with ordered regions, `pmm_free` of an address in a used page succeeds: that
  -- page becomes free, is counted as free, no other page changes, and the state stays valid.
  pub free_lem :
      page_bit r.bitmap n ≡ true
      → (s' : Pmm) × (free s ptr ≡ some (ok, s'))
        × Turned s s' (r.base + n * page_size_byte) k n false
        × IsValid s'
  free_lem used =
      let rv = valid.each k r here.at in
      let (r', marks, keeps, differs, more) = mark_page_free_lem r n rv ptr here.inside used in
      let s' = record s { regions = set s.regions k r' } in
      (
        s',
        free_at r' marks,
        record {
          r = r;
          r' = r';
          was = here.at;
          exists = here.inside.exists;
          address = refl;
          before = used;
          now = refl;
          differs = differs;
          counted = omega (arith, more);
        },
        IsValid-set s s' k r' valid keeps refl refl valid.region_start valid.bitmap_start,
      )

-- Of a valid state with ordered regions, an address below all of at least two regions makes
-- `pmm_free` and `pmm_check_page` read outside the array of regions.
pub free_under :
    (s : Pmm) (ptr : ℕ)
    → IsValid s
    → IsOrdered s.regions
    → 2 ≤ s.num_regions
    → ((i : ℕ) (r : Region) → get_elem? s.regions i ≡ some r → ptr < r.base)
    → (free s ptr ≡ none) × (check_page s ptr ≡ none)
unfolding free check_page
free_under s ptr valid ordered two under =
    let e = get_region_containing_page_under s ptr valid ordered two under in
    (ground (arith, e), ground (arith, e))
