-- ===== src/Memory/Tests.antt =====
-- The theorems on the physical memory manager at concrete states: two regions of 8 and 16 pages.
pub mod Tables
use j_oe_s.Base.{
  ℕ, zero, suc, ◌+◌, ◌%◌, ◌^◌, ◌<◌, ◌≤◌, ◌≡◌, ◌⊎◌, inl, inr, ◌==◌, ==_iff, Bool-cases, ltb, ltb→lt,
  ltb→le, true, false, none, some, [], ◌∷◌, get_elem?, refl, arith, subst, eq_of_some, ◌*◌, ◌/◌,
  not, if◌then◌else◌,
}
use j_oe_s.Memory.Region.{
  Region, usable, reserved, region_init, region_ok, mark_page_used, mark_page_free, is_usable,
  page_size_byte,
}
use j_oe_s.Memory.Region.Bitmap.{page_bit}
use j_oe_s.Memory.Region.Marks
use j_oe_s.Memory.Region.Marks.{
  pages, InPage, Differs, mark_page_used_lem, mark_page_free_lem, mark_page_free-mark_page_used,
}
use j_oe_s.Memory.Region.Init.{region_init-IsValid, marks_at_end_fault}
use j_oe_s.Memory.Pmm.{Pmm, ok, alloc, check_page, free, found, get_region_containing_page}
use j_oe_s.Memory.Pmm.State.{IsValid, Turned, IsFull}
use j_oe_s.Memory.Pmm.Search.{IsOrdered, get_region_containing_page_found}
use j_oe_s.Memory.Pmm.Alloc.{alloc_lem, Allocates}
use j_oe_s.Memory.Pmm.Pages.{Locates, check_page_lem, free_lem, free_under}
use j_oe_s.Memory.Pmm.Lifecycle.{free-alloc, free_twice, SamePages}

abbrev pub low : Region
low = region_init 1048576 32768 usable

abbrev pub high : Region
high = region_init 2097152 65536 usable

abbrev pub rom : Region
rom = region_init 3145728 32768 reserved

pub low-IsValid : Marks.IsValid low
low-IsValid = (region_init-IsValid 1048576 32768 usable (omega arith) (inr (omega arith))).0

high-IsValid : Marks.IsValid high
high-IsValid = (region_init-IsValid 2097152 65536 usable (omega arith) (inr (omega arith))).0

pub rom-IsValid : Marks.IsValid rom
rom-IsValid = (region_init-IsValid 3145728 32768 reserved (omega arith) (inl refl)).0

low_free : page_bit low.bitmap 3 ≡ false
low_free =
    (region_init-IsValid 1048576 32768 usable (omega arith) (inr (omega arith))).1 3 (omega arith)

rom_used : page_bit rom.bitmap 3 ≡ true
rom_used = (region_init-IsValid 3145728 32768 reserved (omega arith) (inl refl)).1 3 (omega arith)

low_page : InPage low 3 1060864
unfolding region_init
low_page = record { from = omega arith; below = omega arith; exists = omega arith }

rom_page : InPage rom 3 3158016
unfolding region_init
rom_page = record { from = omega arith; below = omega arith; exists = omega arith }

abbrev pub pmm : Pmm
pmm = record {
  memory_size_pages = 32;
  num_regions = 3;
  phys_to_virt_offset = 0;
  regions = low ∷ high ∷ rom ∷ [];
  region_cache = 0;
  bitmap_cache = 0;
}

pub pmm_regions :
    (P : ℕ → Region → Type 0)
    → P 0 low
    → P 1 high
    → P 2 rom
    → (i : ℕ) (r : Region) → get_elem? pmm.regions i ≡ some r
    → P i r
pmm_regions P l h m zero r at = subst (P 0) (eq_of_some at) l
pmm_regions P l h m (suc zero) r at = subst (P 1) (eq_of_some at) h
pmm_regions P l h m (suc (suc zero)) r at = subst (P 2) (eq_of_some at) m
pmm_regions P l h m (suc (suc (suc i))) r at = absurd (ground (arith, at))

pub pmm-IsValid : IsValid pmm
pmm-IsValid = record {
  count = refl;
  small = omega arith;
  each = pmm_regions (λ i r. Marks.IsValid r) low-IsValid high-IsValid rom-IsValid;
  region_start = omega arith;
  bitmap_start = omega arith;
}

-- Where the region at `i` lies.
abbrev pub Place : ℕ → Region → Type 0
Place i r =
    (i < 3) × (r.base ≡ 1048576 * (i + 1)) × (0 < r.region_length) × (r.region_length ≤ 65536)

pub pmm_places : (i : ℕ) (r : Region) → get_elem? pmm.regions i ≡ some r → Place i r
unfolding region_init
pmm_places =
    pmm_regions Place (omega arith, refl, omega arith, omega arith)
      (omega arith, refl, omega arith, omega arith) (omega arith, refl, omega arith, omega arith)

pub pmm-IsOrdered : IsOrdered pmm.regions
pmm-IsOrdered = record {
  ascending = λ i j r q lt ei ej. omega (arith, pmm_places i r ei, pmm_places j q ej);
  filled = λ i r e. omega (arith, pmm_places i r e);
  reach = λ i r e. omega (arith, pmm_places i r e);
}

page_of_first : Locates pmm 1060864 0 3 low
page_of_first = record { at = refl; inside = low_page }

page_of_third : Locates pmm 3158016 2 3 rom
page_of_third = record { at = refl; inside = rom_page }

pmm_some_free : ¬ IsFull pmm
pmm_some_free full = ground (arith, full 0 3 low refl, low_free)

low_whole : low.region_length ≡ low.bitmap_size * 32768
unfolding region_init
low_whole = omega arith

marks_at_end_example :
    (mark_page_used low (low.base + low.region_length) ≡ none)
    × (mark_page_free low (low.base + low.region_length) ≡ none)
marks_at_end_example = marks_at_end_fault low low-IsValid low_whole

alloc_example : Allocates pmm (alloc pmm) ⊎ ((alloc pmm ≡ some (0, pmm)) × IsFull pmm)
alloc_example = alloc_lem pmm pmm-IsValid

rom_inside : (rom.base ≤ 3158016) × (3158016 < rom.base + rom.region_length)
unfolding region_init
rom_inside = (omega arith, omega arith)

get_region_example : get_region_containing_page pmm 3158016 ≡ found 2
get_region_example =
    get_region_containing_page_found pmm 3158016 2 rom pmm-IsValid pmm-IsOrdered refl rom_inside

check_page_example :
    check_page pmm 1060864 ≡ some (if page_bit low.bitmap 3 then 2 ^ (3 % 8) else 0)
check_page_example = check_page_lem pmm 1060864 0 3 low pmm-IsValid pmm-IsOrdered page_of_first

free_under_example : (free pmm 4096 ≡ none) × (check_page pmm 4096 ≡ none)
free_under_example =
    free_under pmm 4096 pmm-IsValid pmm-IsOrdered (omega arith)
      (λ i r e. omega (arith, pmm_places i r e))

free-alloc_example :
    (ptr index n : ℕ) × (s' s'' : Pmm) × (alloc pmm ≡ some (ptr, s'))
    × Turned pmm s' ptr index n true
    × (check_page s' ptr ≡ some (2 ^ (n % 8)))
    × (free s' ptr ≡ some (ok, s''))
    × (check_page s'' ptr ≡ some 0)
    × SamePages pmm s''
    × IsValid s''
free-alloc_example = free-alloc pmm pmm-IsValid pmm-IsOrdered pmm_some_free

free_twice_example : (s' : Pmm) × (free pmm 1060864 ≡ some (ok, s')) × ¬ IsValid s'
free_twice_example = free_twice pmm 1060864 0 3 low pmm-IsValid pmm-IsOrdered page_of_first low_free
