-- ===== src/Memory/Pmm/State.antt =====
-- The invariant of the manager's state, and how one page of one region changes it.
use j_oe_s.Base.{
  ℕ, ◌+◌, ◌*◌, ◌/◌, ◌%◌, ◌^◌, ◌<◌, ◌≡◌, ◌≢◌, ◌⊎◌, inl, inr, Bool, true, false, some, ◌==◌,
  if◌then◌else◌, Bool-cases, Option-cases, get_elem?, set, length, lt_of_get_elem?,
  get_elem?-set_self, get_elem?-set_ne, length-set, ==_iff, ==→ne, ap, subst, eq_of_some, sym, ◌∙◌,
  arith,
}
use j_oe_s.Base.Bits.{bit_at_full}
use j_oe_s.Memory.Region.{Region, page_size_byte}
use j_oe_s.Memory.Region.Bitmap.{page_bit, count_free_zero, page_bit_of_some}
use j_oe_s.Memory.Region.Marks
use j_oe_s.Memory.Region.Marks.{pages, Differs}
use j_oe_s.Memory.Pmm.{Pmm}

-- The regions are valid, as many as counted, and the caches are small enough for no index to wrap.
pub record IsValid (s : Pmm) : Type 0 where
  pub count : length s.regions ≡ s.num_regions
  pub small : s.num_regions < 2 ^ 32
  pub each : (i : ℕ) (r : Region) → get_elem? s.regions i ≡ some r → Marks.IsValid r
  pub region_start : s.region_cache < 2 ^ 32
  pub bitmap_start : s.bitmap_cache < 2 ^ 62

-- `s'` is `s` with the bit of one page, at physical address `ptr`, turned to `v`: page `n` of the
-- region at `index`. No other region changes.
pub record Turned (s s' : Pmm) (ptr index n : ℕ) (v : Bool) : Type 0 where
  pub r : Region
  pub r' : Region
  pub was : get_elem? s.regions index ≡ some r
  pub exists : n < pages r
  pub address : ptr ≡ r.base + n * page_size_byte
  pub before : page_bit r.bitmap n ≡ (if v then false else true)
  pub now : s'.regions ≡ set s.regions index r'
  pub differs : Differs r r' n v
  pub counted : r'.free_pages + (if v then 1 else 0) ≡ r.free_pages + (if v then 0 else 1)

-- No page of any region is free.
abbrev pub IsFull : Pmm → Type 0
IsFull s = (i n : ℕ) (r : Region) → get_elem? s.regions i ≡ some r → page_bit r.bitmap n ≡ true

pub IsValid-set :
    (s s' : Pmm) (index : ℕ) (r' : Region)
    → IsValid s
    → Marks.IsValid r'
    → s'.regions ≡ set s.regions index r'
    → s'.num_regions ≡ s.num_regions
    → s'.region_cache < 2 ^ 32
    → s'.bitmap_cache < 2 ^ 62
    → IsValid s'
IsValid-set s s' index r' valid keeps now same small_region small_bitmap = record {
  count = ap length now ∙ length-set s.regions index r' ∙ valid.count ∙ sym same;
  small = omega (arith, valid.small);
  each = λ i r at. elim (Bool-cases (i == index)) [
    | inl e ↦
        subst Marks.IsValid (eq_of_some (sym (written i ((==_iff i index).0 e) (lt i r at)) ∙ at))
          keeps
    | inr ne ↦ valid.each i r (
        sym (get_elem?-set_ne s.regions index i r' (λ e. ==→ne i index ne (sym e)))
        ∙ sym (ap (λ l. get_elem? l i) now)
        ∙ at)
  ];
  region_start = small_region;
  bitmap_start = small_bitmap;
}
  where
    lt : (i : ℕ) (r : Region) → get_elem? s'.regions i ≡ some r → i < length s.regions
    lt i r at =
        omega
          (arith, lt_of_get_elem? s'.regions i r at, ap length now, length-set s.regions index r')

    written : (i : ℕ) → i ≡ index → i < length s.regions → get_elem? s'.regions i ≡ some r'
    written i e h = rw (now, e) (get_elem?-set_self s.regions index r' (rw (← e) h))

-- A region that counts no free page has none.
pub page_bit_of_none_free :
    (r : Region) (n : ℕ) → Marks.IsValid r → r.free_pages ≡ 0 → page_bit r.bitmap n ≡ true
page_bit_of_none_free r n valid none_free = elim (Option-cases (get_elem? r.bitmap (n / 8))) [
  | inl e ↦ rw (e, page_bit)
  | inr (byte, e) ↦
      page_bit_of_some r.bitmap n byte e
      ∙ bit_at_full byte (n % 8)
          (count_free_zero r.bitmap (n / 8) byte valid.bytes (sym valid.counted ∙ none_free) e)
          (omega arith)
]

-- A region of the new state is the region with the turned page, or one of the old state.
pub Turned-get_elem? :
    (s s' : Pmm) (ptr index n : ℕ) (v : Bool) (t : Turned s s' ptr index n v) (i : ℕ) (a : Region)
    → get_elem? s'.regions i ≡ some a
    → ((i ≡ index) × (a ≡ t.r')) ⊎ ((i ≢ index) × (get_elem? s.regions i ≡ some a))
Turned-get_elem? s s' ptr index n v t i a at = elim (Bool-cases (i == index)) [
  | inl same ↦
      let e = (==_iff i index).0 same in
      let lt = lt_of_get_elem? s.regions index t.r t.was in
      let new : get_elem? s'.regions i ≡ some t.r' =
        ap (λ l. get_elem? l i) t.now ∙ rw e (get_elem?-set_self s.regions index t.r' lt) in
      inl (e, eq_of_some (sym at ∙ new))
  | inr other ↦
      let ne = ==→ne i index other in
      inr (
        ne,
        sym (get_elem?-set_ne s.regions index i t.r' (λ e. ne (sym e)))
            ∙ sym (ap (λ l. get_elem? l i) t.now)
            ∙ at,
      )
]

-- The turned region stands at its place in the new state.
pub Turned-now :
    (s s' : Pmm) (ptr index n : ℕ) (v : Bool) (t : Turned s s' ptr index n v)
    → get_elem? s'.regions index ≡ some t.r'
Turned-now s s' ptr index n v t =
    ap (λ l. get_elem? l index) t.now
    ∙ get_elem?-set_self s.regions index t.r' (lt_of_get_elem? s.regions index t.r t.was)
