-- ===== src/Memory/Region/Marks.antt =====
-- What `pmm_region_mark_page_used`, `pmm_region_mark_page_free` and `pmm_region_init` do to a region.
use j_oe_s.Base.{
  ℕ, ◌+◌, ◌*◌, ◌/◌, ◌%◌, ◌<◌, ◌≤◌, ◌≡◌, Bool, true, false, some, if◌then◌else◌, ◌==◌, get_elem?,
  set, length, length-set, get_elem?-set_self, get_elem?_of_lt, lt_of_get_elem?, refl, ap, ◌∙◌, sym,
  arith, add64, sub64, word64, set-set, set-get_elem?,
}
use j_oe_s.Base.Bits.{
  bit_at, set_bit, clear_bit, zeros, set_bit-lt, clear_bit-lt, zeros-set_bit, zeros-clear_bit,
  bit_at-set_bit, bit_at-clear_bit, clear_bit-set_bit, clear_bit_of_clear,
}
use j_oe_s.Memory.Region.{
  Region, region_ok, page_size_byte, mark_page_free, mark_page_used, page_of, not_in_region,
}
use j_oe_s.Memory.Region.Bitmap.{
  page_bit, IsBytes, count_free, page_bit_of_some, page_bit-set, count_free-set, IsBytes-set,
  byte_of_free, count_free-le,
}

-- The number of whole pages in a region.
abbrev pub pages : Region → ℕ
pages r = r.region_length / page_size_byte

-- The representation invariant: the bitmap has `bitmap_size` bytes, enough for
-- all pages, `free_pages` counts its clear
-- bits, the end of the region is a 64-bit address, and no bit behind the last page is clear.
pub record IsValid (r : Region) : Type 0 where
  pub sized : length r.bitmap ≡ r.bitmap_size
  pub size : r.bitmap_size ≡ (pages r + 7) / 8
  pub bytes : IsBytes r.bitmap
  pub counted : r.free_pages ≡ count_free r.bitmap
  pub reach : r.base + r.region_length < word64
  pub behind : (n : ℕ) → pages r ≤ n → page_bit r.bitmap n ≡ true

-- `r'` is `r` with the bit of page `n` set to `v`, and with `free` free pages.
pub record Differs (r r' : Region) (n : ℕ) (v : Bool) : Type 0 where
  pub same_base : r'.base ≡ r.base
  pub same_length : r'.region_length ≡ r.region_length
  pub same_size : r'.bitmap_size ≡ r.bitmap_size
  pub same_type : r'.memory_type ≡ r.memory_type
  pub bits : (q : ℕ) → page_bit r'.bitmap q ≡ (if n == q then v else page_bit r.bitmap q)

-- `a` is an address in page `n` of the region.
pub record InPage (r : Region) (n a : ℕ) : Type 0 where
  pub from : r.base + n * page_size_byte ≤ a
  pub below : a < r.base + (n + 1) * page_size_byte
  pub exists : n < pages r

-- The region after the bit of page `n` was changed.
abbrev pub rewritten : Region → ℕ → ℕ → ℕ → Region
rewritten r n byte count = record r { bitmap = set r.bitmap (n / 8) byte; free_pages = count }

module _ (r : Region) (n : ℕ) (valid : IsValid r) where
  rewritten-IsValid :
      (byte byte' count : ℕ) (v : Bool)
      → n < pages r
      → byte' < 256
      → get_elem? r.bitmap (n / 8) ≡ some byte
      → ((l : ℕ) → l < 8 → bit_at byte' l ≡ (if n % 8 == l then v else bit_at byte l))
      → count + zeros byte ≡ r.free_pages + zeros byte'
      → IsValid (rewritten r n byte' count) × Differs r (rewritten r n byte' count) n v
  rewritten-IsValid byte byte' count v exists lt here law sum = (
    record {
      sized = length-set r.bitmap (n / 8) byte' ∙ valid.sized;
      size = valid.size;
      bytes = IsBytes-set r.bitmap (n / 8) byte' lt valid.bytes;
      counted = omega (arith, valid.counted, count_free-set r.bitmap (n / 8) byte byte' here);
      reach = valid.reach;
      behind =
          λ q h. ground (arith, page_bit-set r.bitmap n byte byte' q v here law, valid.behind q);
    },
    record {
      same_base = refl;
      same_length = refl;
      same_size = refl;
      same_type = refl;
      bits = λ q. page_bit-set r.bitmap n byte byte' q v here law;
    },
  )

  module _ (a : ℕ) (inside : InPage r n a) where
    page_of_inside : page_of r a ≡ n
    page_of_inside = omega (arith, valid.reach, inside.from, inside.below, inside.exists)

    in_region : not_in_region r a ≡ false
    in_region = ground (arith, valid.reach, inside.from, inside.below, inside.exists)

    used_at :
        (byte : ℕ)
        → get_elem? r.bitmap (n / 8) ≡ some byte
        → mark_page_used r a
          ≡ some (region_ok, rewritten r n (set_bit byte (n % 8)) (sub64 r.free_pages 1))
    unfolding mark_page_used
    used_at byte e = ground (arith, in_region, page_of_inside)

    free_at :
        (byte : ℕ)
        → get_elem? r.bitmap (n / 8) ≡ some byte
        → mark_page_free r a
          ≡ some (region_ok, rewritten r n (clear_bit byte (n % 8)) (add64 r.free_pages 1))
    unfolding mark_page_free
    free_at byte e = ground (arith, in_region, page_of_inside)

    used_rewritten :
        (byte : ℕ)
        → get_elem? r.bitmap (n / 8) ≡ some byte
        → bit_at byte (n % 8) ≡ false
        → let r' = rewritten r n (set_bit byte (n % 8)) (sub64 r.free_pages 1) in
          IsValid r' × Differs r r' n true × (r'.free_pages + 1 ≡ r.free_pages)
    used_rewritten byte here clear =
        let lt = valid.bytes (n / 8) byte here in
        let less = zeros-set_bit byte (n % 8) lt (omega arith) clear in
        let sum = count_free-set r.bitmap (n / 8) byte (set_bit byte (n % 8)) here in
        let size = count_free-le r.bitmap in
        let (keeps, differs) =
          rewritten-IsValid byte (set_bit byte (n % 8)) (sub64 r.free_pages 1) true inside.exists
            (set_bit-lt byte (n % 8)) here
            (λ l hl. bit_at-set_bit byte (n % 8) l lt (omega arith) hl)
            (omega (arith, valid, inside)) in
        (keeps, differs, omega (arith, valid, inside))

    -- Marking a free page of a valid region as used succeeds: exactly that page changes, one free
    -- page less is counted, and the region stays valid.
    pub mark_page_used_lem :
        page_bit r.bitmap n ≡ false
        → (r' : Region) × (mark_page_used r a ≡ some (region_ok, r'))
          × IsValid r'
          × Differs r r' n true
          × (r'.free_pages + 1 ≡ r.free_pages)
    mark_page_used_lem free =
        let (byte, here, clear) = byte_of_free r.bitmap n free in
        let (keeps, differs, fewer) = used_rewritten byte here clear in
        (
          rewritten r n (set_bit byte (n % 8)) (sub64 r.free_pages 1),
          used_at byte here,
          keeps,
          differs,
          fewer,
        )

    -- Marking a used page of a valid region as free succeeds: exactly that page changes, one free
    -- page more is counted, and the region stays valid.
    pub mark_page_free_lem :
        page_bit r.bitmap n ≡ true
        → (r' : Region) × (mark_page_free r a ≡ some (region_ok, r'))
          × IsValid r'
          × Differs r r' n false
          × (r'.free_pages ≡ r.free_pages + 1)
    mark_page_free_lem used =
        let (byte, here) = get_elem?_of_lt r.bitmap (n / 8) (omega (arith, valid, inside)) in
        let lt = valid.bytes (n / 8) byte here in
        let more =
          zeros-clear_bit byte (n % 8) lt (omega arith)
            (sym (page_bit_of_some r.bitmap n byte here) ∙ used) in
        let size = count_free-le r.bitmap in
        let (keeps, differs) =
          rewritten-IsValid byte (clear_bit byte (n % 8)) (add64 r.free_pages 1) false inside.exists
            (clear_bit-lt byte (n % 8)) here
            (λ l hl. bit_at-clear_bit byte (n % 8) l lt (omega arith) hl)
            (omega (arith, valid, inside)) in
        (
          rewritten r n (clear_bit byte (n % 8)) (add64 r.free_pages 1),
          free_at byte here,
          keeps,
          differs,
          omega (arith, valid, inside),
        )

-- Marking a free page as free once more leaves the bitmap, and counts one free page more.
pub mark_page_free_again :
    (r : Region) (n a : ℕ)
    → IsValid r
    → InPage r n a
    → page_bit r.bitmap n ≡ false
    → (r' : Region) × (mark_page_free r a ≡ some (region_ok, r'))
      × (r'.bitmap ≡ r.bitmap)
      × (r'.free_pages ≡ r.free_pages + 1)
mark_page_free_again r n a valid inside free =
    let (byte, here, clear) = byte_of_free r.bitmap n free in
    let lt = valid.bytes (n / 8) byte here in
    let size = count_free-le r.bitmap in
    (
      rewritten r n (clear_bit byte (n % 8)) (add64 r.free_pages 1),
      free_at r n valid a inside byte here,
      ap (set r.bitmap (n / 8)) (clear_bit_of_clear byte (n % 8) lt (omega arith) clear)
          ∙ set-get_elem? r.bitmap (n / 8) byte here,
      omega (arith, valid, inside),
    )

-- Freeing a page of a valid region that was just marked as used gives the old region back.
pub mark_page_free-mark_page_used :
    (r : Region) (n a : ℕ)
    → IsValid r
    → InPage r n a
    → page_bit r.bitmap n ≡ false
    → (r' : Region) × (mark_page_used r a ≡ some (region_ok, r'))
      × (mark_page_free r' a ≡ some (region_ok, r))
mark_page_free-mark_page_used r n a valid inside free =
    let (byte, here, clear) = byte_of_free r.bitmap n free in
    let byte' = set_bit byte (n % 8) in
    let r' = rewritten r n byte' (sub64 r.free_pages 1) in
    let (keeps, differs, fewer) = used_rewritten r n valid a inside byte here clear in
    let bound = lt_of_get_elem? r.bitmap (n / 8) byte here in
    let again =
      free_at r' n keeps a
        (record { from = inside.from; below = inside.below; exists = inside.exists }) byte'
        (get_elem?-set_self r.bitmap (n / 8) byte' bound) in
    (
      r',
      used_at r n valid a inside byte here,
      again ∙ ap (λ t. some (region_ok, t)) (back byte here clear bound fewer),
    )
  where
    back :
        (byte : ℕ)
        → get_elem? r.bitmap (n / 8) ≡ some byte
        → bit_at byte (n % 8) ≡ false
        → n / 8 < length r.bitmap
        → sub64 r.free_pages 1 + 1 ≡ r.free_pages
        → rewritten
            (rewritten r n (set_bit byte (n % 8)) (sub64 r.free_pages 1))
            n
            (clear_bit (set_bit byte (n % 8)) (n % 8))
            (add64 (sub64 r.free_pages 1) 1)
          ≡ r
    back byte here clear bound fewer = ground (
      arith,
      clear_bit-set_bit byte (n % 8) (valid.bytes (n / 8) byte here) (omega arith) clear,
      set-set r.bitmap (n / 8) (set_bit byte (n % 8)) byte,
      set-get_elem? r.bitmap (n / 8) byte here,
      count_free-le r.bitmap,
      valid,
    )
