-- ===== src/Memory/Pmm/Scan.antt =====
-- The inner loops of `pmm_alloc`: the search of a bitmap for a free page.
use j_oe_s.Base.{
  ℕ, zero, suc, ◌+◌, ◌-◌, ◌*◌, ◌/◌, ◌%◌, ◌^◌, ◌<◌, ◌≤◌, ◌≡◌, ◌≢◌, inl, inr, Bool, true, false, ◌&&◌,
  Option, none, some, ltb, ◌==◌, if◌then◌else◌, Bool-cases, Option-cases, get_elem?, length,
  get_elem?_of_lt, lt_of_get_elem?, not, refl, ◌∙◌, ap, ==_iff, ==→ne, arith, add64,
}
use j_oe_s.Base.Bits.{all_below, all_below_sound, bit_at}
use j_oe_s.Memory.Region.{Region}
use j_oe_s.Memory.Region.Bitmap.{
  page_bit, page_bit_of_some, count_free_full, count_free, count_free-le,
}
use j_oe_s.Memory.Region.Marks
use j_oe_s.Memory.Pmm.{find_bit, ByteScan, hit, exhausted, fault, scan_bytes}
use native.Mathlib.Nat.{mod-lt, mod-eq_of_lt, mod-add-mod, add-mod-mod, add-mod_right}

abbrev finds_clear : ℕ → Option ℕ → Bool
finds_clear byte none = false
finds_clear byte (some k) = ltb k 8 && not (bit_at byte k)

abbrev find_law : ℕ → Bool
find_law byte = if byte == 255 then true else finds_clear byte (find_bit 8 0 byte)

find_table : all_below 256 find_law ≡ true
unfolding find_bit
find_table = unfold all_below in refl

-- A byte below 0xff has a clear bit, and the loop over its bits finds one.
pub find_bit_lem :
    (byte : ℕ)
    → byte < 256
    → byte ≢ 255
    → (k : ℕ) × (find_bit 8 0 byte ≡ some k) × (k < 8) × (bit_at byte k ≡ false)
find_bit_lem byte lt ne = elim (Option-cases (find_bit 8 0 byte)) [
  | inl e ↦ absurd (ground (arith, law, e))
  | inr (k, e) ↦ (k, e, ground (arith, law, e), ground (arith, law, e))
]
  where
    law : find_law byte ≡ true
    law = all_below_sound 256 find_law byte find_table lt

-- Each index below `n` is visited by the rounds of a loop that starts at `cache`.
pub visits : (n cache i : ℕ) → i < n → (j : ℕ) × (j < n) × ((j + cache) % n ≡ i)
visits n cache i h = ((i + n - cache % n) % n, mod-lt _ (omega arith), round)
  where
    inner : i + n - cache % n + cache % n ≡ i + n
    inner = omega (arith, mod-lt cache {m = n} (omega arith))

    round : ((i + n - cache % n) % n + cache) % n ≡ i
    round = ground (
      arith,
      mod-add-mod (i + n - cache % n) n cache,
      add-mod-mod (i + n - cache % n) cache n,
      ap (λ t. t % n) inner,
      add-mod_right i n,
      mod-eq_of_lt h,
    )

module _ (r : Region) (valid : Marks.IsValid r) where
  abbrev pub Scanned : ℕ → ℕ → ℕ → ByteScan → Type 0
  Scanned left j cache (hit b k) =
      (k < 8) × (b < r.bitmap_size) × (page_bit r.bitmap (b * 8 + k) ≡ false)
  Scanned left j cache (exhausted cache') =
      (cache' ≡ cache)
      × ((i : ℕ)
          → j ≤ i
          → i < j + left
          → get_elem? r.bitmap ((i + cache) % r.bitmap_size) ≡ some 255)
  Scanned left j cache fault = ⊥

  Scanned-suc :
      (left j cache : ℕ) (x : ByteScan)
      → get_elem? r.bitmap ((j + cache) % r.bitmap_size) ≡ some 255
      → Scanned left (j + 1) cache x
      → Scanned (suc left) j cache x
  Scanned-suc left j cache (hit b k) full h = h
  Scanned-suc left j cache fault full h = h
  Scanned-suc left j cache (exhausted cache') full h = (
    h.0,
    λ i p q. elim (Bool-cases (i == j)) [
      | inl e ↦ rw ((==_iff i j).0 e) full
      | inr ne ↦ h.1 i (omega (arith, ==→ne i j ne)) (omega arith)
    ],
  )

  index_no_wrap : (j cache : ℕ) → j + cache < 2 ^ 63 → add64 j cache ≡ j + cache
  index_no_wrap j cache h = omega arith

  page_bit-hit :
      (b k byte : ℕ)
      → k < 8
      → get_elem? r.bitmap b ≡ some byte
      → page_bit r.bitmap (b * 8 + k) ≡ bit_at byte k
  page_bit-hit b k byte hk e =
      let q : (b * 8 + k) / 8 ≡ b = omega arith in
      let m : (b * 8 + k) % 8 ≡ k = omega arith in
      page_bit_of_some r.bitmap (b * 8 + k) byte (rw q e) ∙ ap (bit_at byte) m

  scan_bytes-full :
      (left j cache : ℕ)
      → add64 j cache ≡ j + cache
      → get_elem? r.bitmap ((j + cache) % r.bitmap_size) ≡ some 255
      → scan_bytes r (suc left) j cache ≡ scan_bytes r left (j + 1) cache
  unfolding scan_bytes
  scan_bytes-full left j cache w e = ground arith

  scan_bytes-hit :
      (left j cache byte k : ℕ)
      → add64 j cache ≡ j + cache
      → get_elem? r.bitmap ((j + cache) % r.bitmap_size) ≡ some byte
      → byte ≢ 255
      → find_bit 8 0 byte ≡ some k
      → scan_bytes r (suc left) j cache ≡ hit ((j + cache) % r.bitmap_size) k
  unfolding scan_bytes
  scan_bytes-hit left j cache byte k w e ne f = ground arith

  -- The loop over the bytes stays inside the bitmap. It stops at a free page, or it has seen
  -- nothing but full bytes.
  pub scan_bytes-Scanned :
      (left j cache : ℕ)
      → 0 < r.bitmap_size
      → j + left + cache < 2 ^ 63
      → Scanned left j cache (scan_bytes r left j cache)
  scan_bytes-Scanned zero j cache pos small =
      unfold scan_bytes in (refl, λ i p q. absurd (omega arith))
  scan_bytes-Scanned (suc left) j cache pos small =
      let inside : (j + cache) % r.bitmap_size < length r.bitmap = omega (arith, valid.sized) in
      let (byte, here) = get_elem?_of_lt r.bitmap ((j + cache) % r.bitmap_size) inside in
      let w = index_no_wrap j cache (omega arith) in
      elim (Bool-cases (byte == 255)) [
        | inl full ↦
            let all = here ∙ ap some ((==_iff byte 255).0 full) in
            rw (scan_bytes-full left j cache w all) (
              Scanned-suc left j cache _ all
                (scan_bytes-Scanned left (j + 1) cache pos (omega arith)))
        | inr not_full ↦
            let ne = ==→ne byte 255 not_full in
            let (k, e, hk, clear) = find_bit_lem byte (valid.bytes _ byte here) ne in
            rw (scan_bytes-hit left j cache byte k w here ne e)
              (hk, omega (arith, valid.sized), page_bit-hit _ k byte hk here ∙ clear)
      ]

  -- In a valid region with a free page the loop finds one.
  pub scan_bytes_hit :
      (cache : ℕ)
      → cache < 2 ^ 62
      → r.free_pages ≢ 0
      → (b k : ℕ) × (scan_bytes r r.bitmap_size 0 cache ≡ hit b k)
        × (k < 8)
        × (b < r.bitmap_size)
        × (page_bit r.bitmap (b * 8 + k) ≡ false)
  scan_bytes_hit cache small some_free = go (scan_bytes r r.bitmap_size 0 cache) refl (
      scan_bytes-Scanned r.bitmap_size 0 cache (omega (arith, valid, count_free-le r.bitmap))
        (omega (arith, valid)))
    where
      all_full :
          ((i : ℕ)
            → 0 ≤ i
            → i < 0 + r.bitmap_size
            → get_elem? r.bitmap ((i + cache) % r.bitmap_size) ≡ some 255)
          → count_free r.bitmap ≡ 0
      all_full full = count_free_full r.bitmap λ i byte e.
          let (j, lt, at) =
            visits r.bitmap_size cache i
              (omega (arith, valid.sized, lt_of_get_elem? r.bitmap i byte e)) in
          let f = full j (omega arith) (omega arith) in ground (arith, f, at, e)

      go :
          (x : ByteScan)
          → scan_bytes r r.bitmap_size 0 cache ≡ x
          → Scanned r.bitmap_size 0 cache x
          → (b k : ℕ) × (scan_bytes r r.bitmap_size 0 cache ≡ hit b k)
            × (k < 8)
            × (b < r.bitmap_size)
            × (page_bit r.bitmap (b * 8 + k) ≡ false)
      go (hit b k) e h = (b, k, e, h.0, h.1, h.2)
      go (exhausted cache') e h = absurd (some_free (omega (arith, valid.counted, all_full h.1)))
      go fault e h = elim h [ ]
