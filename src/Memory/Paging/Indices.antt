-- ===== src/Memory/Paging/Indices.antt =====
-- `paging_get_virt_address_from_indices`: the address that `paging_clone_page_table` maps a page at.
use j_oe_s.Base.{
  ℕ, ◌+◌, ◌*◌, ◌/◌, ◌%◌, ◌^◌, ◌<◌, ◌≡◌, ◌-◌, ltb, ◌==◌, bit_or, if◌then◌else◌, arith, word64,
}
use j_oe_s.Base.Disjoint.{bit_or_shifted}
use j_oe_s.Memory.Paging.Entry.{pml4_idx, pdpr_idx, pd_idx, pt_idx, get_virt_address_from_indices}

abbrev extension : ℕ → ℕ
extension i4 = if i4 / 2 ^ 8 == 1 then 0xffff else 0

-- No two parts of the address share a bit, so that it is their sum.
sum_of_indices :
    (i4 i3 i2 i1 : ℕ)
    → i4 < 512
    → i3 < 512
    → i2 < 512
    → i1 < 512
    → get_virt_address_from_indices i4 i3 i2 i1
      ≡ extension i4 * 2 ^ 48 + i4 * 2 ^ 39 + i3 * 2 ^ 30 + i2 * 2 ^ 21 + i1 * 2 ^ 12
unfolding get_virt_address_from_indices
sum_of_indices i4 i3 i2 i1 l4 l3 l2 l1 =
    let e = extension i4 in
    let small : e < 2 ^ 16 = ground arith in
    let a = e * 2 ^ 48 % word64 in
    let b = i4 * 2 ^ 39 % word64 in
    let c = i3 * 2 ^ 30 % word64 in
    let d = i2 * 2 ^ 21 % word64 in
    let f = i1 * 2 ^ 12 % word64 in
    let p = bit_or_shifted 48 e a b (omega (arith, small)) (omega (arith, l4)) in
    let q =
      bit_or_shifted 39 (e * 2 ^ 9 + i4) (bit_or a b) c (omega (arith, p, small, l4))
        (omega (arith, l3)) in
    let r =
      bit_or_shifted 30 (e * 2 ^ 18 + i4 * 2 ^ 9 + i3) (bit_or (bit_or a b) c) d
        (omega (arith, p, q, small, l4, l3)) (omega (arith, l2)) in
    let t =
      bit_or_shifted 21 (e * 2 ^ 27 + i4 * 2 ^ 18 + i3 * 2 ^ 9 + i2)
        (bit_or (bit_or (bit_or a b) c) d) f (omega (arith, p, q, r, small, l4, l3, l2))
        (omega (arith, l1)) in
    omega (arith, p, q, r, t, small, l4, l3, l2, l1)

-- For four indices below 512, the address that `paging_get_virt_address_from_indices` makes of them is the
-- start of a 4 kB page, has exactly these indices, and is canonical: its bits from 47 on are all
-- clear where the first index is below 256, and all set otherwise.
pub get_virt_address_from_indices-idx :
    (i4 i3 i2 i1 : ℕ)
    → i4 < 512
    → i3 < 512
    → i2 < 512
    → i1 < 512
    → let virt = get_virt_address_from_indices i4 i3 i2 i1 in
      (pml4_idx virt ≡ i4)
      × (pdpr_idx virt ≡ i3)
      × (pd_idx virt ≡ i2)
      × (pt_idx virt ≡ i1)
      × (virt % 4096 ≡ 0)
      × (virt / 2 ^ 47 ≡ (if ltb i4 256 then 0 else 2 ^ 17 - 1))
get_virt_address_from_indices-idx i4 i3 i2 i1 l4 l3 l2 l1 =
    let sum = sum_of_indices i4 i3 i2 i1 l4 l3 l2 l1 in
    let small : extension i4 < 2 ^ 16 = ground arith in
    (
      omega (arith, sum, l4, l3, l2, l1),
      omega (arith, sum, l4, l3, l2, l1),
      omega (arith, sum, l4, l3, l2, l1),
      omega (arith, sum, l4, l3, l2, l1),
      omega (arith, sum, l4, l3, l2, l1),
      ground (arith, sum, l4, l3, l2, l1),
    )
