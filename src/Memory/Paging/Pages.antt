-- ===== src/Memory/Paging/Pages.antt =====
-- The pages that virtual addresses lie in, and the tables on the way to them.
use j_oe_s.Base.{ℕ, ◌/◌, ◌%◌, ◌^◌, ◌≡◌, true, false}
use j_oe_s.Memory.Paging.{Paging, table_at}
use j_oe_s.Memory.Paging.Entry.{
  PageSize, size_4kb, size_2mb, size_1gb, is_present, is_large, pml4_idx, pdpr_idx, pd_idx,
}

-- The number of the page of the size that an address lies in, of the 48 bits that are translated.
abbrev pub page_number : PageSize → ℕ → ℕ
page_number size_4kb virt = virt / 2 ^ 12 % 2 ^ 36
page_number size_2mb virt = virt / 2 ^ 21 % 2 ^ 27
page_number size_1gb virt = virt / 2 ^ 30 % 2 ^ 18

-- The tables on the way to a page exist, and no larger page is on it.
abbrev pub ReachesPd : Paging → ℕ → PageSize → ℕ → Type 0
ReachesPd s virt size_4kb table =
    (is_present (s.entries table (pd_idx virt)) ≡ true)
    × (is_large (s.entries table (pd_idx virt)) ≡ false)
ReachesPd s virt _ table = is_present (s.entries table (pd_idx virt)) ≡ true

abbrev pub ReachesPdpr : Paging → ℕ → PageSize → ℕ → Type 0
ReachesPdpr s virt size_1gb table = is_present (s.entries table (pdpr_idx virt)) ≡ true
ReachesPdpr s virt size table =
    (is_present (s.entries table (pdpr_idx virt)) ≡ true)
    × (is_large (s.entries table (pdpr_idx virt)) ≡ false)
    × ReachesPd s virt size (table_at s (s.entries table (pdpr_idx virt)))

abbrev pub Reaches : Paging → ℕ → PageSize → ℕ → Type 0
Reaches s virt size root =
    (is_present (s.entries root (pml4_idx virt)) ≡ true)
    × ReachesPdpr s virt size (table_at s (s.entries root (pml4_idx virt)))
