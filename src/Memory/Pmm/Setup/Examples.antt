-- ===== src/Memory/Pmm/Setup/Examples.antt =====
-- The theorems on the set-up at a concrete memory map: a usable region of 16 pages and a reserved one.
use j_oe_s.Base.{
  ℕ, zero, suc, ◌+◌, ◌*◌, ◌/◌, ◌≤◌, ◌≡◌, ◌≢◌, inl, inr, some, List, [], ◌∷◌, length, get_elem?,
  add64, mul64, arith, refl, subst, eq_of_some, ◌%◌,
}
use j_oe_s.Memory.Region.{usable, reserved, page_size_byte}
use j_oe_s.Memory.Pmm.{Pmm, ok, MemmapEntry}
use j_oe_s.Memory.Pmm.State.{IsValid}
use j_oe_s.Memory.Pmm.Setup.{
  init, find_space, bitmap_base, sum_lengths, get_num_required_pages, region_struct_size,
}
use j_oe_s.Memory.Pmm.Setup.Metadata.{IsFine}
use j_oe_s.Memory.Pmm.Setup.Init.{IsDistinct, metadata_pages, init-IsValid}
use j_oe_s.Memory.Pmm.Setup.Layout.{AreWhole, metadata_fits}

abbrev pub low : MemmapEntry
low = record { base = 1048576; entry_length = 65536; memory_type = usable }

abbrev pub rom : MemmapEntry
rom = record { base = 3145728; entry_length = 32768; memory_type = reserved }

abbrev pub memmap : List MemmapEntry
memmap = low ∷ rom ∷ []

each_entry :
    (P : ℕ → MemmapEntry → Type 0)
    → P 0 low
    → P 1 rom
    → (i : ℕ) (e : MemmapEntry) → get_elem? memmap i ≡ some e
    → P i e
each_entry P a b zero e at = subst (P 0) (eq_of_some at) a
each_entry P a b (suc zero) e at = subst (P 1) (eq_of_some at) b
each_entry P a b (suc (suc i)) e at = absurd (ground (arith, at))

pub memmap-IsFine : (i : ℕ) (e : MemmapEntry) → get_elem? memmap i ≡ some e → IsFine e
memmap-IsFine =
    each_entry (λ i e. IsFine e) (omega arith, inr (omega arith)) (omega arith, inl refl)

memmap-AreWhole : AreWhole memmap
memmap-AreWhole = each_entry (λ i e. e.entry_length % 32768 ≡ 0) (omega arith) (omega arith)

starts : (i : ℕ) (e : MemmapEntry) → get_elem? memmap i ≡ some e → e.base ≡ 1048576 + i * 2097152
starts = each_entry (λ i e. e.base ≡ 1048576 + i * 2097152) refl refl

pub memmap-IsDistinct : IsDistinct memmap
memmap-IsDistinct i j e e' a b same = omega (arith, starts i e a, starts j e' b, same)

memmap_space : find_space memmap (metadata_pages memmap) ≢ 0
unfolding find_space get_num_required_pages sum_lengths
memmap_space h = absurd (omega (arith, h))

init_example : (s : Pmm) × (init memmap 70368744177664 ≡ some (ok, s)) × IsValid s
init_example =
    init-IsValid memmap 70368744177664 (omega arith) memmap-IsFine memmap-IsDistinct memmap_space

metadata_fits_example :
    bitmap_base memmap (add64 1048576 (mul64 (length memmap) region_struct_size))
    ≤ 1048576
      + get_num_required_pages (length memmap) (sum_lengths memmap 0 / page_size_byte)
        * page_size_byte
metadata_fits_example = metadata_fits memmap 1048576 memmap-AreWhole (omega arith) (omega arith)
