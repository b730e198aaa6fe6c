-- ===== src/Memory/Paging/Map.antt =====
-- `paging_map_page` followed by `paging_resolve_virtual_address`.
use j_oe_s.Base.{
  ℕ, suc, ◌%◌, ◌^◌, ◌<◌, ◌≡◌, ◌≢◌, ◌⊎◌, inl, inr, true, false, ◌&&◌, Option, some, ◌==◌, Bool-cases,
  ==_iff, sym, ◌∙◌, subst, ne→==, ==_refl, refl, ap, arith,
}
use j_oe_s.Memory.Paging.{Paging, PagingStatus, paging_ok, table_at, write_entry}
use j_oe_s.Memory.Paging.Entry.{
  PageSize, size_4kb, size_2mb, size_1gb, is_present, is_large, pml4_idx, pdpr_idx, pd_idx, pt_idx,
}
use j_oe_s.Memory.Paging.Tables.{IsTables, Child}

-- A frame of the size, as far as its entry and its flags can describe it.
abbrev pub IsFrame : PageSize → ℕ → ℕ → Type 0
IsFrame size_4kb phys flags = (phys % 4096 ≡ 0) × (phys < 2 ^ 40)
IsFrame size_2mb phys flags = (phys % 2 ^ 21 ≡ 0) × (phys < 2 ^ 40) × (is_large flags ≡ true)
IsFrame size_1gb phys flags = (phys % 2 ^ 30 ≡ 0) × (phys < 2 ^ 40) × (is_large flags ≡ true)

-- Nothing is mapped where a page of the size at `virt` would stand, and no larger page is on the way.
abbrev pub VacantPt : Paging → ℕ → ℕ → Type 0
VacantPt s virt table = is_present (s.entries table (pt_idx virt)) ≡ false

abbrev pub VacantPd : Paging → ℕ → PageSize → ℕ → Type 0
VacantPd s virt size_2mb table = is_present (s.entries table (pd_idx virt)) ≡ false
VacantPd s virt _ table =
    is_present (s.entries table (pd_idx virt)) ≡ true
    → (is_large (s.entries table (pd_idx virt)) ≡ false)
      × VacantPt s virt (table_at s (s.entries table (pd_idx virt)))

abbrev pub VacantPdpr : Paging → ℕ → PageSize → ℕ → Type 0
VacantPdpr s virt size_1gb table = is_present (s.entries table (pdpr_idx virt)) ≡ false
VacantPdpr s virt size table =
    is_present (s.entries table (pdpr_idx virt)) ≡ true
    → (is_large (s.entries table (pdpr_idx virt)) ≡ false)
      × VacantPd s virt size (table_at s (s.entries table (pdpr_idx virt)))

abbrev pub IsVacant : Paging → ℕ → PageSize → ℕ → Type 0
IsVacant s virt size root =
    is_present (s.entries root (pml4_idx virt)) ≡ true
    → VacantPdpr s virt size (table_at s (s.entries root (pml4_idx virt)))

-- The other addresses in the page of `virt`, as far as the tables below a PDPR, a PD and a PT go.
abbrev pub HitPt : ℕ → ℕ → Type 0
HitPt virt other = pt_idx other ≡ pt_idx virt

abbrev pub HitPd : ℕ → PageSize → ℕ → Type 0
HitPd virt size_4kb other = (pd_idx other ≡ pd_idx virt) × HitPt virt other
HitPd virt _ other = pd_idx other ≡ pd_idx virt

abbrev pub HitPdpr : ℕ → PageSize → ℕ → Type 0
HitPdpr virt size_1gb other = pdpr_idx other ≡ pdpr_idx virt
HitPdpr virt size other = (pdpr_idx other ≡ pdpr_idx virt) × HitPd virt size other

-- What a mapping from `table`, of rank `k`, on did: it succeeded with `post`, the tables stay well-formed,
-- the entries of all tables above are as before, and so is the walk of every address but those that
-- `Hit` tells.
pub record Maps (result : Option (PagingStatus × Paging)) (s : Paging) (rank : ℕ → ℕ) (k table : ℕ)
    (post : Paging → Type 0) (resolve : Paging → ℕ → ℕ → ℕ) (Hit : ℕ → Type 0) : Type 0 where
  pub s' : Paging
  pub rank' : ℕ → ℕ
  pub succeeds : result ≡ some (paging_ok, s')
  pub holds : post s'
  pub keeps : IsTables s' rank'
  pub ranks : (t : ℕ) → rank t ≢ 0 → rank' t ≡ rank t
  pub frame : (t i : ℕ) → k < rank t → s'.entries t i ≡ s.entries t i
  pub same_offset : s'.hhdm_offset ≡ s.hhdm_offset
  pub others :
      (virt t : ℕ) → rank t ≡ k → ¬ ((t ≡ table) × Hit virt) → resolve s' virt t ≡ resolve s virt t

-- The entry of a page in a table: the last table, or a large page.
module _ (s : Paging) (rank : ℕ → ℕ) (k table idx raw : ℕ) (good : IsTables s rank)
    (ranked : rank table ≡ suc k) (leaf : (k ≡ 0) ⊎ ((is_large raw ≡ true) × (k ≢ 3))) where
  abbrev pub written : Paging
  written = write_entry s table idx raw

  pub entries_written : written.entries table idx ≡ raw
  entries_written = rw (==_refl table, ==_refl idx) refl

  pub entries_above : (t i : ℕ) → suc k < rank t → written.entries t i ≡ s.entries t i
  entries_above t i h = rw (ne→== t table (λ e. absurd (omega (arith, ap rank e, h, ranked)))) refl

  -- The entries that point to tables are the old ones.
  pointer_written :
      (t i m : ℕ)
      → Child written rank m t i
      → (written.entries t i ≡ s.entries t i) × Child s rank m t i
  pointer_written t i m c = elim (Bool-cases (t == table && i == idx)) [
    | inr other ↦
        let e : written.entries t i ≡ s.entries t i = rw other refl in
        (
          e,
          record {
            ranked = c.ranked;
            inside = c.inside;
            there = sym (ap is_present e) ∙ c.there;
            small = subst (λ raw. (is_large raw ≡ false) ⊎ (m ≡ 2)) e c.small;
          },
        )
    | inl here ↦
        let e : t ≡ table = (==_iff t table).0 (ground (arith, here)) in
        let same : k ≡ suc m = omega (arith, ap rank e, c.ranked, ranked) in
        let it : written.entries t i ≡ raw = rw here refl in
        absurd (clash m same leaf (subst (λ raw. (is_large raw ≡ false) ⊎ (m ≡ 2)) it c.small))
  ]
    where
      clash :
          (m : ℕ)
          → k ≡ suc m
          → (k ≡ 0) ⊎ ((is_large raw ≡ true) × (k ≢ 3))
          → (is_large raw ≡ false) ⊎ (m ≡ 2)
          → ⊥
      clash m same (inl z) u = absurd (omega (arith, z, same))
      clash m same (inr (large, ne)) (inl small) = ground (arith, large, small)
      clash m same (inr (large, ne)) (inr two) = ne (omega (arith, same, two))

  pub written-IsTables : IsTables written rank
  written-IsTables = record {
    valid = good.valid;
    ordered = good.ordered;
    addressable = good.addressable;
    offset = good.offset;
    direct = good.direct;
    children = λ t i m r lt there small.
        let (e, o) =
          pointer_written t i m
            (record { ranked = r; inside = lt; there = there; small = small }) in
        ap (λ raw. rank (table_at s raw)) e ∙ good.children t i m o.ranked o.inside o.there o.small;
    single = λ t i t' i' m c c' same.
        let (e, o) = pointer_written t i m c in
        let (e', o') = pointer_written t' i' m c' in
        good.single t i t' i' m o o' (sym (ap (table_at s) e) ∙ same ∙ ap (table_at s) e');
    word = good.word;
    owned = good.owned;
    used = good.used;
  }
