-- ===== src/Memory/Paging/Descend.antt =====
-- What one step of a mapping down to the next table does.
use j_oe_s.Base.{
  ℕ, suc, ◌%◌, ◌^◌, ◌<◌, ◌≡◌, ◌≢◌, ◌⊎◌, inl, inr, true, false, some, ◌==◌, if◌then◌else◌, ◌&&◌,
  Bool-cases, ==_iff, ==→ne, ne→==, ==_refl, refl, ap, ap₂, sym, subst, ◌∙◌, arith, add64, sub64,
}
use j_oe_s.Memory.Pmm
use j_oe_s.Memory.Pmm.{Pmm}
use j_oe_s.Memory.Pmm.State
use j_oe_s.Memory.Pmm.State.{Turned, Turned-get_elem?}
use j_oe_s.Memory.Pmm.Lifecycle.{Turned-IsOrdered}
use j_oe_s.Memory.Paging.{Paging, table_at, write_entry, clear_table, descend}
use j_oe_s.Memory.Paging.Entry.{Level, pointer, is_present, is_large, create_entry}
use j_oe_s.Memory.Paging.Fields.{create_entry-is_present, create_entry-is_large, base_of_pointer}
use j_oe_s.Memory.Paging.Frames.{
  IsUsed, fresh, IsUsed-Turned, IsUsed-address, Supplies, Supplies-Turned, alloc_supplied,
}
use j_oe_s.Memory.Paging.Owned.{IsOwned, IsOwned-Turned, IsOwned-address}
use j_oe_s.Memory.Paging.Tables.{IsTables, Child, Descended}

module _ (s : Paging) (rank : ℕ → ℕ) (k table idx : ℕ) (level : Level) (good : IsTables s rank)
    (ranked : rank table ≡ suc (suc k)) (in_table : idx < 512) where
  descend_old :
      is_present (s.entries table idx) ≡ true
      → (is_large (s.entries table idx) ≡ false) ⊎ (k ≡ 2)
      → Descended s s rank rank k table idx (table_at s (s.entries table idx))
  descend_old there not_large = record {
    keeps = good;
    next_rank = good.children table idx k ranked in_table there not_large;
    ranks = λ t h. refl;
    leads = record { there = there; points = refl };
    small = not_large;
    frame = λ t i h d. refl;
    same_offset = refl;
    new_or_old = inl (there, refl);
  }

  -- A fresh table at `next`.
  module _ (phys index n : ℕ) (p' : Pmm) (t : Turned s.pmm p' phys index n true)
      (valid' : State.IsValid p') where
    abbrev next : ℕ
    next = add64 phys s.hhdm_offset

    abbrev entry : ℕ
    entry = create_entry (sub64 next s.hhdm_offset) 3 level pointer

    abbrev after : Paging
    after = write_entry (clear_table (record s { pmm = p' }) next) table idx entry

    abbrev rank_after : ℕ → ℕ
    rank_after x = if x == next then suc k else rank x

    phys_small : (phys % 4096 ≡ 0) × (phys < 2 ^ 40)
    phys_small = omega (arith, t.address, t.exists, good.addressable index t.r t.was)

    back : sub64 next s.hhdm_offset ≡ phys
    back = omega (arith, phys_small, good.offset)

    next_pos : next ≢ 0
    next_pos e = absurd (omega (arith, e, phys_small, good.offset, good.direct))

    entry_points : table_at s entry ≡ next
    entry_points =
        ap (λ b. add64 b s.hhdm_offset)
          (base_of_pointer (sub64 next s.hhdm_offset) 3 level (omega (arith, back, phys_small))
              (omega (arith, back, phys_small))
            ∙ back)

    entry_present : is_present entry ≡ true
    entry_present = create_entry-is_present (sub64 next s.hhdm_offset) 3 level pointer

    entry_small : is_large entry ≡ false
    entry_small = create_entry-is_large (sub64 next s.hhdm_offset) 3 level pointer

    -- The page was free, so it was no table.
    unranked : rank next ≡ 0
    unranked = elim (Bool-cases (rank next == 0)) [
      | inl e ↦ (==_iff (rank next) 0).0 e
      | inr ne ↦ absurd (
          fresh s.pmm p' phys index n t (sub64 next s.hhdm_offset)
            (good.used next (==→ne (rank next) 0 ne)) back)
    ]

    other : (x : ℕ) → rank x ≢ 0 → x ≢ next
    other x h e = h (ap rank e ∙ unranked)

    rank_other : (x : ℕ) → rank x ≢ 0 → rank_after x ≡ rank x
    rank_other x h = rw (ne→== x next (other x h)) refl

    table_other : table ≢ next
    table_other = other table (λ e. absurd (omega (arith, e, ranked)))

    entries_next : (i : ℕ) → i < 512 → after.entries next i ≡ 0
    entries_next i lt = ground (arith, table_other)

    entries_other :
        (x i : ℕ) → rank x ≢ 0 → (x ≢ table) ⊎ (i ≢ idx) → after.entries x i ≡ s.entries x i
    entries_other x i h (inl ne) = ground (arith, ne, other x h)
    entries_other x i h (inr ne) = ground (arith, ne, other x h)

    entries_here : after.entries table idx ≡ entry
    entries_here = rw (==_refl table, ==_refl idx) refl

    -- An old entry still points to a table of the next rank.
    child_old :
        (x i k' : ℕ)
        → rank x ≡ suc (suc k')
        → i < 512
        → (x ≢ table) ⊎ (i ≢ idx)
        → is_present (after.entries x i) ≡ true
        → (is_large (after.entries x i) ≡ false) ⊎ (k' ≡ 2)
        → rank_after (table_at after (after.entries x i)) ≡ suc k'
    child_old x i k' r lt away there not_large =
        let e = entries_other x i (λ z. absurd (omega (arith, z, r))) away in
        let old =
          good.children x i k' r lt (sym (ap is_present e) ∙ there)
            (subst (λ raw. (is_large raw ≡ false) ⊎ (k' ≡ 2)) e not_large) in
        ap (λ raw. rank_after (table_at s raw)) e
        ∙ rank_other (table_at s (s.entries x i)) (λ z. absurd (omega (arith, z, old)))
        ∙ old

    child_new :
        (x i k' : ℕ)
        → rank x ≡ suc (suc k')
        → x ≡ table
        → i ≡ idx
        → rank_after (table_at after (after.entries x i)) ≡ suc k'
    child_new x i k' r ex ei =
        let e : after.entries x i ≡ entry = ap₂ after.entries ex ei ∙ entries_here in
        let same : k ≡ k' = omega (arith, ap rank ex, r, ranked) in
        ap (λ raw. rank_after (table_at s raw)) e
        ∙ ap rank_after entry_points
        ∙ (rw (==_refl next) (ap suc same))

    children_after :
        (x i k' : ℕ)
        → rank_after x ≡ suc (suc k')
        → i < 512
        → is_present (after.entries x i) ≡ true
        → (is_large (after.entries x i) ≡ false) ⊎ (k' ≡ 2)
        → rank_after (table_at after (after.entries x i)) ≡ suc k'
    children_after x i k' r lt there not_large = elim (Bool-cases (x == next)) [
      | inl is_next ↦
          let e = (==_iff x next).0 is_next in
          absurd
            (absent (sym there ∙ ap is_present (ap (λ y. after.entries y i) e ∙ entries_next i lt)))
      | inr not_next ↦
          let r' : rank x ≡ suc (suc k') =
            ap (λ b. if b then suc k else rank x) (sym not_next) ∙ r in
          elim (Bool-cases (x == table)) [
            | inr ne ↦ child_old x i k' r' lt (inl (==→ne x table ne)) there not_large
            | inl ex ↦ elim (Bool-cases (i == idx)) [
              | inr ne ↦ child_old x i k' r' lt (inr (==→ne i idx ne)) there not_large
              | inl ei ↦ child_new x i k' r' ((==_iff x table).0 ex) ((==_iff i idx).0 ei)
            ]
          ]
    ]
      where
        absent : ¬ (true ≡ false)
        absent e = ground (arith, e)

    -- The entries that point to tables are the old ones and the new one.
    pointer_after :
        (x i k' : ℕ)
        → Child after rank_after k' x i
        → ((x ≡ table) × (i ≡ idx) × (table_at after (after.entries x i) ≡ next))
          ⊎ ((after.entries x i ≡ s.entries x i) × Child s rank k' x i)
    pointer_after x i k' c = elim (Bool-cases (x == next)) [
      | inl is_next ↦
          let e = (==_iff x next).0 is_next in
          absurd (
            ground (
              arith,
              sym c.there ∙ ap is_present (ap (λ y. after.entries y i) e ∙ entries_next i c.inside),
            ))
      | inr not_next ↦
          let r' : rank x ≡ suc (suc k') =
            ap (λ b. if b then suc k else rank x) (sym not_next) ∙ c.ranked in
          elim (Bool-cases (x == table && i == idx)) [
            | inl here ↦
                let ex : x ≡ table = (==_iff x table).0 (ground (arith, here)) in
                let ei : i ≡ idx = (==_iff i idx).0 (ground (arith, here)) in
                inl
                  (ex, ei, ap (table_at s) (ap₂ after.entries ex ei ∙ entries_here) ∙ entry_points)
            | inr away ↦
                let e = entries_other x i (λ z. absurd (omega (arith, z, r'))) (away_of x i away) in
                inr (
                  e,
                  record {
                    ranked = r';
                    inside = c.inside;
                    there = sym (ap is_present e) ∙ c.there;
                    small = subst (λ raw. (is_large raw ≡ false) ⊎ (k' ≡ 2)) e c.small;
                  },
                )
          ]
    ]
      where
        away_of : (x i : ℕ) → (x == table && i == idx) ≡ false → (x ≢ table) ⊎ (i ≢ idx)
        away_of x i h = elim (Bool-cases (x == table)) [
          | inr ne ↦ inl (==→ne x table ne)
          | inl same ↦ inr (==→ne i idx (ground (arith, h, same)))
        ]

    old_not_next : (x i k' : ℕ) → Child s rank k' x i → table_at s (s.entries x i) ≢ next
    old_not_next x i k' c =
        let r = good.children x i k' c.ranked c.inside c.there c.small in
        other (table_at s (s.entries x i)) (λ z. absurd (omega (arith, z, r)))

    single_after :
        (x i x' i' k' : ℕ)
        → Child after rank_after k' x i
        → Child after rank_after k' x' i'
        → table_at after (after.entries x i) ≡ table_at after (after.entries x' i')
        → (x ≡ x') × (i ≡ i')
    single_after x i x' i' k' c c' same = elim (pointer_after x i k' c) [
      | inl (ex, ei, en) ↦ elim (pointer_after x' i' k' c') [
        | inl (ex', ei', en') ↦ (ex ∙ sym ex', ei ∙ sym ei')
        | inr (e', o') ↦
            absurd (old_not_next x' i' k' o' (sym (ap (table_at s) e') ∙ sym same ∙ en))
      ]
      | inr (e, o) ↦ elim (pointer_after x' i' k' c') [
        | inl (ex', ei', en') ↦
            absurd (old_not_next x i k' o (sym (ap (table_at s) e) ∙ same ∙ en'))
        | inr (e', o') ↦
            good.single x i x' i' k' o o' (sym (ap (table_at s) e) ∙ same ∙ ap (table_at s) e')
      ]
    ]

    after-IsTables : IsTables after rank_after
    after-IsTables = record {
      valid = valid';
      ordered = Turned-IsOrdered s.pmm p' phys index n true t good.ordered;
      addressable = λ i a at. elim (Turned-get_elem? s.pmm p' phys index n true t i a at) [
        | inl (e, new) ↦ omega (
          arith,
          good.addressable index t.r t.was,
          ap (λ x. x.base) new,
          ap (λ x. x.region_length) new,
          t.differs,
        )
        | inr (ne, old) ↦ good.addressable i a old
      ];
      offset = good.offset;
      direct = good.direct;
      children = children_after;
      single = single_after;
      word = λ x h. elim (Bool-cases (x == next)) [
        | inl e ↦ omega (arith, (==_iff x next).0 e)
        | inr ne ↦ good.word x (λ z. h (rw ne z))
      ];
      owned = λ x h. elim (Bool-cases (x == next)) [
        | inl e ↦
            subst (λ q. IsOwned p' q)
              (sym (ap (λ y. sub64 y s.hhdm_offset) ((==_iff x next).0 e) ∙ back))
              (IsOwned-address s.pmm p' phys index n true t)
        | inr ne ↦
            IsOwned-Turned s.pmm p' phys index n true (sub64 x s.hhdm_offset) t
              (good.owned x (λ z. h (rw ne z)))
      ];
      used = λ x h. elim (Bool-cases (x == next)) [
        | inl e ↦
            subst (λ q. IsUsed p' q)
              (sym (ap (λ y. sub64 y s.hhdm_offset) ((==_iff x next).0 e) ∙ back))
              (IsUsed-address s.pmm p' phys index n t good.ordered)
        | inr ne ↦
            IsUsed-Turned s.pmm p' phys index n t (sub64 x s.hhdm_offset)
              (good.used x (λ z. h (rw ne z)))
      ];
    }

    descend_new :
        is_present (s.entries table idx) ≡ false
        → Descended s after rank rank_after k table idx next
    descend_new absent = record {
      keeps = after-IsTables;
      next_rank = rw (==_refl next) refl;
      ranks = rank_other;
      leads = record {
        there = ap is_present entries_here ∙ entry_present;
        points = ap (table_at s) entries_here ∙ entry_points;
      };
      small = inl (ap is_large entries_here ∙ entry_small);
      frame = entries_other;
      same_offset = refl;
      new_or_old = inr (absent, entries_next);
    }

    descend_allocates :
        is_present (s.entries table idx) ≡ false
        → Pmm.alloc s.pmm ≡ some (phys, p')
        → descend s table idx level ≡ some (some next, after)
    unfolding descend
    descend_allocates absent e = rw (absent, descend, e, ne→== next 0 next_pos) refl

-- A step down always finds a table: the one that the entry points to, or a fresh one.
pub descend_lem :
    (s : Paging) (rank : ℕ → ℕ) (k table idx j : ℕ) (level : Level)
    → IsTables s rank
    → rank table ≡ suc (suc k)
    → idx < 512
    → (is_present (s.entries table idx) ≡ true → (is_large (s.entries table idx) ≡ false) ⊎ (k ≡ 2))
    → Supplies s.pmm (suc j)
    → (next : ℕ) × (s' : Paging) × (rank' : ℕ → ℕ) × (descend s table idx level
        ≡ some (some next, s'))
      × Descended s s' rank rank' k table idx next
      × Supplies s'.pmm j
unfolding descend
descend_lem s rank k table idx j level good ranked lt not_large supplies =
    elim (Bool-cases (is_present (s.entries table idx))) [
      | inl there ↦ (
        table_at s (s.entries table idx),
        s,
        rank,
        rw (there, descend) refl,
        descend_old s rank k table idx level good ranked lt there (not_large there),
        fewer supplies,
      )
      | inr absent ↦
          let (phys, index, n, p', e, t, valid') = alloc_supplied s.pmm j good.valid supplies in
          (
            add64 phys s.hhdm_offset,
            after s rank k table idx level good ranked lt phys index n p' t valid',
            rank_after s rank k table idx level good ranked lt phys index n p' t valid',
            descend_allocates s rank k table idx level good ranked lt phys index n p' t valid'
                absent e,
            descend_new s rank k table idx level good ranked lt phys index n p' t valid' absent,
            Supplies-Turned s.pmm p' phys index n t j supplies,
          )
    ]
  where
    fewer : Supplies s.pmm (suc j) → Supplies s.pmm j
    fewer (i, r, at, enough) = (i, r, at, omega (arith, enough))
