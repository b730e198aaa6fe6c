-- ===== src/Memory/Paging/Unmap/Clear.antt =====
-- What clearing the present bit of an entry does to the tables.
use j_oe_s.Base.{ℕ, ◌≡◌, ◌⊎◌, true, false, ap, ap₂, sym, subst, ◌∙◌, arith}
use j_oe_s.Memory.Paging.{Paging, table_at}
use j_oe_s.Memory.Paging.Entry.{is_present, is_large, without_present}
use j_oe_s.Memory.Paging.Tables.{IsTables, Child}
use j_oe_s.Memory.Paging.Beside.{write_entry_here, write_entry_away}
use j_oe_s.Memory.Paging.Unmap.{clear_present}

pub without_present-is_present : (raw : ℕ) → is_present (without_present raw) ≡ false
without_present-is_present raw = ground arith

module _ (s : Paging) (table idx : ℕ) where
  abbrev cleared : Paging
  cleared = clear_present s table idx

  -- An entry that is present afterwards is another one, and unchanged.
  pub present_cleared :
      (t i : ℕ)
      → is_present (cleared.entries t i) ≡ true
      → (cleared.entries t i ≡ s.entries t i) × ¬ ((t ≡ table) × (i ≡ idx))
  present_cleared t i there =
      let away : ¬ ((t ≡ table) × (i ≡ idx)) = λ h. absurd (
        ground (
          arith,
          sym there
              ∙ ap is_present (
                  ap₂ cleared.entries h.0 h.1
                  ∙ write_entry_here s table idx (without_present (s.entries table idx)))
              ∙ without_present-is_present (s.entries table idx),
        )) in
      (write_entry_away s table idx (without_present (s.entries table idx)) t i away, away)

  pub Child-cleared :
      (rank : ℕ → ℕ) (k t i : ℕ)
      → Child cleared rank k t i
      → (cleared.entries t i ≡ s.entries t i) × Child s rank k t i
  Child-cleared rank k t i c =
      let (e, away) = present_cleared t i c.there in
      (
        e,
        record {
          ranked = c.ranked;
          inside = c.inside;
          there = sym (ap is_present e) ∙ c.there;
          small = subst (λ raw. (is_large raw ≡ false) ⊎ (k ≡ 2)) e c.small;
        },
      )

  pub clear_present-IsTables : (rank : ℕ → ℕ) → IsTables s rank → IsTables cleared rank
  clear_present-IsTables rank good = record {
    valid = good.valid;
    ordered = good.ordered;
    addressable = good.addressable;
    offset = good.offset;
    direct = good.direct;
    children = λ t i k r lt there small.
        let (e, o) =
          Child-cleared rank k t i
            (record { ranked = r; inside = lt; there = there; small = small }) in
        ap (λ raw. rank (table_at s raw)) e ∙ good.children t i k o.ranked o.inside o.there o.small;
    single = λ t i t' i' k c c' same.
        let (e, o) = Child-cleared rank k t i c in
        let (e', o') = Child-cleared rank k t' i' c' in
        good.single t i t' i' k o o' (sym (ap (table_at s) e) ∙ same ∙ ap (table_at s) e');
    word = good.word;
    used = good.used;
    owned = good.owned;
  }
