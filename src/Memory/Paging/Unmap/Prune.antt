-- ===== src/Memory/Paging/Unmap/Prune.antt =====
-- `paging_check_for_empty_table`: a table without entries leaves the address space and its page is freed,
-- and no address resolves differently.
use j_oe_s.Base.{
  ℕ, zero, suc, ◌<◌, ◌≤◌, ◌≡◌, ◌≢◌, inl, inr, true, false, some, ◌==◌, if◌then◌else◌, Bool-cases,
  ==_iff, ==→ne, ne→==, refl, ap, sym, subst, ◌∙◌, arith, sub64,
}
use j_oe_s.Memory.Pmm.{Pmm}
use j_oe_s.Memory.Pmm.State
use j_oe_s.Memory.Pmm.State.{Turned, Turned-get_elem?}
use j_oe_s.Memory.Pmm.Lifecycle.{Turned-IsOrdered}
use j_oe_s.Memory.Paging.{
  Paging, table_at, num_entries, resolve_virtual_address, resolve_in_pdpr, resolve_in_pd,
  resolve_in_pt,
}
use j_oe_s.Memory.Paging.Entry.{is_present, without_present}
use j_oe_s.Memory.Paging.Owned.{IsOwned-Turned, IsUsed-freed, free_owned}
use j_oe_s.Memory.Paging.Tables.{IsTables, Child}
use j_oe_s.Memory.Paging.Unmap.{table_empty, clear_present, check_for_empty_table}
use j_oe_s.Memory.Paging.Walk.{Way, Way-rank, IsEmpty}
use j_oe_s.Memory.Paging.Beside.{away}
use j_oe_s.Memory.Paging.Unmap.Clear.{Child-cleared, present_cleared}
use j_oe_s.Memory.Paging.Unmap.Empty.{pruned_root}

table_empty_sound :
    (n : ℕ) (entries : ℕ → ℕ)
    → table_empty n entries ≡ true
    → (i : ℕ) → i < n
    → is_present (entries i) ≡ false
unfolding table_empty
table_empty_sound zero entries h i lt = absurd (omega (arith, lt))
table_empty_sound (suc n) entries h i lt = elim (Bool-cases (i == n)) [
  | inl e ↦ rw ((==_iff i n).0 e) (ground (arith, h))
  | inr ne ↦ table_empty_sound n entries (ground (arith, h)) i (omega (arith, lt, ==→ne i n ne))
]

-- `s'` follows from `s` by the removal of tables up to the rank `top`.
pub record Pruned (s s' : Paging) (rank rank' : ℕ → ℕ) (top : ℕ) : Type 0 where
  pub keeps : IsTables s' rank'
  pub ranks : (t : ℕ) → top < rank t → rank' t ≡ rank t
  pub frame : (t i : ℕ) → suc top < rank t → s'.entries t i ≡ s.entries t i
  pub same_offset : s'.hhdm_offset ≡ s.hhdm_offset
  pub resolves :
      (root virt : ℕ)
      → rank root ≡ 4
      → resolve_virtual_address s' root virt ≡ resolve_virtual_address s root virt

pub Pruned-trans :
    (s s1 s2 : Paging) (rank rank1 rank2 : ℕ → ℕ) (low top : ℕ)
    → low ≤ top
    → top < 4
    → Pruned s s1 rank rank1 low
    → Pruned s1 s2 rank1 rank2 top
    → Pruned s s2 rank rank2 top
Pruned-trans s s1 s2 rank rank1 rank2 low top le lt p q = record {
  keeps = q.keeps;
  ranks = λ t h.
      q.ranks t (omega (arith, h, p.ranks t (omega (arith, h, le))))
      ∙ p.ranks t (omega (arith, h, le));
  frame = λ t i h.
      q.frame t i (omega (arith, h, p.ranks t (omega (arith, h, le))))
      ∙ p.frame t i (omega (arith, h, le));
  same_offset = q.same_offset ∙ p.same_offset;
  resolves = λ root virt r.
      q.resolves root virt (p.ranks root (omega (arith, r, lt, le)) ∙ r) ∙ p.resolves root virt r;
}

module _ (s : Paging) (rank : ℕ → ℕ) (k parent idx table : ℕ) (good : IsTables s rank)
    (way : Way s rank k parent idx table) where
  ranked : rank table ≡ suc k
  ranked = Way-rank s rank k parent idx table good way

  module _ (index n : ℕ) (p' : Pmm) (t : Turned s.pmm p' (sub64 table s.hhdm_offset) index n false)
      (valid' : State.IsValid p') where
    abbrev removed : Paging
    removed = record (clear_present s parent idx) { pmm = p' }

    abbrev rank_removed : ℕ → ℕ
    rank_removed x = if x == table then 0 else rank x

    rank_kept : (x : ℕ) → rank_removed x ≢ 0 → (x ≢ table) × (rank_removed x ≡ rank x)
    rank_kept x h = elim (Bool-cases (x == table)) [
      | inl e ↦ absurd (h (rw e refl))
      | inr ne ↦ (==→ne x table ne, rw ne refl)
    ]

    -- What is a table now was one before, and the entries that point to tables are old ones.
    pointer_removed :
        (x i m : ℕ)
        → Child removed rank_removed m x i
        → (removed.entries x i ≡ s.entries x i)
          × Child s rank m x i
          × (rank_removed (table_at s (s.entries x i)) ≡ suc m)
    pointer_removed x i m c =
        let (ne, same) = rank_kept x (λ z. absurd (omega (arith, z, c.ranked))) in
        let (e, o) = Child-cleared s parent idx rank m x i (record {
          ranked = sym same ∙ c.ranked;
          inside = c.inside;
          there = c.there;
          small = c.small;
        }) in
        let (e', away) = present_cleared s parent idx x i c.there in
        let next = good.children x i m o.ranked o.inside o.there o.small in
        let other : table_at s (s.entries x i) ≢ table = λ h.
          let em : k ≡ m = omega (arith, ap rank h, next, ranked) in
          away (
            good.single x i parent idx m o (subst (λ q. Child s rank q parent idx) em way.child)
              (h ∙ sym way.leads)) in
        (e, o, rw (ne→== (table_at s (s.entries x i)) table other) next)

    phys_other :
        (x : ℕ) → rank x ≢ 0 → x ≢ table → sub64 x s.hhdm_offset ≢ sub64 table s.hhdm_offset
    phys_other x h ne e = absurd (
        omega (
          arith,
          e,
          ne,
          good.word x h,
          good.word table (λ z. absurd (omega (arith, z, ranked))),
          good.offset,
        ))

    removed-IsTables : IsTables removed rank_removed
    removed-IsTables = record {
      valid = valid';
      ordered = Turned-IsOrdered s.pmm p' _ index n false t good.ordered;
      addressable = λ i a at. elim (Turned-get_elem? s.pmm p' _ index n false t i a at) [
        | inl (e, new) ↦ omega (
          arith,
          good.addressable index t.r t.was,
          ap (λ x. x.base) new,
          ap (λ x. x.region_length) new,
          t.differs,
        )
        | inr (ne, old) ↦ good.addressable i a old
      ];
      offset = good.offset;
      direct = good.direct;
      children = λ x i m r lt there small.
          let (e, o, next) =
            pointer_removed x i m
              (record { ranked = r; inside = lt; there = there; small = small }) in
          ap (λ raw. rank_removed (table_at s raw)) e ∙ next;
      single = λ x i x' i' m c c' same.
          let (e, o, next) = pointer_removed x i m c in
          let (e', o', next') = pointer_removed x' i' m c' in
          good.single x i x' i' m o o' (sym (ap (table_at s) e) ∙ same ∙ ap (table_at s) e');
      word = λ x h. let (ne, same) = rank_kept x h in good.word x (λ z. h (same ∙ z));
      used = λ x h.
          let (ne, same) = rank_kept x h in
          let was : rank x ≢ 0 = λ z. h (same ∙ z) in
          IsUsed-freed s.pmm p' _ index n _ t (phys_other x was ne) (good.used x was);
      owned = λ x h.
          let (ne, same) = rank_kept x h in
          IsOwned-Turned s.pmm p' _ index n false _ t (good.owned x (λ z. h (same ∙ z)));
    }

    removed-Pruned : IsEmpty s table → Pruned s removed rank rank_removed (suc k)
    unfolding resolve_virtual_address resolve_in_pdpr resolve_in_pd resolve_in_pt
    removed-Pruned empty = record {
      keeps = removed-IsTables;
      ranks = λ x h. rw (ne→== x table (λ e. absurd (omega (arith, ap rank e, ranked, h)))) refl;
      frame = λ x i h.
          away s parent idx (without_present (s.entries parent idx)) rank good x i
            (λ e. absurd (omega (arith, e, way.child.ranked, h)));
      same_offset = refl;
      resolves = λ root virt r. pruned_root s rank good k parent idx table way empty virt root r;
    }

  -- From well-formed tables, the check of a table that an entry leads to succeeds: either the table has
  -- an entry and nothing changes, or it is removed and its page freed.
  pub check_for_empty_table-Pruned :
      (s' : Paging) × (rank' : ℕ → ℕ) × (check_for_empty_table table parent idx s ≡ some s')
      × Pruned s s' rank rank' (suc k)
  unfolding check_for_empty_table
  check_for_empty_table-Pruned = elim (Bool-cases (table_empty num_entries (s.entries table))) [
    | inr filled ↦ (
      s,
      rank,
      rw (filled, check_for_empty_table) refl,
      record {
        keeps = good;
        ranks = λ t h. refl;
        frame = λ t i h. refl;
        same_offset = refl;
        resolves = λ root virt r. refl;
      },
    )
    | inl empty ↦
        let nonzero : rank table ≢ 0 = λ z. absurd (omega (arith, z, ranked)) in
        let (index, n, p', freed, t, valid') =
          free_owned s.pmm (sub64 table s.hhdm_offset) good.valid good.ordered
            (good.owned table nonzero) (good.used table nonzero) in
        (
          removed index n p' t valid',
          rank_removed index n p' t valid',
          rw (empty, check_for_empty_table, freed) refl,
          removed-Pruned index n p' t valid'
              (table_empty_sound num_entries (s.entries table) empty),
        )
  ]
