-- ===== src/Memory/Paging/Dump/Listing.antt =====
-- What `paging_dump_page_table` logs for the tables of an address space.
use j_oe_s.Base.{
  ℕ, zero, suc, ◌+◌, ◌^◌, ◌<◌, ◌≡◌, ◌⊎◌, inl, inr, Bool, true, false, Option, some, List, [], ◌∷◌,
  ◌++◌, Bool-cases, refl, ap, sym, ◌∙◌, arith, if◌then◌else◌,
}
use mathlib.Core.List.{append_assoc, append-nil}
use j_oe_s.Memory.Paging.{Paging, table_at, num_entries}
use j_oe_s.Memory.Paging.Entry.{Level, pml4, pdpr, pd, pt, is_present, is_large, base_4kb}
use j_oe_s.Memory.Paging.Tables.{IsTables, Child}
use j_oe_s.Memory.Paging.Dump.{
  Line, Dump, log_line, dump_table_at, dump_entries, dump_pt, dump_pd, dump_pdpr, dump_pml4,
  dump_page_table,
}

-- What the present entries of a table contribute, in their order.
unfoldable pub flat : ℕ → ℕ → (ℕ → ℕ) → (ℕ → List Line) → List Line
flat zero idx entries part = []
flat (suc left) idx entries part =
    (if is_present (entries idx) then part idx else []) ++ flat left (idx + 1) entries part

-- The entries of the tables below, each with the indices on the way to it.
abbrev pub line_at : Level → Bool → List (Option ℕ) → ℕ → Line
line_at level large way raw = record {
  level = level;
  is_large_page = large;
  indices = way;
  raw = raw;
}

unfoldable pub list_pt : Paging → ℕ → ℕ → ℕ → ℕ → List Line
list_pt s i4 i3 i2 t =
    flat num_entries 0 (s.entries t)
      (λ i. line_at pt false (some i4 ∷ some i3 ∷ some i2 ∷ some i ∷ []) (s.entries t i) ∷ [])

unfoldable pub list_pd : Paging → ℕ → ℕ → ℕ → List Line
list_pd s i4 i3 t = flat num_entries 0 (s.entries t) (λ i.
    let raw = s.entries t i in
    line_at pd (is_large raw) (some i4 ∷ some i3 ∷ some i ∷ []) raw
    ∷ (if is_large raw then [] else list_pt s i4 i3 i (table_at s raw)))

unfoldable pub list_pdpr : Paging → ℕ → ℕ → List Line
list_pdpr s i4 t = flat num_entries 0 (s.entries t) (λ i.
    let raw = s.entries t i in
    line_at pdpr (is_large raw) (some i4 ∷ some i ∷ []) raw
    ∷ (if is_large raw then [] else list_pd s i4 i (table_at s raw)))

unfoldable pub list_pml4 : Paging → ℕ → List Line
list_pml4 s t = flat num_entries 0 (s.entries t) (λ i.
    let raw = s.entries t i in
    line_at pml4 false (some i ∷ []) raw ∷ list_pdpr s i (table_at s raw))

-- The tables lie in the first two gigabytes of memory.
abbrev pub AreLow : Paging → (ℕ → ℕ) → Type 0
AreLow s rank = (k t i : ℕ) → Child s rank k t i → base_4kb (s.entries t i) < 2 ^ 31

dump_table_at_low :
    (s : Paging) (raw : ℕ) → base_4kb raw < 2 ^ 31 → dump_table_at s raw ≡ table_at s raw
unfolding dump_table_at
dump_table_at_low s raw low = ground arith

-- A loop whose rounds log `part` and keep `Keeps` logs all of the parts.
loop_lem :
    (left idx : ℕ) (entries : ℕ → ℕ) (body : ℕ → Dump → Dump) (part : ℕ → List Line)
    (Keeps : Dump → Type 0)
    → ((i : ℕ) (d : Dump)
        → i < idx + left
        → is_present (entries i) ≡ true
        → Keeps d
        → ((body i d).lines ≡ d.lines ++ part i) × Keeps (body i d))
    → (d : Dump) → Keeps d
    → ((dump_entries left idx entries body d).lines ≡ d.lines ++ flat left idx entries part)
      × Keeps (dump_entries left idx entries body d)
unfolding dump_entries flat
loop_lem zero idx entries body part Keeps round d h = (sym (append-nil d.lines), h)
loop_lem (suc left) idx entries body part Keeps round d h =
    elim (Bool-cases (is_present (entries idx))) [
      | inr absent ↦
          rw (absent, dump_entries, flat)
            (loop_lem left (idx + 1) entries body part Keeps
              (λ i d' lt. round i d' (omega (arith, lt))) d h)
      | inl there ↦
          let (e, h') = round idx d (omega arith) there h in
          let (e', h'') =
            loop_lem left (idx + 1) entries body part Keeps
              (λ i d' lt. round i d' (omega (arith, lt))) (body idx d) h' in
          rw (there, dump_entries, flat)
            (
              e'
                  ∙ ap (λ l. l ++ flat left (idx + 1) entries part) e
                  ∙ append_assoc d.lines (part idx) (flat left (idx + 1) entries part),
              h'',
            )
    ]

-- One line, and what follows it.
line_then :
    (l : List Line) (line : Line) (below rest : List Line)
    → l ≡ below ++ (line ∷ [])
    → l ++ rest ≡ below ++ (line ∷ rest)
line_then l line below rest e = ap (λ q. q ++ rest) e ∙ append_assoc below (line ∷ []) rest

-- The static indices of the levels above are those of the way.
abbrev At3 : ℕ → ℕ → ℕ → Dump → Type 0
At3 i4 i3 i2 d = (d.pml4_at ≡ some i4) × (d.pdpr_at ≡ some i3) × (d.pd_at ≡ some i2)

abbrev At2 : ℕ → ℕ → Dump → Type 0
At2 i4 i3 d = (d.pml4_at ≡ some i4) × (d.pdpr_at ≡ some i3)

abbrev At1 : ℕ → Dump → Type 0
At1 i4 d = d.pml4_at ≡ some i4

module _ (s : Paging) where
  dump_pt_lem :
      (i4 i3 i2 t : ℕ) (d : Dump)
      → At3 i4 i3 i2 d
      → ((dump_pt s t d).lines ≡ d.lines ++ list_pt s i4 i3 i2 t) × At3 i4 i3 i2 (dump_pt s t d)
  unfolding dump_pt list_pt
  dump_pt_lem i4 i3 i2 t d h =
      loop_lem num_entries 0 (s.entries t) _ _ (At3 i4 i3 i2)
        (λ i d' lt there k. (rw (k.0, k.1, k.2) refl, (k.0, k.1, k.2))) d h

module _ (s : Paging) (rank : ℕ → ℕ) (good : IsTables s rank) (low : AreLow s rank) where
  same_table :
      (k t i : ℕ)
      → rank t ≡ suc (suc k)
      → i < 512
      → is_present (s.entries t i) ≡ true
      → (is_large (s.entries t i) ≡ false) ⊎ (k ≡ 2)
      → (dump_table_at s (s.entries t i) ≡ table_at s (s.entries t i))
        × (rank (table_at s (s.entries t i)) ≡ suc k)
  same_table k t i r lt there small = (
    dump_table_at_low s (s.entries t i)
        (low k t i (record { ranked = r; inside = lt; there = there; small = small })),
    good.children t i k r lt there small,
  )

  dump_pd_lem :
      (i4 i3 t : ℕ)
      → rank t ≡ 2
      → (d : Dump) → At2 i4 i3 d
      → ((dump_pd s t d).lines ≡ d.lines ++ list_pd s i4 i3 t) × At2 i4 i3 (dump_pd s t d)
  unfolding dump_pd list_pd
  dump_pd_lem i4 i3 t r d h =
      loop_lem num_entries 0 (s.entries t) _ _ (At2 i4 i3)
        (λ i d' lt there k. elim (Bool-cases (is_large (s.entries t i))) [
          | inl large ↦ rw large (rw (k.0, k.1) refl, (k.0, k.1))
          | inr small ↦
              let raw = s.entries t i in
              let (same, next) = same_table 0 t i r lt there (inl small) in
              let logged =
                log_line (line_at pd false (d'.pml4_at ∷ d'.pdpr_at ∷ some i ∷ []) raw)
                  (record d' { pd_at = some i }) in
              let (e, a) = dump_pt_lem s i4 i3 i (table_at s raw) logged (k.0, k.1, refl) in
              rw (small, same)
                (
                  e
                      ∙ line_then logged.lines
                          (line_at pd false (some i4 ∷ some i3 ∷ some i ∷ []) raw) d'.lines _
                          (rw (k.0, k.1) refl),
                  (a.0, a.1),
                )
        ])
        d h

  dump_pdpr_lem :
      (i4 t : ℕ)
      → rank t ≡ 3
      → (d : Dump) → At1 i4 d
      → ((dump_pdpr s t d).lines ≡ d.lines ++ list_pdpr s i4 t) × At1 i4 (dump_pdpr s t d)
  unfolding dump_pdpr list_pdpr
  dump_pdpr_lem i4 t r d h =
      loop_lem num_entries 0 (s.entries t) _ _ (At1 i4)
        (λ i d' lt there k. elim (Bool-cases (is_large (s.entries t i))) [
          | inl large ↦ rw large (rw k refl, k)
          | inr small ↦
              let raw = s.entries t i in
              let (same, next) = same_table 1 t i r lt there (inl small) in
              let logged =
                log_line (line_at pdpr false (d'.pml4_at ∷ some i ∷ []) raw)
                  (record d' { pdpr_at = some i }) in
              let (e, a) = dump_pd_lem i4 i (table_at s raw) next logged (k, refl) in
              rw (small, same)
                (
                  e
                      ∙ line_then logged.lines (line_at pdpr false (some i4 ∷ some i ∷ []) raw)
                          d'.lines _ (rw k refl),
                  a.0,
                )
        ])
        d h

  -- From well-formed tables below 2 GB, whatever the static indices were, `paging_dump_page_table` of a
  -- PML4 logs a line for each present entry of each table, in the order of the entries, those of a
  -- table right behind the entry that points to it, each with the indices on the way to it.
  pub dump_page_table_lem :
      (root : ℕ) (d : Dump)
      → rank root ≡ 4
      → (dump_page_table s root pml4 d).lines ≡ d.lines ++ list_pml4 s root
  unfolding dump_page_table dump_pml4 list_pml4
  dump_page_table_lem root d r =
      (loop_lem num_entries 0 (s.entries root) _ _ (λ d'. d'.lines ≡ d'.lines)
        (λ i d' lt there k.
          let raw = s.entries root i in
          let (same, next) = same_table 2 root i r lt there (inr refl) in
          let logged =
            log_line (line_at pml4 false (some i ∷ []) raw) (record d' { pml4_at = some i }) in
          let (e, a) = dump_pdpr_lem i (table_at s raw) next logged refl in
          rw same (
            e ∙ line_then logged.lines (line_at pml4 false (some i ∷ []) raw) d'.lines _ refl,
            refl,
          ))
        d refl).0
