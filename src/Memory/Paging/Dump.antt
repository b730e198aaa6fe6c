-- ===== src/Memory/Paging/Dump.antt =====
-- kernel/src/memory/paging.c: `paging_dump_page_table`. The recursion goes one level down at a time, so
-- each level is a function of its own; the static indices are the state, with what is logged.
pub mod Listing
use j_oe_s.Base.{
  ℕ, zero, suc, ◌+◌, ◌-◌, ◌*◌, ◌%◌, ◌^◌, Bool, true, false, Option, none, some, List, [], ◌∷◌, ◌++◌,
  ltb, if◌then◌else◌, add64, word64,
}
use j_oe_s.Memory.Paging.{Paging, num_entries}
use j_oe_s.Memory.Paging.Entry.{Level, pml4, pdpr, pd, pt, is_present, is_large, field}

-- A message: the level that its format names, with the note on a large page or without, and the
-- arguments, the indices and the entry. An index is `none` for the initial -1.
pub record Line : Type 0 where
  pub level : Level
  pub is_large_page : Bool
  pub indices : List (Option ℕ)
  pub raw : ℕ

-- The static variables, and the messages so far.
pub record Dump : Type 0 where
  pub pml4_at : Option ℕ
  pub pdpr_at : Option ℕ
  pub pd_at : Option ℕ
  pub pt_at : Option ℕ
  pub lines : List Line

abbrev pub log_line : Line → Dump → Dump
log_line line d = record d { lines = d.lines ++ (line ∷ []) }

-- The pointer to the next table. The field is narrower than an `int` and not converted before the shift,
-- which is therefore one of 32-bit numbers, with a sign.
unfoldable pub dump_table_at : Paging → ℕ → ℕ
dump_table_at s raw =
    let shifted = field raw 12 28 * 2 ^ 12 % 2 ^ 32 in
    add64 (if ltb shifted (2 ^ 31) then shifted else shifted + (word64 - 2 ^ 32)) s.hhdm_offset

-- The loop over the entries, with `left` rounds left.
unfoldable pub dump_entries : ℕ → ℕ → (ℕ → ℕ) → (ℕ → Dump → Dump) → Dump → Dump
dump_entries zero idx entries body d = d
dump_entries (suc left) idx entries body d =
    dump_entries left (idx + 1) entries body (if is_present (entries idx) then body idx d else d)

unfoldable pub dump_pt : Paging → ℕ → Dump → Dump
dump_pt s table = dump_entries num_entries 0 (s.entries table) (λ idx d.
    log_line
      (record {
        level = pt;
        is_large_page = false;
        indices = d.pml4_at ∷ d.pdpr_at ∷ d.pd_at ∷ some idx ∷ [];
        raw = s.entries table idx;
      })
      (record d { pt_at = some idx }))

unfoldable pub dump_pd : Paging → ℕ → Dump → Dump
dump_pd s table = dump_entries num_entries 0 (s.entries table) (λ idx d.
    let raw = s.entries table idx in
    let logged =
      log_line
        (record {
          level = pd;
          is_large_page = is_large raw;
          indices = d.pml4_at ∷ d.pdpr_at ∷ some idx ∷ [];
          raw = raw;
        })
        (record d { pd_at = some idx }) in
    if is_large raw then logged else dump_pt s (dump_table_at s raw) logged)

unfoldable pub dump_pdpr : Paging → ℕ → Dump → Dump
dump_pdpr s table = dump_entries num_entries 0 (s.entries table) (λ idx d.
    let raw = s.entries table idx in
    let logged =
      log_line
        (record {
          level = pdpr;
          is_large_page = is_large raw;
          indices = d.pml4_at ∷ some idx ∷ [];
          raw = raw;
        })
        (record d { pdpr_at = some idx }) in
    if is_large raw then logged else dump_pd s (dump_table_at s raw) logged)

unfoldable pub dump_pml4 : Paging → ℕ → Dump → Dump
dump_pml4 s table = dump_entries num_entries 0 (s.entries table) (λ idx d.
    let raw = s.entries table idx in
    dump_pdpr s (dump_table_at s raw) (
      log_line (record { level = pml4; is_large_page = false; indices = some idx ∷ []; raw = raw })
        (record d { pml4_at = some idx })))

-- `paging_dump_page_table`
unfoldable pub dump_page_table : Paging → ℕ → Level → Dump → Dump
dump_page_table s table pml4 = dump_pml4 s table
dump_page_table s table pdpr = dump_pdpr s table
dump_page_table s table pd = dump_pd s table
dump_page_table s table pt = dump_pt s table
