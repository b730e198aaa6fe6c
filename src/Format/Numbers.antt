-- ===== src/Format/Numbers.antt =====
-- Messages of logging.c whose specifiers are %d and %x: their text is made.
use j_oe_s.Base.{
  ℕ, ◌+◌, ◌-◌, ◌<◌, ◌≤◌, ◌^◌, ◌≡◌, ◌⊎◌, inl, inr, refl, ◌∙◌, arith, Bool, true, false, some, List,
  [], ◌∷◌, ◌++◌, ◌==◌, Bool-cases, u32, word64, ltb, subst,
}
use j_oe_s.Libc.{Memory, utoa, itoa}
use j_oe_s.Libc.Strings.{strlen_lem}
use j_oe_s.Libc.Numbers.{utoa_lem}
use j_oe_s.Format.{
  Argument, a_number, a_string, a_place, specifier_of, next_number, buffer_text, unsigned_text,
  signed_text, read_chars, prefix_of,
}
use j_oe_s.Format.Logging.{Logger, log_loop, log_char, convert}

-- The specifiers of the rest of a format string, read in a mode, have their arguments.
abbrev pub Fits : Bool → List ℕ → List Argument → Type 0
Fits false [] args = Unit {0}
Fits false (c ∷ rest) args = Fits (c == b'%') rest args
Fits true [] args = Unit {0}
Fits true (c ∷ rest) (a_number n ∷ args) =
    (((c ≡ b'd') × (u32 n < 2 ^ 31)) ⊎ (c ≡ b'x')) × Fits false rest args
Fits true (c ∷ rest) _ = ⊥

module _ (memory : Memory) (buffer : ℕ) (room : buffer + 66 < word64) where
  unsigned_text_lem :
      (n base : ℕ)
      → n < word64
      → 2 ≤ base
      → base ≤ 36
      → (text : List ℕ) × (unsigned_text memory buffer n base ≡ some text)
  unfolding buffer_text
  unsigned_text_lem n base lt two big =
      let (k, m', e, few, prints) = utoa_lem memory n buffer base lt two big room in
      let len = strlen_lem 66 k buffer m' prints.0 (omega (arith, few)) in
      (read_chars k buffer m', rw (e, buffer_text, len) refl)

  signed_text_lem :
      (n : ℕ) → u32 n < 2 ^ 31 → (text : List ℕ) × (signed_text memory buffer n ≡ some text)
  unfolding itoa utoa
  signed_text_lem n small =
      let (text, e) =
        unsigned_text_lem (u32 n) 10 (omega (arith, small)) (omega arith) (omega arith) in
      let sign : ltb (2 ^ 31 - 1) (u32 n) ≡ false = ground (arith, small) in (text, rw sign e)

  abbrev at_mode : Bool → ℕ → List ℕ → List Argument → Logger
  at_mode mode prefix output args = record {
    formatting = mode;
    prefix = prefix;
    output = output;
    args = args;
  }

  decimal_step :
      (complaint : ℕ → List ℕ) (c n prefix : ℕ) (rest output text : List ℕ) (args : List Argument)
      → c ≡ b'd'
      → signed_text memory buffer n ≡ some text
      → log_loop memory buffer complaint (c ∷ rest) (at_mode true prefix output (a_number n ∷ args))
        ≡ log_loop memory buffer complaint rest
            (at_mode false prefix (output ++ (prefix_of prefix n ++ text)) args)
  unfolding log_loop log_char convert next_number specifier_of
  decimal_step complaint c n prefix rest output text args e made =
      rw (e, log_loop, log_char, convert, made) refl

  hex_step :
      (complaint : ℕ → List ℕ) (c n prefix : ℕ) (rest output text : List ℕ) (args : List Argument)
      → c ≡ b'x'
      → unsigned_text memory buffer (u32 n) 16 ≡ some text
      → log_loop memory buffer complaint (c ∷ rest) (at_mode true prefix output (a_number n ∷ args))
        ≡ log_loop memory buffer complaint rest (at_mode false prefix (output ++ text) args)
  unfolding log_loop log_char convert next_number specifier_of
  hex_step complaint c n prefix rest output text args e made =
      rw (e, log_loop, log_char, convert, made) refl

  pub log_loop-Fits :
      (complaint : ℕ → List ℕ) (mode : Bool) (msg : List ℕ) (prefix : ℕ) (output : List ℕ)
      (args : List Argument)
      → Fits mode msg args
      → (l : Logger) × (log_loop memory buffer complaint msg (at_mode mode prefix output args)
          ≡ some l)
  unfolding log_loop log_char convert next_number specifier_of
  log_loop-Fits complaint false [] prefix output args f = (at_mode false prefix output args, refl)
  log_loop-Fits complaint true [] prefix output args f = (at_mode true prefix output args, refl)
  log_loop-Fits complaint false (c ∷ rest) prefix output args f = elim (Bool-cases (c == b'%')) [
    | inl percent ↦
        let (l, e) =
          log_loop-Fits complaint true rest 0 output args
            (subst (λ m. Fits m rest args) percent f) in
        (l, rw (percent, log_loop, log_char) e)
    | inr other ↦
        let (l, e) =
          log_loop-Fits complaint false rest prefix (output ++ (c ∷ [])) args
            (subst (λ m. Fits m rest args) other f) in
        (l, rw (other, log_loop, log_char) e)
  ]
  log_loop-Fits complaint true (c ∷ rest) prefix output [] f = absurd f
  log_loop-Fits complaint true (c ∷ rest) prefix output (a_string s ∷ args) f = absurd f
  log_loop-Fits complaint true (c ∷ rest) prefix output (a_place s ∷ args) f = absurd f
  log_loop-Fits complaint true (c ∷ rest) prefix output (a_number n ∷ args) (inl (e, small), f) =
      let (text, made) = signed_text_lem n small in
      let (l, goes) =
        log_loop-Fits complaint false rest prefix (output ++ (prefix_of prefix n ++ text)) args f in
      (l, decimal_step complaint c n prefix rest output text args e made ∙ goes)
  log_loop-Fits complaint true (c ∷ rest) prefix output (a_number n ∷ args) (inr e, f) =
      let (text, made) = unsigned_text_lem (u32 n) 16 (omega arith) (omega arith) (omega arith) in
      let (l, goes) = log_loop-Fits complaint false rest prefix (output ++ text) args f in
      (l, hex_step complaint c n prefix rest output text args e made ∙ goes)
