-- ===== src/Libc/Numbers.antt =====
-- `utoa`: the digits that it writes are those of the number.
use j_oe_s.Base.{
  ℕ, zero, suc, ◌+◌, ◌-◌, ◌*◌, ◌/◌, ◌%◌, ◌^◌, ◌<◌, ◌≤◌, ◌≡◌, ◌≢◌, inl, inr, true, false, some, ltb,
  ◌==◌, if◌then◌else◌, refl, subst, ap, sym, ◌∙◌, arith, Bool-cases, ==_iff, ==→ne, ne→==, ==_refl,
  word64,
}
use native.Mathlib.Nat.{div-add-mod, mod-lt, mul-le-mul_right}
use j_oe_s.Libc.{Memory, write, digit_char, utoa_loop, utoa}
use j_oe_s.Libc.Copy.{within}
use j_oe_s.Libc.Strings.{IsString, Reverses, strrev_lem}

-- The value of a digit 0-9 or a-z.
abbrev pub digit_value : ℕ → ℕ
digit_value c = if ltb c 58 then c - b'0' else c - 87

digit_char_lem : (t : ℕ) → t < 36 → (digit_value (digit_char t) ≡ t) × (digit_char t ≢ 0)
digit_char_lem t lt = (ground arith, λ e. ground (arith, e))

-- The number that `k` digits stand for, the most significant first.
unfoldable pub parse : (ℕ → ℕ) → ℕ → ℕ → ℕ
parse f base zero = 0
parse f base (suc k) = parse f base k * base + digit_value (f k)

-- The number that the digits `i`, …, `i + k - 1` stand for, the least significant first.
parse_low : (ℕ → ℕ) → ℕ → ℕ → ℕ → ℕ
parse_low f base zero i = 0
parse_low f base (suc k) i = digit_value (f i) + base * parse_low f base k (i + 1)

parse_ext :
    (f g : ℕ → ℕ) (base k : ℕ) → ((t : ℕ) → t < k → f t ≡ g t) → parse f base k ≡ parse g base k
unfolding parse
parse_ext f g base zero h = refl
parse_ext f g base (suc k) h =
    ap (λ p. p * base + digit_value (f k)) (parse_ext f g base k (λ t lt. h t (omega arith)))
    ∙ ap (λ c. parse g base k * base + digit_value c) (h k (omega arith))

parse_reversed :
    (f : ℕ → ℕ) (base k i : ℕ) → parse (λ t. f (i + k - 1 - t)) base k ≡ parse_low f base k i
unfolding parse parse_low
parse_reversed f base zero i = refl
parse_reversed f base (suc k) i =
    let rest = parse_reversed f base k (i + 1) in
    let shift =
      parse_ext (λ t. f (i + suc k - 1 - t)) (λ t. f (i + 1 + k - 1 - t)) base k
        (λ t lt. ap f (omega arith)) in
    let first : f (i + suc k - 1 - k) ≡ f i = ap f (omega arith) in
    ap (λ c. parse (λ t. f (i + suc k - 1 - t)) base k * base + digit_value c) first
    ∙ grind (arith, shift, rest)

quotient_small : (number base bound : ℕ) → 2 ≤ base → number < 2 * bound → number / base < bound
quotient_small number base bound two h =
    omega (arith, div-add-mod number base, mul-le-mul_right (number / base) two)

-- What the loop left behind: `k` digits of the number from index `i` on.
record Digits (m m' : Memory) (number i str base k : ℕ) : Type 0 where
  frame : (y : ℕ) → within (str + i) k y ≡ false → m' y ≡ m y
  digits : parse_low (λ t. m' (str + t)) base k i ≡ number
  nonzero : (t : ℕ) → i ≤ t → t < i + k → m' (str + t) ≢ 0
  some_digit : number ≢ 0 → 0 < k

-- What the loop returns from `number` on.
abbrev Written : ℕ → ℕ → ℕ → ℕ → ℕ → Memory → Type 0
Written fuel number i str base m =
    (k : ℕ) × (m' : Memory) × (utoa_loop (suc fuel) number i str base m ≡ some (i + k, m'))
    × (k ≤ fuel)
    × Digits m m' number i str base k

utoa_loop_ends :
    (fuel number i str base : ℕ) (m : Memory) → number ≡ 0 → Written fuel number i str base m
unfolding utoa_loop parse_low
utoa_loop_ends fuel number i str base m e = (
  0,
  m,
  rw (e, utoa_loop) (ap (λ a. some (a, m)) (omega arith)),
  omega arith,
  record {
    frame = λ y out. refl;
    digits = sym e;
    nonzero = λ t p q. absurd (omega arith);
    some_digit = λ ne. absurd (ne e);
  },
)

utoa_loop_goes_on :
    (fuel number i str base : ℕ) (m : Memory)
    → 2 ≤ base
    → base ≤ 36
    → number ≢ 0
    → Written fuel (number / base) (i + 1) str base (write m (str + i) (digit_char (number % base)))
    → Written (suc fuel) number i str base m
unfolding utoa_loop parse_low
utoa_loop_goes_on fuel number i str base m two big ne (k, m', e, few, d) =
    let digit = number % base in
    let small : digit < 36 = omega (arith, mod-lt number {m = base} (omega arith), two, big) in
    let (value, char) = digit_char_lem digit small in
    let here : m' (str + i) ≡ digit_char digit =
      d.frame (str + i) (ground arith) ∙ rw (==_refl (str + i)) refl in
    (
      suc k,
      m',
      rw (ne→== number 0 ne, utoa_loop) (e ∙ ap (λ a. some (a, m')) (omega arith)),
      omega (arith, few),
      record {
        frame = λ y out. d.frame y (ground (arith, out)) ∙ ground (arith, out);
        digits = grind (arith, d.digits, ap digit_value here, value, div-add-mod number base);
        nonzero = λ t p q. elim (Bool-cases (t == i)) [
          | inl same ↦ λ z. char (sym here ∙ ap (λ a. m' (str + a)) (sym ((==_iff t i).0 same)) ∙ z)
          | inr other ↦ d.nonzero t (omega (arith, ==→ne t i other)) (omega arith)
        ];
        some_digit = λ z. omega arith;
      },
    )

utoa_loop_lem :
    (fuel number i str base : ℕ) (m : Memory)
    → 2 ≤ base
    → base ≤ 36
    → number < 2 ^ fuel
    → Written fuel number i str base m
utoa_loop_lem zero number i str base m two big h =
    utoa_loop_ends zero number i str base m (omega arith)
utoa_loop_lem (suc fuel) number i str base m two big h = elim (Bool-cases (number == 0)) [
  | inl z ↦ utoa_loop_ends (suc fuel) number i str base m ((==_iff number 0).0 z)
  | inr nz ↦ utoa_loop_goes_on fuel number i str base m two big (==→ne number 0 nz) (
      utoa_loop_lem fuel (number / base) (i + 1) str base
        (write m (str + i) (digit_char (number % base))) two big
        (quotient_small number base (2 ^ fuel) two (omega arith)))
]

-- The string in `m'` has the digits of the number, and nothing behind it differs from `m`.
abbrev pub Prints : Memory → Memory → ℕ → ℕ → ℕ → ℕ → Type 0
Prints m m' number str base k =
    IsString m' str k
    × (parse (λ t. m' (str + t)) base k ≡ number)
    × ((y : ℕ) → within str (k + 1) y ≡ false → m' y ≡ m y)

Prints-zero :
    (m : Memory) (str base : ℕ) → Prints m (write (write m str b'0') (str + 1) 0) 0 str base 1
unfolding parse
Prints-zero m str base = (
  record { chars = λ i lt e. absurd (ground (arith, e)); terminated = rw (==_refl (str + 1)) refl },
  ground arith,
  λ y out. ground (arith, out),
)

module _ (m m1 m2 : Memory) (number str base k : ℕ) (d : Digits m m1 number 0 str base k) where
  ended-IsString : IsString (write m1 (str + k) 0) str k
  ended-IsString = record {
    chars = λ i lt e. d.nonzero i (omega arith) (omega arith) (ground (arith, e));
    terminated = rw (==_refl (str + k)) refl;
  }

  module _ (r : Reverses (write m1 (str + k) 0) m2 str k) where
    char_at : (t : ℕ) → t < k → m2 (str + t) ≡ m1 (str + (0 + k - 1 - t))
    char_at t lt =
        let at = str + (str + k - 1 - (str + t)) in
        let covered : within str k (str + t) ≡ true = ground arith in
        let kept : write m1 (str + k) 0 at ≡ m1 at = ground arith in
        let same : m1 at ≡ m1 (str + (0 + k - 1 - t)) = ap m1 (omega arith) in
        r (str + t) ∙ rw covered (kept ∙ same)

    Prints-digits : Prints m m2 number str base k
    Prints-digits = (
      record {
        chars = λ i lt e.
            d.nonzero (0 + k - 1 - i) (omega arith) (omega arith) (sym (char_at i lt) ∙ e);
        terminated = ground (arith, r (str + k));
      },
      parse_ext (λ t. m2 (str + t)) (λ t. m1 (str + (0 + k - 1 - t))) base k char_at
          ∙ parse_reversed (λ t. m1 (str + t)) base k 0
          ∙ d.digits,
      λ y out. ground (arith, r y, out, d.frame y),
    )

-- What `utoa` writes, with a bound on the number of digits.
pub utoa_lem :
    (m : Memory) (number str base : ℕ)
    → number < word64
    → 2 ≤ base
    → base ≤ 36
    → str + 66 < word64
    → (k : ℕ) × (m' : Memory) × (utoa 66 m number str base ≡ some m')
      × (k ≤ 65)
      × Prints m m' number str base k
unfolding utoa
utoa_lem m number str base lt two big room = elim (Bool-cases (number == 0)) [
  | inl z ↦
      let e = (==_iff number 0).0 z in
      (
        1,
        write (write m str b'0') (str + 1) 0,
        rw (z, utoa) refl,
        omega arith,
        subst (λ n. Prints m (write (write m str b'0') (str + 1) 0) n str base 1) (sym e)
            (Prints-zero m str base),
      )
  | inr nz ↦
      let (k, m1, e, few, d) = utoa_loop_lem 65 number 0 str base m two big (omega (arith, lt)) in
      let returned : utoa_loop 66 number 0 str base m ≡ some (k, m1) =
        e ∙ ap (λ a. some (a, m1)) (omega arith) in
      let string = ended-IsString m m1 m1 number str base k d in
      let (m2, e', r) =
        strrev_lem 66 k str (write m1 (str + k) 0) string (d.some_digit (==→ne number 0 nz))
          (omega (arith, few)) (omega (arith, few)) in
      (
        k,
        m2,
        rw (nz, utoa, returned) e',
        omega (arith, few),
        Prints-digits m m1 m2 number str base k d r,
      )
]

-- `utoa` writes a string whose digits stand for a 64-bit number in the given base, from 2 to 36,
-- and changes nothing behind it, where the address space has 66 bytes there. It takes at most 65
-- rounds of each loop.
pub parse-utoa :
    (m : Memory) (number str base : ℕ)
    → number < word64
    → 2 ≤ base
    → base ≤ 36
    → str + 66 < word64
    → (k : ℕ) × (m' : Memory) × (utoa 66 m number str base ≡ some m')
      × Prints m m' number str base k
parse-utoa m number str base lt two big room =
    let (k, m', e, few, prints) = utoa_lem m number str base lt two big room in (k, m', e, prints)
