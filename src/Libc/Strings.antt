-- ===== src/Libc/Strings.antt =====
-- What `strlen` and `strrev` do.
use j_oe_s.Base.{
  ℕ, zero, suc, ◌+◌, ◌-◌, ◌<◌, ◌≤◌, ◌≡◌, ◌≢◌, inl, inr, true, false, some, ltb, ◌==◌, if◌then◌else◌,
  refl, subst, ap, ◌∙◌, arith, Bool-cases, ==_iff, ==→ne, ne→==, word64, add64, sub64,
}
use j_oe_s.Libc.{Memory, strlen_loop, strlen, swap, strrev_loop, strrev}
use j_oe_s.Libc.Copy.{within}

-- A string of `n` characters stands at `str`.
pub record IsString (m : Memory) (str n : ℕ) : Type 0 where
  pub chars : (i : ℕ) → i < n → m (str + i) ≢ 0
  pub terminated : m (str + n) ≡ 0

strlen_loop_lem :
    (fuel i n str : ℕ) (m : Memory)
    → ((j : ℕ) → i ≤ j → j < i + n → m (str + j) ≢ 0)
    → m (str + (i + n)) ≡ 0
    → n < fuel
    → strlen_loop fuel i str m ≡ some (i + n)
unfolding strlen_loop
strlen_loop_lem zero i n str m h z lt = absurd (omega arith)
strlen_loop_lem (suc fuel) i zero str m h z lt =
    let here : m (str + i) ≡ 0 = ap (λ a. m (str + a)) (omega arith) ∙ z in
    rw (here, strlen_loop) (ap some (omega arith))
strlen_loop_lem (suc fuel) i (suc n) str m h z lt =
    rw (ne→== (m (str + i)) 0 (h i (omega arith) (omega arith)), strlen_loop)
      (strlen_loop_lem fuel (i + 1) n str m (λ j p q. h j (omega arith) (omega arith))
          (ap (λ a. m (str + a)) (omega arith) ∙ z) (omega arith)
        ∙ ap some (omega arith))

-- `strlen` returns the number of the characters before the first NUL, after one round for each.
pub strlen_lem :
    (fuel n str : ℕ) (m : Memory) → IsString m str n → n < fuel → strlen fuel m str ≡ some n
unfolding strlen
strlen_lem fuel n str m s lt =
    strlen_loop_lem fuel 0 n str m (λ j p q. s.chars j (omega arith))
      (ap (λ a. m (str + a)) (omega arith) ∙ s.terminated) lt
    ∙ ap some (omega arith)

-- `m'` is `m` with the `d` bytes from `start` on in reverse order.
abbrev pub Reverses : Memory → Memory → ℕ → ℕ → Type 0
Reverses m m' start d =
    (y : ℕ) → m' y ≡ (if within start d y then m (start + (start + d - 1 - y)) else m y)

-- One round, at indices that do not wrap.
swap_lem :
    (str i j : ℕ) (m : Memory) (y : ℕ)
    → str + i < word64
    → str + j < word64
    → swap str i j m y
      ≡ (if y == str + j then m (str + i) else if y == str + i then m (str + j) else m y)
swap_lem str i j m y p q =
    let a : add64 str i ≡ str + i = omega arith in
    let b : add64 str j ≡ str + j = omega arith in rw (a, b) refl

-- Reversing the inside of a range after its ends were swapped reverses the range.
module _ (str i d : ℕ) (m m' : Memory) (small : str + i + suc (suc d) < word64)
    (inner : Reverses (swap str i (i + suc d) m) m' (str + (i + 1)) d) where
  abbrev mirror : ℕ → ℕ
  mirror y = str + i + (str + i + suc (suc d) - 1 - y)

  swapped :
      (y : ℕ)
      → swap str i (i + suc d) m y ≡ (
          if y == str + (i + suc d)
          then m (str + i)
          else if y == str + i
          then m (str + (i + suc d))
          else m y)
  swapped y = swap_lem str i (i + suc d) m y (omega arith) (omega arith)

  Reverses-swap : Reverses m m' (str + i) (suc (suc d))
  Reverses-swap y = elim (Bool-cases (y == str + i)) [
    | inl first ↦
        let e = (==_iff y (str + i)).0 first in
        let same : m (str + (i + suc d)) ≡ m (mirror y) = ap m (omega (arith, e)) in
        ground (arith, inner y, swapped y, e, same)
    | inr not_first ↦ elim (Bool-cases (y == str + (i + suc d))) [
      | inl last ↦
          let e = (==_iff y (str + (i + suc d))).0 last in
          let same : m (str + i) ≡ m (mirror y) = ap m (omega (arith, e)) in
          ground (arith, inner y, swapped y, e, same)
      | inr not_last ↦
          let ne = ==→ne y (str + i) not_first in
          let ne' = ==→ne y (str + (i + suc d)) not_last in
          elim (Bool-cases (within (str + (i + 1)) d y)) [
            | inl inside ↦
                let at = str + (i + 1) + (str + (i + 1) + d - 1 - y) in
                let same : m at ≡ m (mirror y) = ap m (ground (arith, inside)) in
                let kept : swap str i (i + suc d) m at ≡ m at =
                  ground (arith, swapped at, inside) in
                let covered : within (str + i) (suc (suc d)) y ≡ true = ground (arith, inside) in
                inner y ∙ rw (inside, covered) (kept ∙ same)
            | inr outside ↦
                let uncovered : within (str + i) (suc (suc d)) y ≡ false =
                  ground (arith, outside, ne, ne') in
                let kept : swap str i (i + suc d) m y ≡ m y = ground (arith, swapped y, ne, ne') in
                inner y ∙ rw (outside, uncovered) kept
          ]
    ]
  ]

strrev_loop_lem :
    (fuel i d str : ℕ) (m : Memory)
    → str + i + d < word64
    → 0 < i + d
    → d < fuel
    → (m' : Memory) × (strrev_loop fuel i (i + d - 1) str m ≡ some m') × Reverses m m' (str + i) d
unfolding strrev_loop
strrev_loop_lem zero i d str m small pos lt = absurd (omega arith)
strrev_loop_lem (suc fuel) i zero str m small pos lt = (m, ground arith, λ y. ground arith)
strrev_loop_lem (suc fuel) i (suc zero) str m small pos lt = (
  m,
  ground arith,
  λ y. elim (Bool-cases (y == str + i)) [
    | inl e ↦
        let here = (==_iff y (str + i)).0 e in
        let same : m y ≡ m (str + i + (str + i + 1 - 1 - y)) = ap m (omega (arith, here)) in
        ground (arith, here, same)
    | inr ne ↦ ground (arith, ==→ne y (str + i) ne)
  ],
)
strrev_loop_lem (suc fuel) i (suc (suc d)) str m small pos lt =
    let w = swap str i (i + suc d) m in
    let (m', e, inner) =
      strrev_loop_lem fuel (i + 1) d str w (omega arith) (omega arith) (omega arith) in
    let j : i + suc (suc d) - 1 ≡ i + suc d = omega arith in
    let next : sub64 (i + suc d) 1 ≡ i + 1 + d - 1 = omega arith in
    let less : ltb i (i + suc d) ≡ true = ground arith in
    (m', rw (j, strrev_loop, less, next) e, Reverses-swap str i d m m' small inner)

-- `strrev` of a string that is not empty and does not reach past the address space reverses its
-- characters and changes nothing else, after fewer rounds than the string has bytes.
pub strrev_lem :
    (fuel n str : ℕ) (m : Memory)
    → IsString m str n
    → 0 < n
    → str + n < word64
    → n < fuel
    → (m' : Memory) × (strrev fuel m str ≡ some m') × Reverses m m' str n
unfolding strrev
strrev_lem fuel n str m s pos small lt =
    let (m', e, law) = strrev_loop_lem fuel 0 n str m (omega arith) (omega arith) lt in
    let last : sub64 n 1 ≡ 0 + n - 1 = omega arith in
    let base : str + 0 ≡ str = omega arith in
    (m', rw (strlen_lem fuel n str m s lt, strrev, last) e, subst (λ b. Reverses m m' b n) base law)
