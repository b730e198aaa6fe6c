-- ===== src/Libc/Copy.antt =====
-- What the loops of libc/string over memory do.
use j_oe_s.Base.{
  ℕ, zero, suc, ◌+◌, ◌-◌, ◌<◌, ◌≤◌, ◌≡◌, ◌↔◌, ◌⊎◌, inl, inr, Bool, true, ◌&&◌, ltb, leb, ◌==◌,
  if◌then◌else◌, u8, refl, ap, arith, Bool-cases, ltb→lt, ltb→le, ==_iff, ==→ne,
}
use j_oe_s.Libc.{
  Memory, write, memset_loop, memset, copy_up, copy_down, memcpy, memmove, same, memcmp_loop,
  memcmp,
}

-- The address lies in the `n` bytes from `start` on.
abbrev pub within : ℕ → ℕ → ℕ → Bool
within start n x = leb start x && ltb x (start + n)

memset_loop_lem :
    (left i s c : ℕ) (m : Memory) (x : ℕ)
    → memset_loop left i s c m x ≡ (if within (s + i) left x then u8 c else m x)
unfolding memset_loop
memset_loop_lem zero i s c m x = ground arith
memset_loop_lem (suc left) i s c m x =
    ground (arith, memset_loop_lem left (i + 1) s c (write m (s + i) (u8 c)) x)

-- `memset` fills the range with the lowest byte of `c`, and changes nothing else.
pub memset_lem :
    (m : Memory) (s c n x : ℕ) → memset m s c n x ≡ (if within s n x then u8 c else m x)
unfolding memset
memset_lem m s c n x = ground (arith, memset_loop_lem n 0 s c m x)

-- Copying upwards, where the destination is below the source or the ranges are apart.
copy_up_lem :
    (left i dest src : ℕ) (m : Memory) (x : ℕ)
    → (dest < src) ⊎ (src + i + left ≤ dest)
    → copy_up left i dest src m x ≡ (if within (dest + i) left x then m (src + (x - dest)) else m x)
unfolding copy_up
copy_up_lem zero i dest src m x apart = ground arith
copy_up_lem (suc left) i dest src m x apart =
    let w = write m (dest + i) (m (src + i)) in
    let rest =
      copy_up_lem left (i + 1) dest src w x
        (elim apart [ inl h ↦ inl h | inr h ↦ inr (omega (arith, h)) ]) in
    elim (Bool-cases (x == dest + i)) [
      | inl here ↦
          let e = (==_iff x (dest + i)).0 here in
          let old : m (src + i) ≡ m (src + (x - dest)) = ap m (omega (arith, e)) in
          ground (arith, rest, e, old)
      | inr ne ↦
          let away = ==→ne x (dest + i) ne in
          let kept : within (dest + (i + 1)) left x ≡ true
              → w (src + (x - dest)) ≡ m (src + (x - dest)) =
            λ h. ground (arith, h, apart) in
          ground (arith, rest, away, kept)
    ]

copy_down_lem :
    (n dest src : ℕ) (m : Memory) (x : ℕ)
    → src < dest
    → copy_down n dest src m x ≡ (if within dest n x then m (src + (x - dest)) else m x)
unfolding copy_down
copy_down_lem zero dest src m x lt = ground arith
copy_down_lem (suc i) dest src m x lt =
    let w = write m (dest + i) (m (src + i)) in
    let rest = copy_down_lem i dest src w x lt in
    elim (Bool-cases (x == dest + i)) [
      | inl here ↦
          let e = (==_iff x (dest + i)).0 here in
          let old : m (src + i) ≡ m (src + (x - dest)) = ap m (omega (arith, e)) in
          ground (arith, rest, e, old)
      | inr ne ↦
          let away = ==→ne x (dest + i) ne in
          let kept : within dest i x ≡ true → w (src + (x - dest)) ≡ m (src + (x - dest)) =
            λ h. ground (arith, h, lt) in
          ground (arith, rest, away, kept)
    ]

-- `memcpy` copies where the ranges do not overlap, or the destination is below the source, and
-- changes nothing else.
pub memcpy_lem :
    (m : Memory) (dest src n x : ℕ)
    → (dest < src) ⊎ (src + n ≤ dest)
    → memcpy m dest src n x ≡ (if within dest n x then m (src + (x - dest)) else m x)
unfolding memcpy
memcpy_lem m dest src n x apart = ground (
  arith,
  copy_up_lem n 0 dest src m x (elim apart [ inl h ↦ inl h | inr h ↦ inr (omega (arith, h)) ]),
)

-- `memmove` copies the range as it was, however the two ranges overlap, and changes nothing else.
pub memmove_lem :
    (m : Memory) (dest src n x : ℕ)
    → memmove m dest src n x ≡ (if within dest n x then m (src + (x - dest)) else m x)
unfolding memmove
memmove_lem m dest src n x = elim (Bool-cases (ltb dest src)) [
  | inl up ↦
      rw (up, memmove) (ground (arith, copy_up_lem n 0 dest src m x (inl (ltb→lt dest src up))))
  | inr not_up ↦ elim (Bool-cases (ltb src dest)) [
    | inl down ↦ rw (not_up, memmove, down) (copy_down_lem n dest src m x (ltb→lt src dest down))
    | inr not_down ↦
        let e : src ≡ dest = omega (arith, ltb→le dest src not_up, ltb→le src dest not_down) in
        let back : within dest n x ≡ true → m (src + (x - dest)) ≡ m x =
          λ h. ap m (ground (arith, h, e)) in
        rw (not_up, memmove, not_down) (ground (arith, back))
  ]
]

bytes_of_same :
    (left i s1 s2 : ℕ) (m : Memory)
    → memcmp_loop left i s1 s2 m ≡ same
    → (j : ℕ) → i ≤ j
    → j < i + left
    → m (s1 + j) ≡ m (s2 + j)
unfolding memcmp_loop
bytes_of_same zero i s1 s2 m h j p q = absurd (omega arith)
bytes_of_same (suc left) i s1 s2 m h j p q = elim (Bool-cases (m (s1 + i) == m (s2 + i))) [
  | inr ne ↦ absurd (ground (arith, h, ne))
  | inl e ↦ elim (Bool-cases (j == i)) [
    | inl here ↦ rw ((==_iff j i).0 here) ((==_iff (m (s1 + i)) (m (s2 + i))).0 e)
    | inr away ↦
        bytes_of_same left (i + 1) s1 s2 m (ground (arith, h, e)) j (omega (arith, ==→ne j i away))
          (omega arith)
  ]
]

same_of_bytes :
    (left i s1 s2 : ℕ) (m : Memory)
    → ((j : ℕ) → i ≤ j → j < i + left → m (s1 + j) ≡ m (s2 + j))
    → memcmp_loop left i s1 s2 m ≡ same
unfolding memcmp_loop
same_of_bytes zero i s1 s2 m h = refl
same_of_bytes (suc left) i s1 s2 m h =
    let e = (==_iff (m (s1 + i)) (m (s2 + i))).1 (h i (omega arith) (omega arith)) in
    rw (e, memcmp_loop)
      (same_of_bytes left (i + 1) s1 s2 m (λ j p q. h j (omega arith) (omega arith)))

-- `memcmp` returns 0 exactly if all bytes of the two ranges are equal.
pub memcmp_lem :
    (m : Memory) (s1 s2 n : ℕ)
    → (memcmp m s1 s2 n ≡ same) ↔ ((j : ℕ) → j < n → m (s1 + j) ≡ m (s2 + j))
unfolding memcmp
memcmp_lem m s1 s2 n = (
  λ h j lt. bytes_of_same n 0 s1 s2 m h j (omega arith) (omega arith),
  λ h. same_of_bytes n 0 s1 s2 m (λ j p q. h j (omega arith)),
)
