-- ===== src/Memory/Region/Bitmap.antt =====
-- A bitmap of pages: the bit of each page, and how many bits are clear.
use j_oe_s.Base.{
  ℕ, zero, suc, ◌+◌, ◌/◌, ◌%◌, ◌<◌, ◌≤◌, Bool, true, none, some, List, [], ◌∷◌, if◌then◌else◌, ◌==◌,
  get_elem?, set, length, get_elem?-set_self, get_elem?-set_ne, lt_of_get_elem?, get_elem?_of_lt,
  ◌*◌, ◌≡◌, false, get_elem?_of_ge, refl, arith,
}
use j_oe_s.Base.Bits.{bit_at, zeros, zeros_pos, zeros_full, zeros-le}

-- Whether page `n` is marked as used; a page behind the end of the bitmap counts as used.
abbrev pub page_bit : List ℕ → ℕ → Bool
page_bit bitmap n = elim (get_elem? bitmap (n / 8)) [
  | none ↦ true
  | some byte ↦ bit_at byte (n % 8)
]

abbrev pub IsBytes : List ℕ → Type 0
IsBytes bitmap = (i byte : ℕ) → get_elem? bitmap i ≡ some byte → byte < 256

-- How many pages of the bitmap are free.
unfoldable pub count_free : List ℕ → ℕ
count_free [] = 0
count_free (byte ∷ rest) = zeros byte + count_free rest

pub page_bit_of_some :
    (bitmap : List ℕ) (n byte : ℕ)
    → get_elem? bitmap (n / 8) ≡ some byte
    → page_bit bitmap n ≡ bit_at byte (n % 8)
page_bit_of_some bitmap n byte e = rw (e, page_bit)

pub page_bit_behind : (bitmap : List ℕ) (n : ℕ) → length bitmap ≤ n / 8 → page_bit bitmap n ≡ true
page_bit_behind bitmap n h = rw (get_elem?_of_ge bitmap (n / 8) h, page_bit)

pub byte_of_free :
    (bitmap : List ℕ) (n : ℕ)
    → page_bit bitmap n ≡ false
    → (byte : ℕ) × (get_elem? bitmap (n / 8) ≡ some byte) × (bit_at byte (n % 8) ≡ false)
byte_of_free bitmap n free =
    ground (arith, get_elem?_of_lt bitmap (n / 8), page_bit_behind bitmap n)

pub count_free-le : (bitmap : List ℕ) → count_free bitmap ≤ 8 * length bitmap
unfolding count_free
count_free-le [] = omega arith
count_free-le (byte ∷ rest) = omega (arith, zeros-le byte, count_free-le rest)

-- Replacing the byte of page `n` by one that differs in that page's bit at most.
pub page_bit-set :
    (bitmap : List ℕ) (n byte byte' q : ℕ) (v : Bool)
    → get_elem? bitmap (n / 8) ≡ some byte
    → ((l : ℕ) → l < 8 → bit_at byte' l ≡ (if n % 8 == l then v else bit_at byte l))
    → page_bit (set bitmap (n / 8) byte') q ≡ (if n == q then v else page_bit bitmap q)
page_bit-set bitmap n byte byte' q v e h = ground (
  arith,
  h (q % 8) (omega arith),
  get_elem?-set_self bitmap (n / 8) byte',
  get_elem?-set_ne bitmap (n / 8) (q / 8) byte',
  lt_of_get_elem? bitmap (n / 8) byte,
)

pub count_free-set :
    (bitmap : List ℕ) (i byte byte' : ℕ)
    → get_elem? bitmap i ≡ some byte
    → count_free (set bitmap i byte') + zeros byte ≡ count_free bitmap + zeros byte'
unfolding count_free
count_free-set [] i byte byte' e = absurd (ground arith)
count_free-set (b ∷ rest) zero byte byte' e = ground arith
count_free-set (b ∷ rest) (suc i) byte byte' e = omega (arith, count_free-set rest i byte byte' e)

pub IsBytes-tail : (b : ℕ) (rest : List ℕ) → IsBytes (b ∷ rest) → IsBytes rest
IsBytes-tail b rest h i byte e = h (suc i) byte e

pub IsBytes-set :
    (bitmap : List ℕ) (i byte' : ℕ) → byte' < 256 → IsBytes bitmap → IsBytes (set bitmap i byte')
IsBytes-set [] i byte' lt h j byte e = h j byte e
IsBytes-set (b ∷ rest) zero byte' lt h zero byte e = ground arith
IsBytes-set (b ∷ rest) zero byte' lt h (suc j) byte e = h (suc j) byte e
IsBytes-set (b ∷ rest) (suc i) byte' lt h zero byte e = h zero byte e
IsBytes-set (b ∷ rest) (suc i) byte' lt h (suc j) byte e =
    IsBytes-set rest i byte' lt (IsBytes-tail b rest h) j byte e

-- With no free page left every byte is full.
pub count_free_zero :
    (bitmap : List ℕ) (i byte : ℕ)
    → IsBytes bitmap
    → count_free bitmap ≡ 0
    → get_elem? bitmap i ≡ some byte
    → byte ≡ 255
unfolding count_free
count_free_zero [] i byte h z e = absurd (ground arith)
count_free_zero (b ∷ rest) zero byte h z e = ground (arith, zeros_pos b (h 0 b refl))
count_free_zero (b ∷ rest) (suc i) byte h z e =
    count_free_zero rest i byte (IsBytes-tail b rest h) (omega arith) e

-- If all bytes are full then no page is free.
pub count_free_full :
    (bitmap : List ℕ)
    → ((i byte : ℕ) → get_elem? bitmap i ≡ some byte → byte ≡ 255)
    → count_free bitmap ≡ 0
unfolding count_free
count_free_full [] h = refl
count_free_full (b ∷ rest) h =
    ground (arith, h 0 b refl, zeros_full, count_free_full rest (λ i byte e. h (suc i) byte e))
