-- ===== src/Keyboard/Modifiers/Laws.antt =====
-- What `ps2_kbd_set_modifiers` makes of the flags.
use j_oe_s.Base.{
  ℕ, ◌+◌, ◌-◌, ◌^◌, ◌<◌, ◌≡◌, ◌≢◌, inl, inr, Bool, true, false, not, bit_xor, ◌==◌, if◌then◌else◌,
  u16, refl, arith, Bool-cases, ==_iff, sym, ap, ◌∙◌,
}
use j_oe_s.Base.Bits.{bit_at}
use j_oe_s.Keyboard.Modifiers.{
  Modifiers, Kind, toggled, held, shift_key, strg_key, plain, update, apply_pressed_released,
  counted, counted_mask,
}
use j_oe_s.Keyboard.Modifiers.Flags.{bit_at-or, bit_at-and, bit_at-xor, flags-lt, and_none}

-- The flags of Shift and Strg are set exactly while a key of theirs is counted as pressed.
pub record IsValid (m : Modifiers) : Type 0 where
  pub flags : m.modifiers_old < 512
  pub shift_count : m.num_shift_keys_pressed < 256
  pub strg_count : m.num_strg_keys_pressed < 256
  pub shift_flag : bit_at m.modifiers_old 0 ≡ not (m.num_shift_keys_pressed == 0)
  pub strg_flag : bit_at m.modifiers_old 4 ≡ not (m.num_strg_keys_pressed == 0)

-- A mask of one flag other than those of Shift and Strg.
pub record IsFlag (mask k : ℕ) : Type 0 where
  pub is_power : mask ≡ 2 ^ k
  pub in_range : k < 9
  pub not_shift : k ≢ 0
  pub not_strg : k ≢ 4

-- The flag that a key of the kind controls, where it is not a counted one.
abbrev pub Controls : Kind → ℕ → Type 0
Controls (toggled mask) k = IsFlag mask k
Controls (held mask) k = IsFlag mask k
Controls shift_key k = k ≡ 0
Controls strg_key k = k ≡ 4
Controls plain k = k ≡ 9

-- The counter of a counted kind does not wrap: fewer than 255 presses are counted before a press,
-- and at least one before a release.
abbrev pub Room : ℕ → Bool → Type 0
Room count true = count < 255
Room count false = 0 < count

abbrev pub NoWrap : Modifiers → Kind → Bool → Type 0
NoWrap m shift_key down = Room m.num_shift_keys_pressed down
NoWrap m strg_key down = Room m.num_strg_keys_pressed down
NoWrap m _ down = Unit {0}

-- How many keys of a counted kind are pressed after the event.
abbrev pub count_after : ℕ → Bool → ℕ
count_after count true = count + 1
count_after count false = count - 1

-- The flag that the key controls, after the event.
abbrev pub flag_after : Modifiers → Kind → Bool → Bool → Bool
flag_after m (toggled mask) down old = if down then not old else old
flag_after m (held mask) down old = down
flag_after m shift_key down old = not (count_after m.num_shift_keys_pressed down == 0)
flag_after m strg_key down old = not (count_after m.num_strg_keys_pressed down == 0)
flag_after m plain down old = old

abbrev pub Updated : Modifiers → Kind → Bool → ℕ → Type 0
Updated m kind down k =
    IsValid (update m kind down)
    × ((l : ℕ)
        → l < 9
        → bit_at (update m kind down).modifiers_old l ≡ (
            if k == l
            then flag_after m kind down (bit_at m.modifiers_old l)
            else bit_at m.modifiers_old l))

-- New flags that differ at `k` only, which is no flag of Shift or Strg.
IsValid-flags :
    (m : Modifiers) (w k : ℕ) (v : Bool)
    → IsValid m
    → k ≢ 0
    → k ≢ 4
    → w < 512
    → ((l : ℕ) → l < 9 → bit_at w l ≡ (if k == l then v else bit_at m.modifiers_old l))
    → IsValid (record m { modifiers_old = w })
IsValid-flags m w k v valid ne ne' lt law = record {
  flags = lt;
  shift_count = valid.shift_count;
  strg_count = valid.strg_count;
  shift_flag = ground (arith, law 0 (omega arith), valid.shift_flag);
  strg_flag = ground (arith, law 4 (omega arith), valid.strg_flag);
}

-- Where only the flag at `k` counts, its old value may be read at `k`.
read_at :
    (old : ℕ) (k l : ℕ) (f : Bool → Bool)
    → (if k == l then f (bit_at old l) else bit_at old l)
      ≡ (if k == l then f (bit_at old k) else bit_at old l)
read_at old k l f = elim (Bool-cases (k == l)) [
  | inl e ↦ rw ((==_iff k l).0 e) refl
  | inr ne ↦ rw ne refl
]

update_toggled :
    (m : Modifiers) (mask k : ℕ) (down : Bool)
    → IsValid m
    → IsFlag mask k
    → Updated m (toggled mask) down k
unfolding update
update_toggled m mask k true valid flag =
    let law = bit_at-xor m.modifiers_old k valid.flags flag.in_range in
    let w = u16 (bit_xor m.modifiers_old (2 ^ k)) in
    let lt = (flags-lt m.modifiers_old k valid.flags flag.in_range).1 in
    rw (flag.is_power) (
      IsValid-flags m w k (not (bit_at m.modifiers_old k)) valid flag.not_shift flag.not_strg lt
          (λ l h. law l h ∙ read_at m.modifiers_old k l not),
      law,
    )
update_toggled m mask k false valid flag = (valid, λ l h. ground arith)

update_held :
    (m : Modifiers) (mask k : ℕ) (down : Bool)
    → IsValid m
    → IsFlag mask k
    → Updated m (held mask) down k
unfolding update
update_held m mask k true valid flag =
    let law = bit_at-or m.modifiers_old k valid.flags flag.in_range in
    let lt = (flags-lt m.modifiers_old k valid.flags flag.in_range).0 in
    rw (flag.is_power) (IsValid-flags m _ k true valid flag.not_shift flag.not_strg lt law, law)
update_held m mask k false valid flag =
    let law = bit_at-and m.modifiers_old k valid.flags flag.in_range in
    let lt = (flags-lt m.modifiers_old k valid.flags flag.in_range).2 in
    rw (flag.is_power) (IsValid-flags m _ k false valid flag.not_shift flag.not_strg lt law, law)

count_after-lt :
    (count : ℕ) (down : Bool) → count < 256 → Room count down → count_after count down < 256
count_after-lt count true lt free = omega arith
count_after-lt count false lt free = omega arith

-- The flags after an event of a counted kind at bit `k`.
module _ (old count k : ℕ) (small : old < 512) (flag : k < 9) where
  abbrev new_flags : Bool → ℕ
  new_flags down = apply_pressed_released old down (counted_mask count down (2 ^ k))

  counted_flags :
      (down : Bool)
      → count < 256
      → Room count down
      → bit_at old k ≡ not (count == 0)
      → (new_flags down < 512)
        × (counted count down ≡ count_after count down)
        × ((l : ℕ)
            → l < 9
            → bit_at (new_flags down) l
              ≡ (if k == l then not (count_after count down == 0) else bit_at old l))
  counted_flags true lt free was = (
    (flags-lt old k small flag).0,
    omega arith,
    λ l h. ground (arith, bit_at-or old k small flag l h),
  )
  counted_flags false lt free was = elim (Bool-cases (counted count false == 0)) [
    | inl last ↦ rw last (
      (flags-lt old k small flag).2,
      omega arith,
      λ l h. ground (arith, bit_at-and old k small flag l h, last),
    )
    | inr more ↦ rw more (
      rw (and_none old small) small,
      omega arith,
      λ l h. rw (and_none old small) (elim (Bool-cases (k == l)) [
        | inl e ↦ ground (arith, more, was, ap (bit_at old) ((==_iff k l).0 e))
        | inr ne ↦ rw ne refl
      ]),
    )
  ]

update_shift :
    (m : Modifiers) (down : Bool)
    → IsValid m
    → Room m.num_shift_keys_pressed down
    → Updated m shift_key down 0
unfolding update
update_shift m down valid free =
    let (lt, exact, law) =
      counted_flags m.modifiers_old m.num_shift_keys_pressed 0 valid.flags (omega arith) down
        valid.shift_count free valid.shift_flag in
    (
      record {
        flags = lt;
        shift_count =
            rw exact (count_after-lt m.num_shift_keys_pressed down valid.shift_count free);
        strg_count = valid.strg_count;
        shift_flag = law 0 (omega arith) ∙ ap (λ c. not (c == 0)) (sym exact);
        strg_flag = law 4 (omega arith) ∙ valid.strg_flag;
      },
      law,
    )

update_strg :
    (m : Modifiers) (down : Bool)
    → IsValid m
    → Room m.num_strg_keys_pressed down
    → Updated m strg_key down 4
unfolding update
update_strg m down valid free =
    let (lt, exact, law) =
      counted_flags m.modifiers_old m.num_strg_keys_pressed 4 valid.flags (omega arith) down
        valid.strg_count free valid.strg_flag in
    (
      record {
        flags = lt;
        shift_count = valid.shift_count;
        strg_count = rw exact (count_after-lt m.num_strg_keys_pressed down valid.strg_count free);
        shift_flag = law 0 (omega arith) ∙ valid.shift_flag;
        strg_flag = law 4 (omega arith) ∙ ap (λ c. not (c == 0)) (sym exact);
      },
      law,
    )

-- The key event handler controls one flag for each kind of key.
pub update_lem :
    (m : Modifiers) (kind : Kind) (down : Bool) (k : ℕ)
    → IsValid m
    → Controls kind k
    → NoWrap m kind down
    → Updated m kind down k
update_lem m (toggled mask) down k valid c free = update_toggled m mask k down valid c
update_lem m (held mask) down k valid c free = update_held m mask k down valid c
update_lem m shift_key down k valid c free = rw c (update_shift m down valid free)
update_lem m strg_key down k valid c free = rw c (update_strg m down valid free)
update_lem m plain down k valid c free = rw c (unfold update in (valid, λ l h. ground arith))
