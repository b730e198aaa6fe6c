-- ===== src/Keyboard/Buffer/Queue.antt =====
-- The ring buffer against a queue of at most 32 events that drops its oldest one when it is full.
use j_oe_s.Base.{
  ℕ, zero, suc, ◌+◌, ◌-◌, ◌%◌, ◌<◌, ◌≤◌, ◌≡◌, ◌≢◌, inl, inr, Option, none, some, List, [], ◌∷◌,
  ◌++◌, ltb, ◌==◌, if◌then◌else◌, Bool-cases, get_elem?, get_or, set, length, length-set, refl, ap,
  ap₂, sym, ◌∙◌, get_elem?-eq-get_or, get_or-set_self, get_or-set_ne, ltb→lt, ltb→le, ==_iff, ==→ne,
  arith,
}
use j_oe_s.Keyboard.Event.{KeyEvent}
use j_oe_s.Keyboard.Buffer.{KeyBuffer, no_event, append_key_event, get_key_event}

-- The values of `f` at 0, 1, …, n - 1.
abbrev tabulate : ℕ → (ℕ → KeyEvent) → List KeyEvent
tabulate zero f = []
tabulate (suc n) f = f 0 ∷ tabulate n (λ i. f (suc i))

tabulate_ext :
    (n : ℕ) (f g : ℕ → KeyEvent) → ((i : ℕ) → i < n → f i ≡ g i) → tabulate n f ≡ tabulate n g
tabulate_ext zero f g h = refl
tabulate_ext (suc n) f g h =
    ap₂ ◌∷◌ (h 0 (omega arith)) (tabulate_ext n _ _ (λ i lt. h (suc i) (omega arith)))

tabulate-snoc : (n : ℕ) (f : ℕ → KeyEvent) → tabulate (suc n) f ≡ tabulate n f ++ (f n ∷ [])
tabulate-snoc zero f = refl
tabulate-snoc (suc n) f = ap (λ t. f 0 ∷ t) (tabulate-snoc n (λ i. f (suc i)))

length-tabulate : (n : ℕ) (f : ℕ → KeyEvent) → length (tabulate n f) ≡ n
length-tabulate zero f = refl
length-tabulate (suc n) f = ap suc (length-tabulate n (λ i. f (suc i)))

pub record IsValid (b : KeyBuffer) : Type 0 where
  pub stored : length b.events ≡ 32
  pub full_capacity : b.capacity ≡ 32
  pub front_in : b.front < 32
  pub size_in : b.size ≤ 32

-- The event at distance `i` from the front.
abbrev pub event_at : KeyBuffer → ℕ → KeyEvent
event_at b i = get_or b.events ((b.front + i) % 32) no_event

-- The events in the buffer, oldest first.
abbrev pub contents : KeyBuffer → List KeyEvent
contents b = tabulate b.size (event_at b)

abbrev pub tail : List KeyEvent → List KeyEvent
tail [] = []
tail (e ∷ rest) = rest

-- What a queue of at most 32 events does.
abbrev pub push : List KeyEvent → KeyEvent → List KeyEvent
push q e = if ltb (length q) 32 then q ++ (e ∷ []) else tail q ++ (e ∷ [])

-- `none` of an empty queue, or the oldest event and the rest.
abbrev pub pop : List KeyEvent → Option (KeyEvent × List KeyEvent)
pop [] = none
pop (e ∷ rest) = some (e, rest)

pub length-contents : (b : KeyBuffer) → length (contents b) ≡ b.size
length-contents b = length-tabulate b.size (event_at b)

tabulate_of_pos :
    (n : ℕ) (f : ℕ → KeyEvent) → n ≢ 0 → tabulate n f ≡ f 0 ∷ tabulate (n - 1) (λ i. f (suc i))
tabulate_of_pos zero f h = absurd (h refl)
tabulate_of_pos (suc n) f h = ap (λ k. tabulate (suc k) f) (omega arith)

module _ (b : KeyBuffer) (e : KeyEvent) (valid : IsValid b) where
  abbrev rear : ℕ
  rear = (b.front + b.size) % 32

  abbrev written : List KeyEvent
  written = set b.events rear e

  pub append_key_event-IsValid : IsValid (append_key_event b e)
  unfolding append_key_event
  append_key_event-IsValid = ground (arith, valid, length-set b.events rear e)

  not_rear :
      (i : ℕ)
      → i < 32
      → (b.front + i) % 32 ≢ rear
      → get_or written ((b.front + i) % 32) no_event ≡ event_at b i
  not_rear i lt ne = get_or-set_ne b.events rear ((b.front + i) % 32) e no_event (λ h. ne (sym h))

  new_is_stored : get_or written rear no_event ≡ e
  new_is_stored = get_or-set_self b.events rear e no_event (omega (arith, valid.stored))

  append_key_event_room :
      b.size < 32 → append_key_event b e ≡ record b { events = written; size = suc b.size }
  unfolding append_key_event
  append_key_event_room lt = ground (arith, valid.full_capacity)

  append_key_event_full :
      b.size ≡ 32 → append_key_event b e ≡ record b { events = written; front = (b.front + 1) % 32 }
  unfolding append_key_event
  append_key_event_full full = ground (arith, valid.full_capacity)

  contents_room : b.size < 32 → contents (append_key_event b e) ≡ contents b ++ (e ∷ [])
  contents_room lt =
      ap contents (append_key_event_room lt)
      ∙ tabulate-snoc b.size (λ i. get_or written ((b.front + i) % 32) no_event)
      ∙ ap₂ (λ q x. q ++ (x ∷ []))
          (tabulate_ext b.size _ _
            (λ i h. not_rear i (omega arith) (omega (arith, valid.front_in))))
          new_is_stored

  abbrev turned : ℕ → KeyEvent
  turned i = get_or written (((b.front + 1) % 32 + i) % 32) no_event

  turned_before : b.size ≡ 32 → (i : ℕ) → i < 31 → turned i ≡ event_at b (suc i)
  turned_before full i h =
      let same : ((b.front + 1) % 32 + i) % 32 ≡ (b.front + suc i) % 32 = omega arith in
      ap (λ k. get_or written k no_event) same
      ∙ not_rear (suc i) (omega arith) (omega (arith, valid.front_in))

  turned_last : b.size ≡ 32 → turned 31 ≡ e
  turned_last full =
      let same : ((b.front + 1) % 32 + 31) % 32 ≡ rear = omega arith in
      ap (λ k. get_or written k no_event) same ∙ new_is_stored

  contents_full : b.size ≡ 32 → contents (append_key_event b e) ≡ tail (contents b) ++ (e ∷ [])
  contents_full full =
      ap contents (append_key_event_full full)
      ∙ ap (λ n. tabulate n turned) full
      ∙ tabulate-snoc 31 turned
      ∙ ap₂ (λ q x. q ++ (x ∷ []))
          (tabulate_ext 31 turned (λ i. event_at b (suc i)) (λ i h. turned_before full i h))
          (turned_last full)
      ∙ ap (λ n. tail (tabulate n (event_at b)) ++ (e ∷ [])) (sym full)

-- `kbd_append_key_event_to_buffer` keeps a valid buffer valid and appends the event to the queue;
-- a full queue loses its oldest event.
pub append_key_event_refines :
    (b : KeyBuffer) (e : KeyEvent)
    → IsValid b
    → (contents (append_key_event b e) ≡ push (contents b) e) × IsValid (append_key_event b e)
append_key_event_refines b e valid = (
  elim (Bool-cases (ltb b.size 32)) [
    | inl room ↦ contents_room b e valid (ltb→lt b.size 32 room) ∙ rw (length-contents b, room)
    | inr full ↦
        contents_full b e valid (omega (arith, ltb→le b.size 32 full, valid.size_in))
        ∙ rw (length-contents b, full)
  ],
  append_key_event-IsValid b e valid,
)

-- What `kbd_get_key_event_from_buffer` makes of the queue: nothing of an empty one, and otherwise
-- its oldest event, which is taken out.
abbrev pub Gets :
    KeyBuffer → Option (Option KeyEvent × KeyBuffer) → Option (KeyEvent × List KeyEvent) → Type 0
Gets b none none = b.size ≡ 0
Gets b none (some q) = ⊥
Gets b (some r) none = ⊥
Gets b (some (out, b')) (some (e, rest)) = (out ≡ some e) × (contents b' ≡ rest) × IsValid b'

module _ (b : KeyBuffer) (valid : IsValid b) where
  abbrev taken : KeyBuffer
  taken = record b { front = (b.front + 1) % 32; size = b.size - 1 }

  contents-taken : contents taken ≡ tabulate (b.size - 1) (λ i. event_at b (suc i))
  contents-taken =
      tabulate_ext (b.size - 1) _ _ λ i h. ap (λ k. get_or b.events k no_event) (shifted b.front i)
    where
      shifted : (f i : ℕ) → ((f + 1) % 32 + i) % 32 ≡ (f + suc i) % 32
      shifted f i = omega arith

  taken-IsValid : IsValid taken
  taken-IsValid = ground (arith, valid)

  front_event : get_elem? b.events b.front ≡ some (event_at b 0)
  front_event =
      get_elem?-eq-get_or b.events b.front no_event (omega (arith, valid))
      ∙ ap (λ k. some (get_or b.events k no_event)) (omega (arith, valid))

-- Of a valid buffer, `kbd_get_key_event_from_buffer` takes the oldest event out of a queue that
-- has one and keeps the buffer valid, and reports an empty one.
pub get_key_event_refines :
    (b : KeyBuffer) → IsValid b → Gets b (get_key_event b) (pop (contents b))
unfolding get_key_event
get_key_event_refines b valid = elim (Bool-cases (b.size == 0)) [
  | inl empty ↦
      let z = (==_iff b.size 0).0 empty in
      let q : contents b ≡ [] = ap (λ n. tabulate n (event_at b)) z in rw (q, empty) z
  | inr some_there ↦
      rw (tabulate_of_pos b.size (event_at b) (==→ne b.size 0 some_there), some_there)
        (front_event b valid, contents-taken b valid, taken-IsValid b valid)
]
