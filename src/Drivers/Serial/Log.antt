-- ===== src/Drivers/Serial/Log.antt =====
-- kernel/src/logging.c with the backend that `kmain` chooses: `serial_log_write`, with COM1 as its
-- context. `logging_log_msg` gives the bytes of a message, and each goes through the serial port.
use j_oe_s.Base.{
  ℕ, zero, suc, arith, ◌+◌, ◌≡◌, refl, ◌∙◌, ap, Bool, true, false, Option, none, some, List, [],
  ◌∷◌, ◌++◌, ◌==◌, ltb, bit_and, shifted_one, if◌then◌else◌, Bool-cases, inl, inr,
}
use j_oe_s.Libc.{Memory}
use j_oe_s.Format.{Argument, a_string, specifier_of, next_string}
use j_oe_s.Format.Logging.{
  Backend, Logger, log_loop, log_char, convert, level_info, message_of, label_of, origin_of,
  complaint_of, logging_log_msg,
}
use j_oe_s.Drivers.Port.{Bus, Machine, Access, wrote, was_read, port_read_byte, port_write_byte}
use j_oe_s.Drivers.Port.Io.{Io, pure, ◌>>◌, wait_while}
use j_oe_s.Drivers.Port.Total.{Total, Total-mono, pure-Total, bind-Total}
use j_oe_s.Drivers.Serial.{serial_send_byte, serial_log_write}

-- What the messages of a file depend on: memory, the buffer for numbers, the names of the file and of
-- logging.c, and the backend, of which the level counts.
pub record Site : Type 0 where
  pub memory : Memory
  pub buffer : ℕ
  pub file : List ℕ
  pub logging_file : List ℕ
  pub backend : Backend

-- `COM1`
abbrev pub com1 : ℕ
com1 = 0x3f8

-- The bytes of a message.
abbrev pub message_text : Site → ℕ → List ℕ → List Argument → Option (List ℕ)
message_text site level msg args =
    logging_log_msg site.memory site.buffer site.logging_file site.backend level site.file msg args

module _ {D : Type 0} (bus : Bus D) (fuel : ℕ) where
  unfoldable pub send_all : List ℕ → Io D (Unit {0})
  send_all [] = pure tt
  send_all (c ∷ rest) = serial_log_write bus fuel c com1 >> send_all rest

  abbrev pub send_text : Option (List ℕ) → Io D (Unit {0})
  send_text none m = none
  send_text (some text) m = send_all text m

  -- `logging_log_msg` on this backend.
  unfoldable pub log_msg : Site → ℕ → List ℕ → List Argument → Io D (Unit {0})
  log_msg site level msg args = send_text (message_text site level msg args)

  -- The serial port gets ready for the next byte in the rounds given.
  abbrev pub IsReady : Type 0
  IsReady =
      (m : Machine D)
      → (m' : Machine D) × (wait_while bus fuel (λ status. bit_and status (shifted_one 5) == 0)
            (com1 + 5) m
          ≡ some (tt, m'))

-- The writes to other ports than the data register of COM1, newest first.
unfoldable pub elsewhere : List Access → List Access
elsewhere [] = []
elsewhere (wrote port v ∷ log) =
    if port == com1 then elsewhere log else wrote port v ∷ elsewhere log
elsewhere (was_read port v ∷ log) = elsewhere log

-- What sending a message leaves alone.
pub record Undisturbed {D : Type 0} (m m' : Machine D) : Type 0 where
  pub same_elsewhere : elsewhere m'.log ≡ elsewhere m.log
  pub same_interrupts : m'.interrupts ≡ m.interrupts

pub Undisturbed-refl : {D : Type 0} (m : Machine D) → Undisturbed m m
Undisturbed-refl m = record { same_elsewhere = refl; same_interrupts = refl }

pub Undisturbed-trans :
    {D : Type 0} {m m' m'' : Machine D} → Undisturbed m m' → Undisturbed m' m'' → Undisturbed m m''
Undisturbed-trans u v = record {
  same_elsewhere = v.same_elsewhere ∙ u.same_elsewhere;
  same_interrupts = v.same_interrupts ∙ u.same_interrupts;
}

-- A format string without specifiers.
unfoldable pub plain : List ℕ → Bool
plain [] = true
plain (c ∷ rest) = if c == b'%' then false else plain rest

module _ (memory : Memory) (buffer : ℕ) where
  abbrev writing : ℕ → List ℕ → List Argument → Logger
  writing prefix output args = record {
    formatting = false;
    prefix = prefix;
    output = output;
    args = args;
  }

  -- A plain format string comes to its end.
  log_loop-plain :
      (complaint : ℕ → List ℕ) (msg : List ℕ) (prefix : ℕ) (output : List ℕ) (args : List Argument)
      → plain msg ≡ true
      → (l' : Logger) × (log_loop memory buffer complaint msg (writing prefix output args)
          ≡ some l')
  unfolding log_loop log_char plain
  log_loop-plain complaint [] prefix output args p = (writing prefix output args, refl)
  log_loop-plain complaint (c ∷ rest) prefix output args p = elim (Bool-cases (c == b'%')) [
    | inl percent ↦ absurd (ground (arith, p, percent))
    | inr other ↦
        let p' : plain rest ≡ true = ground (arith, p, other) in
        let (l', e) = log_loop-plain complaint rest prefix (output ++ (c ∷ [])) args p' in
        (l', rw (other, log_loop, log_char) e)
  ]

-- `logging_log_msg` of a plain format string returns.
pub logging_log_msg-plain :
    (site : Site) (level : ℕ) (msg : List ℕ) (args : List Argument)
    → plain msg ≡ true
    → (text : List ℕ) × (message_text site level msg args ≡ some text)
unfolding logging_log_msg
logging_log_msg-plain site level msg args p = elim (Bool-cases (ltb level site.backend.level)) [
  | inl below ↦ ([], rw (below, logging_log_msg) refl)
  | inr above ↦
      let (l', e) =
        log_loop-plain site.memory site.buffer (complaint_of site.logging_file) msg 0 [] args p in
      (
        label_of level ++ origin_of level site.file ++ l'.output ++ (10 ∷ []),
        rw (above, logging_log_msg) (ap (message_of level site.file) e),
      )
]

-- `logging_log_msg` of "%s" with a string returns.
pub string_text :
    (site : Site) (string : List ℕ)
    → (text : List ℕ) × (message_text site level_info (b'%' ∷ b's' ∷ []) (a_string string ∷ [])
        ≡ some text)
unfolding logging_log_msg log_loop log_char convert specifier_of next_string
string_text site string = elim (Bool-cases (ltb level_info site.backend.level)) [
  | inl below ↦ ([], rw (below, logging_log_msg) refl)
  | inr above ↦ (
    label_of level_info ++ origin_of level_info site.file ++ string ++ (10 ∷ []),
    rw (above, logging_log_msg) refl,
  )
]

module _ {D : Type 0} (bus : Bus D) where
  wait_while-Undisturbed :
      (fuel : ℕ) (busy : ℕ → Bool) (port : ℕ) (m m' : Machine D)
      → wait_while bus fuel busy port m ≡ some (tt, m')
      → (elsewhere m'.log ≡ elsewhere m.log) × (m'.interrupts ≡ m.interrupts)
  unfolding wait_while port_read_byte elsewhere
  wait_while-Undisturbed zero busy port m m' e = cc
  wait_while-Undisturbed (suc fuel) busy port m m' e =
      let next = wait_while-Undisturbed fuel busy port (port_read_byte bus port m).1 m' in
      (ground (arith, next), ground (arith, next))

  module _ (fuel : ℕ) (ready : IsReady bus fuel) where
    serial_log_write-Total :
        (c : ℕ) (m : Machine D)
        → Total (serial_log_write bus fuel c com1) (λ _ m'. Undisturbed m m') m
    unfolding serial_send_byte port_write_byte elsewhere
    serial_log_write-Total c m =
        let (m', e) = ready m in
        let (same, flag) = wait_while-Undisturbed fuel _ _ m m' e in
        bind-Total {P = λ _ m''. Undisturbed m m''}
          (record {
            value = tt;
            after = m';
            returns = e;
            holds = record { same_elsewhere = same; same_interrupts = flag };
          })
          (λ _ m'' u. record {
            value = tt;
            after = port_write_byte bus com1 c m'';
            returns = refl;
            holds = record {
              same_elsewhere = u.same_elsewhere;
              same_interrupts = u.same_interrupts;
            };
          })

    send_all-Total :
        (text : List ℕ) (m : Machine D)
        → Total (send_all bus fuel text) (λ _ m'. Undisturbed m m') m
    unfolding send_all
    send_all-Total [] m = pure-Total tt (Undisturbed-refl m)
    send_all-Total (c ∷ rest) m =
        bind-Total (serial_log_write-Total c m)
          λ _ m' u. Total-mono (send_all-Total rest m') (λ _ m'' v. Undisturbed-trans u v)

    -- Where a message has a text, it is sent.
    pub log_msg-Total :
        (site : Site) (level : ℕ) (msg : List ℕ) (args : List Argument) (text : List ℕ)
        (m : Machine D)
        → message_text site level msg args ≡ some text
        → Total (log_msg bus fuel site level msg args) (λ _ m'. Undisturbed m m') m
    unfolding log_msg
    log_msg-Total site level msg args text m e =
        let t = send_all-Total text m in
        record { value = tt; after = t.after; returns = rw (e, log_msg) t.returns; holds = t.holds }

  pub log_msg-none :
      (fuel : ℕ) (site : Site) (level : ℕ) (msg : List ℕ) (args : List Argument) (m : Machine D)
      → message_text site level msg args ≡ none
      → log_msg bus fuel site level msg args m ≡ none
  unfolding log_msg
  log_msg-none fuel site level msg args m e = rw (e, log_msg) refl
