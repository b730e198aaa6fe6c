-- ===== src/Format/Agree.antt =====
-- The interpreter of printf.c against its copy in logging.c.
use j_oe_s.Base.{
  if◌then◌else◌, ℕ, ◌≡◌, refl, ap, sym, ◌∙◌, Bool, true, false, Option, none, some, List, [], ◌∷◌,
  ◌++◌, u32, ltb, subst, ◌==◌, Bool-cases, inl, inr, Option-cases,
}
use j_oe_s.Libc.{Memory}
use j_oe_s.Format.{
  Specifier, specifier, string, char, int1, int2, uint, octal, hex, pointer, no_output, prefix_plus,
  prefix_space, unknown, specifier_of, prefix_of, Argument, next_number, next_string, signed_text,
  unsigned_text,
}
use j_oe_s.Format.Printf
use j_oe_s.Format.Logging

-- A specifier that both interpret.
abbrev pub IsShared : Specifier → Type 0
IsShared no_output = ⊥
IsShared unknown = ⊥
IsShared _ = Unit {0}

-- Flags leave the interpreter in format mode.
abbrev pub stays : Specifier → Bool
stays prefix_plus = true
stays prefix_space = true
stays _ = false

-- The mode after a character that is interpreted in a mode.
abbrev pub next_mode : Bool → ℕ → Bool
next_mode false c = c == b'%'
next_mode true c = stays (specifier_of c)

-- All specifiers of a format string are shared.
abbrev pub IsPlain : Bool → List ℕ → Type 0
IsPlain mode [] = Unit {0}
IsPlain false (c ∷ rest) = IsPlain (c == b'%') rest
IsPlain true (c ∷ rest) = IsShared (specifier_of c) × IsPlain (next_mode true c) rest

-- What the logger has of the printer's variables.
abbrev pub logger_of : Printf.Printer → Logging.Logger
logger_of p = record {
  formatting = p.formatting;
  prefix = p.prefix;
  output = p.output;
  args = p.args;
}

-- Both rounds go on with the same variables and a mode, or both lack an argument.
abbrev Steps : Bool → Option Logging.Round → Option Printf.Round → Type 0
Steps mode none none = Unit {0}
Steps mode (some (Logging.goes_on l)) (some (Printf.goes_on p)) =
    (l ≡ logger_of p) × (p.formatting ≡ mode)
Steps mode _ _ = ⊥

module _ (memory : Memory) (buffer : ℕ) where
  number-Steps :
      (text : Option (List ℕ)) (front : List ℕ) (args : List Argument) (p : Printf.Printer)
      → Steps false
          (Logging.emit_number memory buffer text front args (logger_of p))
          (Printf.put_number memory buffer text front args p)
  number-Steps none front args p = tt
  number-Steps (some text) front args p = (refl, refl)

  convert-Steps :
      (s : Specifier) (p : Printf.Printer)
      → IsShared s
      → p.formatting ≡ true
      → Steps
          (stays s)
          (Logging.convert memory buffer s (logger_of p))
          (Printf.convert memory buffer s p)
  unfolding Logging.convert Printf.convert
  convert-Steps specifier p shared mode = (refl, refl)
  convert-Steps prefix_plus p shared mode = (refl, mode)
  convert-Steps prefix_space p shared mode = (refl, mode)
  convert-Steps char p shared mode = elim (Option-cases (next_number p.args)) [
    | inl missing ↦ rw (missing, Steps, Printf.convert, Logging.convert) tt
    | inr (r, e) ↦ rw (e, Steps, Printf.convert, Logging.convert) (refl, refl)
  ]
  convert-Steps string p shared mode = elim (Option-cases (next_string p.args)) [
    | inl missing ↦ rw (missing, Steps, Printf.convert, Logging.convert) tt
    | inr (r, e) ↦ rw (e, Steps, Printf.convert, Logging.convert) (refl, refl)
  ]
  convert-Steps int1 p shared mode = elim (Option-cases (next_number p.args)) [
    | inl missing ↦ rw (missing, Steps, Printf.convert, Logging.convert) tt
    | inr (r, e) ↦
        rw (e, Steps, Printf.convert, Logging.convert)
          (number-Steps (signed_text memory buffer r.0) (prefix_of p.prefix r.0) r.1 p)
  ]
  convert-Steps int2 p shared mode = elim (Option-cases (next_number p.args)) [
    | inl missing ↦ rw (missing, Steps, Printf.convert, Logging.convert) tt
    | inr (r, e) ↦
        rw (e, Steps, Printf.convert, Logging.convert)
          (number-Steps (signed_text memory buffer r.0) (prefix_of p.prefix r.0) r.1 p)
  ]
  convert-Steps uint p shared mode = elim (Option-cases (next_number p.args)) [
    | inl missing ↦ rw (missing, Steps, Printf.convert, Logging.convert) tt
    | inr (r, e) ↦
        rw (e, Steps, Printf.convert, Logging.convert)
          (number-Steps (unsigned_text memory buffer (u32 r.0) 10) (p.prefix ∷ []) r.1 p)
  ]
  convert-Steps octal p shared mode = elim (Option-cases (next_number p.args)) [
    | inl missing ↦ rw (missing, Steps, Printf.convert, Logging.convert) tt
    | inr (r, e) ↦
        rw (e, Steps, Printf.convert, Logging.convert)
          (number-Steps (unsigned_text memory buffer (u32 r.0) 8) [] r.1 p)
  ]
  convert-Steps hex p shared mode = elim (Option-cases (next_number p.args)) [
    | inl missing ↦ rw (missing, Steps, Printf.convert, Logging.convert) tt
    | inr (r, e) ↦
        rw (e, Steps, Printf.convert, Logging.convert)
          (number-Steps (unsigned_text memory buffer (u32 r.0) 16) [] r.1 p)
  ]
  convert-Steps pointer p shared mode = elim (Option-cases (next_number p.args)) [
    | inl missing ↦ rw (missing, Steps, Printf.convert, Logging.convert) tt
    | inr (r, e) ↦
        rw (e, Steps, Printf.convert, Logging.convert)
          (number-Steps (unsigned_text memory buffer r.0 16) [] r.1
            (record p { output = p.output ++ (b'0' ∷ b'x' ∷ []) }))
  ]
  convert-Steps no_output p shared mode = absurd shared
  convert-Steps unknown p shared mode = absurd shared

  char-Steps :
      (mode : Bool) (c : ℕ) (rest : List ℕ) (p : Printf.Printer)
      → p.formatting ≡ mode
      → IsPlain mode (c ∷ rest)
      → Steps
          (next_mode mode c)
          (Logging.log_char memory buffer mode c (logger_of p))
          (Printf.print_char memory buffer mode c p)
        × IsPlain (next_mode mode c) rest
  unfolding Logging.log_char Printf.print_char
  char-Steps true c rest p e (shared, plain) = (convert-Steps (specifier_of c) p shared e, plain)
  char-Steps false c rest p e plain = (
    elim (Bool-cases (c == b'%')) [
      | inl percent ↦ rw (percent, Steps) (refl, sym percent)
      | inr text ↦ rw (text, Steps) (refl, e ∙ sym text)
    ],
    plain,
  )

  -- What is left of `printf` for the logger.
  abbrev logged : Option (ℕ × Printf.Printer) → Option Logging.Logger
  logged none = none
  logged (some (n, p)) = some (logger_of p)

  loop_step :
      (complaint : ℕ → List ℕ) (c : ℕ) (rest : List ℕ) (p : Printf.Printer)
      (r : Option Logging.Round) (r' : Option Printf.Round)
      → Logging.log_char memory buffer p.formatting c (logger_of p) ≡ r
      → Printf.print_char memory buffer p.formatting c p ≡ r'
      → Steps (next_mode p.formatting c) r r'
      → ((p' : Printf.Printer)
          → p'.formatting ≡ next_mode p.formatting c
          → Logging.log_loop memory buffer complaint rest (logger_of p')
            ≡ logged (Printf.print_loop memory buffer rest p'))
      → Logging.log_loop memory buffer complaint (c ∷ rest) (logger_of p)
        ≡ logged (Printf.print_loop memory buffer (c ∷ rest) p)
  unfolding Logging.log_loop Printf.print_loop
  loop_step complaint c rest p none none e e' steps next =
      rw (e, e', Logging.log_loop, Printf.print_loop) refl
  loop_step complaint c rest p (some (Logging.goes_on l)) (some (Printf.goes_on p')) e e' steps
        next =
      rw (e, e', Logging.log_loop, Printf.print_loop)
        (ap (Logging.log_loop memory buffer complaint rest) steps.0 ∙ next p' steps.1)
  loop_step complaint c rest p none (some r') e e' steps next = absurd steps
  loop_step complaint c rest p (some (Logging.fails l)) r' e e' steps next = absurd steps
  loop_step complaint c rest p (some (Logging.goes_on l)) none e e' steps next = absurd steps
  loop_step complaint c rest p (some (Logging.goes_on l)) (some (Printf.fails p')) e e' steps next =
      absurd steps

  loops_agree :
      (complaint : ℕ → List ℕ) (str : List ℕ) (p : Printf.Printer)
      → IsPlain p.formatting str
      → Logging.log_loop memory buffer complaint str (logger_of p)
        ≡ logged (Printf.print_loop memory buffer str p)
  unfolding Logging.log_loop Printf.print_loop
  loops_agree complaint [] p plain = refl
  loops_agree complaint (c ∷ rest) p plain =
      let (steps, plain') = char-Steps p.formatting c rest p refl plain in
      loop_step complaint c rest p _ _ refl refl steps
        (λ p' e. loops_agree complaint rest p' (subst (λ m. IsPlain m rest) (sym e) plain'))

-- A message around what `printf` puts out.
abbrev pub framed : ℕ → List ℕ → Option (ℕ × Printf.Printer) → Option (List ℕ)
framed level file none = none
framed level file (some (n, p)) =
    some (Logging.label_of level ++ Logging.origin_of level file ++ p.output ++ (10 ∷ []))

message_of-logged :
    (memory : Memory) (buffer level : ℕ) (file : List ℕ) (r : Option (ℕ × Printf.Printer))
    → Logging.message_of level file (logged memory buffer r) ≡ framed level file r
message_of-logged memory buffer level file none = refl
message_of-logged memory buffer level file (some (n, p)) = refl

-- For a format string whose specifiers both interpreters know (all but %n), any arguments and any
-- backend, `logging_log_msg` writes nothing for a level below that of the backend, and otherwise the
-- label, the file name where the level has one, exactly the bytes that `printf` puts on the terminal,
-- and a newline; where `printf` lacks an argument, so does the message.
pub logging_log_msg-printf :
    (memory : Memory) (buffer : ℕ) (logging_file : List ℕ) (backend : Logging.Backend) (level : ℕ)
    (file str : List ℕ) (args : List Argument)
    → IsPlain false str
    → Logging.logging_log_msg memory buffer logging_file backend level file str args ≡ (
        if ltb level backend.level
        then some []
        else framed level file (Printf.printf memory buffer str args))
unfolding Logging.logging_log_msg Printf.printf
logging_log_msg-printf memory buffer logging_file backend level file str args plain =
    ap (λ r. if ltb level backend.level then some [] else r)
      (ap (Logging.message_of level file)
          (loops_agree memory buffer (Logging.complaint_of logging_file) str start plain)
        ∙ message_of-logged memory buffer level file (Printf.printf memory buffer str args))
  where
    start : Printf.Printer
    start = record {
      formatting = false;
      prefix = 0;
      written = 0;
      output = [];
      args = args;
      stores = [];
    }
