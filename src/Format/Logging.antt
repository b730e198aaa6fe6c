-- ===== src/Format/Logging.antt =====
-- kernel/src/logging.c and kernel/include/logging.h. What goes to the backend is a list of bytes.
use j_oe_s.Base.{
  ℕ, Bool, true, false, Option, none, some, List, [], ◌∷◌, ◌++◌, u8, u32, ltb, ◌==◌, if◌then◌else◌,
}
use j_oe_s.Libc.{Memory}
use j_oe_s.Format.{
  Specifier, specifier, string, char, int1, int2, uint, octal, hex, pointer, no_output, prefix_plus,
  prefix_space, unknown, specifier_of, Argument, next_number, next_string, prefix_of, unsigned_text,
  signed_text,
}

-- The variables of `log_formated_str`.
pub record Logger : Type 0 where
  pub formatting : Bool
  pub prefix : ℕ
  pub output : List ℕ
  pub args : List Argument

pub data Round : Type 0 where
  goes_on fails : Logger → Round

abbrev pub emit : List ℕ → Logger → Logger
emit text l = record l { output = l.output ++ text }

abbrev pub normal_mode : List Argument → Logger → Logger
normal_mode args l = record l { formatting = false; args = args }

module _ (memory : Memory) (buffer : ℕ) where
  abbrev pub emit_number : Option (List ℕ) → List ℕ → List Argument → Logger → Option Round
  emit_number none front args l = none
  emit_number (some text) front args l = some (goes_on (normal_mode args (emit (front ++ text) l)))

  -- The switch of format mode: %n is unknown here.
  unfoldable pub convert : Specifier → Logger → Option Round
  convert char l = elim (next_number l.args) [
    | none ↦ none
    | some (n, args) ↦ some (goes_on (normal_mode args (emit (u8 n ∷ []) l)))
  ]
  convert string l = elim (next_string l.args) [
    | none ↦ none
    | some (s, args) ↦ some (goes_on (normal_mode args (emit s l)))
  ]
  convert specifier l = some (goes_on (normal_mode l.args (emit (b'%' ∷ []) l)))
  convert int1 l = elim (next_number l.args) [
    | none ↦ none
    | some (n, args) ↦ emit_number (signed_text memory buffer n) (prefix_of l.prefix n) args l
  ]
  convert int2 l = elim (next_number l.args) [
    | none ↦ none
    | some (n, args) ↦ emit_number (signed_text memory buffer n) (prefix_of l.prefix n) args l
  ]
  convert uint l = elim (next_number l.args) [
    | none ↦ none
    | some (n, args) ↦ emit_number (unsigned_text memory buffer (u32 n) 10) (l.prefix ∷ []) args l
  ]
  convert octal l = elim (next_number l.args) [
    | none ↦ none
    | some (n, args) ↦ emit_number (unsigned_text memory buffer (u32 n) 8) [] args l
  ]
  convert hex l = elim (next_number l.args) [
    | none ↦ none
    | some (n, args) ↦ emit_number (unsigned_text memory buffer (u32 n) 16) [] args l
  ]
  convert pointer l = elim (next_number l.args) [
    | none ↦ none
    | some (n, args) ↦
        emit_number (unsigned_text memory buffer n 16) [] args (emit (b'0' ∷ b'x' ∷ []) l)
  ]
  convert prefix_plus l = some (goes_on (record l { prefix = b'+' }))
  convert prefix_space l = some (goes_on (record l { prefix = b' ' }))
  convert no_output l = some (fails l)
  convert unknown l = some (fails l)

  unfoldable pub log_char : Bool → ℕ → Logger → Option Round
  log_char false c l =
      if c == b'%'
      then some (goes_on (record l { formatting = true; prefix = 0 }))
      else some (goes_on (emit (c ∷ []) l))
  log_char true c l = convert (specifier_of c) l

  -- `log_formated_str`. What `LOG_ERROR` writes about an unknown specifier is an argument.
  unfoldable pub log_loop : (ℕ → List ℕ) → List ℕ → Logger → Option Logger
  log_loop complaint [] l = some l
  log_loop complaint (c ∷ rest) l = elim (log_char l.formatting c l) [
    | none ↦ none
    | some (fails l') ↦ some (emit (complaint c) l')
    | some (goes_on l') ↦ log_loop complaint rest l'
  ]

-- `logging_level_t`, in its order.
abbrev pub level_debug : ℕ
level_debug = 0

abbrev pub level_info : ℕ
level_info = 1

abbrev pub level_warning : ℕ
level_warning = 2

abbrev pub level_error : ℕ
level_error = 3

-- `struct logging_backend`: the write function and its context, by their addresses, and the level.
pub record Backend : Type 0 where
  pub write : ℕ
  pub context : ℕ
  pub level : ℕ

abbrev pub initial_backend : Backend
initial_backend = record { write = 0; context = 0; level = level_debug }

abbrev pub logging_set_backend : ℕ → ℕ → Backend → Backend
logging_set_backend log_func context b = record b { write = log_func; context = context }

abbrev pub logging_set_level : ℕ → Backend → Backend
logging_set_level l b = record b { level = l }

-- What is written in front; for `LOGGING_LEVEL_INFO` the length 8 takes the NUL in.
unfoldable pub label_of : ℕ → List ℕ
label_of level =
    if level == level_debug
    then b'[' ∷ b'D' ∷ b'E' ∷ b'B' ∷ b'U' ∷ b'G' ∷ b']' ∷ b' ' ∷ []
    else if level == level_info
    then b'[' ∷ b'I' ∷ b'N' ∷ b'F' ∷ b'O' ∷ b']' ∷ b' ' ∷ 0 ∷ []
    else if level == level_warning
    then b'[' ∷ b'W' ∷ b'A' ∷ b'R' ∷ b'N' ∷ b'I' ∷ b'N' ∷ b'G' ∷ b']' ∷ b' ' ∷ []
    else if level == level_error
    then b'[' ∷ b'E' ∷ b'R' ∷ b'R' ∷ b'O' ∷ b'R' ∷ b']' ∷ b' ' ∷ []
    else []

-- The name of the file where the message comes from, except for `LOGGING_LEVEL_INFO`.
unfoldable pub origin_of : ℕ → List ℕ → List ℕ
origin_of level file = if level == level_info then [] else file ++ (b':' ∷ b' ' ∷ [])

abbrev unknown_specifier : List ℕ
unknown_specifier =
    b'U' ∷ b'n' ∷ b'k' ∷ b'n' ∷ b'o' ∷ b'w' ∷ b'n' ∷ b' ' ∷ b'f' ∷ b'o' ∷ b'r' ∷ b'm' ∷ b'a' ∷ b't'
    ∷ b' ' ∷ b's' ∷ b'p' ∷ b'e' ∷ b'c' ∷ b'i' ∷ b'f' ∷ b'i' ∷ b'e' ∷ b'r' ∷ b':' ∷ b' ' ∷ []

-- `LOG_ERROR("Unknown format specifier: %c", str[i])` of logging.c, at any level of the backend.
abbrev pub complaint_of : List ℕ → ℕ → List ℕ
complaint_of logging_file c =
    label_of level_error ++ origin_of level_error logging_file ++ unknown_specifier ++ (c ∷ 10 ∷ [])

-- A message around the formatted text.
abbrev pub message_of : ℕ → List ℕ → Option Logger → Option (List ℕ)
message_of level file none = none
message_of level file (some l) =
    some (label_of level ++ origin_of level file ++ l.output ++ (10 ∷ []))

-- `logging_log_msg`: the bytes for the write function of the backend. `logging_file` is the name
-- of logging.c itself.
unfoldable pub logging_log_msg :
    Memory → ℕ → List ℕ → Backend → ℕ → List ℕ → List ℕ → List Argument → Option (List ℕ)
logging_log_msg memory buffer logging_file backend level file msg args =
    let start : Logger = record { formatting = false; prefix = 0; output = []; args = args } in
    if ltb level backend.level
    then some []
    else (message_of level file (log_loop memory buffer (complaint_of logging_file) msg start))
