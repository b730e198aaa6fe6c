-- ===== src/Boot/Messages.antt =====
-- The messages of kernel/src/main.c: their levels and their strings.
use j_oe_s.Base.{ℕ, ◌≡◌, refl, true, List, [], ◌∷◌}
use j_oe_s.Format.Logging.{level_info, level_error}
use j_oe_s.Drivers.Serial.Log.{plain}

pub data KernelMessage : Type 0 where
  serial_failed no_map_message no_hhdm_message clone_failed cloned before_cr3 after_cr3 testing
        map_failed unmap_failed no_errors :
      KernelMessage

-- Whether the message is for LOG_INFO or LOG_ERROR.
unfoldable pub level_of : KernelMessage → ℕ
level_of cloned = level_info
level_of before_cr3 = level_info
level_of after_cr3 = level_info
level_of testing = level_info
level_of no_errors = level_info
level_of _ = level_error

-- The strings, none of which has a specifier.
unfoldable pub string_of : KernelMessage → List ℕ
string_of serial_failed =
    b'E' ∷ b'R' ∷ b'R' ∷ b'O' ∷ b'R' ∷ b':' ∷ b' ' ∷ b'S' ∷ b'o' ∷ b'm' ∷ b'e' ∷ b't' ∷ b'h' ∷ b'i'
    ∷ b'n' ∷ b'g' ∷ b' ' ∷ b'w' ∷ b'e' ∷ b'n' ∷ b't' ∷ b' ' ∷ b'w' ∷ b'r' ∷ b'o' ∷ b'n' ∷ b'g'
    ∷ b' ' ∷ b's' ∷ b'e' ∷ b't' ∷ b't' ∷ b'i' ∷ b'n' ∷ b'g' ∷ b' ' ∷ b'u' ∷ b'p' ∷ b' ' ∷ b'C'
    ∷ b'O' ∷ b'M' ∷ b'1' ∷ b' ' ∷ b's' ∷ b'e' ∷ b'r' ∷ b'i' ∷ b'a' ∷ b'l' ∷ b' ' ∷ b'p' ∷ b'o'
    ∷ b'r' ∷ b't' ∷ b'!' ∷ []
string_of no_map_message =
    b'C' ∷ b'o' ∷ b'u' ∷ b'l' ∷ b'd' ∷ b' ' ∷ b'n' ∷ b'o' ∷ b't' ∷ b' ' ∷ b'g' ∷ b'e' ∷ b't' ∷ b' '
    ∷ b'M' ∷ b'e' ∷ b'm' ∷ b'o' ∷ b'r' ∷ b'y' ∷ b' ' ∷ b'M' ∷ b'a' ∷ b'p' ∷ b' ' ∷ b':' ∷ b'(' ∷ []
string_of no_hhdm_message =
    b'C' ∷ b'o' ∷ b'u' ∷ b'l' ∷ b'd' ∷ b' ' ∷ b'n' ∷ b'o' ∷ b't' ∷ b' ' ∷ b'g' ∷ b'e' ∷ b't' ∷ b' '
    ∷ b'H' ∷ b'H' ∷ b'D' ∷ b'M' ∷ b' ' ∷ b':' ∷ b'(' ∷ []
string_of clone_failed =
    b'F' ∷ b'a' ∷ b'i' ∷ b'l' ∷ b'e' ∷ b'd' ∷ b' ' ∷ b't' ∷ b'o' ∷ b' ' ∷ b'c' ∷ b'l' ∷ b'o' ∷ b'n'
    ∷ b'e' ∷ b' ' ∷ b'p' ∷ b'a' ∷ b'g' ∷ b'e' ∷ b' ' ∷ b't' ∷ b'a' ∷ b'b' ∷ b'l' ∷ b'e' ∷ b'.' ∷ []
string_of cloned =
    b'S' ∷ b'u' ∷ b'c' ∷ b'c' ∷ b'e' ∷ b's' ∷ b's' ∷ b'f' ∷ b'u' ∷ b'l' ∷ b'l' ∷ b'y' ∷ b' ' ∷ b'c'
    ∷ b'l' ∷ b'o' ∷ b'n' ∷ b'e' ∷ b'd' ∷ b' ' ∷ b't' ∷ b'h' ∷ b'e' ∷ b' ' ∷ b'p' ∷ b'a' ∷ b'g'
    ∷ b'e' ∷ b' ' ∷ b't' ∷ b'a' ∷ b'b' ∷ b'l' ∷ b'e' ∷ b'.' ∷ []
string_of before_cr3 =
    b'B' ∷ b'e' ∷ b'f' ∷ b'o' ∷ b'r' ∷ b'e' ∷ b' ' ∷ b'l' ∷ b'o' ∷ b'a' ∷ b'd' ∷ b'i' ∷ b'n' ∷ b'g'
    ∷ b' ' ∷ b'c' ∷ b'r' ∷ b'3' ∷ []
string_of after_cr3 =
    b'a' ∷ b'f' ∷ b't' ∷ b'e' ∷ b'r' ∷ b' ' ∷ b'l' ∷ b'o' ∷ b'a' ∷ b'd' ∷ b'i' ∷ b'n' ∷ b'g' ∷ b' '
    ∷ b'c' ∷ b'r' ∷ b'3' ∷ []
string_of testing =
    b'T' ∷ b'e' ∷ b's' ∷ b't' ∷ b' ' ∷ b'm' ∷ b'a' ∷ b'p' ∷ b'p' ∷ b'i' ∷ b'n' ∷ b'g' ∷ b' ' ∷ b'a'
    ∷ b'n' ∷ b'd' ∷ b' ' ∷ b'u' ∷ b'n' ∷ b'm' ∷ b'a' ∷ b'p' ∷ b'p' ∷ b'i' ∷ b'n' ∷ b'g' ∷ b' '
    ∷ b'a' ∷ b' ' ∷ b'p' ∷ b'a' ∷ b'g' ∷ b'e' ∷ b'.' ∷ b'.' ∷ b'.' ∷ []
string_of map_failed =
    b'F' ∷ b'a' ∷ b'i' ∷ b'l' ∷ b'e' ∷ b'd' ∷ b' ' ∷ b't' ∷ b'o' ∷ b' ' ∷ b'm' ∷ b'a' ∷ b'p' ∷ b' '
    ∷ b'p' ∷ b'a' ∷ b'g' ∷ b'e' ∷ []
string_of unmap_failed =
    b'F' ∷ b'a' ∷ b'i' ∷ b'l' ∷ b'e' ∷ b'd' ∷ b' ' ∷ b't' ∷ b'o' ∷ b' ' ∷ b'u' ∷ b'n' ∷ b'm' ∷ b'a'
    ∷ b'p' ∷ b' ' ∷ b'p' ∷ b'a' ∷ b'g' ∷ b'e' ∷ []
string_of no_errors =
    b'N' ∷ b'o' ∷ b' ' ∷ b'e' ∷ b'r' ∷ b'r' ∷ b'o' ∷ b's' ∷ b'.' ∷ b' ' ∷ b'S' ∷ b'e' ∷ b'e' ∷ b'm'
    ∷ b's' ∷ b' ' ∷ b't' ∷ b'o' ∷ b' ' ∷ b'w' ∷ b'o' ∷ b'r' ∷ b'k' ∷ b' ' ∷ b'i' ∷ b' ' ∷ b'g'
    ∷ b'u' ∷ b'e' ∷ b's' ∷ b's' ∷ b'.' ∷ []

pub string_of-plain : (message : KernelMessage) → plain (string_of message) ≡ true
unfolding plain string_of
string_of-plain serial_failed = refl
string_of-plain no_map_message = refl
string_of-plain no_hhdm_message = refl
string_of-plain clone_failed = refl
string_of-plain cloned = refl
string_of-plain before_cr3 = refl
string_of-plain after_cr3 = refl
string_of-plain testing = refl
string_of-plain map_failed = refl
string_of-plain unmap_failed = refl
string_of-plain no_errors = refl
