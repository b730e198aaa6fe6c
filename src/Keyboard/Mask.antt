-- ===== src/Keyboard/Mask.antt =====
-- kernel/include/drivers/keyboard.h: the masks of the modifier flags.
use j_oe_s.Base.{ℕ}

abbrev pub shift : ℕ
shift = 0x1

abbrev pub caps_lock : ℕ
caps_lock = 0x2

abbrev pub alt : ℕ
alt = 0x4

abbrev pub altgr : ℕ
altgr = 0x8

abbrev pub strg : ℕ
strg = 0x10

abbrev pub num_lock : ℕ
num_lock = 0x20

abbrev pub scroll_lock : ℕ
scroll_lock = 0x40

abbrev pub lsuper : ℕ
lsuper = 0x80

abbrev pub rsuper : ℕ
rsuper = 0x100
