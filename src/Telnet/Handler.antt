-- ===== src/Telnet/Handler.antt =====
-- include/net/telnet.h: the handler's state, and what it asks of the telnet library, which is
-- recorded as a list of calls. `uint` fields hold 32 bits. A buffer is the list of the bytes that
-- its position counts; a write past its end, a division by zero and a read past a table are `none`.
use sourcemud.Base.{
  ℕ, Bool, true, false, Option, none, some, List, [], ◌∷◌, ◌++◌, ◌≡◌, refl, ◌<◌, arith,
}
use sourcemud.Base.Int.{ℤ, pos, negsuc}
use sourcemud.Base.Lists.{length, get_elem?, All, All-get_elem?, get_elem?_in_range}
use sourcemud.Base.Text.{Text, codes}

-- Calls of libtelnet; the calls by which `addZmp` sends its arguments are one.
pub data Call : Type 0 where
  telnet_send telnet_printf : Text → Call
  add_zmp : List Text → Call
  telnet_negotiate : ℕ → ℕ → Call
  telnet_iac : ℕ → Call
  telnet_begin_compress2 : Call

pub data OutputState : Type 0 where
  ostate_text ostate_escape ostate_ansi ostate_awecode : OutputState

pub record IoFlags : Type 0 where
  pub use_ansi : Bool
  pub need_prompt : Bool
  pub need_newline : Bool
  pub do_echo : Bool
  pub do_eor : Bool
  pub want_echo : Bool
  pub force_echo : Bool
  pub soft_break : Bool
  pub zmp : Bool
  pub zmp_color : Bool
  pub auto_indent : Bool

pub record Handler : Type 0 where
  pub chunk : Text
  pub chunkwidth : ℕ
  pub chunk_size : ℕ
  pub esc_buf : Text
  pub width : ℕ
  pub height : ℕ
  pub cur_col : ℕ
  pub margin : ℕ
  pub color_set : List ℤ
  pub colors : List ℕ
  pub io_flags : IoFlags
  pub ostate : OutputState
  pub has_mode : Bool
  pub sent : List Call

abbrev pub chunk_buffer_size : ℕ
chunk_buffer_size = 32

abbrev pub max_escape_size : ℕ
max_escape_size = 32

abbrev pub call : Call → Handler → Handler
call c h = record h { sent = h.sent ++ (c ∷ []) }

-- The escape sequences of the colours, by their numbers.
abbrev ansi : Text → Text
ansi code = 0o33 ∷ b'[' ∷ (code ++ (b'm' ∷ []))

abbrev pub ansi_normal : Text
ansi_normal = ansi (codes "0")

unfoldable pub color_values : List Text
color_values =
    ansi_normal
    ∷ ansi (codes "0;30")
    ∷ ansi (codes "0;31")
    ∷ ansi (codes "0;32")
    ∷ ansi (codes "0;33")
    ∷ ansi (codes "0;34")
    ∷ ansi (codes "0;35")
    ∷ ansi (codes "0;36")
    ∷ ansi (codes "0;37")
    ∷ ansi (codes "1;30")
    ∷ ansi (codes "1;31")
    ∷ ansi (codes "1;32")
    ∷ ansi (codes "1;33")
    ∷ ansi (codes "1;34")
    ∷ ansi (codes "1;35")
    ∷ ansi (codes "1;36")
    ∷ ansi (codes "1;37")
    ∷ ansi (codes "2;31")
    ∷ ansi (codes "2;32")
    ∷ ansi (codes "2;33")
    ∷ ansi (codes "2;34")
    ∷ ansi (codes "2;35")
    ∷ ansi (codes "2;36")
    ∷ ansi (codes "2;37")
    ∷ []

-- `color_type_defaults`, by the numbers of the colours.
unfoldable pub color_type_defaults : List ℕ
color_type_defaults = 0 ∷ 3 ∷ 0 ∷ 6 ∷ 4 ∷ 13 ∷ 4 ∷ 2 ∷ 7 ∷ 8 ∷ 10 ∷ 12 ∷ 15 ∷ 11 ∷ 4 ∷ 7 ∷ []

abbrev pub num_ctypes : ℕ
num_ctypes = 16

-- `getColor`; a negative entry stands for the default.
color_or_default : ℕ → ℤ → Option ℕ
color_or_default i (pos n) = some n
color_or_default i (negsuc n) = get_elem? color_type_defaults i

unfoldable pub get_color : Handler → ℕ → Option ℕ
unfolding color_or_default color_type_defaults
get_color h i = elim (get_elem? h.color_set i) [ none ↦ none | some v ↦ color_or_default i v ]

-- The handler that the constructor leaves: no colour is set and no mode is chosen. The source leaves
-- `height` and `esc_cnt` unset; here they are 0. Its calls of the telnet library are left out.
abbrev pub new_handler : Handler
new_handler = record {
  chunk = [];
  chunkwidth = 0;
  chunk_size = 0;
  esc_buf = [];
  width = 70;
  height = 0;
  cur_col = 0;
  margin = 0;
  color_set =
      negsuc 0
      ∷ negsuc 0
      ∷ negsuc 0
      ∷ negsuc 0
      ∷ negsuc 0
      ∷ negsuc 0
      ∷ negsuc 0
      ∷ negsuc 0
      ∷ negsuc 0
      ∷ negsuc 0
      ∷ negsuc 0
      ∷ negsuc 0
      ∷ negsuc 0
      ∷ negsuc 0
      ∷ negsuc 0
      ∷ negsuc 0
      ∷ [];
  colors = [];
  io_flags = record {
    use_ansi = true;
    need_prompt = false;
    need_newline = false;
    do_echo = false;
    do_eor = false;
    want_echo = true;
    force_echo = false;
    soft_break = false;
    zmp = false;
    zmp_color = false;
    auto_indent = false;
  };
  ostate = ostate_text;
  has_mode = false;
  sent = [];
}

-- An entry of the colour set is unset, or a colour of the table.
abbrev pub IsColor : ℤ → Type 0
IsColor (pos n) = n < 24
IsColor (negsuc n) = Unit {0}

default_color : (i : ℕ) → i < 16 → (v : ℕ) × (get_elem? color_type_defaults i ≡ some v) × (v < 24)
unfolding color_type_defaults
default_color i h =
    let (v, e) = get_elem?_in_range color_type_defaults i h in
    (v, e, All-get_elem? (λ c. c < 24) color_type_defaults i v (omega arith) e)

color_or_default_lem :
    (i : ℕ) (v : ℤ) → i < 16 → IsColor v → (c : ℕ) × (color_or_default i v ≡ some c) × (c < 24)
unfolding color_or_default
color_or_default_lem i (pos n) h k = (n, refl, k)
color_or_default_lem i (negsuc n) h k = default_color i h

-- A colour type has a colour of the table.
pub get_color_lem :
    (h : Handler) (i : ℕ)
    → i < 16
    → length h.color_set ≡ 16
    → All IsColor h.color_set
    → (c : ℕ) × (get_color h i ≡ some c) × (c < 24)
unfolding get_color
get_color_lem h i lt size set =
    let (v, e) = get_elem?_in_range h.color_set i (omega arith) in
    rw (e, get_color) (color_or_default_lem i v lt (All-get_elem? IsColor h.color_set i v set e))
