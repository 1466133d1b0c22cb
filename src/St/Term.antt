-- ===== src/St/Term.antt =====
-- st/st.c and st/st.h, the state: Glyph, TCursor, Selection, Term, CSIEscape, STREscape and the
-- file-scope variables, in one record. A flag word is a function from the bit's number; an array a
-- function of its index.
use suckless.Prelude.{ℕ, ◌+◌, ◌-◌, ◌%◌, Bool, false, ◌||◌, List, [], ◌∷◌, Option, ltb}
use suckless.Prelude.{if◌then◌else◌, put_at}
use suckless.Prelude.Int.{ℤ}

abbrev pub Flags : Type 0
Flags = ℕ → Bool

abbrev pub no_flags : Flags
no_flags bit = false

-- MODBIT(x, set, 1 << bit); also `x |= 1 << bit` and `x &= ~(1 << bit)`.
abbrev pub modbit : Flags → Bool → ℕ → Flags
modbit x set bit = put_at x bit set

abbrev pub clear_bits : Flags → List ℕ → Flags
clear_bits x [] = x
clear_bits x (b ∷ bs) = clear_bits (modbit x false b) bs

-- `!x` for a word whose flags stand below bit n.
abbrev pub any_below : ℕ → Flags → Bool
any_below ℕ.zero x = false
any_below (ℕ.suc n) x = x n || any_below n x

abbrev pub esc_buf_siz : ℕ
esc_buf_siz = 512

abbrev pub esc_arg_siz : ℕ
esc_arg_siz = 16

abbrev pub histsize : ℕ
histsize = 2000

-- enum glyph_attribute
abbrev pub attr_bold : ℕ
attr_bold = 0

abbrev pub attr_faint : ℕ
attr_faint = 1

abbrev pub attr_italic : ℕ
attr_italic = 2

abbrev pub attr_underline : ℕ
attr_underline = 3

abbrev pub attr_blink : ℕ
attr_blink = 4

abbrev pub attr_reverse : ℕ
attr_reverse = 5

abbrev pub attr_invisible : ℕ
attr_invisible = 6

abbrev pub attr_struck : ℕ
attr_struck = 7

abbrev pub attr_wrap : ℕ
attr_wrap = 8

abbrev pub attr_wide : ℕ
attr_wide = 9

abbrev pub attr_wdummy : ℕ
attr_wdummy = 10

abbrev pub attr_boxdraw : ℕ
attr_boxdraw = 11

-- enum term_mode
abbrev pub mode_wrap : ℕ
mode_wrap = 0

abbrev pub mode_insert : ℕ
mode_insert = 1

abbrev pub mode_altscreen : ℕ
mode_altscreen = 2

abbrev pub mode_crlf : ℕ
mode_crlf = 3

abbrev pub mode_echo : ℕ
mode_echo = 4

abbrev pub mode_print : ℕ
mode_print = 5

abbrev pub mode_utf8 : ℕ
mode_utf8 = 6

-- enum cursor_state
abbrev pub cursor_wrapnext : ℕ
cursor_wrapnext = 0

abbrev pub cursor_origin : ℕ
cursor_origin = 1

-- enum escape_state
abbrev pub esc_start : ℕ
esc_start = 0

abbrev pub esc_csi : ℕ
esc_csi = 1

abbrev pub esc_str : ℕ
esc_str = 2

abbrev pub esc_altcharset : ℕ
esc_altcharset = 3

abbrev pub esc_str_end : ℕ
esc_str_end = 4

abbrev pub esc_test : ℕ
esc_test = 5

abbrev pub esc_utf8 : ℕ
esc_utf8 = 6

-- enum charset, the two that tdeftran can choose
abbrev pub cs_graphic0 : ℕ
cs_graphic0 = 0

abbrev pub cs_usa : ℕ
cs_usa = 3

-- enum selection_mode, selection_type, selection_snap
abbrev pub sel_idle : ℕ
sel_idle = 0

abbrev pub sel_empty : ℕ
sel_empty = 1

abbrev pub sel_ready : ℕ
sel_ready = 2

abbrev pub sel_regular : ℕ
sel_regular = 1

abbrev pub sel_rectangular : ℕ
sel_rectangular = 2

abbrev pub snap_word : ℕ
snap_word = 1

abbrev pub snap_line : ℕ
snap_line = 2

pub record Glyph : Type 0 where
  pub u : ℕ
  pub mode : Flags
  pub fg : ℕ
  pub bg : ℕ

abbrev pub Line : Type 0
Line = ℕ → Glyph

-- TCursor; x and y are never negative (tmoveto).
pub record Cursor : Type 0 where
  pub attr : Glyph
  pub x : ℕ
  pub y : ℕ
  pub state : Flags

pub record Point : Type 0 where
  pub x : ℤ
  pub y : ℤ

pub record Selection : Type 0 where
  pub mode : ℕ
  pub type : ℕ
  pub snap : ℕ
  pub nb : Point
  pub ne : Point
  pub ob : Point
  pub oe : Point
  pub alt : Bool

-- The bytes buf[0 .. len) are a list; `mode` is the two bytes of csiescseq.mode.
pub record CsiEscape : Type 0 where
  pub buf : List ℕ
  pub priv : Bool
  pub arg : ℕ → ℤ
  pub narg : ℕ
  pub mode0 : ℕ
  pub mode1 : ℕ

pub record StrEscape : Type 0 where
  pub type : ℕ
  pub buf : List ℕ
  pub siz : ℕ
  pub args : List (List ℕ)

-- What the terminal asks of the window, the tty and the printer.
pub data Call : Type 0 where
  xbell xloadcols xclipcopy xclearwin : Call
  xsetpointermotion : Bool → Call
  xsettitle : Option (List ℕ) → Call
  xsetcursor : ℤ → Call
  xsetsel : List ℕ → Call
  xsetcolorname : ℤ → Option (List ℕ) → Call
  xdrawline : ℕ → Call
  tty : List ℕ → Call
  print : List ℕ → Call

-- config.h, the C library's locale functions, isboxdraw of boxdraw.c (u, then the answer) and the
-- result of xsetcolorname.
pub record Config : Type 0 where
  pub defaultfg : ℕ
  pub defaultbg : ℕ
  pub tabspaces : ℕ
  pub worddelimiters : List ℕ
  pub allowaltscreen : Bool
  pub allowwindowops : Bool
  pub vtiden : List ℕ
  pub wcwidth : ℕ → ℤ
  pub isprint : ℕ → Bool
  pub isboxdraw : ℕ → Bool
  pub bad_color : ℤ → Option (List ℕ) → Bool

-- `term.dirty` and the variable `sel`, which the selection's functions write together.
pub record Marks : Type 0 where
  pub dirty : ℕ → Bool
  pub sel : Selection

-- `struct Term` in the order of the source, then tcursor's static c[2], the variables
-- csiescseq and strescseq, win.mode of x.c, and the calls made so far, the latest first. `fault` is set where
-- tsetchar writes before a line and where tdeftran reads past its string.
pub record Term : Type 0 where
  pub config : Config
  pub open config use *
  pub row : ℕ
  pub col : ℕ
  pub line : ℕ → Line
  pub alt : ℕ → Line
  pub hist : ℕ → Line
  pub histi : ℕ
  pub scr : ℕ
  pub marks : Marks
  pub open marks use *
  pub c : Cursor
  pub ocx : ℤ
  pub ocy : ℕ
  pub top : ℕ
  pub bot : ℕ
  pub mode : Flags
  pub esc : Flags
  pub trantbl : ℕ → ℕ
  pub charset : ℕ
  pub icharset : ℕ
  pub tabs : ℕ → Bool
  pub lastc : ℕ
  pub saved : Bool → Cursor
  pub csi : CsiEscape
  pub str : StrEscape
  pub win : Flags
  pub calls : List Call
  pub fault : Bool

abbrev pub call : Call → Term → Term
call k t = record t { calls = k ∷ t.calls }

-- TLINE(y), for 0 <= y
abbrev pub tline : Term → ℕ → Line
tline t y =
    if ltb y t.scr
    then t.hist ((y + t.histi + histsize + 1 - t.scr) % histsize)
    else t.line (y - t.scr)
