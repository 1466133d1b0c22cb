-- ===== src/St/Tests.antt =====
-- st/st.c: runs on a screen of three rows and four columns, and the theorems at concrete inputs.
use suckless.Prelude.{
  ℕ, zero, suc, drop, ◌||◌, ◌+◌, ◌-◌, ◌*◌, ◌^◌, ◌≤◌, ◌<◌, ◌≡◌, ◌⊎◌, inl, inr, refl, true, false,
  ◌&&◌, List, [], ◌∷◌, ◌++◌, arith, length, between, ◌==◌, if◌then◌else◌,
}
use suckless.Prelude.Int.{pos, negsuc, limit}
use suckless.St.Term.{
  Term, Line, Flags, Cursor, Point, Selection, CsiEscape, Config, modbit, no_flags, mode_wrap,
  mode_utf8, mode_altscreen, cursor_wrapnext, esc_arg_siz,
}
use suckless.St.Cursor.Bounds.{InScreen}
use suckless.St.Clear.{blank, tclearregion}
use suckless.St.Clear.Region.{line-tclearregion, tclearregion_outside}
use suckless.St.Scroll.{tscrollup, tscrolldown}
use suckless.St.Scroll.Rows.{line-tscrollup, line-tscrolldown}
use suckless.St.Edit.{stored, translated, tsetchar, tdeletechar, tinsertblank, tputtab}
use suckless.St.Edit.Cells.{line-tdeletechar, line-tinsertblank, tdeletechar_no_count}
use suckless.St.Edit.Wide.{IsPaired, Shows, IsLeft, tsetchar-IsPaired}
use suckless.St.Edit.Tabs.{IsNextTab, tputtab-IsNextTab}
use suckless.St.Select.{selected, selnormalize}
use suckless.St.Select.Order.{reads_between, selected-selnormalize}
use suckless.St.Base64.{base64dec, base64_size}
use suckless.St.Base64.Bounds.{base64dec-fits}
use suckless.St.Utf8.{utf8encode, utf8decode}
use suckless.St.Utf8.Encode.{rfc3629, utf8encode-rfc3629}
use suckless.St.Utf8.Decode.{utf8decode-utf8encode}
use suckless.St.Utf8.Sound.{AllBytes, Outcome, utf8decode-Outcome}
use suckless.St.Modes.{screen_mode}
use suckless.St.Modes.AltScreen.{screen_mode-returns}
use suckless.St.Handle.{erase_display, erase_line, csi_move}
use suckless.St.Handle.Erase.{erase_display-below, erase_display-above, line-erase_line}
use suckless.St.Handle.Move.{csi_move-lands, csi_move-overflow}
use suckless.St.Resize.{tresize, tresize-InScreen, tnew, tnew-InScreen}
use suckless.St.Csi.{empty_csi, csiparse, csiparse_args, strtol}
use suckless.St.Csi.Parse.{csiparse_bound}
use suckless.St.Put.{twrite, put_glyph}
use suckless.St.Put.Keeps.{twrite-InScreen}
use suckless.St.Put.Consumed.{twrite-consumes}
use suckless.St.Utf8.Partial.{IsUnfinished}
use suckless.St.Put.Wrap.{Advanced, put_glyph-prints, put_glyph-wraps}

-- Cell (j, i) of the screen holds a letter of its own.
abbrev letters : ℕ → Line
letters j i = record { u = b'a' + j * 4 + i; mode = no_flags; fg = 7; bg = 0 }

abbrev config : Config
config = record {
  defaultfg = 7;
  defaultbg = 0;
  tabspaces = 8;
  worddelimiters = b' ' ∷ [];
  allowaltscreen = true;
  allowwindowops = false;
  vtiden = 27 ∷ b'[' ∷ b'?' ∷ b'6' ∷ b'c' ∷ [];
  wcwidth = λ u. pos 1;
  isprint = λ u. between u 32 126;
  isboxdraw = λ u. false;
  bad_color = λ j p. true;
}

abbrev origin : Point
origin = record { x = pos 0; y = pos 0 }

abbrev no_selection : Selection
no_selection = record {
  mode = 0;
  type = 1;
  snap = 0;
  nb = origin;
  ne = origin;
  ob = record { x = negsuc 0; y = pos 0 };
  oe = origin;
  alt = false;
}

-- The cursor is at column x of row y; `state` is its state.
abbrev cursor : ℕ → ℕ → Flags → Cursor
cursor x y state = record {
  attr = record { u = 0; mode = no_flags; fg = 7; bg = 0 };
  x = x;
  y = y;
  state = state;
}

abbrev screen : Cursor → Term
screen c = record {
  config = config;
  row = 3;
  col = 4;
  line = letters;
  alt = λ j. letters 0;
  hist = λ j. letters 0;
  histi = 0;
  scr = 0;
  marks = record { dirty = λ j. false; sel = no_selection };
  c = c;
  ocx = pos 0;
  ocy = 0;
  top = 0;
  bot = 2;
  mode = modbit (modbit no_flags true mode_wrap) true mode_utf8;
  esc = no_flags;
  trantbl = λ i. 3;
  charset = 0;
  icharset = 0;
  tabs = λ i. i == 2;
  lastc = 0;
  saved = λ b. c;
  csi = empty_csi;
  str = record { type = 0; buf = []; siz = 0; args = [] };
  win = no_flags;
  calls = [];
  fault = false;
}

-- The cursor at column 1 of row 1, and the same for a cursor of one's own.
abbrev start : Term
start = screen (cursor 1 1 no_flags)

screen-InScreen : (x y : ℕ) (f : Flags) → x < 4 → y < 3 → InScreen (screen (cursor x y f))
screen-InScreen x y f h k = record {
  rows = omega arith;
  cols = omega arith;
  cursor_x = h;
  cursor_y = k;
  region = omega arith;
  region_end = omega arith;
  history = omega arith;
  scrolled = omega arith;
}

start-InScreen : InScreen start
start-InScreen = screen-InScreen 1 1 no_flags (omega arith) (omega arith)

-- "X", ESC [ 2 J, a line feed and a letter of two bytes.
abbrev bytes : List ℕ
bytes = b'X' ∷ 27 ∷ b'[' ∷ b'2' ∷ b'J' ∷ 10 ∷ 0xC3 ∷ 0xA9 ∷ []

twrite-InScreen_example : InScreen (twrite bytes false start).1
twrite-InScreen_example = twrite-InScreen bytes false start start-InScreen

all_bytes : AllBytes bytes
all_bytes = (
  omega arith,
  (
    omega arith,
    (omega arith, (omega arith, (omega arith, (omega arith, (omega arith, (omega arith, tt)))))),
  ),
)

-- A letter, and two bytes of a character of three.
abbrev cut : List ℕ
cut = b'A' ∷ 0xE2 ∷ 0x82 ∷ []

cut_bytes : AllBytes cut
cut_bytes = (omega arith, (omega arith, (omega arith, tt)))

twrite-consumes_example :
    let n = (twrite cut false start).0 in
    (n ≤ length cut) × (length cut < n + 4) × IsUnfinished (drop n cut)
twrite-consumes_example = twrite-consumes cut false start cut_bytes

put_glyph-prints_example :
    ((put_glyph b'X' 1 start).line 1 1 ≡ stored start (translated start b'X') start.c.attr)
    × Advanced start (put_glyph b'X' 1 start)
put_glyph-prints_example = put_glyph-prints b'X' start start-InScreen refl refl refl

-- The cursor at the margin of row 1, with a wrap pending.
abbrev at_margin : Term
at_margin = screen (cursor 3 1 (modbit no_flags true cursor_wrapnext))

at_margin-InScreen : InScreen at_margin
at_margin-InScreen = screen-InScreen 3 1 _ (omega arith) (omega arith)

put_glyph-wraps_example :
    ((put_glyph b'X' 1 at_margin).line 2 0
      ≡ stored at_margin (translated at_margin b'X') at_margin.c.attr)
    × ((put_glyph b'X' 1 at_margin).c.x ≡ 1)
    × ((put_glyph b'X' 1 at_margin).c.y ≡ 2)
put_glyph-wraps_example =
    put_glyph-wraps b'X' at_margin at_margin-InScreen refl refl refl refl (omega arith)

utf8encode-rfc3629_example : utf8encode 0x20AC ≡ rfc3629 0x20AC
utf8encode-rfc3629_example = utf8encode-rfc3629 0x20AC

utf8decode-utf8encode_example :
    utf8decode (utf8encode 0x20AC ++ (b'X' ∷ [])) ≡ (length (utf8encode 0x20AC), 0x20AC)
utf8decode-utf8encode_example =
    utf8decode-utf8encode 0x20AC (b'X' ∷ []) (omega arith, inl (omega arith))

utf8decode-Outcome_example : Outcome (0xE2 ∷ 0x82 ∷ []) (utf8decode (0xE2 ∷ 0x82 ∷ []))
utf8decode-Outcome_example = utf8decode-Outcome (0xE2 ∷ 0x82 ∷ []) (omega arith, (omega arith, tt))

line-tscrollup_example : (tscrollup 0 (pos 1) true start).line 0 2 ≡ start.line 1 2
line-tscrollup_example =
    line-tscrollup 0 1 true start 0 2 start-InScreen (omega arith) (omega arith) (omega arith)

line-tscrolldown_example : (tscrolldown 0 (pos 1) false start).line 2 2 ≡ start.line 1 2
line-tscrolldown_example =
    line-tscrolldown 0 1 false start 2 2 start-InScreen (omega arith) (omega arith) (omega arith)

line-tclearregion_example : (tclearregion (pos 9) (pos 1) (pos 2) (negsuc 0) start).line 1 3 ≡ (
    if between 1 (limit (negsuc 0) 0 2) (limit (pos 1) 0 2)
      && between 3 (limit (pos 2) 0 3) (limit (pos 9) 0 3)
    then blank start
    else start.line 1 3)
line-tclearregion_example = line-tclearregion (pos 9) (pos 1) (pos 2) (negsuc 0) start 1 3

tclearregion_outside_example :
    (tclearregion (pos 0) (pos 0) (pos 9) (pos 9) start).line 1 4 ≡ start.line 1 4
tclearregion_outside_example =
    tclearregion_outside (pos 0) (pos 0) (pos 9) (pos 9) start 1 4 start-InScreen
      (inr (omega arith))

line-tdeletechar_example : (tdeletechar (pos 1) start).line 1 2 ≡ start.line 1 3
line-tdeletechar_example = line-tdeletechar 1 start 1 2 start-InScreen (omega arith) (omega arith)

line-tinsertblank_example : (tinsertblank (pos 1) start).line 1 3 ≡ start.line 1 2
line-tinsertblank_example = line-tinsertblank 1 start 1 3 start-InScreen (omega arith) (omega arith)

tdeletechar_no_count_example : (tdeletechar (negsuc 4) start).line 1 3 ≡ blank start
tdeletechar_no_count_example = tdeletechar_no_count 4 start 3 start-InScreen (omega arith)

-- A wide character stands in the columns 1 and 2 of each row.
abbrev wide_line : Line
wide_line i = record {
  u = b'w';
  mode =
      if i == 1
      then modbit no_flags true 9
      else if i == 2
      then modbit no_flags true 10
      else no_flags;
  fg = 7;
  bg = 0;
}

abbrev wide_screen : Term
wide_screen = record start { line = λ j. wide_line }

wide_line-IsPaired : IsPaired 4 wide_line
wide_line-IsPaired = record {
  halves = λ i h. ground arith;
  first = refl;
  apart = λ i. ground arith;
}

-- The right half is written over; row 0, and the left half in row 1.
tsetchar-IsPaired_example :
    let t' = tsetchar b'X' start.c.attr 2 1 wide_screen in
    IsPaired 4 (t'.line 0)
    × (t'.fault ≡ false)
    × Shows (wide_screen.isboxdraw b'X') b'X' start.c.attr (t'.line 1 2)
    × (◌≡◌ {A = ℕ} 1 2 ⊎ IsLeft true (wide_line 1) (t'.line 1 1))
    × (◌≡◌ {A = ℕ} 0 1 ⊎ (t'.line 0 ≡ wide_line))
tsetchar-IsPaired_example =
    tsetchar-IsPaired b'X' start.c.attr 2 1 wide_screen 0 1 (λ k. wide_line-IsPaired) (omega arith)
      (omega arith) refl refl

tputtab-IsNextTab_example : IsNextTab start (tputtab (pos 1) start).c.x
tputtab-IsNextTab_example = tputtab-IsNextTab start start-InScreen

erase_display-below_example :
    ((erase_display (pos 0) start).line 2 0 ≡ blank start)
    × ((erase_display (pos 2) start).line 2 0 ≡ blank start)
erase_display-below_example =
    erase_display-below start 2 0 start-InScreen (omega arith) (omega arith)

erase_display-above_example : (erase_display (pos 1) start).line 0 2 ≡ start.line 0 2
erase_display-above_example =
    erase_display-above start 0 2 start-InScreen (omega arith) (omega arith)

line-erase_line_example :
    ((erase_line (pos 0) start).line 1 2 ≡ blank start)
    × ((erase_line (pos 1) start).line 1 2 ≡ start.line 1 2)
    × ((erase_line (pos 2) start).line 1 2 ≡ blank start)
line-erase_line_example = line-erase_line start 1 2 start-InScreen (omega arith) (omega arith)

csi_move-lands_example :
    (((csi_move b'A' (pos 7) (pos 1) start).c.x ≡ 1)
      × ((csi_move b'A' (pos 7) (pos 1) start).c.y ≡ 0))
    × (((csi_move b'B' (pos 7) (pos 1) start).c.x ≡ 1)
        × ((csi_move b'B' (pos 7) (pos 1) start).c.y ≡ 2))
    × (((csi_move b'C' (pos 7) (pos 1) start).c.x ≡ 3)
        × ((csi_move b'C' (pos 7) (pos 1) start).c.y ≡ 1))
    × (((csi_move b'D' (pos 7) (pos 1) start).c.x ≡ 0)
        × ((csi_move b'D' (pos 7) (pos 1) start).c.y ≡ 1))
csi_move-lands_example =
    csi_move-lands 7 (pos 1) start start-InScreen refl (omega arith) (omega arith)

csi_move-overflow_example : (csi_move b'C' (pos (2 ^ 31 - 1)) (pos 1) start).c.x ≡ 0
csi_move-overflow_example =
    csi_move-overflow (pos 1) start start-InScreen (omega arith) (omega arith)

-- Dragged from column 3 of row 2 to column 1 of row 0.
abbrev dragged : Selection
dragged = record no_selection {
  ob = record { x = pos 3; y = pos 2 };
  oe = record { x = pos 1; y = pos 0 };
}

abbrev selecting : Term
selecting = record start {
  marks = record start.marks { sel = record dragged { mode = 2; type = 1; snap = 0 } };
}

-- Row 1 is between the two ends.
selected-selnormalize_example :
    selected (selnormalize selecting) (pos 0) (pos 1)
    ≡ (reads_between selecting 3 2 1 0 0 1 || reads_between selecting 1 0 3 2 0 1)
selected-selnormalize_example =
    selected-selnormalize selecting 3 2 1 0 0 1 (refl, refl, (λ e. absurd (omega (arith, e))), refl)
      refl refl (omega arith)

-- "1;2m" after the bracket.
-- Twenty parameters, four more than there is room for.
abbrev parameters : ℕ → List ℕ
parameters zero = b'7' ∷ b'm' ∷ []
parameters (suc n) = b'7' ∷ b';' ∷ parameters n

abbrev many : CsiEscape
many = record empty_csi { buf = parameters 19 }

many_counted : (csiparse many).narg ≡ 16
unfolding csiparse csiparse_args strtol
many_counted = refl

csiparse_bound_example :
    ((csiparse many).narg ≤ esc_arg_siz)
    × ((csiparse many).arg 16 ≡ many.arg 16)
    × ((csiparse many).arg ≡ (csiparse_args 60 (parameters 19) many.arg 0).0)
    × ((csiparse many).narg ≡ (csiparse_args 60 (parameters 19) many.arg 0).1)
csiparse_bound_example = csiparse_bound many 16 60 (omega arith) (omega arith)

base64dec-fits_example :
    length (base64dec config.isprint (b'Q' ∷ b'U' ∷ b'I' ∷ b'=' ∷ [])) + 1 ≤ base64_size 4
base64dec-fits_example = base64dec-fits config.isprint (b'Q' ∷ b'U' ∷ b'I' ∷ b'=' ∷ [])

tnew-InScreen_example : InScreen (tnew 4 3 start)
tnew-InScreen_example = tnew-InScreen 4 3 start (omega arith) (omega arith)

screen_mode-returns_example :
    let u =
      screen_mode false 1049
        (record (screen_mode true 1049 start) { line = λ j. letters 0; c = cursor 0 2 no_flags }) in
    (u.line ≡ start.line)
    × (u.mode mode_altscreen ≡ false)
    × (u.c.x ≡ 1)
    × (u.c.y ≡ 1)
    × (u.c.attr ≡ start.c.attr)
screen_mode-returns_example =
    screen_mode-returns (λ j. letters 0) (cursor 0 2 no_flags) start start-InScreen refl refl refl

tresize-InScreen_example :
    InScreen (tresize 2 1 start) × ((tresize 2 1 start).row ≡ 1) × ((tresize 2 1 start).col ≡ 2)
tresize-InScreen_example =
    tresize-InScreen 2 1 start (omega arith) (omega arith) (omega arith) (omega arith)
