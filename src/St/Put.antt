-- ===== src/St/Put.antt =====
-- st/st.c, tputc and twrite: the bytes that arrive, decoded and acted upon.
pub mod Keeps
pub mod Wrap
pub mod Consumed
use suckless.Prelude.{
  ℕ, zero, suc, ◌+◌, ◌-◌, ◌*◌, ◌/◌, ◌%◌, ◌^◌, bit_and, bit_or, bit_xor, Bool, true, false, not,
  ◌&&◌, ◌||◌, List, [], ◌∷◌, ◌++◌, ltb, leb, ◌==◌, between, if◌then◌else◌, put_at, put_at₂, length,
  drop,
}
use suckless.Prelude.Int.{ℤ, pos, negsuc}
use suckless.St.Term.{
  Term, Glyph, Flags, modbit, clear_bits, any_below, no_flags, esc_buf_siz, esc_start, esc_csi,
  esc_str, esc_altcharset, esc_str_end, esc_test, esc_utf8, mode_wrap, mode_insert, mode_print,
  mode_utf8, cursor_wrapnext, attr_wrap, attr_wide, attr_wdummy,
}
use suckless.St.Cursor.{tmoveto}
use suckless.St.Select.{selected, selclear}
use suckless.St.Scroll.{tnewline}
use suckless.St.Edit.{tsetchar, memmove}
use suckless.St.Utf8.{utf8encode, utf8decode, utf_siz}
use suckless.St.Csi.{csiparse}
use suckless.St.Print.{tprinter}
use suckless.St.Control.{tcontrolcode, eschandle, tdefutf8, tdeftran, tdectest}
use suckless.St.Handle.{csihandle}

abbrev pub iscontrolc1 : ℕ → Bool
iscontrolc1 u = between u 0x80 0x9F

-- ISCONTROL(u)
abbrev pub iscontrol : ℕ → Bool
iscontrol u = between u 0 0x1F || u == 0x7F || iscontrolc1 u

-- wcwidth, with 1 for -1
abbrev pub columns : ℤ → ℕ
columns (pos n) = n
columns (negsuc n) = 1

-- width and the bytes c[0 .. len) of a rune
unfoldable pub width_of : ℕ → Term → ℕ
width_of u t =
    if ltb u 127 || not (t.mode mode_utf8)
    then 1
    else if between u 0x1F600 0x1F6FF
    then 2
    else columns (t.wcwidth u)

unfoldable pub bytes_of : ℕ → Term → List ℕ
bytes_of u t = if ltb u 127 || not (t.mode mode_utf8) then (u % 256) ∷ [] else utf8encode u

-- Under ESC_STR: the bytes go to the end of the string, in a buffer of twice the size where needed.
unfoldable pub str_append : List ℕ → Term → Term
str_append bytes t =
    let s = t.str in
    let full = leb s.siz (length s.buf + length bytes) in
    if full && ltb ((2 ^ 64 - 1 - utf_siz) / 2) s.siz then t else record t {
      str = record s { siz = if full then s.siz * 2 else s.siz; buf = s.buf ++ bytes };
    }

-- A byte of a CSI sequence.
unfoldable pub csi_byte : (ℕ → Term → Term) → ℕ → Term → Term
csi_byte put u t =
    let e = record t.csi { buf = t.csi.buf ++ (u % 256) ∷ [] } in
    if between u 0x40 0x7E || leb (esc_buf_siz - 1) (length e.buf)
    then csihandle put (record t { csi = csiparse e; esc = no_flags })
    else record t { csi = e }

-- A byte of another escape sequence.
unfoldable pub esc_byte : ℕ → Term → Term
esc_byte u t =
    let a = u % 256 in
    let done = λ (s : Term). record s { esc = no_flags } in
    if t.esc esc_utf8
    then done (tdefutf8 a t)
    else if t.esc esc_altcharset
    then done (tdeftran a t)
    else if t.esc esc_test
    then done (tdectest a t)
    else (let (s, finished) = eschandle a t in if finished then done s else s)

-- `gp->mode |= ATTR_WRAP; tnewline(1);`
abbrev pub wrap_line : Term → Term
wrap_line t =
    let g = t.line t.c.y t.c.x in
    tnewline true (record t {
      line = put_at₂ t.line t.c.y t.c.x (record g { mode = modbit g.mode true attr_wrap });
    })

-- The memmove of insert mode.
abbrev pub make_room : ℕ → Term → Term
make_room width t = record t {
  line = put_at t.line t.c.y (memmove (t.line t.c.y) (t.c.x + width) t.c.x (t.col - t.c.x - width));
}

-- The block under `if (width == 2)`.
unfoldable pub widen : Term → Term
widen t =
    let x = t.c.x in
    let y = t.c.y in
    let g = t.line y x in
    let l1 = put_at₂ t.line y x (record g { mode = modbit g.mode true attr_wide }) in
    let d = l1 y (x + 1) in
    record t {
      line =
          if ltb (x + 1) t.col
          then put_at₂ l1 y (x + 1) (record d { u = 0; mode = modbit no_flags true attr_wdummy })
          else l1;
    }

-- The end of tputc: the cursor moves on, or waits at the margin.
unfoldable pub advance : ℕ → Term → Term
advance width t =
    if ltb (t.c.x + width) t.col
    then tmoveto (pos (t.c.x + width)) (pos t.c.y) t
    else record t { c = record t.c { state = modbit t.c.state true cursor_wrapnext } }

-- The steps of tputc from `if (selected(term.c.x, term.c.y))` on.
unfoldable pub deselect : Term → Term
deselect t = if selected t (pos t.c.x) (pos t.c.y) then selclear t else t

unfoldable pub wrap_pending : Term → Term
wrap_pending t = if t.mode mode_wrap && t.c.state cursor_wrapnext then wrap_line t else t

unfoldable pub insert_room : ℕ → Term → Term
insert_room width t =
    if t.mode mode_insert && ltb (t.c.x + width) t.col then make_room width t else t

unfoldable pub break_line : ℕ → Term → Term
break_line width t = if ltb t.col (t.c.x + width) then tnewline true t else t

unfoldable pub store_glyph : ℕ → ℕ → Term → Term
unfolding widen
store_glyph u width t =
    let t' = record (tsetchar u t.c.attr t.c.x t.c.y t) { lastc = u } in
    if width == 2 then widen t' else t'

unfoldable pub put_glyph : ℕ → ℕ → Term → Term
unfolding deselect wrap_pending insert_room break_line store_glyph advance
put_glyph u width t =
    advance width
      (store_glyph u width (break_line width (insert_room width (wrap_pending (deselect t)))))

-- tputc from check_control_code on.
unfoldable pub check_control_code : (ℕ → Term → Term) → ℕ → Term → Term
unfolding csi_byte esc_byte
check_control_code put u t =
    if iscontrol u
    then (let s = tcontrolcode u t in record s { lastc = if any_below 7 s.esc then s.lastc else 0 })
    else if t.esc esc_start
    then (if t.esc esc_csi then csi_byte put u t else esc_byte u t)
    else put_glyph u (width_of u t) t

-- `term.esc &= ~(ESC_START|ESC_STR); term.esc |= ESC_STR_END;`
abbrev pub interrupt_string : Term → Term
interrupt_string t = record t {
  esc = modbit (clear_bits t.esc (esc_start ∷ esc_str ∷ [])) true esc_str_end;
}

unfoldable pub print_mode : List ℕ → Term → Term
print_mode bytes t = if t.mode mode_print then tprinter bytes t else t

-- tputc; `put` is the call of tputc in csihandle.
unfoldable pub tputc_with : (ℕ → Term → Term) → ℕ → Term → Term
unfolding check_control_code print_mode
tputc_with put u t =
    let bytes = bytes_of u t in
    let t1 = print_mode bytes t in
    if t1.esc esc_str
    then (if u == 7 || u == 24 || u == 26 || u == 27 || iscontrolc1 u
        then check_control_code put u (interrupt_string t1)
        else str_append bytes t1)
    else check_control_code put u t1

-- The call in csihandle finds esc at 0 and puts a printed character, so it does not come back to
-- csihandle: what it would call there does not matter.
unfoldable pub tputc : ℕ → Term → Term
unfolding tputc_with
tputc u t = tputc_with (tputc_with (λ v s. s)) u t

-- The characters put before a control code under show_ctrl, and the one put last.
unfoldable pub show_control : ℕ → Term → Term
show_control u t =
    if between u 0x80 0x9F
    then tputc (bit_and u 0x7F) (tputc b'[' (tputc b'^' t))
    else if iscontrol u && not (u == 10 || u == 13 || u == 9)
    then tputc (bit_xor u 0x40) (tputc b'^' t)
    else tputc u t

-- twrite over the bytes from buf + n on: n at the end, and the state. A round reads a byte at least,
-- so one round of fuel for each byte is enough.
unfoldable pub twrite_from : ℕ → List ℕ → Bool → ℕ → Term → ℕ × Term
twrite_from zero buf show_ctrl n t = (n, t)
twrite_from (suc fuel) [] show_ctrl n t = (n, t)
twrite_from (suc fuel) (b ∷ bs) show_ctrl n t =
    let utf8 = t.mode mode_utf8 in
    let charsize = if utf8 then (utf8decode (b ∷ bs)).0 else 1 in
    let u = if utf8 then (utf8decode (b ∷ bs)).1 else b in
    let t1 = if show_ctrl then show_control u t else tputc u t in
    let rest = twrite_from fuel (drop charsize (b ∷ bs)) show_ctrl (n + charsize) t1 in
    if charsize == 0 then (n, t) else rest

unfoldable pub twrite : List ℕ → Bool → Term → ℕ × Term
unfolding twrite_from
twrite buf show_ctrl t = twrite_from (length buf) buf show_ctrl 0 t
