-- ===== src/St/Control.antt =====
-- st/st.c, control codes and escape sequences: tcontrolcode, eschandle, tdefutf8, tdeftran, tdectest.
pub mod Keeps
use suckless.Prelude.{
  ℕ, zero, suc, ◌+◌, ◌-◌, ◌%◌, Bool, true, false, not, ◌&&◌, ◌||◌, List, [], ◌∷◌, ltb, leb, ◌==◌,
  between, if◌then◌else◌, put_at, Option,
}
use suckless.Prelude.Int.{ℤ, pos, ◌-ℤ◌, sub_ℕ}
use suckless.St.Term.{
  Term, modbit, clear_bits, esc_start, esc_csi, esc_str, esc_altcharset, esc_str_end, esc_test,
  esc_utf8, mode_utf8, mode_crlf, cs_graphic0, cs_usa, call, xbell, xsettitle, xloadcols,
}
use suckless.St.Cursor.{tmoveto}
use suckless.St.Scroll.{tscrollup, tscrolldown, tnewline}
use suckless.St.Edit.{tsetchar, tputtab}
use suckless.St.Modes.{tcursor_save, tcursor_load, treset, xsetmode, win_appkeypad}
use suckless.St.Csi.{csireset}
use suckless.St.Str.{strhandle, tstrsequence}
use suckless.St.Print.{ttywrite}

-- ttywrite(s, n, 0)
abbrev pub answer : List ℕ → Term → Term
answer s = ttywrite (λ t. t) s

-- `term.tabs[term.c.x] = 1;`
abbrev pub set_tab : Term → Term
set_tab t = record t { tabs = put_at t.tabs t.c.x true }

-- The last statement of tcontrolcode.
unfoldable pub end_string : Term → Term
end_string t = record t { esc = clear_bits t.esc (esc_str_end ∷ esc_str ∷ []) }

-- ESC behind csireset.
unfoldable pub start_escape : Term → Term
start_escape t = record t {
  esc = modbit (clear_bits t.esc (esc_csi ∷ esc_altcharset ∷ esc_test ∷ [])) true esc_start;
}

unfoldable pub tcontrolcode : ℕ → Term → Term
tcontrolcode u t =
    if u == 9
    then tputtab (pos 1) t
    else if u == 8
    then tmoveto (sub_ℕ t.c.x 1) (pos t.c.y) t
    else if u == 13
    then tmoveto (pos 0) (pos t.c.y) t
    else if between u 10 12
    then tnewline (t.mode mode_crlf) t
    else if u == 7
    then end_string (if t.esc esc_str_end then strhandle t else call xbell t)
    else if u == 27
    then start_escape (csireset t)
    else if between u 14 15
    then record t { charset = 1 - (u - 14) }
    else if u == 26
    then end_string (csireset (tsetchar b'?' t.c.attr t.c.x t.c.y t))
    else if u == 24
    then end_string (csireset t)
    else if u == 5 || u == 0 || u == 17 || u == 19 || u == 127
    then t
    else if u == 0x85
    then end_string (tnewline true t)
    else if u == 0x88
    then end_string (set_tab t)
    else if u == 0x9a
    then end_string (answer t.vtiden t)
    else if u == 0x90 || between u 0x9d 0x9f
    then tstrsequence u t
    else end_string t

unfoldable pub tdefutf8 : ℕ → Term → Term
tdefutf8 ascii t =
    if ascii == b'G'
    then record t { mode = modbit t.mode true mode_utf8 }
    else if ascii == b'@'
    then record t { mode = modbit t.mode false mode_utf8 }
    else t

-- strchr also finds the NUL that ends "0B", for which the code reads vcs[2].
unfoldable pub tdeftran : ℕ → Term → Term
tdeftran ascii t =
    if ascii == b'0'
    then record t { trantbl = put_at t.trantbl t.icharset cs_graphic0 }
    else if ascii == b'B'
    then record t { trantbl = put_at t.trantbl t.icharset cs_usa }
    else if ascii == 0
    then record t { fault = true }
    else t

-- The loops of tdectest: n rows from row y on, and n columns from column x on.
unfoldable pub test_rows : ℕ → ℕ → ℕ → Term → Term
test_rows zero x y t = t
test_rows (suc n) x y t = test_rows n x (y + 1) (tsetchar b'E' t.c.attr x y t)

unfoldable pub test_cols : ℕ → ℕ → Term → Term
test_cols zero x t = t
test_cols (suc n) x t = test_cols n (x + 1) (test_rows t.row x 0 t)

unfoldable pub tdectest : ℕ → Term → Term
tdectest c t = if c == b'8' then test_cols t.col 0 t else t

abbrev pub set_esc : Term → ℕ → Term
set_esc t bit = record t { esc = modbit t.esc true bit }

-- `term.charset = 2 + (ascii - 'n'); ` and the cases that end a sequence.
unfoldable pub esc_action : ℕ → Term → Term
esc_action a t =
    if a == b'n' || a == b'o'
    then record t { charset = 2 + (a - b'n') }
    else if a == b'D'
    then (if t.c.y == t.bot
        then tscrollup t.top (pos 1) true t
        else tmoveto (pos t.c.x) (pos (t.c.y + 1)) t)
    else if a == b'E'
    then tnewline true t
    else if a == b'H'
    then set_tab t
    else if a == b'M'
    then (if t.c.y == t.top
        then tscrolldown t.top (pos 1) true t
        else tmoveto (pos t.c.x) (sub_ℕ t.c.y 1) t)
    else if a == b'Z'
    then answer t.vtiden t
    else if a == b'c'
    then call xloadcols (call (xsettitle Option.none) (treset t))
    else if a == b'='
    then xsetmode true (win_appkeypad ∷ []) t
    else if a == b'>'
    then xsetmode false (win_appkeypad ∷ []) t
    else if a == b'7'
    then tcursor_save t
    else if a == b'8'
    then tcursor_load t
    else if a == 92
    then (if t.esc esc_str_end then strhandle t else t)
    else t

-- Whether the sequence goes on (the code returns 0).
abbrev pub esc_goes_on : ℕ → Bool
esc_goes_on a =
    a == b'['
    || a == b'#'
    || a == b'%'
    || a == b'P'
    || a == b'_'
    || a == b'^'
    || a == b']'
    || a == b'k'
    || between a 40 43

-- The state, and whether the sequence is finished.
unfoldable pub eschandle : ℕ → Term → Term × Bool
unfolding esc_action
eschandle a t = (
  if a == b'['
      then set_esc t esc_csi
      else if a == b'#'
      then set_esc t esc_test
      else if a == b'%'
      then set_esc t esc_utf8
      else if a == b'P' || a == b'_' || a == b'^' || a == b']' || a == b'k'
      then tstrsequence a t
      else if between a 40 43
      then set_esc (record t { icharset = a - 40 }) esc_altcharset
      else esc_action a t,
  not (esc_goes_on a),
)
