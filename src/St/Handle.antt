-- ===== src/St/Handle.antt =====
-- st/st.c, csihandle. A sum of the cursor's place and a parameter is computed in int (wrap_int); what
-- is printed on stderr for an unknown sequence is left out. `put` is tputc, for REP.
pub mod Keeps
pub mod Move
pub mod Erase
use suckless.Prelude.{
  ℕ, zero, suc, ◌+◌, ◌-◌, Bool, true, false, not, ◌&&◌, ◌||◌, List, [], ◌∷◌, ◌++◌, ltb, leb, ◌==◌,
  between, if◌then◌else◌, put_at,
}
use suckless.Prelude.Int.{ℤ, pos, negsuc, ◌+ℤ◌, ◌-ℤ◌, sub_ℕ, leb_ℤ, pos_part, wrap_int}
use suckless.St.Term.{Term, modbit, mode_print, call, xsetcursor}
use suckless.St.Cursor.{tmoveto, tmoveato, tsetscroll}
use suckless.St.Clear.{tclearregion}
use suckless.St.Scroll.{tscrollup, tscrolldown, tinsertblankline, tdeleteline}
use suckless.St.Edit.{tdeletechar, tinsertblank, tputtab}
use suckless.St.Sgr.{tsetattr, is_pos}
use suckless.St.Modes.{tcursor_save, tcursor_load, tsetmode}
use suckless.St.Print.{tdump, tdumpline, tdumpsel, decimal}
use suckless.St.Control.{answer}

-- The sum and the difference of two ints.
abbrev pub int_add : ℤ → ℤ → ℤ
int_add a b = wrap_int (a +ℤ b)

abbrev pub int_sub : ℤ → ℤ → ℤ
int_sub a b = wrap_int (a -ℤ b)

-- DEFAULT(z, d)
abbrev pub default : ℤ → ℤ → ℤ
default z d = if is_pos z 0 then d else z

-- tclearregion between columns a and b of the cursor's line.
abbrev pub clear_line : ℤ → ℤ → Term → Term
clear_line a b t = tclearregion a (pos t.c.y) b (pos t.c.y) t

-- `case 'i'`
unfoldable pub media_copy : ℤ → Term → Term
media_copy n t =
    if is_pos n 0
    then tdump t
    else if is_pos n 1
    then tdumpline t.c.y t
    else if is_pos n 2
    then tdumpsel t
    else if is_pos n 4
    then record t { mode = modbit t.mode false mode_print }
    else if is_pos n 5
    then record t { mode = modbit t.mode true mode_print }
    else t

-- `case 'J'` and `case 'K'`
unfoldable pub erase_display : ℤ → Term → Term
erase_display n t =
    let right = pos (t.col - 1) in
    let below = clear_line (pos t.c.x) right t in
    let above = if ltb 1 t.c.y then tclearregion (pos 0) (pos 0) right (pos (t.c.y - 1)) t else t in
    if is_pos n 0
    then (if ltb t.c.y (t.row - 1)
        then tclearregion (pos 0) (pos (t.c.y + 1)) right (pos (t.row - 1)) below
        else below)
    else if is_pos n 1
    then clear_line (pos 0) (pos t.c.x) above
    else if is_pos n 2
    then tclearregion (pos 0) (pos 0) right (pos (t.row - 1)) t
    else t

unfoldable pub erase_line : ℤ → Term → Term
erase_line n t =
    if is_pos n 0
    then clear_line (pos t.c.x) (pos (t.col - 1)) t
    else if is_pos n 1
    then clear_line (pos 0) (pos t.c.x) t
    else if is_pos n 2
    then clear_line (pos 0) (pos (t.col - 1)) t
    else t

-- `case 'g'`
unfoldable pub clear_tabs : ℤ → Term → Term
clear_tabs n t =
    if is_pos n 0
    then record t { tabs = put_at t.tabs t.c.x false }
    else if is_pos n 3
    then record t { tabs = λ i. if ltb i t.col then false else t.tabs i }
    else t

-- `case 'b'`: `while (csiescseq.arg[0]-- > 0) tputc(term.lastc);`
unfoldable pub repeat : ℕ → (Term → Term) → Term → Term
repeat zero f t = t
repeat (suc n) f t = repeat n f (f t)

unfoldable pub repeat_last : (ℕ → Term → Term) → ℤ → Term → Term
repeat_last put n t = if t.lastc == 0 then t else repeat (pos_part n) (put t.lastc) t

-- The cases that move the cursor; n is arg[0] after DEFAULT.
unfoldable pub csi_move : ℕ → ℤ → ℤ → Term → Term
csi_move m n col t =
    let x = pos t.c.x in
    let y = pos t.c.y in
    if m == b'A'
    then tmoveto x (int_sub y n) t
    else if m == b'B' || m == b'e'
    then tmoveto x (int_add y n) t
    else if m == b'C' || m == b'a'
    then tmoveto (int_add x n) y t
    else if m == b'D'
    then tmoveto (int_sub x n) y t
    else if m == b'E'
    then tmoveto (pos 0) (int_add y n) t
    else if m == b'F'
    then tmoveto (pos 0) (int_sub y n) t
    else if m == b'G' || m == b'`'
    then tmoveto (int_sub n (pos 1)) y t
    else if m == b'H' || m == b'f'
    then tmoveato (int_sub col (pos 1)) (int_sub n (pos 1)) t
    else if m == b'I'
    then tputtab n t
    else if m == b'Z'
    then tputtab (int_sub (pos 0) n) t
    else if m == b'd'
    then tmoveato x (int_sub n (pos 1)) t
    else t

-- The cases that write to the screen; n is arg[0] after DEFAULT.
unfoldable pub csi_edit : ℕ → ℤ → Term → Term
csi_edit m n t =
    if m == b'@'
    then tinsertblank n t
    else if m == b'S'
    then tscrollup t.top n false t
    else if m == b'T'
    then tscrolldown t.top n false t
    else if m == b'L'
    then tinsertblankline n t
    else if m == b'M'
    then tdeleteline n t
    else if m == b'P'
    then tdeletechar n t
    else if m == b'X'
    then clear_line (pos t.c.x) (int_sub (int_add (pos t.c.x) n) (pos 1)) t
    else t

-- `case 'n'`
abbrev pub report_cursor : Term → Term
report_cursor t =
    answer
      ((27 ∷ b'[' ∷ [])
        ++ (decimal 10 (t.c.y + 1) ++ (b';' ∷ decimal 10 (t.c.x + 1) ++ (b'R' ∷ []))))
      t

-- `case 'r'`
abbrev pub set_region : ℤ → ℤ → Term → Term
set_region a b t =
    tmoveato (pos 0) (pos 0)
      (tsetscroll (int_sub (default a (pos 1)) (pos 1)) (int_sub (default b (pos t.row)) (pos 1)) t)

-- The other cases; n is arg[0] as it was read.
unfoldable pub csi_other : (ℕ → Term → Term) → ℕ → ℤ → Term → Term
csi_other put m n t =
    if m == b'i'
    then media_copy n t
    else if m == b'c'
    then (if is_pos n 0 then answer t.vtiden t else t)
    else if m == b'b'
    then repeat_last put (default n (pos 1)) t
    else if m == b'g'
    then clear_tabs n t
    else if m == b'J'
    then erase_display n t
    else if m == b'K'
    then erase_line n t
    else if m == b'l'
    then tsetmode t.csi.priv false t.csi.arg t.csi.narg t
    else if m == b'h'
    then tsetmode t.csi.priv true t.csi.arg t.csi.narg t
    else if m == b'm'
    then tsetattr t.csi.arg t.csi.narg t
    else if m == b'n'
    then (if is_pos n 6 then report_cursor t else t)
    else if m == b'r'
    then (if t.csi.priv then t else set_region n (t.csi.arg 1) t)
    else if m == b's'
    then tcursor_save t
    else if m == b'u'
    then tcursor_load t
    else if m == b' ' && t.csi.mode1 == b'q'
    then (if leb_ℤ (pos 0) n && leb_ℤ n (pos 7) then call (xsetcursor n) t else t)
    else t

abbrev pub is_move : ℕ → Bool
is_move m = between m b'A' b'I' || m == b'Z' || m == b'`' || m == b'a' || between m b'd' b'f'

abbrev pub is_edit : ℕ → Bool
is_edit m = m == b'@' || between m b'L' b'M' || m == b'P' || between m b'S' b'T' || m == b'X'

unfoldable pub csihandle : (ℕ → Term → Term) → Term → Term
csihandle put t =
    let m = t.csi.mode0 in
    let n = t.csi.arg 0 in
    if is_move m
    then csi_move m (default n (pos 1)) (default (t.csi.arg 1) (pos 1)) t
    else if is_edit m
    then csi_edit m (default n (pos 1)) t
    else csi_other put m n t
