-- ===== src/St/Print.antt =====
-- st/st.c, what the terminal writes: tprinter, tdumpline, tdump, getsel, tdumpsel, ttywrite, and
-- snprintf's %i for the cursor report. The printer and the tty take every byte they are given.
use suckless.Prelude.{
  ℕ, zero, suc, ◌+◌, ◌-◌, ◌/◌, ◌%◌, min, not, ◌&&◌, ◌||◌, List, [], ◌∷◌, ◌++◌, Option, none, some,
  leb, ◌==◌, if◌then◌else◌,
}
use suckless.Prelude.Int.{pos, negsuc, pos_part}
use suckless.St.Term.{
  Term, Line, print, tty, call, tline, attr_wrap, attr_wdummy, mode_crlf, sel_rectangular,
}
use suckless.St.Select.{tlinelen, eq_ℤ}
use suckless.St.Scroll.{kscrolldown}
use suckless.St.Utf8.{utf8encode}

-- tprinter
abbrev pub tprinter : List ℕ → Term → Term
tprinter s = call (print s)

-- `for ( ; bp <= end; ++bp) tprinter(buf, utf8encode(bp->u, buf));` over n cells from cell i on.
unfoldable pub print_cells : ℕ → ℕ → Line → Term → Term
print_cells zero i l t = t
print_cells (suc n) i l t = print_cells n (i + 1) l (tprinter (utf8encode (l i).u) t)

unfoldable pub tdumpline : ℕ → Term → Term
unfolding print_cells tlinelen
tdumpline n t =
    let len = min (tlinelen t n) t.col in
    let l = t.line n in
    let t1 = if len == 1 && (l 0).u == b' ' then t else print_cells len 0 l t in
    tprinter (10 ∷ []) t1

unfoldable pub dump_lines : ℕ → ℕ → Term → Term
unfolding tdumpline
dump_lines zero i t = t
dump_lines (suc n) i t = dump_lines n (i + 1) (tdumpline i t)

unfoldable pub tdump : Term → Term
unfolding dump_lines
tdump t = dump_lines t.row 0 t

-- `while (last >= gp && last->u == ' ') --last;` with one more than `last`, k cells from gp on.
unfoldable pub trim_cells : Line → ℕ → ℕ → ℕ
trim_cells l gp zero = gp
trim_cells l gp (suc k) = if (l (gp + k)).u == b' ' then trim_cells l gp k else gp + suc k

-- The bytes of n cells from cell i on, dummies left out.
unfoldable pub encode_cells : ℕ → ℕ → Line → List ℕ
encode_cells zero i l = []
encode_cells (suc n) i l =
    (if (l i).mode attr_wdummy then [] else utf8encode (l i).u) ++ encode_cells n (i + 1) l

-- What getsel appends for row y; `end` is one more than the C variable `last`. Where the selected
-- cells are all spaces it is gp, and at gp = 0 the
-- code reads the mode of a cell before the line, and the model takes ATTR_WRAP there to be clear.
unfoldable pub getsel_row : Term → ℕ → List ℕ
unfolding tlinelen trim_cells encode_cells
getsel_row t y =
    let s = t.sel in
    let l = tline t y in
    let linelen = tlinelen t y in
    let rect = s.type == sel_rectangular in
    let first = eq_ℤ s.nb.y (pos y) in
    let final = eq_ℤ s.ne.y (pos y) in
    let gp = if rect || first then pos_part s.nb.x else 0 in
    let lastx = if rect || final then pos_part s.ne.x else t.col - 1 in
    let last = min (lastx + 1) linelen in
    let end = if leb last gp then last else trim_cells l gp (last - gp) in
    let wrapped = not (end == 0) && (l (end - 1)).mode attr_wrap in
    let newline = (not final || leb linelen lastx) && (not wrapped || rect) in
    if linelen == 0
    then 10 ∷ []
    else encode_cells (end - gp) gp l ++ (if newline then 10 ∷ [] else [])

unfoldable pub getsel_rows : ℕ → ℕ → Term → List ℕ
unfolding getsel_row
getsel_rows zero y t = []
getsel_rows (suc n) y t = getsel_row t y ++ getsel_rows n (y + 1) t

unfoldable pub getsel : Term → Option (List ℕ)
unfolding getsel_rows
getsel t =
    let y = pos_part t.sel.nb.y in
    if eq_ℤ t.sel.ob.x (negsuc 0)
    then none
    else some (getsel_rows (suc (pos_part t.sel.ne.y) - y) y t)

unfoldable pub tdumpsel : Term → Term
unfolding getsel
tdumpsel t = elim (getsel t) [ none ↦ t | some s ↦ tprinter s t ]

-- The bytes that reach the tty under MODE_CRLF.
unfoldable pub crlf : List ℕ → List ℕ
crlf [] = []
crlf (c ∷ cs) = if c == 13 then 13 ∷ 10 ∷ crlf cs else c ∷ crlf cs

-- ttywrite; `echo` is the call of twrite under `may_echo`.
unfoldable pub ttywrite : (Term → Term) → List ℕ → Term → Term
unfolding kscrolldown crlf
ttywrite echo s t =
    let t1 = echo (kscrolldown (pos t.scr) t) in
    call (tty (if t1.mode mode_crlf then crlf s else s)) t1

-- %i of a number below 10^k.
unfoldable pub decimal : ℕ → ℕ → List ℕ
decimal zero n = []
decimal (suc k) n =
    let high = decimal k (n / 10) in (if n / 10 == 0 then [] else high) ++ (b'0' + n % 10) ∷ []
