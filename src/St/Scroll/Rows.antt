-- ===== src/St/Scroll/Rows.antt =====
-- Which line stands where after a scroll.
use suckless.Prelude.{
  ℕ, zero, suc, ◌+◌, ◌-◌, ◌%◌, ◌≤◌, ◌<◌, ◌≡◌, ◌∙◌, refl, Bool, true, false, arith, ltb, leb,
  between, ◌&&◌, if◌then◌else◌, put_at, min,
}
use suckless.Prelude.Int.{pos, sub_ℕ, limit}
use suckless.St.Term.{Term, histsize, Line, Glyph}
use suckless.St.Cursor.Bounds.{InScreen}
use suckless.St.Clear.{blank, tclearregion}
use suckless.St.Clear.Region.{line-tclearregion_inside}
use suckless.St.Scroll.{exchange, rotate_up, rotate_down, copy_history, tscrollup, tscrolldown}

-- Rows i .. i + n - 1 hold b in column x.
abbrev AllAt : (ℕ → Line) → ℕ → ℕ → ℕ → Glyph → Type 0
AllAt l x i n b = (r : ℕ) → i ≤ r → r < i + n → l r x ≡ b

exchange_up :
    (l : ℕ → Line) (x i n : ℕ) (b : Glyph)
    → 0 < n
    → AllAt l x i n b
    → AllAt (exchange l i (i + n)) x (i + 1) n b
exchange_up l x i n b hn h r lo hi = ground (arith, h i, h r)

-- The n rows that hold b sink below the k rows that follow them.
rotate_up_line :
    (k i n : ℕ) (l : ℕ → Line) (x : ℕ) (b : Glyph) (j : ℕ)
    → 0 < n
    → AllAt l x i n b
    → rotate_up k i n l j x ≡ (
        if leb i j && ltb j (i + k)
        then l (j + n) x
        else if leb (i + k) j && ltb j (i + k + n)
        then b
        else l j x)
unfolding rotate_up
rotate_up_line zero i n l x b j hn h = ground (arith, h j)
rotate_up_line (suc k) i n l x b j hn h = ground (
  arith,
  h i,
  rotate_up_line k (i + 1) n (exchange l i (i + n)) x b j hn (exchange_up l x i n b hn h),
)

exchange_down :
    (l : ℕ → Line) (x i n : ℕ) (b : Glyph)
    → 0 < n
    → n ≤ i
    → AllAt l x (i + 1 - n) n b
    → AllAt (exchange l i (i - n)) x (i - n) n b
exchange_down l x i n b hn hi h r lo up = ground (arith, h i, h r)

rotate_down_line :
    (k i n : ℕ) (l : ℕ → Line) (x : ℕ) (b : Glyph) (j : ℕ)
    → 0 < n
    → k + n ≤ i + 1
    → AllAt l x (i + 1 - n) n b
    → rotate_down k i n l j x ≡ (
        if ltb (i - k) j && leb j i
        then l (j - n) x
        else if leb (i + 1 - n - k) j && leb j (i - k)
        then b
        else l j x)
unfolding rotate_down
rotate_down_line zero i n l x b j hn hk h = ground (arith, h j)
rotate_down_line (suc k) i n l x b j hn hk h =
    ground (arith, h i, rotate_down_line k (i - 1) n (exchange l i (i - n)) x b j hn (omega arith))

-- Column x after the m rows from orig on were blanked in l₀ and then moved down to bot.
module _ (l₀ l : ℕ → Line) (x orig m bot : ℕ) (b : Glyph) (hm : 0 < m)
    (fits : orig + m ≤ bot + 1) where
  shift_up :
      (cleared : (r : ℕ) → l r x ≡ (if between r orig (orig + m - 1) then b else l₀ r x)) (j : ℕ)
      → rotate_up (bot + 1 - m - orig) orig m l j x
        ≡ (if between j orig bot then (if leb (j + m) bot then l₀ (j + m) x else b) else l₀ j x)
  shift_up cleared j = ground (
    arith,
    rotate_up_line (bot + 1 - m - orig) orig m l x b j hm (λ r lo hi. ground (arith, cleared r)),
    cleared j,
    cleared (j + m),
  )

  shift_down :
      (cleared : (r : ℕ) → l r x ≡ (if between r (bot + 1 - m) bot then b else l₀ r x)) (j : ℕ)
      → rotate_down (bot + 1 - m - orig) bot m l j x
        ≡ (if between j orig bot then (if leb (orig + m) j then l₀ (j - m) x else b) else l₀ j x)
  shift_down cleared j = ground (
    arith,
    rotate_down_line (bot + 1 - m - orig) bot m l x b j hm (omega arith)
        (λ r lo hi. ground (arith, cleared r)),
    cleared j,
    cleared (j - m),
  )

limit-min : (n hi : ℕ) → limit (pos n) 0 hi ≡ min n hi
unfolding limit
limit-min n hi = ground arith

pred_pos : (n : ℕ) → 0 < n → sub_ℕ n 1 ≡ pos (n - 1)
pred_pos n h = ground arith

-- The calls of tclearregion over whole rows.
cleared_up :
    (s : Term) (orig m r i : ℕ)
    → 0 < m
    → orig + m ≤ s.row
    → i < s.col
    → (tclearregion (pos 0) (pos orig) (pos (s.col - 1)) (sub_ℕ (orig + m) 1) s).line r i
      ≡ (if between r orig (orig + m - 1) then blank s else s.line r i)
cleared_up s orig m r i hm hr hi =
    rw (pred_pos (orig + m) (omega arith))
      (ground (arith, line-tclearregion_inside 0 orig (s.col - 1) (orig + m - 1) s r i))

cleared_down :
    (s : Term) (m r i : ℕ)
    → 0 < m
    → m ≤ s.bot + 1
    → s.bot < s.row
    → i < s.col
    → (tclearregion (pos 0) (sub_ℕ (s.bot + 1) m) (pos (s.col - 1)) (pos s.bot) s).line r i
      ≡ (if between r (s.bot + 1 - m) s.bot then blank s else s.line r i)
cleared_down s m r i hm hb hr hi =
    rw from (ground (arith, line-tclearregion_inside 0 (s.bot + 1 - m) (s.col - 1) s.bot s r i))
  where
    from : sub_ℕ (s.bot + 1) m ≡ pos (s.bot + 1 - m)
    from = ground arith

-- After tscrollup by n >= 1 lines from row orig on, each row of the region holds the line that stood
-- n rows further down, or is blank where the region ends, whether or not a line went to the
-- history; the rows outside orig .. bot are as they were. (m is n, at most the region's height.)
pub line-tscrollup :
    (orig n : ℕ) (copyhist : Bool) (t : Term) (j i : ℕ)
    → InScreen t
    → orig ≤ t.bot
    → 0 < n
    → i < t.col
    → let m = min n (t.bot + 1 - orig) in
      (tscrollup orig (pos n) copyhist t).line j i ≡ (
        if between j orig t.bot
        then (if leb (j + m) t.bot then t.line (j + m) i else blank t)
        else t.line j i)
unfolding tscrollup tclearregion copy_history
line-tscrollup orig n copyhist t j i v ho hn hi = rw limit-min (
    shift_up l₀ _ i orig m t.bot (blank t) (omega arith) (omega arith)
      (λ r. cleared_up _ orig m r i (omega arith) (omega arith) hi) j
    ∙ same copyhist)
  where
    m : ℕ
    m = min n (t.bot + 1 - orig)

    before : Bool → ℕ → Line
    before h = if h then put_at t.line orig (t.hist ((t.histi + 1) % histsize)) else t.line

    l₀ : ℕ → Line
    l₀ = before copyhist

    same :
        (h : Bool)
        → (if between j orig t.bot
            then (if leb (j + m) t.bot then before h (j + m) i else blank t)
            else before h j i)
          ≡ (if between j orig t.bot
              then (if leb (j + m) t.bot then t.line (j + m) i else blank t)
              else t.line j i)
    same true = ground arith
    same false = refl

-- After tscrolldown by n >= 1 lines from row orig on, each row of the region holds the line that
-- stood n rows further up, or is blank where the region begins, whether or not a line came from the
-- history; the rows outside orig .. bot are as they were. (m is n, at most the region's height.)
pub line-tscrolldown :
    (orig n : ℕ) (copyhist : Bool) (t : Term) (j i : ℕ)
    → InScreen t
    → orig ≤ t.bot
    → 0 < n
    → i < t.col
    → let m = min n (t.bot + 1 - orig) in
      (tscrolldown orig (pos n) copyhist t).line j i ≡ (
        if between j orig t.bot
        then (if leb (orig + m) j then t.line (j - m) i else blank t)
        else t.line j i)
unfolding tscrolldown tclearregion copy_history
line-tscrolldown orig n copyhist t j i v ho hn hi = rw limit-min (
    shift_down l₀ _ i orig m t.bot (blank t) (omega arith) (omega arith)
      (λ r. cleared_down _ m r i (omega arith) (omega arith) (omega arith) hi) j
    ∙ same copyhist)
  where
    m : ℕ
    m = min n (t.bot + 1 - orig)

    before : Bool → ℕ → Line
    before h =
        if h then put_at t.line t.bot (t.hist ((t.histi + histsize - 1) % histsize)) else t.line

    l₀ : ℕ → Line
    l₀ = before copyhist

    same :
        (h : Bool)
        → (if between j orig t.bot
            then (if leb (orig + m) j then before h (j - m) i else blank t)
            else before h j i)
          ≡ (if between j orig t.bot
              then (if leb (orig + m) j then t.line (j - m) i else blank t)
              else t.line j i)
    same true = ground arith
    same false = refl
