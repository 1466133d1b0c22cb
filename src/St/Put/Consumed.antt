-- ===== src/St/Put/Consumed.antt =====
-- st/st.c, twrite: how much of the buffer is consumed.
use suckless.Prelude.{
  ℕ, zero, suc, ◌+◌, ◌-◌, ◌≤◌, ◌<◌, ◌≡◌, ◌≢◌, refl, sym, ap, subst, ◌∙◌, Bool, true, false, List,
  [], ◌∷◌, drop, length, length-drop, arith, ◌==◌, if◌then◌else◌,
}
use suckless.St.Term.{Term, mode_utf8}
use suckless.St.Utf8.{utf8decode}
use suckless.St.Utf8.Sound.{AllBytes, utf8decode-Outcome}
use suckless.St.Utf8.Partial.{IsUnfinished, utf8decode-IsUnfinished}
use suckless.St.Put.{twrite_from, twrite}

drop-AllBytes : (n : ℕ) (cs : List ℕ) → AllBytes cs → AllBytes (drop n cs)
drop-AllBytes zero cs h = h
drop-AllBytes (suc n) [] h = h
drop-AllBytes (suc n) (c ∷ cs) (k, h) = drop-AllBytes n cs h

-- The charsize of a round.
abbrev charsize : Bool → List ℕ → ℕ
charsize utf8 cs = if utf8 then (utf8decode cs).0 else 1

-- A round that reads nothing stands before an unfinished sequence, and no round reads past the end.
charsize_reads :
    (utf8 : Bool) (b : ℕ) (bs : List ℕ)
    → AllBytes (b ∷ bs)
    → (charsize utf8 (b ∷ bs) ≤ length (b ∷ bs))
      × (charsize utf8 (b ∷ bs) ≡ 0 → IsUnfinished (b ∷ bs))
charsize_reads true b bs h =
    (ground (arith, utf8decode-Outcome (b ∷ bs) h), utf8decode-IsUnfinished (b ∷ bs) h)
charsize_reads false b bs h = (omega arith, λ e. absurd (omega (arith, e)))

drop_nil : (n : ℕ) → drop {A = ℕ} n [] ≡ []
drop_nil zero = refl
drop_nil (suc n) = refl

drop_eq : {i j : ℕ} (cs : List ℕ) → i ≡ j → drop i cs ≡ drop j cs
drop_eq cs h = ap (λ k. drop k cs) h

drop-drop : (n k : ℕ) (cs : List ℕ) → drop n (drop k cs) ≡ drop (k + n) cs
drop-drop n zero cs = drop_eq cs (omega arith)
drop-drop n (suc k) [] = drop_nil n ∙ sym (drop_nil (suc k + n))
drop-drop n (suc k) (c ∷ cs) = drop-drop n k cs ∙ drop_eq {i = suc (k + n)} (c ∷ cs) (omega arith)

-- What a run from n over buf may give: m is between n and the end, and the bytes from m on are
-- unfinished.
abbrev Consumed : ℕ → List ℕ → ℕ → Type 0
Consumed n buf m = (n ≤ m) × (m ≤ n + length buf) × IsUnfinished (drop (m - n) buf)

-- The rounds after one that reads s bytes.
later :
    (s n m : ℕ) (buf : List ℕ) → s ≤ length buf → Consumed (n + s) (drop s buf) m → Consumed n buf m
later s n m buf h (a, b, c) = (
  omega (arith, a),
  omega (arith, b, h, length-drop s buf),
  subst IsUnfinished (drop-drop (m - (n + s)) s buf ∙ drop_eq buf (omega (arith, a))) c,
)

some_read : {A : Type 0} (s : ℕ) (a b : A) → s ≢ 0 → (if s == 0 then a else b) ≡ b
some_read s a b h = ground arith

-- A round that reads s of the bytes of buf; p is what the rounds after it give.
round :
    (s n : ℕ) (buf : List ℕ) (t : Term) (p : ℕ × Term)
    → (s ≤ length buf) × (s ≡ 0 → IsUnfinished buf)
    → (s ≢ 0 → Consumed (n + s) (drop s buf) p.0)
    → Consumed n buf (if s == 0 then (n, t) else p).0
round zero n buf t p h e =
    (omega arith, omega arith, subst IsUnfinished (drop_eq {i = 0} buf (omega arith)) (h.1 refl))
round (suc s) n buf t p h e =
    subst (λ q. Consumed n buf q.0) (sym (some_read (suc s) (n, t) p (omega arith)))
      (later (suc s) n p.0 buf h.0 (e (omega arith)))

at_end : (n : ℕ) → IsUnfinished (drop (n - n) [])
at_end n = subst IsUnfinished (sym (drop_nil (n - n))) tt

unfinished_short : (cs : List ℕ) → IsUnfinished cs → length cs < 4
unfinished_short [] h = omega arith
unfinished_short (a ∷ cs) h = ground (arith, h)

twrite_from-Consumed :
    (fuel : ℕ) (buf : List ℕ) (show : Bool) (n : ℕ) (t : Term)
    → AllBytes buf
    → length buf ≤ fuel
    → Consumed n buf (twrite_from fuel buf show n t).0
unfolding twrite_from
twrite_from-Consumed zero [] show n t h k = (omega arith, omega arith, at_end n)
twrite_from-Consumed zero (b ∷ bs) show n t h k = absurd (omega arith)
twrite_from-Consumed (suc fuel) [] show n t h k = (omega arith, omega arith, at_end n)
twrite_from-Consumed (suc fuel) (b ∷ bs) show n t h k =
    round size n buf t _ (charsize_reads (t.mode mode_utf8) b bs h) (λ more.
      twrite_from-Consumed fuel (drop size buf) show (n + size) _ (drop-AllBytes size buf h)
        (omega (arith, more, k, length-drop size buf)))
  where
    buf : List ℕ
    buf = b ∷ bs

    size : ℕ
    size = charsize (t.mode mode_utf8) (b ∷ bs)

-- twrite consumes every byte but an unfinished sequence at the end: what is left is empty, or a lead
-- byte and continuation bytes, fewer than the lead byte announces and so three bytes at most. The
-- buffer's length is enough fuel, and no round reads past the end.
pub twrite-consumes :
    (buf : List ℕ) (show : Bool) (t : Term)
    → AllBytes buf
    → let n = (twrite buf show t).0 in
      (n ≤ length buf) × (length buf < n + 4) × IsUnfinished (drop n buf)
unfolding twrite
twrite-consumes buf show t h =
    let (a, b, c) = twrite_from-Consumed (length buf) buf show 0 t h (omega arith) in
    let n = (twrite buf show t).0 in
    let left : IsUnfinished (drop n buf) = subst IsUnfinished (drop_eq buf (omega arith)) c in
    (
      omega (arith, b),
      omega (arith, unfinished_short (drop n buf) left, length-drop n buf, b),
      left,
    )
