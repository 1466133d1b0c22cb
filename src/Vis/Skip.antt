-- ===== src/Vis/Skip.antt =====
-- vis/text.c: the loop of text_delete that skips the pieces in the deleted range.
use suckless.Prelude.{
  ℕ, zero, suc, ◌+◌, ◌≤◌, ◌<◌, ◌≡◌, ◌⊎◌, inl, inr, refl, ap, ◌∙◌, true, false, ltb, List, [], ◌∷◌,
  ◌++◌, some, arith, length,
}
use suckless.Vis.Links.{Fwd, last_or}
use suckless.Vis.Text.{Text, ending}
use suckless.Vis.Edit.{skip_from}
use suckless.Vis.Chain.{total}

-- Where the loop stops on the chain p ∷ l, from cur bytes on: behind the pieces d, with the piece b next.
pub record IsSkipped (t : Text) (len p cur : ℕ) (l : List ℕ) (stop : ℕ × ℕ) : Type 0 where
  pub skipped : List ℕ
  pub succ : ℕ
  pub right : List ℕ
  pub splits : l ≡ skipped ++ succ ∷ right
  pub result : stop ≡ (last_or p skipped, cur + total t skipped)
  pub reaches : len ≤ cur + total t skipped
  pub tight : cur < len → cur + total t skipped < len + t.len (last_or p skipped)
  pub moves : cur < len → 0 < length skipped
  pub stays : len ≤ cur → skipped ≡ []

skip_stop : (k : ℕ) (t : Text) (len p cur : ℕ) → len ≤ cur → skip_from k t len p cur ≡ (p, cur)
unfolding skip_from
skip_stop zero t len p cur h = refl
skip_stop (suc k) t len p cur h = rw (not_below cur len h) refl
  where
    not_below : (m n : ℕ) → n ≤ m → ltb m n ≡ false
    not_below m n h = ground arith

skip_more :
    (k : ℕ) (t : Text) (len p q cur : ℕ)
    → cur < len
    → t.next p ≡ some q
    → skip_from (suc k) t len p cur ≡ skip_from k t len q (cur + t.len q)
unfolding skip_from
skip_more k t len p q cur h e = rw (below cur len h, e) refl
  where
    below : (m n : ℕ) → m < n → ltb m n ≡ true
    below m n h = ground arith

pub reached : (m n : ℕ) → (m ≤ n) ⊎ (n < m)
reached m n = ground arith

stopped :
    (k : ℕ) (t : Text) (len p cur q : ℕ) (l : List ℕ)
    → len ≤ cur
    → IsSkipped t len p cur (q ∷ l) (skip_from k t len p cur)
unfolding total
stopped k t len p cur q l stop = record {
  skipped = [];
  succ = q;
  right = l;
  splits = refl;
  result = skip_stop k t len p cur stop ∙ ap (λ n. (p, n)) (omega arith);
  reaches = omega arith;
  tight = λ i. absurd (omega (arith, i, stop));
  moves = λ i. absurd (omega (arith, i, stop));
  stays = λ i. refl;
}

pub skip_from-IsSkipped :
    (k : ℕ) (t : Text) (len p cur q : ℕ) (l : List ℕ)
    → Fwd t.next (p ∷ q ∷ l)
    → last_or q l ≡ ending
    → t.len ending ≡ 0
    → length l < k
    → len ≤ cur + total t (q ∷ l)
    → IsSkipped t len p cur (q ∷ l) (skip_from k t len p cur)
unfolding total
skip_from-IsSkipped zero t len p cur q l f e z h c = absurd (omega arith)
skip_from-IsSkipped (suc k) t len p cur q [] f e z h c = elim (reached len cur) [
  | inl stop ↦ stopped (suc k) t len p cur q [] stop
  | inr go ↦ absurd (omega (arith, c, go, z, ap t.len e))
]
skip_from-IsSkipped (suc k) t len p cur q (r ∷ l) f e z h c = elim (reached len cur) [
  | inl stop ↦ stopped (suc k) t len p cur q (r ∷ l) stop
  | inr go ↦
      let s =
        skip_from-IsSkipped k t len q (cur + t.len q) r l f.1 e z (omega (arith, h))
          (omega (arith, c)) in
      record {
        skipped = q ∷ s.skipped;
        succ = s.succ;
        right = s.right;
        splits = ap (λ m. q ∷ m) s.splits;
        result =
            skip_more k t len p q cur go f.0
            ∙ (s.result ∙ ap (λ n. (last_or q s.skipped, n)) (omega arith));
        reaches = omega (arith, s.reaches);
        tight = λ i. elim (reached len (cur + t.len q)) [
          | inl done ↦ omega (
            arith,
            i,
            ap (λ m. total t m) (s.stays done),
            ap (λ m. t.len (last_or q m)) (s.stays done),
          )
          | inr more ↦ omega (arith, s.tight more)
        ];
        moves = λ i. omega arith;
        stays = λ i. absurd (omega (arith, i, go));
      }
]
