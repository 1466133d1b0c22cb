-- ===== src/Vis/Frame.antt =====
-- vis/text.c: steps that keep the pieces of a text: those that write no member of a piece, and the
-- initialisation of a piece that is new.
use suckless.Prelude.{
  ltb, ℕ, ◌+◌, ◌≤◌, ◌<◌, ◌≡◌, ◌≢◌, inr, refl, sym, ap, ap₂, subst, ◌∙◌, Bool, true, false, ◌==◌,
  if◌then◌else◌, List, [], ◌∷◌, ◌++◌, Option, none, some, arith, put_at,
}
use suckless.Vis.Links.{Out, head_or, last_or, Fwd-frame, Bwd-frame}
use suckless.Vis.Text.{Text, Change, Span, begin, ending, cache_piece, at_block_end, set_changes}
use suckless.Vis.Change.{change_alloc, revision_alloc}
use suckless.Vis.Edit.{invalid_lines, piece_init, piece_alloc, invalidate_from, set_spans}
use suckless.Vis.Swap.{apart}
use suckless.Vis.Find.{not_both}
use suckless.Vis.Chain.{
  content_pointwise, total_pointwise, AllStored_pointwise, content, total, piece_bytes, slice,
  IsText, Below-mono, Stored, AllStored,
}

-- t with the members of w that describe no piece.
abbrev pub beside : Text → Text → Text
beside w t = record t {
  cache = w.cache;
  revs = w.revs;
  nrevs = w.nrevs;
  history = w.history;
  current = w.current;
  last = w.last;
  saved = w.saved;
  lines = w.lines;
  now = w.now;
  fault = w.fault;
}

abbrev pub Beside : Text → Text → Type 0
Beside t u = u ≡ beside u t

-- What holds of t with any such members holds of a text beside t.
pub over : (P : Text → Type 0) (t u : Text) → Beside t u → ((w : Text) → P (beside w t)) → P u
over P t u e h = subst P (sym e) (h u)

pub Beside-trans : (t u v : Text) → Beside t u → Beside u v → Beside t v
Beside-trans t u v e f = f ∙ ap (beside v) e

beside_if : (b : Bool) (w t : Text) → Beside t (if b then beside w t else t)
beside_if true w t = refl
beside_if false w t = refl

pub invalidate_from-Beside : (pos : ℕ) (t : Text) → Beside t (invalidate_from pos t)
invalidate_from-Beside pos t =
    beside_if (ltb pos t.lines.pos) (record t { lines = invalid_lines }) t

cache_piece-Beside : (p : ℕ) (t : Text) → Beside t (cache_piece p t)
unfolding cache_piece
cache_piece-Beside p t = beside_if (at_block_end t p) (record t { cache = some p }) t

changes-Beside :
    (cs : List Change) (t : Text) (c : Option ℕ)
    → Beside t (elim c [
      | none ↦ record t { fault = true }
      | some r ↦ record t { revs = put_at t.revs r (record (t.revs r) { changes = cs }) }
    ])
changes-Beside cs t none = refl
changes-Beside cs t (some r) = refl

pub set_changes-Beside : (cs : List Change) (t : Text) → Beside t (set_changes cs t)
set_changes-Beside cs t = changes-Beside cs t t.current

revision-Beside :
    (t : Text) (c : Option ℕ) → Beside t (elim c [ none ↦ revision_alloc t | some r ↦ t ])
unfolding revision_alloc
revision-Beside t none = refl
revision-Beside t (some r) = refl

pub change_alloc-Beside : (pos : ℕ) (t : Text) → Beside t (change_alloc pos t)
unfolding change_alloc
change_alloc-Beside pos t =
    Beside-trans t _ _ (revision-Beside t t.current) (set_changes-Beside _ _)

pub set_spans-Beside : (old new : Span) (t : Text) → Beside t (set_spans old new t)
set_spans-Beside old new t = set_changes-Beside _ t

-- The bookkeeping of a change, once its pieces are there.
pub recorded-Beside :
    (p : ℕ) (old new : Span) (t : Text) → Beside t (cache_piece p (set_spans old new t))
recorded-Beside p old new t = Beside-trans t _ _ (set_changes-Beside _ t) (cache_piece-Beside p _)

pub content-beside : (w t : Text) (l : List ℕ) → content (beside w t) l ≡ content t l
content-beside w t l = content_pointwise t (beside w t) l (λ p. refl)

pub total-beside : (w t : Text) (l : List ℕ) → total (beside w t) l ≡ total t l
total-beside w t l = total_pointwise t (beside w t) l (λ p. refl)

pub AllStored_beside : (w t : Text) (l : List ℕ) → AllStored t l → AllStored (beside w t) l
AllStored_beside w t l s = AllStored_pointwise t (beside w t) l (λ p h. h) s

pub IsText-beside : (w t : Text) (l : List ℕ) → IsText t l → IsText (beside w t) l
IsText-beside w t l v = record {
  linked = v.linked;
  distinct = v.distinct;
  first = v.first;
  final = v.final;
  closed = v.closed;
  begin_len = v.begin_len;
  ending_len = v.ending_len;
  below = v.below;
  count = v.count;
  stored = AllStored_beside w t l v.stored;
  sized = v.sized ∙ sym (total-beside w t l);
}

-- A piece that the chain does not hold.
pub put_at_here {ℓ} : {A : Type ℓ} (g : ℕ → A) (p : ℕ) (x : A) → put_at g p x p ≡ x
put_at_here g p x = ground arith

pub put_at_apart {ℓ} : {A : Type ℓ} (g : ℕ → A) (p q : ℕ) (x : A) → p ≢ q → put_at g p x q ≡ g q
put_at_apart g p q x h = rw (apart p q h) refl

Out-first : (p d : ℕ) (l : List ℕ) → Out p l → d ≢ begin → head_or l d ≡ begin → p ≢ begin
Out-first p d [] h n e = absurd (n e)
Out-first p d (q ∷ l) h n e = λ k. h.0 (k ∙ sym e)

Out-final : (p d : ℕ) (l : List ℕ) → Out p l → d ≢ ending → last_or d l ≡ ending → p ≢ ending
Out-final p d [] h n e = absurd (n e)
Out-final p d (q ∷ []) h n e = λ k. h.0 (k ∙ sym e)
Out-final p d (q ∷ r ∷ l) h n e = Out-final p d (r ∷ l) h.1 n e

module _ (p : ℕ) (pr nx : Option ℕ) (b o n : ℕ) (t : Text) where
  self : (p == p) ≡ true
  self = ground arith

  piece_init-here :
      let u = piece_init p pr nx b o n t in (u.len p ≡ n) × (u.next p ≡ nx) × (u.prev p ≡ pr)
  unfolding piece_init
  piece_init-here = (put_at_here t.len p n, put_at_here t.next p nx, put_at_here t.prev p pr)

  piece_init-bytes_here : piece_bytes (piece_init p pr nx b o n t) p ≡ slice (t.blocks b).bytes o n
  unfolding piece_init
  piece_init-bytes_here = rw self refl

  piece_init-Stored_here :
      (b < t.nblocks) → o + n ≤ (t.blocks b).len → Stored (piece_init p pr nx b o n t) p
  unfolding piece_init
  piece_init-Stored_here h k = rw self (inr (h, k))

  piece_init-away :
      (q : ℕ)
      → p ≢ q
      → let u = piece_init p pr nx b o n t in
        (u.len q ≡ t.len q) × (u.next q ≡ t.next q) × (u.prev q ≡ t.prev q)
  unfolding piece_init
  piece_init-away q h =
      (put_at_apart t.len p q n h, put_at_apart t.next p q nx h, put_at_apart t.prev p q pr h)

  piece_init-place :
      ((piece_init p pr nx b o n t).blk p ≡ b) × ((piece_init p pr nx b o n t).off p ≡ o)
  unfolding piece_init
  piece_init-place = (put_at_here t.blk p b, put_at_here t.off p o)

  piece_init-place_away :
      (q : ℕ)
      → p ≢ q
      → let u = piece_init p pr nx b o n t in (u.blk q ≡ t.blk q) × (u.off q ≡ t.off q)
  unfolding piece_init
  piece_init-place_away q h = (put_at_apart t.blk p q b h, put_at_apart t.off p q o h)

  piece_init-bytes : (q : ℕ) → p ≢ q → piece_bytes (piece_init p pr nx b o n t) q ≡ piece_bytes t q
  unfolding piece_init
  piece_init-bytes q h = rw (apart p q h) refl

  piece_init-Stored : (q : ℕ) → p ≢ q → Stored t q → Stored (piece_init p pr nx b o n t) q
  unfolding piece_init
  piece_init-Stored q h s = rw (apart p q h) s

  piece_init-content : (l : List ℕ) → Out p l → content (piece_init p pr nx b o n t) l ≡ content t l
  unfolding content piece_init
  piece_init-content [] h = refl
  piece_init-content (q ∷ l) h = ap₂ (◌++◌) (piece_init-bytes q h.0) (piece_init-content l h.1)

  piece_init-total : (l : List ℕ) → Out p l → total (piece_init p pr nx b o n t) l ≡ total t l
  unfolding total piece_init
  piece_init-total [] h = refl
  piece_init-total (q ∷ l) h = ap₂ (◌+◌) (put_at_apart t.len p q n h.0) (piece_init-total l h.1)

  piece_init-AllStored :
      (l : List ℕ) → Out p l → AllStored t l → AllStored (piece_init p pr nx b o n t) l
  unfolding piece_init
  piece_init-AllStored [] h s = tt
  piece_init-AllStored (q ∷ l) h s = (piece_init-Stored q h.0 s.0, piece_init-AllStored l h.1 s.1)

  piece_init-IsText : (l : List ℕ) → IsText t l → Out p l → IsText (piece_init p pr nx b o n t) l
  unfolding piece_init
  piece_init-IsText l v h = record {
    linked = (Fwd-frame t.next p nx l h v.linked.0, Bwd-frame t.prev p pr l h v.linked.1);
    distinct = v.distinct;
    first = v.first;
    final = v.final;
    closed = put_at_apart t.next p ending nx (Out-final p begin l h not_both v.final) ∙ v.closed;
    begin_len =
        put_at_apart t.len p begin n (Out-first p ending l h (λ k. not_both (sym k)) v.first)
        ∙ v.begin_len;
    ending_len =
        put_at_apart t.len p ending n (Out-final p begin l h not_both v.final) ∙ v.ending_len;
    below = v.below;
    count = v.count;
    stored = piece_init-AllStored l h v.stored;
    sized = v.sized ∙ sym (piece_init-total l h);
  }

-- What the initialisation of the piece p does, and what it keeps.
pub record IsInit (p : ℕ) (pr nx : Option ℕ) (b o n : ℕ) (t u : Text) : Type 0 where
  pub here : (u.len p ≡ n) × (u.next p ≡ nx) × (u.prev p ≡ pr)
  pub here_bytes : piece_bytes u p ≡ slice (t.blocks b).bytes o n
  pub here_stored : b < t.nblocks → o + n ≤ (t.blocks b).len → Stored u p
  pub away : (q : ℕ) → p ≢ q → (u.len q ≡ t.len q) × (u.next q ≡ t.next q) × (u.prev q ≡ t.prev q)
  pub place_here : (u.blk p ≡ b) × (u.off p ≡ o)
  pub place_away : (q : ℕ) → p ≢ q → (u.blk q ≡ t.blk q) × (u.off q ≡ t.off q)
  pub away_bytes : (q : ℕ) → p ≢ q → piece_bytes u q ≡ piece_bytes t q
  pub away_stored : (q : ℕ) → p ≢ q → Stored t q → Stored u q
  pub away_total : (l : List ℕ) → Out p l → total u l ≡ total t l
  pub away_content : (l : List ℕ) → Out p l → content u l ≡ content t l
  pub away_text : (l : List ℕ) → IsText t l → Out p l → IsText u l

pub piece_init-IsInit :
    (p : ℕ) (pr nx : Option ℕ) (b o n : ℕ) (t : Text)
    → IsInit p pr nx b o n t (piece_init p pr nx b o n t)
piece_init-IsInit p pr nx b o n t = record {
  here = piece_init-here p pr nx b o n t;
  here_bytes = piece_init-bytes_here p pr nx b o n t;
  here_stored = piece_init-Stored_here p pr nx b o n t;
  away = piece_init-away p pr nx b o n t;
  place_here = piece_init-place p pr nx b o n t;
  place_away = piece_init-place_away p pr nx b o n t;
  away_bytes = piece_init-bytes p pr nx b o n t;
  away_stored = piece_init-Stored p pr nx b o n t;
  away_total = piece_init-total p pr nx b o n t;
  away_content = piece_init-content p pr nx b o n t;
  away_text = piece_init-IsText p pr nx b o n t;
}

pub piece_alloc-content :
    (n : ℕ) (t : Text) (l : List ℕ) → content (piece_alloc n t) l ≡ content t l
piece_alloc-content n t l = content_pointwise t (piece_alloc n t) l (λ p. refl)

pub piece_alloc-total : (n : ℕ) (t : Text) (l : List ℕ) → total (piece_alloc n t) l ≡ total t l
piece_alloc-total n t l = total_pointwise t (piece_alloc n t) l (λ p. refl)

piece_alloc-AllStored :
    (n : ℕ) (t : Text) (l : List ℕ) → AllStored t l → AllStored (piece_alloc n t) l
piece_alloc-AllStored n t l s = AllStored_pointwise t (piece_alloc n t) l (λ p h. h) s

pub piece_alloc-IsText : (n : ℕ) (t : Text) (l : List ℕ) → IsText t l → IsText (piece_alloc n t) l
piece_alloc-IsText n t l v = record {
  linked = v.linked;
  distinct = v.distinct;
  first = v.first;
  final = v.final;
  closed = v.closed;
  begin_len = v.begin_len;
  ending_len = v.ending_len;
  below = Below-mono t.fresh (t.fresh + n) l (omega arith) v.below;
  count = omega (arith, v.count);
  stored = piece_alloc-AllStored n t l v.stored;
  sized = v.sized ∙ sym (piece_alloc-total n t l);
}
