-- ===== src/Vis/Ready.antt =====
-- vis/text.c: text_insert, text_delete and text_snapshot on a text, whatever its cache holds.
use suckless.Prelude.{
  ℕ, zero, suc, ◌≡◌, refl, sym, ap, subst, ◌∙◌, false, ◌&&◌, List, [], ◌∷◌, Option, none, some,
  arith,
}
use suckless.Vis.Text.{
  Text, LineCache, Change, cache_contains, current_changes, span_has, follow, same, at_block_end,
}
use suckless.Vis.Change.{change_alloc, revision_alloc, text_snapshot}
use suckless.Vis.Edit.{invalidate_from}
use suckless.Vis.Chain.{content, IsText}
use suckless.Vis.Frame.{IsText-beside, content-beside}
use suckless.Vis.Store.{block_store-IsStored}
use suckless.Vis.Edited.{IsEditedAs}
use suckless.Vis.Inserted.{allocated, allocated-Beside, stored_text}
use suckless.Vis.Notes.{invalidate_from_notes}
use suckless.Vis.Undone.{Holds, edited-Holds, no_cache}
use suckless.Vis.Served.{IsServed, changes_at}
use suckless.Vis.Cached.{IsCached}

-- A well-formed text with the bytes c, whose cache serves a piece that may change in its place.
pub record IsReady (t : Text) (c : List ℕ) : Type 0 where
  pub chain : List ℕ
  pub text : IsText t chain
  pub bytes : content t chain ≡ c
  pub served : IsServed t chain

pub ready-Holds : (t : Text) (c : List ℕ) → IsReady t c → Holds t c
ready-Holds t c v = record { chain = v.chain; text = v.text; bytes = v.bytes }

no_piece : (t : Text) (p : ℕ) → t.cache ≡ none → (t.cache ≡ some p) → 0 ≡ suc 0
no_piece t p h e = ground (arith, sym h ∙ e)

pub no_cache-IsServed : (t : Text) (l : List ℕ) → t.cache ≡ none → IsServed t l
no_cache-IsServed t l h = record {
  below = λ p e. absurd (omega (arith, no_piece t p h e));
  clear = λ p e. absurd (ground (arith, sym e ∙ no_cache t p h));
}

-- The lines of the text are of no account.
span_has-lines :
    (k : ℕ) (t : Text) (x : LineCache) (p : ℕ) (c e : Option ℕ)
    → span_has k (record t { lines = x }) p c e ≡ span_has k t p c e
unfolding span_has
span_has-lines zero t x p c e = refl
span_has-lines (suc k) t x p c e = rw (span_has-lines k t x p (follow t.next c) e) refl

listed_lines :
    (t : Text) (x : LineCache) (p : ℕ) (cs : List Change)
    → (elim cs [
      | [] ↦ false
      | c ∷ cs ↦
          span_has t.fresh (record t { lines = x }) p c.new.start c.new.end && at_block_end t p
    ])
      ≡ (elim cs [
        | [] ↦ false
        | c ∷ cs ↦ span_has t.fresh t p c.new.start c.new.end && at_block_end t p
      ])
listed_lines t x p [] = refl
listed_lines t x p (c ∷ cs) =
    ap (λ b. b && at_block_end t p) (span_has-lines t.fresh t x p c.new.start c.new.end)

pub contains_lines :
    (t : Text) (x : LineCache) (p : ℕ)
    → cache_contains (record t { lines = x }) p ≡ cache_contains t p
unfolding cache_contains
contains_lines t x p = ap (λ b. same t.cache (some p) && b) (listed_lines t x p (current_changes t))

IsServed-lines :
    (t : Text) (x : LineCache) (l : List ℕ) → IsServed t l → IsServed (record t { lines = x }) l
IsServed-lines t x l v = record {
  below = v.below;
  clear = λ p e. v.clear p (sym (contains_lines t x p) ∙ e);
}

pub invalid-IsServed :
    (t : Text) (l : List ℕ) (pos : ℕ) → IsServed t l → IsServed (invalidate_from pos t) l
invalid-IsServed t l pos v =
    subst (λ u. IsServed u l) (sym (invalidate_from_notes pos t))
      (IsServed-lines t (invalidate_from pos t).lines l v)

-- The cache when a change is allocated.
alloc_cache :
    (t : Text) (c : Option ℕ)
    → (let u : Text = elim c [ none ↦ revision_alloc t | some r ↦ t ] in u.cache) ≡ t.cache
unfolding revision_alloc
alloc_cache t none = refl
alloc_cache t (some r) = refl

change_alloc-cache : (pos : ℕ) (t : Text) → (change_alloc pos t).cache ≡ t.cache
unfolding change_alloc
change_alloc-cache pos t =
    let u : Text = elim t.current [ none ↦ revision_alloc t | some r ↦ t ] in
    (changes_at u _ u.current refl).0 ∙ alloc_cache t t.current

pub allocated_cache :
    (t : Text) (l : List ℕ) (pos : ℕ) (cs : List ℕ)
    → ((allocated t l pos cs).cache ≡ t.cache) × ((allocated t l pos cs).fresh ≡ t.fresh)
allocated_cache t l pos cs = (
  change_alloc-cache pos (invalidate_from pos t) ∙ ap (λ u. u.cache) (invalidate_from_notes pos t),
  ap (λ u. u.fresh) (allocated-Beside t l pos cs),
)

pub stored_cache :
    (t : Text) (l : List ℕ) (pos : ℕ) (cs : List ℕ)
    → ((stored_text t l pos cs).cache ≡ t.cache) × ((stored_text t l pos cs).fresh ≡ t.fresh)
stored_cache t l pos cs =
    let kept = (block_store-IsStored cs (allocated t l pos cs)).only_blocks in
    let (c, f) = allocated_cache t l pos cs in
    (ap (λ u. u.cache) kept ∙ c, ap (λ u. u.fresh) kept ∙ f)

-- The text after an edit that made new pieces.
pub edited-IsReady :
    {H : Type 0}
    → (t base u : Text) (l bytes : List ℕ) → IsServed t l
    → (base.cache ≡ t.cache) × (base.fresh ≡ t.fresh)
    → IsEditedAs H base u l bytes
    → IsReady u bytes
edited-IsReady t base u l bytes v (c, f) e =
    let held = edited-Holds base u l bytes e in
    record {
      chain = e.chain;
      text = subst (λ u. IsText u e.chain) (sym e.result) e.swapped.text;
      bytes = ap (λ u. content u e.chain) e.result ∙ (e.swapped.bytes ∙ e.bytes_are);
      served = e.served (λ p h. omega (arith, f, v.below p (sym c ∙ h)));
    }

pub cached-IsReady :
    (t : Text) (p : ℕ) (found : Option Text) (l bytes : List ℕ) (v : IsCached t p found l bytes)
    → IsReady v.after bytes
cached-IsReady t p found l bytes v = record {
  chain = l;
  text = v.text;
  bytes = v.bytes;
  served = v.served;
}

pub text_snapshot-IsReady : (t : Text) (c : List ℕ) → IsReady t c → IsReady (text_snapshot t) c
unfolding text_snapshot
text_snapshot-IsReady t c v = record {
  chain = v.chain;
  text = IsText-beside (text_snapshot t) t v.chain v.text;
  bytes = content-beside (text_snapshot t) t v.chain ∙ v.bytes;
  served = no_cache-IsServed (text_snapshot t) v.chain refl;
}
