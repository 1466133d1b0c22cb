-- ===== src/Vis/Session.antt =====
-- contents.
use suckless.Prelude.{
  ℕ, ◌+◌, ◌^◌, ◌<◌, ◌≡◌, refl, ap₂, false, List, [], ◌∷◌, none, some, arith, length,
}
use suckless.Vis.Text.{Text}
use suckless.Vis.Agree.{Heaped}
use suckless.Vis.Undone.{Holds}
use suckless.Vis.Ready.{ready-Holds, no_cache-IsServed}
use suckless.Vis.Journal.{Journal, Rewinds}
use suckless.Vis.Restored.{IsTracked}
use suckless.Vis.Steps.{
  Act, Doc, act, redact, act_all, redact_all, act_added, acts_added, Fits, Tracks, act-redact,
}

act_all-redact_all :
    (acts : List Act) (t : Text) (d : Doc) (n : ℕ)
    → Tracks t d
    → Fits n d
    → n + acts_added acts < 2 ^ 64
    → ((act_all acts t).0 ≡ (redact_all acts d).0) × Tracks (act_all acts t).1 (redact_all acts d).1
unfolding act_all redact_all acts_added
act_all-redact_all [] t d n v f h = (refl, v)
act_all-redact_all (a ∷ acts) t d n v f h =
    let (done, (next, fit)) = act-redact a t d n v f (omega (arith, h)) in
    let (answers, last) =
      act_all-redact_all acts (act a t).1 (redact a d).1 (n + act_added a) next fit
        (omega (arith, h)) in
    (ap₂ (◌∷◌) done answers, last)

-- A text that was just loaded: it holds the bytes c, all its pieces lie in blocks, its cache is empty,
-- and its history is at a revision that has no earlier one.
pub record IsLoaded (t : Text) (c : List ℕ) : Type 0 where
  pub held : Holds t c
  pub heaped : Heaped t
  pub cache : t.cache ≡ none
  pub current : t.current ≡ none
  pub root : ℕ
  pub history : t.history ≡ some root
  pub known : root < t.nrevs
  pub first : (t.revs root).prev ≡ none

loaded-Tracks : (t : Text) (c : List ℕ) → IsLoaded t c → IsTracked t c false []
unfolding Journal Rewinds
loaded-Tracks t c v = record {
  ready = record {
    chain = v.held.chain;
    text = v.held.text;
    bytes = v.held.bytes;
    served = no_cache-IsServed t v.held.chain v.cache;
  };
  heaped = v.heaped;
  journal = record {
    rev = v.root;
    history = v.history;
    current = v.current;
    rewinds = (v.known, v.first);
  };
}

abbrev pub fresh_doc : List ℕ → Doc
fresh_doc c = record { now = c; writing = false; past = [] }

-- On a text that was just loaded with the bytes c, any sequence of insertions, deletions, snapshots
-- and undos, in which c and all the data together are fewer than 2 ^ 64 bytes, gives the answers that
-- the same sequence gives on a list of bytes with its earlier contents, and the text then holds what
-- that list has become: each undo gives the bytes back as they were before the edits since the
-- snapshot or undo before, edits of the cached piece among them, and does nothing where there are no
-- earlier ones. The answer of an undo is true in both.
pub act_all-Holds :
    (acts : List Act) (t : Text) (c : List ℕ)
    → IsLoaded t c
    → length c + acts_added acts < 2 ^ 64
    → ((act_all acts t).0 ≡ (redact_all acts (fresh_doc c)).0)
      × Holds (act_all acts t).1 (redact_all acts (fresh_doc c)).1.now
act_all-Holds acts t c v h =
    let (answers, last) =
      act_all-redact_all acts t (fresh_doc c) (length c) (loaded-Tracks t c v) (omega arith, tt)
        h in
    (answers, ready-Holds _ _ last.ready)
