-- ===== src/Vis/Steps.antt =====
-- vis/text.c: sequences of edits, snapshots and undos, against a list of bytes with its earlier
-- vis/text.c: one edit, snapshot or undo, against a list of bytes with its earlier contents.
use suckless.Prelude.{
  ltb, ℕ, zero, suc, ◌+◌, ◌^◌, ◌≤◌, ◌<◌, ◌≡◌, refl, sym, ap, subst, ◌∙◌, Bool, true, false,
  if◌then◌else◌, List, [], ◌∷◌, arith, length,
}
use suckless.Vis.Text.{Text}
use suckless.Vis.Change.{text_snapshot}
use suckless.Vis.Edit.{text_insert, text_delete}
use suckless.Vis.Undo.{text_undo}
use suckless.Vis.Edited.{inserted}
use suckless.Vis.Cut.{deleted}
use suckless.Vis.Undone.{Holds-size}
use suckless.Vis.Ready.{ready-Holds}
use suckless.Vis.Run.{
  Op, insert, delete, snapshot, apply, added, insert_refused, delete_refused, length-inserted,
  length-deleted,
}
use suckless.Vis.Restored.{IsTracked, undone, text_snapshot-IsTracked, text_undo-IsTracked}
use suckless.Vis.Tracked.{opened, text_insert-IsTracked, text_delete-IsTracked}

pub data Act : Type 0 where
  edit : Op → Act
  undo : Act

-- The bytes, whether they changed since the last snapshot or undo, and the contents at the earlier
-- snapshots, the latest one first.
pub record Doc : Type 0 where
  pub now : List ℕ
  pub writing : Bool
  pub past : List (List ℕ)

-- An undo answers true, whatever position text_undo gives.
unfoldable pub act : Act → Text → Bool × Text
unfolding apply
act (edit o) t = apply o t
act undo t = (true, (text_undo t).1)

abbrev changed : Doc → List ℕ → Bool × Doc
changed d c = (true, record { now = c; writing = true; past = opened d.writing d.now d.past })

-- What an operation makes of the bytes: nothing beyond their end. Undo goes back one snapshot.
unfoldable pub redact : Act → Doc → Bool × Doc
unfolding undone opened
redact (edit (insert pos [])) d = (true, d)
redact (edit (insert pos (x ∷ cs))) d =
    if ltb (length d.now) pos then (false, d) else changed d (inserted d.now pos (x ∷ cs))
redact (edit (delete pos zero)) d = (true, d)
redact (edit (delete pos (suc n))) d =
    if ltb (length d.now) (pos + suc n) then (false, d) else changed d (deleted d.now pos (suc n))
redact (edit snapshot) d = (true, record d { writing = false })
redact undo d =
    let (c, rest) = undone d.now d.past in (true, record { now = c; writing = false; past = rest })

unfoldable pub act_all : List Act → Text → List Bool × Text
unfolding act
act_all [] t = ([], t)
act_all (a ∷ acts) t =
    let (done, u) = act a t in let (answers, v) = act_all acts u in (done ∷ answers, v)

unfoldable pub redact_all : List Act → Doc → List Bool × Doc
unfolding redact
redact_all [] d = ([], d)
redact_all (a ∷ acts) d =
    let (done, e) = redact a d in let (answers, f) = redact_all acts e in (done ∷ answers, f)

-- The bytes that the insertions may add.
unfoldable pub act_added : Act → ℕ
unfolding added
act_added (edit o) = added o
act_added undo = 0

unfoldable pub acts_added : List Act → ℕ
unfolding act_added
acts_added [] = 0
acts_added (a ∷ acts) = act_added a + acts_added acts

abbrev pub AllFit : ℕ → List (List ℕ) → Type 0
AllFit n [] = Unit {0}
AllFit n (c ∷ cs) = (length c ≤ n) × AllFit n cs

-- No content is longer than n.
abbrev pub Fits : ℕ → Doc → Type 0
Fits n d = (length d.now ≤ n) × AllFit n d.past

AllFit-mono : (n m : ℕ) (cs : List (List ℕ)) → n ≤ m → AllFit n cs → AllFit m cs
AllFit-mono n m [] h f = tt
AllFit-mono n m (c ∷ cs) h f = (omega (arith, h, f.0), AllFit-mono n m cs h f.1)

abbrev pub Tracks : Text → Doc → Type 0
Tracks t d = IsTracked t d.now d.writing d.past

-- The state after a step, for contents of up to n bytes, with m more.
abbrev pub Follows : ℕ → Bool × Text → Bool × Doc → Type 0
Follows n r s = (r.0 ≡ s.0) × (Tracks r.1 s.1 × Fits n s.1)

opened-AllFit :
    (b : Bool) (n m : ℕ) (now : List ℕ) (past : List (List ℕ))
    → n ≤ m
    → length now ≤ n
    → AllFit n past
    → AllFit m (opened b now past)
unfolding opened
opened-AllFit true n m now past h k f = AllFit-mono n m past h f
opened-AllFit false n m now past h k f = (omega (arith, h, k), AllFit-mono n m past h f)

insert-Follows :
    (t : Text) (d : Doc) (pos x : ℕ) (cs : List ℕ) (n : ℕ) (b : Bool)
    → Tracks t d
    → Fits n d
    → ltb (length d.now) pos ≡ b
    → Follows
        (n + length (x ∷ cs))
        (text_insert pos (x ∷ cs) t)
        (if b then (false, d) else changed d (inserted d.now pos (x ∷ cs)))
insert-Follows t d pos x cs n true v f e =
    subst (λ r. Follows (n + length (x ∷ cs)) r (false, d))
      (sym (
        insert_refused t pos x cs
          (ap (λ n. ltb n pos) (Holds-size t d.now (ready-Holds t d.now v.ready)) ∙ e)))
      (refl, (v, (omega (arith, f.0), AllFit-mono n _ d.past (omega arith) f.1)))
insert-Follows t d pos x cs n false v f e =
    let (done, next) =
      text_insert-IsTracked t d.now d.writing d.past pos (x ∷ cs) v (ground (arith, e))
        (omega arith) in
    (
      done,
      (
        next,
        (
          omega (arith, f.0, length-inserted d.now (x ∷ cs) pos),
          opened-AllFit d.writing n _ d.now d.past (omega arith) f.0 f.1,
        ),
      ),
    )

delete-Follows :
    (t : Text) (d : Doc) (pos k n : ℕ) (b : Bool)
    → Tracks t d
    → Fits n d
    → n < 2 ^ 64
    → ltb (length d.now) (pos + suc k) ≡ b
    → Follows
        (n + 0)
        (text_delete pos (suc k) t)
        (if b then (false, d) else changed d (deleted d.now pos (suc k)))
delete-Follows t d pos k n true v f h e =
    subst (λ r. Follows (n + 0) r (false, d))
      (sym (
        delete_refused t pos k
          (ap (λ m. ltb m (pos + suc k)) (Holds-size t d.now (ready-Holds t d.now v.ready)) ∙ e)))
      (refl, (v, (omega (arith, f.0), AllFit-mono n _ d.past (omega arith) f.1)))
delete-Follows t d pos k n false v f h e =
    let (done, next) =
      text_delete-IsTracked t d.now d.writing d.past pos (suc k) v (ground (arith, e))
        (omega (arith, f.0, h)) (omega arith) in
    (
      done,
      (
        next,
        (
          omega (arith, f.0, length-deleted d.now pos (suc k)),
          opened-AllFit d.writing n _ d.now d.past (omega arith) f.0 f.1,
        ),
      ),
    )

stay :
    (t : Text) (d : Doc) (n m : ℕ) → n ≤ m → Tracks t d → Fits n d → Follows m (true, t) (true, d)
stay t d n m h v f = (refl, (v, (omega (arith, f.0, h), AllFit-mono n m d.past h f.1)))

undo_follows :
    (t : Text) (now : List ℕ) (writing : Bool) (past : List (List ℕ)) (n : ℕ)
    → IsTracked t now writing past
    → length now ≤ n
    → AllFit n past
    → let (c, rest) = undone now past in
      (IsTracked (text_undo t).1 c false rest) × ((length c ≤ n + 0) × AllFit (n + 0) rest)
unfolding undone
undo_follows t now writing [] n v h f =
    (text_undo-IsTracked t now writing [] v, (omega (arith, h), tt))
undo_follows t now writing (c ∷ past) n v h f = (
  text_undo-IsTracked t now writing (c ∷ past) v,
  (omega (arith, f.0), AllFit-mono n (n + 0) past (omega arith) f.1),
)

pub act-redact :
    (a : Act) (t : Text) (d : Doc) (n : ℕ)
    → Tracks t d
    → Fits n d
    → n < 2 ^ 64
    → Follows (n + act_added a) (act a t) (redact a d)
unfolding act redact act_added apply added text_insert text_delete
act-redact (edit (insert pos [])) t d n v f h = stay t d n _ (omega arith) v f
act-redact (edit (insert pos (x ∷ cs))) t d n v f h =
    insert-Follows t d pos x cs n (ltb (length d.now) pos) v f refl
act-redact (edit (delete pos zero)) t d n v f h = stay t d n _ (omega arith) v f
act-redact (edit (delete pos (suc k))) t d n v f h =
    delete-Follows t d pos k n (ltb (length d.now) (pos + suc k)) v f h refl
act-redact (edit snapshot) t d n v f h =
    stay (text_snapshot t) (record d { writing = false }) n _ (omega arith)
      (text_snapshot-IsTracked t d.now d.writing d.past v) f
act-redact undo t d n v f h = (refl, undo_follows t d.now d.writing d.past n v f.0 f.1)
