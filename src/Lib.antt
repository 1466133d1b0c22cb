-- ===== src/Lib.antt =====
-- The repository is a collection of small programs. This library is about two of them: st, the terminal
-- emulator (st/st.c): the bytes that a program writes to its terminal, and what they do to the screen;
-- and the text of the editor vis (vis/text.c): a piece table with undo.
--
-- How the parts of st interact. twrite decodes bytes (utf8decode) and gives each rune to tputc. There
-- a string sequence takes it (strescseq, strhandle), or a control code acts at once (tcontrolcode), or a
-- sequence goes on (eschandle, csiparse, csihandle), or it is printed (tsetchar and the wrapping
-- around it). All of them work on one struct Term with a selection and dirty flags beside it. The window
-- (x.c) and the tty are behind calls.
--
-- Which file models what:
-- - Prelude: Boolean tests, lists, arrays as functions of the index, int, bit operations.
-- - St/Utf8, St/Base64: utf8decode, utf8encode, base64dec.
-- - St/Term: st.h's Glyph and st.c's Term, TCursor, Selection, CSIEscape, STREscape and the
--   file-scope variables as one record; a flag word is a function from bit numbers.
-- - St/Cursor: tsetdirt, tattrset, tmoveto, tmoveato, tsetscroll, and the geometry (InScreen) that all the
--   operations keep. St/Select: the selection. St/Clear: tclearregion. St/Scroll: tscrollup,
--   tscrolldown, tnewline, line insertion and deletion, kscrollup, kscrolldown.
-- - St/Edit: tsetchar, tdeletechar, tinsertblank, tputtab. St/Sgr: tdefcolor, tsetattr. St/Modes:
--   tcursor, tswapscreen, tsetmode, treset, draw and x.c's xsetmode.
-- - St/Csi, St/Handle: csiparse, csihandle. St/Str: strparse, strhandle. St/Control: tcontrolcode,
--   eschandle. St/Print: the printer, getsel, ttywrite. St/Put: tputc, twrite. St/Resize: tresize, tnew.
-- - Vis/Block: the blocks of vis/text-io.c. Vis/Text: struct Text, Piece, Span, Change and Revision, the
--   cache and span_swap. Vis/Change: revision_alloc, change_alloc, text_snapshot, text_saved,
--   text_modified. Vis/Edit: piece_get_intern, text_insert, text_delete. Vis/Undo: text_undo, text_redo.
-- - Vis/Links, Vis/Chain: linked lists, and what a chain of pieces holds (IsText, content). Vis/Swap and
--   Vis/Back: span_swap. Vis/Find: piece_get_intern. Vis/Bytes: the bytes of a block. Vis/Frame,
--   Vis/Store, Vis/Recorded: the steps of an edit. Vis/Insert, Vis/Inside, Vis/Edited, Vis/Inserted:
--   the cases of text_insert. Vis/Skip, Vis/Cut, Vis/Deleted, Vis/Removed, Vis/Middle, Vis/Erased,
--   Vis/Deletion: those of text_delete.
--   Vis/Notes, Vis/Undone, Vis/Redone: the revision of an edit, undo and redo. Vis/Served, Vis/Resized,
--   Vis/Cached, Vis/Hits: the cached piece. Vis/Ready, Vis/Edits, Vis/Run: the
--   operations one after the other.
--   Vis/Agree, Vis/Relink, Vis/Topped, Vis/Reverts, Vis/Journal, Vis/Amended: what a text remembers for
--   undo. Vis/Restored, Vis/Tracked, Vis/Steps, Vis/Session: edits, snapshots and undos one after the
--   other.
-- - St/Tests, Vis/Tests: a small screen and a small text, and the theorems at concrete inputs.
-- An operation keeps its C name and takes and gives the state. Where the source has one long function, its
-- cases are functions of their own that it is composed of.
--
-- How the parts of vis/text.c interact. The text is a doubly linked chain of pieces that point into
-- blocks of bytes. An edit finds its piece (piece_get_intern), stores its data (block_store), makes new
-- pieces, and swaps a span of the chain for another (span_swap); the two spans stay in a change of the
-- current revision, so that undo and redo swap them again. Edits of the last piece made go through the
-- cache and change it in place. A piece is a number and its members are functions of it, a pointer to
-- data is a block and an offset, and a revision is a number too, so that links are shared as in the source.
--
-- Numbers. Rows, columns and runes are natural numbers. A parameter of a sequence is an integer,
-- since strtol reads a sign, and its sum with the cursor's place or the top of the scroll region wraps as
-- an int of 32 bits.
--
-- Accesses outside an object. `fault` of a Term records two: the write to line[y][-1] in tsetchar, and
-- the read past vcs in tdeftran. `fault` of a Text records the use of a null pointer. Others are not
-- recorded, and the model gives them a value: the read before a line in getsel (a cell without
-- ATTR_WRAP), attr[16] in tdefcolor (what the function of the index holds there),
-- base64_digits[255] (0). The bytes of a block are a function of the index, so that a
-- write past its size is not seen in `fault` either; IsWithin is the predicate that speaks of it.
--
-- Fuel. twrite has one round for each byte, and a round reads a byte at least; base64dec and csiparse the same;
-- tsetattr one for each parameter; the word snap one for each cell of the screen. REP calls tputc with
-- a printed character in the ground state, so one level of that call is enough. The loops over the pieces
-- of a text have as many rounds as pieces were allocated, and a chain holds each at most once.
--
-- Parameters of the state: config.h, wcwidth, isprint, isboxdraw (st/boxdraw.c) and whether a
-- colour name is known (xsetcolorname). Calls of the window, the tty and the printer are recorded in order.
--
-- Not modelled: processes, the tty's system calls, drawing, what is printed on stderr; in st.c
-- copyurl; in vis/text.c the walk through the tree of revisions, loading,
-- saving, iterators, line numbers and marks; a failing malloc; the rest of vis and the other programs.
pub mod Prelude
pub mod St
pub mod Vis
