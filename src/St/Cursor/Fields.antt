-- ===== src/St/Cursor/Fields.antt =====
-- Assignments that do not touch the geometry of the screen.
use suckless.Prelude.{ℕ, Bool, List}
use suckless.St.Term.{Term, Flags, Call, Cursor, CsiEscape, StrEscape, Line, Marks}
use suckless.St.Cursor.Bounds.{InScreen, InScreen-same, same_screen}

pub calls-InScreen : (x : List Call) (t : Term) → InScreen t → InScreen (record t { calls = x })
calls-InScreen x t v = InScreen-same t _ v (same_screen t)

pub mode-InScreen : (x : Flags) (t : Term) → InScreen t → InScreen (record t { mode = x })
mode-InScreen x t v = InScreen-same t _ v (same_screen t)

pub esc-InScreen : (x : Flags) (t : Term) → InScreen t → InScreen (record t { esc = x })
esc-InScreen x t v = InScreen-same t _ v (same_screen t)

pub trantbl-InScreen : (x : ℕ → ℕ) (t : Term) → InScreen t → InScreen (record t { trantbl = x })
trantbl-InScreen x t v = InScreen-same t _ v (same_screen t)

pub charset-InScreen : (x : ℕ) (t : Term) → InScreen t → InScreen (record t { charset = x })
charset-InScreen x t v = InScreen-same t _ v (same_screen t)

pub icharset-InScreen : (x : ℕ) (t : Term) → InScreen t → InScreen (record t { icharset = x })
icharset-InScreen x t v = InScreen-same t _ v (same_screen t)

pub tabs-InScreen : (x : ℕ → Bool) (t : Term) → InScreen t → InScreen (record t { tabs = x })
tabs-InScreen x t v = InScreen-same t _ v (same_screen t)

pub lastc-InScreen : (x : ℕ) (t : Term) → InScreen t → InScreen (record t { lastc = x })
lastc-InScreen x t v = InScreen-same t _ v (same_screen t)

pub saved-InScreen : (x : Bool → Cursor) (t : Term) → InScreen t → InScreen (record t { saved = x })
saved-InScreen x t v = InScreen-same t _ v (same_screen t)

pub csi-InScreen : (x : CsiEscape) (t : Term) → InScreen t → InScreen (record t { csi = x })
csi-InScreen x t v = InScreen-same t _ v (same_screen t)

pub str-InScreen : (x : StrEscape) (t : Term) → InScreen t → InScreen (record t { str = x })
str-InScreen x t v = InScreen-same t _ v (same_screen t)

pub win-InScreen : (x : Flags) (t : Term) → InScreen t → InScreen (record t { win = x })
win-InScreen x t v = InScreen-same t _ v (same_screen t)

pub fault-InScreen : (x : Bool) (t : Term) → InScreen t → InScreen (record t { fault = x })
fault-InScreen x t v = InScreen-same t _ v (same_screen t)

pub line-InScreen : (x : ℕ → Line) (t : Term) → InScreen t → InScreen (record t { line = x })
line-InScreen x t v = InScreen-same t _ v (same_screen t)

pub marks-InScreen : (x : Marks) (t : Term) → InScreen t → InScreen (record t { marks = x })
marks-InScreen x t v = InScreen-same t _ v (same_screen t)

pub ruleset assignments = (
  calls-InScreen, mode-InScreen, esc-InScreen, trantbl-InScreen, charset-InScreen,
  icharset-InScreen, tabs-InScreen, lastc-InScreen, saved-InScreen, csi-InScreen, str-InScreen,
  win-InScreen, fault-InScreen, line-InScreen, marks-InScreen,
)
