-- ===== src/Prelude/Host.antt =====
-- The services outside the repository, as an environment that answers every call from the whole
-- history of calls and answers. The history is a log, its last entry first.
use mathlib.Core.Bool.{Bool}
use mathlib.Core.List.{List}

-- A log of calls `C`, each with its answer `R`.
abbrev pub Log : Type 0 → Type 0 → Type 0
Log C R = List (C × R)

-- Any way to answer calls: the answer may depend on everything that went before.
abbrev pub Replies : Type 0 → Type 0 → Type 0
Replies C R = Log C R → C → R

-- Any way to answer a yes-or-no question `Q` that changes nothing.
abbrev pub Answers : Type 0 → Type 0 → Type 0 → Type 0
Answers C R Q = Log C R → Q → Bool
