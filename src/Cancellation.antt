-- ===== src/Cancellation.antt =====
-- include/ai/util/cancellation.hpp: the state that a CancellationSource shares with its tokens. A
-- callback is its number; the callbacks that run are logged.
pub mod Once
mod Tests
use ai_sdk_cpp.Prelude.{ℕ, Bool, true, false, List, [], ◌∷◌, ◌++◌, if◌then◌else◌}

-- `CancellationToken::State`; `cbs` is the variable of the call of `cancel` that set the flag, with
-- the callbacks that it has not run yet, and `ran` the log.
pub record State : Type 0 where
  pub cancelled : Bool
  pub callbacks : List ℕ
  pub cbs : List ℕ
  pub ran : List ℕ

abbrev pub fresh : State
fresh = record { cancelled = false; callbacks = []; cbs = []; ran = [] }

-- `on_cancel`, under the lock to its end.
unfoldable pub on_cancel : ℕ → State → State
on_cancel cb s =
    if s.cancelled
    then record s { ran = s.ran ++ cb ∷ [] }
    else record s { callbacks = s.callbacks ++ cb ∷ [] }

-- The first part of `cancel`, under the lock; it returns if the flag was set.
unfoldable pub exchange : State → State
exchange s =
    if s.cancelled then s else record s { cancelled = true; callbacks = []; cbs = s.callbacks }

-- A round of the loop of `cancel`, without the lock.
abbrev pub run_first : List ℕ → State → State
run_first [] s = s
run_first (cb ∷ cbs) s = record s { cbs = cbs; ran = s.ran ++ cb ∷ [] }

unfoldable pub run_next : State → State
run_next s = run_first s.cbs s

-- The loop of `cancel` over the callbacks that it took.
unfoldable pub run_all : List ℕ → State → State
run_all [] s = s
run_all (cb ∷ cbs) s = run_all cbs (record s { cbs = cbs; ran = s.ran ++ cb ∷ [] })

-- `cancel`, when nothing comes between its parts.
unfoldable pub cancel : State → State
unfolding exchange run_all
cancel s = if s.cancelled then s else run_all s.callbacks (exchange s)
