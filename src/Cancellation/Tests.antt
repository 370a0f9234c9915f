-- ===== src/Cancellation/Tests.antt =====
-- A callback that is registered while another thread runs those it took.
use ai_sdk_cpp.Prelude.{◌≡◌, refl, false, [], ◌∷◌}
use ai_sdk_cpp.Cancellation.{State, fresh, on_cancel, exchange, run_next}
use ai_sdk_cpp.Cancellation.Once.{Reach, IsOnce, Reach-IsOnce}

abbrev two_registered : State
two_registered = on_cancel 2 (on_cancel 1 fresh)

two-Reach : Reach (1 ∷ 2 ∷ []) two_registered
two-Reach = Reach.registered 2 (Reach.registered 1 Reach.start)

-- The late callback runs at once, in front of the second one.
late_first : (run_next (on_cancel 3 (run_next (exchange two_registered)))).ran ≡ 1 ∷ 3 ∷ 2 ∷ []
unfolding run_next on_cancel exchange
late_first = refl

Reach-IsOnce_example :
    IsOnce (1 ∷ 2 ∷ 3 ∷ []) (run_next (on_cancel 3 (run_next (exchange two_registered))))
Reach-IsOnce_example =
    Reach-IsOnce (Reach.ran_next (Reach.registered 3 (Reach.ran_next (Reach.exchanged two-Reach))))

two_clear : two_registered.cancelled ≡ false
unfolding on_cancel
two_clear = refl
