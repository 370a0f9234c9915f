-- ===== src/Cancellation/Once.antt =====
-- Each callback runs once, however the calls of several threads come between each other.
use ai_sdk_cpp.Prelude.{
  ℕ, suc, ◌+◌, ◌≡◌, refl, sym, ap, ap₂, subst, ◌∙◌, inl, inr, true, false, Bool-cases, List, [],
  ◌∷◌, ◌++◌, append-nil, append_assoc, ◌==◌, if◌then◌else◌, arith,
}
use ai_sdk_cpp.Cancellation.{
  State, fresh, on_cancel, exchange, run_first, run_next, run_all, cancel,
}

-- How often a callback stands in a list.
abbrev pub occurs : ℕ → List ℕ → ℕ
occurs c [] = 0
occurs c (x ∷ xs) = if x == c then suc (occurs c xs) else occurs c xs

occurs-append : (c : ℕ) (xs ys : List ℕ) → occurs c (xs ++ ys) ≡ occurs c xs + occurs c ys
occurs-append c [] ys = omega arith
occurs-append c (x ∷ xs) ys = ground (arith, occurs-append c xs ys)

-- The states that calls can reach, with the callbacks that were registered, in order: a callback is
-- registered, a call of cancel sets the flag, or the one that set it runs a callback.
pub data Reach : List ℕ → State → Type 0 where
  start : Reach [] fresh
  registered :
      (cb : ℕ) {cs : List ℕ} {s : State} → Reach cs s → Reach (cs ++ cb ∷ []) (on_cancel cb s)
  exchanged : {cs : List ℕ} {s : State} → Reach cs s → Reach cs (exchange s)
  ran_next : {cs : List ℕ} {s : State} → Reach cs s → Reach cs (run_next s)

-- Each callback is pending, taken or run, as often as it was registered; before the flag is set all
-- are pending, in order, and none is taken or run; behind it none is pending.
pub record IsOnce (cs : List ℕ) (s : State) : Type 0 where
  pub balance : (c : ℕ) → occurs c cs ≡ occurs c s.callbacks + (occurs c s.cbs + occurs c s.ran)
  pub before_flag : s.cancelled ≡ false → (s.callbacks ≡ cs) × (s.cbs ≡ []) × (s.ran ≡ [])
  pub behind_flag : s.cancelled ≡ true → s.callbacks ≡ []

module _ (s : State) where
  on_cancel_set :
      (cb : ℕ) → s.cancelled ≡ true → on_cancel cb s ≡ record s { ran = s.ran ++ cb ∷ [] }
  unfolding on_cancel
  on_cancel_set cb set = ground (arith, set)

  on_cancel_clear :
      (cb : ℕ)
      → s.cancelled ≡ false
      → on_cancel cb s ≡ record s { callbacks = s.callbacks ++ cb ∷ [] }
  unfolding on_cancel
  on_cancel_clear cb clear = ground (arith, clear)

  exchange_set : s.cancelled ≡ true → exchange s ≡ s
  unfolding exchange
  exchange_set set = ground (arith, set)

  exchange_clear :
      s.cancelled ≡ false
      → exchange s ≡ record s { cancelled = true; callbacks = []; cbs = s.callbacks }
  unfolding exchange
  exchange_clear clear = ground (arith, clear)

  on_cancel-IsOnce : (cb : ℕ) (cs : List ℕ) → IsOnce cs s → IsOnce (cs ++ cb ∷ []) (on_cancel cb s)
  on_cancel-IsOnce cb cs h = elim (Bool-cases s.cancelled) [
    | inl set ↦ subst (IsOnce (cs ++ cb ∷ [])) (sym (on_cancel_set cb set)) (record {
      balance = λ c.
          omega (arith, h.balance c, occurs-append c cs (cb ∷ []), occurs-append c s.ran (cb ∷ []));
      before_flag = λ clear. absurd (ground (arith, set, clear));
      behind_flag = h.behind_flag;
    })
    | inr clear ↦ subst (IsOnce (cs ++ cb ∷ [])) (sym (on_cancel_clear cb clear)) (record {
      balance = λ c.
          omega (
            arith,
            h.balance c,
            occurs-append c cs (cb ∷ []),
            occurs-append c s.callbacks (cb ∷ []),
          );
      before_flag = λ again. (
        ap (λ xs. xs ++ cb ∷ []) (h.before_flag clear).0,
        (h.before_flag clear).1,
        (h.before_flag clear).2,
      );
      behind_flag = λ set. absurd (ground (arith, clear, set));
    })
  ]

  exchange-IsOnce : (cs : List ℕ) → IsOnce cs s → IsOnce cs (exchange s)
  exchange-IsOnce cs h = elim (Bool-cases s.cancelled) [
    | inl set ↦ subst (IsOnce cs) (sym (exchange_set set)) h
    | inr clear ↦
        let (pending, none_taken, none_ran) = h.before_flag clear in
        subst (IsOnce cs) (sym (exchange_clear clear)) (record {
          balance = λ c. omega (arith, h.balance c, ap (occurs c) none_taken);
          before_flag = λ still. absurd (ground (arith, still));
          behind_flag = λ set. refl;
        })
  ]

-- The first callback that was taken runs.
run_first-IsOnce :
    (taken : List ℕ) (s : State) (cs : List ℕ)
    → s.cbs ≡ taken
    → IsOnce cs s
    → IsOnce cs (run_first taken s)
run_first-IsOnce [] s cs e h = h
run_first-IsOnce (cb ∷ cbs) s cs e h = record {
  balance = λ c. ground (arith, h.balance c, ap (occurs c) e, occurs-append c s.ran (cb ∷ []));
  before_flag = λ clear. absurd (ground (arith, e, (h.before_flag clear).1));
  behind_flag = h.behind_flag;
}

-- However registrations and calls of cancel of several threads come between each other, each
-- callback is pending, taken or run, and that as often as it was registered; before the flag is set
-- none has run, and behind it none is pending, so that each has run exactly as often as it was
-- registered when none is taken any more.
pub Reach-IsOnce : {cs : List ℕ} {s : State} → Reach cs s → IsOnce cs s
unfolding run_next
Reach-IsOnce Reach.start = record {
  balance = λ c. omega arith;
  before_flag = λ clear. (refl, refl, refl);
  behind_flag = λ set. absurd (ground (arith, set));
}
Reach-IsOnce (Reach.registered cb {cs} {s} r) = on_cancel-IsOnce s cb cs (Reach-IsOnce r)
Reach-IsOnce (Reach.exchanged {cs} {s} r) = exchange-IsOnce s cs (Reach-IsOnce r)
Reach-IsOnce (Reach.ran_next {cs} {s} r) = run_first-IsOnce s.cbs s cs refl (Reach-IsOnce r)

run_all-ran :
    (cbs : List ℕ) (s : State)
    → s.cbs ≡ cbs
    → run_all cbs s ≡ record s { cbs = []; ran = s.ran ++ cbs }
unfolding run_all
run_all-ran [] s e = ap₂ (λ cbs ran. record s { cbs = cbs; ran = ran }) e (sym (append-nil s.ran))
run_all-ran (cb ∷ cbs) s e =
    run_all-ran cbs (record s { cbs = cbs; ran = s.ran ++ cb ∷ [] }) refl
    ∙ ap (λ ran. record s { cbs = []; ran = ran }) (append_assoc s.ran (cb ∷ []) cbs)

cancel_taken : (s : State) → s.cancelled ≡ false → cancel s ≡ run_all s.callbacks (exchange s)
unfolding cancel
cancel_taken s clear = ground (arith, clear)

cancel_clear :
    (s : State)
    → s.cancelled ≡ false
    → cancel s
      ≡ run_all s.callbacks (record s { cancelled = true; callbacks = []; cbs = s.callbacks })
cancel_clear s clear = cancel_taken s clear ∙ ap (run_all s.callbacks) (exchange_clear s clear)

cancel_set : (s : State) → s.cancelled ≡ true → cancel s ≡ s
unfolding cancel
cancel_set s set = ground (arith, set)

-- The first call of cancel that nothing comes between runs all callbacks in the order in which they
-- were registered, and a second call changes nothing.
pub cancel-ran :
    (cs : List ℕ) (s : State)
    → Reach cs s
    → s.cancelled ≡ false
    → (cancel s ≡ record { cancelled = true; callbacks = []; cbs = []; ran = cs })
      × (cancel (cancel s) ≡ cancel s)
cancel-ran cs s r clear =
    let (pending, none_taken, none_ran) = (Reach-IsOnce r).before_flag clear in
    let once : cancel s ≡ record { cancelled = true; callbacks = []; cbs = []; ran = cs } =
      cancel_clear s clear
      ∙ (run_all-ran s.callbacks (record s { cancelled = true; callbacks = []; cbs = s.callbacks })
            refl
          ∙ ap₂ (λ ran cbs. record { cancelled = true; callbacks = []; cbs = []; ran = ran ++ cbs })
              none_ran pending) in
    (once, cancel_set (cancel s) (ap (λ t. t.cancelled) once))
