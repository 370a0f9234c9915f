-- ===== src/Permission/Gate.antt =====
-- What the gate lets through, and what a session of gated calls leaves in the list of tools that are
-- always allowed.
use ai_sdk_cpp.Prelude.{
  codes, ◌≡◌, ◌≢◌, refl, subst, ◌⊎◌, inl, inr, Bool, true, false, not, ◌&&◌, List, [], ◌∷◌, Option,
  none, some, Bytes, is_empty, mem_str, str_eq_iff, Bool-cases, if◌then◌else◌, arith,
}
use ai_sdk_cpp.Prompt.{Json}
use ai_sdk_cpp.Tools.{Attempt, ok, threw, ToolExecutionContext}
use ai_sdk_cpp.Permission.{
  PermissionDecision, Approval, PermissionPolicy, Approver, ExecuteFn, Gated, is_allow,
  rationale_for, denied, verdict_of, run_original, decided, after_approver, consult, gate,
}

-- The reason that is shown: the approver's, if it gave one.
abbrev shown : Bytes → Bytes → Bytes
shown given reason = if not (is_empty given) then given else reason

-- The answer of a refusal: an error object with the tool, and with the reason if there is one.
abbrev pub refusal : (J : Json) → Bytes → Bytes → J.Value
refusal J tool [] = J.object (
    J.set (J.set J.empty_object (codes "error") (J.string (codes "permission_denied")))
      (codes "tool") (J.string tool))
refusal J tool (c ∷ cs) = J.object (
    J.set
      (J.set (J.set J.empty_object (codes "error") (J.string (codes "permission_denied")))
        (codes "tool") (J.string tool))
      (codes "message") (J.string (c ∷ cs)))

pub denied-refusal : (J : Json) (tool reason : Bytes) → denied J tool reason ≡ refusal J tool reason
unfolding denied
denied-refusal J tool [] = refl
denied-refusal J tool (c ∷ cs) = refl

mem-grown :
    (b : Bool) (tool n : Bytes) (allowed : List Bytes)
    → mem_str n (if b then tool ∷ allowed else allowed) ≡ true
    → (mem_str n allowed ≡ true) ⊎ ((b ≡ true) × (tool ≡ n))
unfolding mem_str
mem-grown true tool n allowed h = ground (arith, str_eq_iff tool n)
mem-grown false tool n allowed h = inl h

mem-grows :
    (b : Bool) (tool n : Bytes) (allowed : List Bytes)
    → mem_str n allowed ≡ true
    → mem_str n (if b then tool ∷ allowed else allowed) ≡ true
unfolding mem_str
mem-grows true tool n allowed h = ground arith
mem-grows false tool n allowed h = h

both : (a b : Bool) → (a && b) ≡ true → (a ≡ true) × (b ≡ true)
both a b h = ground arith

module _ (J : Json) {W : Type 0} (policy : Option (PermissionPolicy J))
    (approver : Option (Approver J W)) where
  -- The tool's own answer, or its exception, and the world that it leaves.
  abbrev pub ran :
      ExecuteFn J W → J.Value → ToolExecutionContext J → List Bytes → W → Attempt J.Value × Gated W
  ran original input ctx allowed w = ((original input ctx w).0, (allowed, (original input ctx w).1))

  -- The approver was asked about the tool in the world `w` and gave the answer.
  pub record Answer (tool : Bytes) (input : J.Value) (w : W) (a : Approval) (w' : W) : Type 0 where
    pub asks : (verdict_of J policy tool input).decision ≡ PermissionDecision.ask
    pub asked :
        (f : Approver J W) × (approver ≡ some f)
        × (f tool input (rationale_for J tool input) w ≡ (ok a, w'))

  -- The names that are always allowed behind an answer: the tool's is a new one exactly if the answer
  -- allows the call, and for always.
  pub data Remembers (tool : Bytes) (allowed : List Bytes) (a : Approval)
      : List Bytes → Type 0 where
    always :
        a.decision ≡ PermissionDecision.allow
        → a.always_allow ≡ true
        → Remembers tool allowed a (tool ∷ allowed)
    this_time :
        (a.decision ≢ PermissionDecision.allow) ⊎ (a.always_allow ≡ false)
        → Remembers tool allowed a allowed

  kept_names :
      (tool : Bytes) (allowed : List Bytes) (a : Approval)
      → Remembers tool allowed a
          (if is_allow a.decision && a.always_allow then tool ∷ allowed else allowed)
  unfolding is_allow
  kept_names tool allowed a = by_answer a.decision a.always_allow refl refl
    where
      by_answer :
          (d : PermissionDecision) (b : Bool)
          → a.decision ≡ d
          → a.always_allow ≡ b
          → Remembers tool allowed a (if is_allow d && b then tool ∷ allowed else allowed)
      by_answer PermissionDecision.allow true e f = always e f
      by_answer PermissionDecision.allow false e f = this_time (inr f)
      by_answer PermissionDecision.deny b e f = this_time (inl (λ g. cc (e, g)))
      by_answer PermissionDecision.ask b e f = this_time (inl (λ g. cc (e, g)))

  -- How a gated call can end: the answer, the tools that are always allowed, and the world.
  pub data Ended (tool : Bytes) (original : ExecuteFn J W) (input : J.Value)
      (ctx : ToolExecutionContext J) (allowed : List Bytes) (w : W)
      : Attempt J.Value × Gated W → Type 0 where
    known :
        mem_str tool allowed ≡ true
        → Ended tool original input ctx allowed w (ran original input ctx allowed w)
    by_policy :
        mem_str tool allowed ≡ false
        → (verdict_of J policy tool input).decision ≡ PermissionDecision.allow
        → Ended tool original input ctx allowed w (ran original input ctx allowed w)
    refused :
        mem_str tool allowed ≡ false
        → (verdict_of J policy tool input).decision ≡ PermissionDecision.deny
        → Ended tool original input ctx allowed w
            (ok (refusal J tool (verdict_of J policy tool input).reason), (allowed, w))
    unattended :
        mem_str tool allowed ≡ false
        → (verdict_of J policy tool input).decision ≡ PermissionDecision.ask
        → approver ≡ none
        → Ended tool original input ctx allowed w (
          ok (refusal J tool (codes "no approver is configured to authorize this tool call")),
          (allowed, w),
        )
    failed :
        (e : Bytes) (w' : W) (f : Approver J W)
        → mem_str tool allowed ≡ false
        → (verdict_of J policy tool input).decision ≡ PermissionDecision.ask
        → approver ≡ some f
        → f tool input (rationale_for J tool input) w ≡ (threw e, w')
        → Ended tool original input ctx allowed w (threw e, (allowed, w'))
    declined :
        (a : Approval) (w' : W)
        → mem_str tool allowed ≡ false
        → Answer tool input w a w'
        → a.decision ≡ PermissionDecision.deny
        → Ended tool original input ctx allowed w (
          ok (refusal J tool (shown a.reason (verdict_of J policy tool input).reason)),
          (allowed, w'),
        )
    approved :
        (a : Approval) (w' : W) (allowed' : List Bytes)
        → mem_str tool allowed ≡ false
        → Answer tool input w a w'
        → a.decision ≢ PermissionDecision.deny
        → Remembers tool allowed a allowed'
        → Ended tool original input ctx allowed w (ran original input ctx allowed' w')

  module _ (tool : Bytes) (original : ExecuteFn J W) (input : J.Value)
      (ctx : ToolExecutionContext J) (allowed : List Bytes) (w : W)
      (unknown : mem_str tool allowed ≡ false) where
    decided-Ended :
        (a : Approval) (w' : W)
        → Answer tool input w a w'
        → (d : PermissionDecision) → a.decision ≡ d
        → Ended tool original input ctx allowed w (
            decided d
              (shown a.reason (verdict_of J policy tool input).reason)
              tool
              original
              input
              ctx
              ((if is_allow a.decision && a.always_allow then tool ∷ allowed else allowed), w'))
    unfolding decided is_allow run_original
    decided-Ended a w' h PermissionDecision.allow e =
        approved a w' _ unknown h (λ x. cc) (kept_names tool allowed a)
    decided-Ended a w' h PermissionDecision.ask e =
        approved a w' _ unknown h (λ x. cc) (kept_names tool allowed a)
    decided-Ended a w' h PermissionDecision.deny e =
        rw (e, is_allow, denied-refusal J tool) (declined a w' unknown h e)

    after_approver-Ended :
        (asks : (verdict_of J policy tool input).decision ≡ PermissionDecision.ask)
        (f : Approver J W) (e : approver ≡ some f) (x : Attempt Approval × W)
        → f tool input (rationale_for J tool input) w ≡ x
        → Ended tool original input ctx allowed w (
            after_approver
              (verdict_of J policy tool input).reason
              tool
              original
              input
              ctx
              allowed
              x)
    unfolding after_approver
    after_approver-Ended asks f e (threw what, w') g = failed what w' f unknown asks e g
    after_approver-Ended asks f e (ok a, w') g =
        decided-Ended a w' (record { asks = asks; asked = (f, e, g) }) a.decision refl

    consult-Ended :
        (d : PermissionDecision)
        → (verdict_of J policy tool input).decision ≡ d
        → (o : Option (Approver J W)) → approver ≡ o
        → Ended tool original input ctx allowed w (
            consult d
              (verdict_of J policy tool input).reason
              o
              tool
              original
              input
              ctx
              (allowed, w))
    unfolding consult decided run_original
    consult-Ended PermissionDecision.allow e o q = by_policy unknown e
    consult-Ended PermissionDecision.deny e o q = rw (denied-refusal J tool) (refused unknown e)
    consult-Ended PermissionDecision.ask e none q =
        rw (denied-refusal J tool) (unattended unknown e q)
    consult-Ended PermissionDecision.ask e (some f) q = after_approver-Ended e f q _ refl

  -- Every call of a gated tool ends in one of seven ways, for any policy, approver and tool. The tool
  -- runs if its name is always allowed, if the policy allows the call, or if the policy asks and the
  -- approver does not deny. It does not run if the policy denies, if there is nobody to ask, if the
  -- approver denies or throws: then the answer is the error object of the refusal, with the
  -- approver's reason if it gave one and else the policy's, or the approver's exception. The name is
  -- remembered exactly when the approver allows the call for always.
  pub gate-Ended :
      (tool : Bytes) (original : ExecuteFn J W) (input : J.Value) (ctx : ToolExecutionContext J)
      (allowed : List Bytes) (w : W)
      → Ended tool original input ctx allowed w
          (gate policy approver tool original input ctx (allowed, w))
  unfolding gate run_original
  gate-Ended tool original input ctx allowed w = elim (Bool-cases (mem_str tool allowed)) [
    | inl k ↦ rw (k, gate) (known k)
    | inr u ↦ rw (u, gate) (consult-Ended tool original input ctx allowed w u _ refl approver refl)
  ]

  -- A call of a wrapped tool, as the loop makes it.
  pub record GatedCall : Type 0 where
    pub tool : Bytes
    pub original : ExecuteFn J W
    pub input : J.Value
    pub ctx : ToolExecutionContext J

  -- The state that a session of calls leaves; what the calls answer is not looked at.
  unfoldable pub run_session : List GatedCall → Gated W → Gated W
  run_session [] s = s
  run_session (c ∷ cs) s = run_session cs (gate policy approver c.tool c.original c.input c.ctx s).1

  -- At some point the policy asked about the tool, and the approver allowed it for always.
  abbrev pub Granted : Bytes → Type 0
  Granted tool =
      (input : J.Value) × (a : Approval) × (w : W) × (w' : W) × Answer tool input w a w'
      × (is_allow a.decision ≡ true)
      × (a.always_allow ≡ true)

  Ended-remembers :
      {tool : Bytes} {original : ExecuteFn J W} {input : J.Value} {ctx : ToolExecutionContext J}
      {allowed : List Bytes} {w : W} {r : Attempt J.Value × Gated W}
      → Ended tool original input ctx allowed w r
      → (n : Bytes) → mem_str n r.1.0 ≡ true
      → (mem_str n allowed ≡ true) ⊎ Granted n
  unfolding is_allow
  Ended-remembers (known k) n h = inl h
  Ended-remembers (by_policy u d) n h = inl h
  Ended-remembers (refused u d) n h = inl h
  Ended-remembers (unattended u d q) n h = inl h
  Ended-remembers (failed e w' f u d q g) n h = inl h
  Ended-remembers (declined a w' u ans d) n h = inl h
  Ended-remembers {tool} {input = i} {allowed} {w} (approved a w' al u ans d (always allows stays))
        n h =
      elim (mem-grown true tool n allowed h) [
        | inl old ↦ inl old
        | inr (again, same) ↦
            inr (i, a, w, w', subst (λ t. Answer t i w a w') same ans, rw allows refl, stays)
      ]
  Ended-remembers (approved a w' al u ans d (this_time other)) n h = inl h

  Ended-keeps :
      {tool : Bytes} {original : ExecuteFn J W} {input : J.Value} {ctx : ToolExecutionContext J}
      {allowed : List Bytes} {w : W} {r : Attempt J.Value × Gated W}
      → Ended tool original input ctx allowed w r
      → (n : Bytes) → mem_str n allowed ≡ true
      → mem_str n r.1.0 ≡ true
  Ended-keeps (known k) n h = h
  Ended-keeps (by_policy u d) n h = h
  Ended-keeps (refused u d) n h = h
  Ended-keeps (unattended u d q) n h = h
  Ended-keeps (failed e w' f u d q g) n h = h
  Ended-keeps (declined a w' u ans d) n h = h
  Ended-keeps {tool} {allowed} (approved a w' al u ans d (always allows stays)) n h =
      mem-grows true tool n allowed h
  Ended-keeps (approved a w' al u ans d (this_time other)) n h = h

  -- After any session of calls, a tool is always allowed only if it was so before or if during some
  -- call the policy asked about it and the approver allowed it for always.
  pub run_session-Granted :
      (cs : List GatedCall) (allowed : List Bytes) (w : W) (n : Bytes)
      → mem_str n (run_session cs (allowed, w)).0 ≡ true
      → (mem_str n allowed ≡ true) ⊎ Granted n
  unfolding run_session
  run_session-Granted [] allowed w n h = inl h
  run_session-Granted (c ∷ cs) allowed w n h = elim (run_session-Granted cs _ _ n h) [
    | inl before ↦ Ended-remembers (gate-Ended c.tool c.original c.input c.ctx allowed w) n before
    | inr g ↦ inr g
  ]

  run_session-keeps :
      (cs : List GatedCall) (allowed : List Bytes) (w : W) (n : Bytes)
      → mem_str n allowed ≡ true
      → mem_str n (run_session cs (allowed, w)).0 ≡ true
  unfolding run_session
  run_session-keeps [] allowed w n h = h
  run_session-keeps (c ∷ cs) allowed w n h =
      run_session-keeps cs _ _ n
        (Ended-keeps (gate-Ended c.tool c.original c.input c.ctx allowed w) n h)

  -- A tool that is always allowed stays so: after any session of calls it runs, and neither the
  -- policy nor the approver is asked.
  pub gate-run_session :
      (cs : List GatedCall) (allowed : List Bytes) (w : W) (tool : Bytes) (original : ExecuteFn J W)
      (input : J.Value) (ctx : ToolExecutionContext J)
      → mem_str tool allowed ≡ true
      → gate policy approver tool original input ctx (run_session cs (allowed, w))
        ≡ run_original original input ctx (run_session cs (allowed, w))
  unfolding gate
  gate-run_session cs allowed w tool original input ctx h =
      rw (run_session-keeps cs allowed w tool h, gate)
