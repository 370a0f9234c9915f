-- ===== src/Batch.antt =====
-- src/core/batch.cpp and include/ai/core/batch.hpp: submit a batch, poll until it is done, fetch the
-- results. The processor's calls are functions over the state `W` of the world; an exception is
-- known by its `what()`. Requests and results are passed on unread.
pub mod Polls
mod Tests
use ai_sdk_cpp.Prelude.{
  ℕ, zero, suc, ◌+◌, Bool, true, false, List, [], ◌∷◌, Option, none, some, Bytes, codes, ltb, leb,
  if◌then◌else◌,
}
use ai_sdk_cpp.Tools.{Attempt, ok, threw, Task}

pub data BatchStatus : Type 0 where
  validating in_progress completed failed expired cancelling cancelled : BatchStatus

unfoldable pub is_terminal : BatchStatus → Bool
is_terminal BatchStatus.completed = true
is_terminal BatchStatus.failed = true
is_terminal BatchStatus.expired = true
is_terminal BatchStatus.cancelled = true
is_terminal _ = false

unfoldable pub is_completed : BatchStatus → Bool
is_completed BatchStatus.completed = true
is_completed _ = false

pub record BatchInfo : Type 0 where
  pub id : Bytes
  pub status : BatchStatus
  pub total_requests : ℕ
  pub completed_requests : ℕ
  pub failed_requests : ℕ
  pub created_at : Option Bytes
  pub completed_at : Option Bytes

-- The operations of `BatchProcessor` that the loop calls.
pub record BatchProcessor (W Request Item : Type 0) : Type 0 where
  pub submit : List Request → Task W Bytes
  pub status : Bytes → Task W BatchInfo
  pub results : Bytes → Task W (List Item)

-- A missing processor is `none`; `wait` is the timer, and does nothing for an interval of zero.
pub record BatchRunOptions (W Request Item : Type 0) : Type 0 where
  pub processor : Option (BatchProcessor W Request Item)
  pub requests : List Request
  pub max_polls : Option ℕ
  pub wait : W → W
  pub is_cancelled : W → Bool

pub record BatchRunResult (Item : Type 0) : Type 0 where
  pub batch_id : Bytes
  pub results : List Item
  pub final_status : BatchInfo

abbrev pub exceeded : Bytes
exceeded = codes "run_batch: exceeded max_polls waiting for completion"

abbrev pub no_processor : Bytes
no_processor = codes "run_batch: processor must not be null"

-- `options.max_polls && ++polls >= *options.max_polls`, with the polls made before this one.
abbrev pub at_limit : Option ℕ → ℕ → Bool
at_limit none polls = false
at_limit (some limit) polls = leb limit (suc polls)

module _ {W Request Item : Type 0} (o : BatchRunOptions W Request Item)
    (p : BatchProcessor W Request Item) (batch_id : Bytes) where
  -- Behind the answer to a poll: the end, the limit, or the wait and the next round.
  unfoldable pub polled :
      ℕ
      → (W → Option (Attempt BatchInfo × W))
      → Attempt BatchInfo × W
      → Option (Attempt BatchInfo × W)
  unfolding is_terminal
  polled polls next (threw e, w) = some (threw e, w)
  polled polls next (ok info, w) =
      if is_terminal info.status
      then some (ok info, w)
      else if at_limit o.max_polls polls
      then some (threw exceeded, w)
      else next (o.wait w)

  -- The loop, on fuel: `none` stands for a loop that is still polling when the fuel is used up.
  unfoldable pub poll_loop : ℕ → ℕ → W → Option (Attempt BatchInfo × W)
  unfolding polled
  poll_loop zero polls w = none
  poll_loop (suc fuel) polls w =
      if o.is_cancelled w
      then some (threw (codes "Operation cancelled"), w)
      else polled polls (poll_loop fuel (suc polls)) (p.status batch_id w)

  -- Behind the loop: the results are fetched if the batch was completed.
  unfoldable pub fetched : BatchInfo → Attempt (List Item) × W → Attempt (BatchRunResult Item) × W
  fetched info (threw e, w) = (threw e, w)
  fetched info (ok items, w) =
      (ok (record { batch_id = batch_id; results = items; final_status = info }), w)

  unfoldable pub finished : Attempt BatchInfo × W → Attempt (BatchRunResult Item) × W
  unfolding is_completed fetched
  finished (threw e, w) = (threw e, w)
  finished (ok info, w) =
      if is_completed info.status
      then fetched info (p.results batch_id w)
      else (ok (record { batch_id = batch_id; results = []; final_status = info }), w)

  abbrev pub after_polls :
      Option (Attempt BatchInfo × W) → Option (Attempt (BatchRunResult Item) × W)
  after_polls none = none
  after_polls (some end) = some (finished end)

module _ {W Request Item : Type 0} (o : BatchRunOptions W Request Item) where
  abbrev pub submitted :
      ℕ
      → BatchProcessor W Request Item
      → Attempt Bytes × W
      → Option (Attempt (BatchRunResult Item) × W)
  submitted fuel p (threw e, w) = some (threw e, w)
  submitted fuel p (ok batch_id, w) = after_polls o p batch_id (poll_loop o p batch_id fuel 0 w)

  -- `if (!options.processor)`.
  abbrev pub with_processor :
      ℕ → Option (BatchProcessor W Request Item) → W → Option (Attempt (BatchRunResult Item) × W)
  with_processor fuel none w = some (threw no_processor, w)
  with_processor fuel (some p) w = submitted fuel p (p.submit o.requests w)

  unfoldable pub run_batch : ℕ → W → Option (Attempt (BatchRunResult Item) × W)
  unfolding poll_loop finished
  run_batch fuel = with_processor fuel o.processor
