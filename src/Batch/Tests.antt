-- ===== src/Batch/Tests.antt =====
-- Runs of a batch that expires at its third poll; the world counts the polls.
use ai_sdk_cpp.Prelude.{
  ℕ, suc, ◌≡◌, refl, false, [], ◌∷◌, none, some, Bytes, codes, leb, if◌then◌else◌,
}
use ai_sdk_cpp.Tools.{Attempt, ok, threw}
use ai_sdk_cpp.Batch.{
  BatchStatus, BatchInfo, BatchProcessor, BatchRunOptions, BatchRunResult, exceeded, run_batch,
  is_terminal, is_completed,
}
use ai_sdk_cpp.Batch.Polls.{Ran, run_batch-Ran}

abbrev info : BatchStatus → BatchInfo
info s = record {
  id = codes "b";
  status = s;
  total_requests = 1;
  completed_requests = 0;
  failed_requests = 0;
  created_at = none;
  completed_at = none;
}

abbrev processor : BatchProcessor ℕ Bytes Bytes
processor = record {
  submit = λ requests n. (ok (codes "b"), n);
  status =
      λ id n. (ok (info (if leb 2 n then BatchStatus.expired else BatchStatus.validating)), suc n);
  results = λ id n. (ok (codes "item" ∷ []), n);
}

abbrev options : ℕ → BatchRunOptions ℕ Bytes Bytes
options limit = record {
  processor = some processor;
  requests = [];
  max_polls = some limit;
  wait = λ n. n;
  is_cancelled = λ n. false;
}

-- An expired batch is no exception.
expired_batch :
    run_batch (options 5) 6 0
    ≡ some (
      ok (record { batch_id = codes "b"; results = []; final_status = info BatchStatus.expired }),
      3,
    )
unfolding run_batch is_terminal is_completed
expired_batch = refl

too_few_polls : run_batch (options 2) 3 0 ≡ some (threw exceeded, 2)
unfolding run_batch is_terminal
too_few_polls = refl

run_batch-Ran_example :
    (r : Attempt (BatchRunResult Bytes) × ℕ) × (run_batch (options 5) 6 0 ≡ some r)
    × Ran (options 5) processor 0 r
run_batch-Ran_example = run_batch-Ran (options 5) processor 5 refl refl 0
