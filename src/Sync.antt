-- ===== src/Sync.antt =====
-- How a handler's outcome becomes the answer to the work queue (internal/controller/values.go,
-- stats.go, and the `switch` that ends each `Reconcile`).
use kube_combo.Prelude.{ℕ, ◌+◌, String, ◌≡◌, ◌↔◌, ◌⊎◌, Option, none, some, arith, bool_eq, nat_eq}
use kube_combo.Prelude.{string_eq, option_eq, list_eq}

pub data SyncState : Type 0 where
  success error reprocess_all error_no_retry : SyncState

-- The Prometheus counters that the reconcilers share.
pub record Stats : Type 0 where
  pub updates : ℕ
  pub update_errors : ℕ

-- `ctrl.Result` and the error of a `Reconcile`; `requeue_after` counts seconds.
pub record Answer : Type 0 where
  pub requeue_after : ℕ
  pub error : Option String

abbrev pub err_retry : String
err_retry = "event handling failed, retrying"

-- `updates.Inc()` before the handler runs, and the `switch` after it. `delay` is the
-- `RequeueAfter` of the retry branch.
unfoldable pub conclude : ℕ → SyncState → Stats → Answer × Stats
conclude delay SyncState.error s = (
  record { requeue_after = delay; error = some err_retry },
  record { updates = s.updates + 1; update_errors = s.update_errors + 1 },
)
conclude delay SyncState.error_no_retry s = (
  record { requeue_after = 0; error = none },
  record { updates = s.updates + 1; update_errors = s.update_errors + 1 },
)
conclude delay SyncState.success s =
    (record { requeue_after = 0; error = none }, record s { updates = s.updates + 1 })
conclude delay SyncState.reprocess_all s =
    (record { requeue_after = 0; error = none }, record s { updates = s.updates + 1 })

-- A failed event is counted, whatever its kind, and the key comes back to the queue exactly if it
-- is worth another try; every event is counted as an update.
pub conclude_lem :
    (delay : ℕ) (state : SyncState) (s : Stats)
    → (((conclude delay state s).0.error ≡ some err_retry) ↔ (state ≡ SyncState.error))
      × (((conclude delay state s).1.update_errors ≡ s.update_errors + 1)
          ↔ ((state ≡ SyncState.error) ⊎ (state ≡ SyncState.error_no_retry)))
      × ((conclude delay state s).1.updates ≡ s.updates + 1)
unfolding conclude
conclude_lem delay SyncState.error s = ground arith
conclude_lem delay SyncState.error_no_retry s = ground arith
conclude_lem delay SyncState.success s = ground arith
conclude_lem delay SyncState.reprocess_all s = ground arith
