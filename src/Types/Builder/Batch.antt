-- ===== src/Types/Builder/Batch.antt =====
-- TensorBatchingKey of pkg/types/task_contract.go on the requests of ForTensorInput.
use lumen_sdk.Base.{◌≡◌}
use lumen_sdk.Base.Text.{Text}
use lumen_sdk.Types.Names
use lumen_sdk.Types.Builder.{Builder}

-- A method that leaves the task alone.
record KeepsTask (f : Builder → Builder) : Type 0 where
  keeps : (b : Builder) → (f b).task ≡ b.task
