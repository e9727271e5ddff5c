-- ===== src/Samples.antt =====
-- packages/shared/src/schemas.ts: what an agent reports.
use tyz.Prelude.{ℕ, Option, Text}

-- Counters are cumulative; a row with a client is a breakdown of the same traffic.
pub record GostStatsSample : Type 0 where
  pub service : Text
  pub client : Option Text
  pub total_conns : ℕ
  pub current_conns : ℕ
  pub input_bytes : ℕ
  pub output_bytes : ℕ
  pub total_errs : ℕ

pub record ServiceHealthSample : Type 0 where
  pub service : Text
  pub state : Text
  pub error : Option Text
