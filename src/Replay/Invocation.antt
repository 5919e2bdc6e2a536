-- ===== src/Replay/Invocation.antt =====
-- replay/actions.py: the built request of one event, and the answer of a reconciliation.
use bzr_live.Common.{ℕ, String, List, Option}
use bzr_live.Value.{Value, Fields}
use bzr_live.Journal.Record.{InvocationMetadata, NextAction}

-- `target_id` and `values` are set together, for the REST boundary.
pub record Invocation : Type 0 where
  pub metadata : InvocationMetadata
  pub args : List String
  pub positionals : List String
  pub rest_target : Option (ℕ × Fields)

pub record Reconciliation : Type 0 where
  pub next_action : NextAction
  pub output : Value
  pub resolved_ids : List (String × ℕ)
