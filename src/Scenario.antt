-- ===== src/Scenario.antt =====
-- scenario/model.py: the validated scenario. Its `data`, `payload` and `expected_postcondition` are
-- mappings of dynamic values; the content of an asset is a list of bytes.
use bzr_live.Common.{ℕ, String, List, Option}
use bzr_live.Value.{Reference, Fields}
use bzr_live.Journal.Record.{RecoveryClass}

pub record Asset : Type 0 where
  pub name : String
  pub path : String
  pub sha256 : String
  pub content : List ℕ

pub record PlannedResource : Type 0 where
  pub kind : String
  pub name : String
  pub fields : Fields
  pub dependencies : List Reference

pub record PlannedEvent : Type 0 where
  pub name : String
  pub actor : Reference
  pub action : String
  pub action_class : RecoveryClass
  pub payload : Fields
  pub dependencies : List Reference
  pub reconciliation_marker : String
  pub expected_postcondition : Fields
  pub creates : Option Reference

pub record ValidatedScenario : Type 0 where
  pub name : String
  pub description : String
  pub format_version : ℕ
  pub resources : List PlannedResource
  pub resource_plan : List PlannedResource
  pub events : List PlannedEvent
  pub assets : List Asset
  pub digest : String
