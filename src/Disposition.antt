-- ===== src/Disposition.antt =====
-- app/disposition.py: a call's disposition, from trusted facts or from the signals of a local model.
-- Floating-point numbers are a parameter: a type with the operations that the code uses.
pub mod Rules
pub mod Turns
pub mod Classify
pub mod Kleene
pub mod Deciding
pub mod Grouping
pub mod Packed
pub mod Covering
pub mod Evidence
pub mod Windows
pub mod Grounded
mod Examples
pub use real_time_ai_call_audit.Prelude.{Dict}
unfoldable pub use real_time_ai_call_audit.Prelude.{lookup}
use real_time_ai_call_audit.Prelude.{
  ℕ, String, Bool, not, Option, none, some, List, [], ◌∷◌, if◌then◌else◌, ◌=?◌,
}

-- `le` is <= on the finite numbers; `of_ratio a b` is the literal a / b.
pub record Floats (F : Type 0) : Type 0 where
  pub le : F → F → Bool
  pub of_ratio : ℕ → ℕ → F
  pub add : F → F → F
  pub sub : F → F → F
  pub div : F → ℕ → F

-- The three models; their validators hold: see `Classify`.
pub data Signal (F : Type 0) : Type 0 where
  noul : F → F → List String → Signal F
  choice : String → List (String × F) → F → List String → Signal F
  score : F → F → List String → Signal F

pub data SignalType : Type 0 where
  noul_type choice_type score_type : SignalType

-- A predicate of a compiled configuration: its operator with its value.
pub data Test (F : Type 0) : Type 0 where
  exists : Test F
  noul_gte noul_lte choice_confidence_gte score_gte score_lte : F → Test F
  choice_eq : String → Test F
  choice_in : List String → Test F

mutual
  pub data Node (F : Type 0) : Type 0 where
    all_of any_of : Nodes F → Node F
    not_of : Node F → Node F
    test_of : String → Test F → Node F

  pub data Nodes (F : Type 0) : Type 0 where
    no_nodes : Nodes F
    node : Node F → Nodes F → Nodes F

pub record Rule (F : Type 0) : Type 0 where
  pub id : String
  pub when : Node F
  pub emit : String

pub data FactTest : Type 0 where
  fact_eq fact_ne : String → FactTest
  fact_in fact_not_in : List String → FactTest
  fact_exists : FactTest

pub record FrontGate : Type 0 where
  pub id : String
  pub enabled : Bool
  pub source : String
  pub condition : FactTest
  pub emit : String

-- `criteria` are the options of a choice.
pub record Question : Type 0 where
  pub type_of : SignalType
  pub criteria : List String

-- CompiledDispositionConfig; the taxonomy has the parent of each code.
pub record Config (F : Type 0) : Type 0 where
  pub config_id : String
  pub version : ℕ
  pub content_hash : String
  pub schema_version : String
  pub questions : Dict Question
  pub taxonomy : Dict (Option String)
  pub front_gates : List FrontGate
  pub rules : List (Rule F)
  pub default_emit : String
  pub commit_threshold : F
  pub review_threshold : F
  pub per_code_threshold : Dict F
  pub context_limit_chars : ℕ
  pub window_chars : ℕ
  pub overlap_turns : ℕ
  pub max_chunks : ℕ

pub data Status : Type 0 where
  resolved needs_review : Status

pub data Reason : Type 0 where
  missing_or_extra_signal signal_type_mismatch low_confidence uncertain_rule_evidence : Reason
  no_rule_matched incomplete_transcript uncertain_speaker_role empty_transcript_turn : Reason
  context_limit invalid_model_output conflicting_chunk_signals : Reason

pub data ProcessingPath : Type 0 where
  authoritative_front_gate single_pass turn_aware_map_aggregate abstain : ProcessingPath

-- The usage's numbers of characters and turns stand only in the result of a whole classification.
pub record Usage : Type 0 where
  pub chunks : ℕ
  pub input : Option (ℕ × ℕ)

-- DispositionResult; `requires_review` is in the status. The configuration's identity is its own.
pub record DispositionResult (F : Type 0) : Type 0 where
  pub status : Status
  pub code : Option String
  pub parent_code : Option String
  pub confidence : Option F
  pub review_reason : Option Reason
  pub matched_rule_id : Option String
  pub signals : Dict (Signal F)
  pub processing_path : ProcessingPath
  pub config_id : String
  pub config_version : ℕ
  pub config_hash : String
  pub schema_version : String
  pub model_artifact : String
  pub adapter_version : String
  pub usage : Usage

abbrev pub confidence_of : {F : Type 0} → Signal F → F
confidence_of (noul p c e) = c
confidence_of (choice v ps c e) = c
confidence_of (score v c e) = c

abbrev pub evidence_of : {F : Type 0} → Signal F → List String
evidence_of (noul p c e) = e
evidence_of (choice v ps c e) = e
evidence_of (score v c e) = e

abbrev pub type_of_signal : {F : Type 0} → Signal F → SignalType
type_of_signal (noul p c e) = noul_type
type_of_signal (choice v ps c e) = choice_type
type_of_signal (score v c e) = score_type
