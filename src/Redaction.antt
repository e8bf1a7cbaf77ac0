-- ===== src/Redaction.antt =====
-- runtime/secret_redaction.py: the walk over an artifact and the fields that it leaves alone. The
-- regular expressions of `_detect_and_redact_secrets` are the parameter `detect`, from a text and
-- the name of its field to the text that is persisted.
pub mod Structure
use deterministic_audit_runt.Prelude.{
  String, Bool, true, false, List, [], ◌∷◌, ◌||◌, ◌==◌, elem, if◌then◌else◌,
}
use deterministic_audit_runt.Json.{
  Json, null, bool, int, float, str, arr, obj, Items, nil, cons, Fields, end, field,
}

-- SKIP_REDACTION_FIELDS
abbrev pub skip_redaction_fields : List String
skip_redaction_fields =
    "id" ∷ "audit_id" ∷ "task_id" ∷ "event_id" ∷ "observation_id" ∷ "issue_id" ∷ "question_id"
    ∷ "run_id" ∷ "slice_id" ∷ "entry_id" ∷ "entity_id" ∷ "projection_id" ∷ "report_id"
    ∷ "schema_version" ∷ "snapshot_ref" ∷ "file_hash" ∷ "input_digest" ∷ "output_digest"
    ∷ "prompt_digest" ∷ "raw_output_digest" ∷ "slice_fingerprint" ∷ "file_path" ∷ "target_repo_path"
    ∷ "repo_path" ∷ "ledger_path" ∷ "occurred_at" ∷ "created_at" ∷ "updated_at" ∷ "decided_at"
    ∷ "token" ∷ []

-- TEXT_CONTENT_FIELDS
abbrev text_content_fields : List String
text_content_fields =
    "excerpt" ∷ "statement" ∷ "summary" ∷ "title" ∷ "prompt" ∷ "context" ∷ "answer" ∷ "rationale"
    ∷ "message" ∷ "error_message" ∷ "description" ∷ "content" ∷ "text" ∷ "code" ∷ []

unfoldable pub should_redact_field : String → Bool
unfolding elem
should_redact_field name =
    if elem name skip_redaction_fields then false else elem name text_content_fields

module _ (detect : String → String → String) where
  -- `not s` is the test for the empty text.
  unfoldable pub redact_string : String → String → String
  unfolding elem
  redact_string s name =
      if s == "" then s else if elem name skip_redaction_fields then s else detect s name

  unfoldable mutual
    unfolding redact_string elem

    pub redact_value : Json → String → Json
    redact_value (str s) name =
        if elem name skip_redaction_fields then str s else str (redact_string s name)
    redact_value (obj fs) name = obj (redact_fields fs)
    redact_value (arr xs) name = arr (redact_items xs name)
    redact_value v name = v

    pub redact_items : Items → String → Items
    redact_items nil name = nil
    redact_items (cons v vs) name = cons (redact_value v name) (redact_items vs name)

    pub redact_fields : Fields → Fields
    redact_fields end = end
    redact_fields (field k v fs) = field k (redact_value v k) (redact_fields fs)

  -- Also `redact_canonical_state`, `redact_report`, `redact_slice` and `redact_trace_entry`, whose
  -- bodies are the same.
  unfoldable pub redact_event : Json → Json
  unfolding redact_value
  redact_event (obj fs) = redact_value (obj fs) ""
  redact_event event = event
