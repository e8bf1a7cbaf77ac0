-- ===== src/RunLedger/Context.antt =====
-- WorkerExecutionTraceContext of runtime/run_ledger.py and the reading of loose values.
use deterministic_audit_runt.Prelude.{
  String, Bool, true, false, not, ◌&&◌, ◌||◌, Option, none, some, List, [], ◌∷◌, ◌==◌, elem,
  if◌then◌else◌,
}
use deterministic_audit_runt.Prelude.Int.{pos, ltb_ℤ}
use deterministic_audit_runt.Errors.{Result, ok, err, ◌>>=◌, ledger_error, type_error}
use deterministic_audit_runt.Json.{
  Json, null, bool, int, str, arr, obj, Items, nil, cons, Fields, field, end, items, is_obj, item,
  get,
}
use deterministic_audit_runt.Tasks.Text.{no_text, strip}
use deterministic_audit_runt.Tasks.Types.{option_json}
use deterministic_audit_runt.RunLedger.File.{text_of}
use deterministic_audit_runt.RunLedger.Start.{ledger_check}

pub record WorkerExecutionTraceContext : Type 0 where
  pub run_id : String
  pub audit_id : String
  pub task_id : String
  pub slice_id : String
  pub worker_role : String
  pub adapter_invocation : Json
  pub input_digest : Option String
  pub output_digest : Option String
  pub slice_fingerprint : Option String
  pub snapshot_ref : Option String
  pub prompt_digest : Option String
  pub raw_output_digest : Option String

-- WorkerExecutionTraceContext.__post_init__
unfoldable pub is_valid_context : WorkerExecutionTraceContext → Bool
unfolding strip
is_valid_context c =
    not (no_text (strip c.run_id))
    && not (no_text (strip c.audit_id))
    && not (no_text (strip c.task_id))
    && not (no_text (strip c.slice_id))
    && not (no_text (strip c.worker_role))
    && is_obj c.adapter_invocation

-- `WorkerExecutionTraceContext(...)`
unfoldable pub new_context : WorkerExecutionTraceContext → Result WorkerExecutionTraceContext
unfolding is_valid_context ledger_check
new_context c = do _ ← ledger_check (is_valid_context c); ok c

-- WorkerExecutionTraceContext.to_dict, in front of more fields.
unfoldable pub context_fields : WorkerExecutionTraceContext → Fields → Fields
context_fields c rest = field "run_id" (str c.run_id) (
    field "audit_id" (str c.audit_id) (
      field "task_id" (str c.task_id) (
        field "slice_id" (str c.slice_id) (
          field "worker_role" (str c.worker_role) (
            field "adapter_invocation" c.adapter_invocation (
              field "input_digest" (option_json c.input_digest) (
                field "output_digest" (option_json c.output_digest) (
                  field "slice_fingerprint" (option_json c.slice_fingerprint) (
                    field "snapshot_ref" (option_json c.snapshot_ref) (
                      field "prompt_digest" (option_json c.prompt_digest)
                        (field "raw_output_digest" (option_json c.raw_output_digest) rest)))))))))))

abbrev pub stripped : String → Option String
stripped s = let t = strip s in if no_text t then none else some t

-- `_optional_string`
unfoldable pub optional_string : Json → Result (Option String)
unfolding strip
optional_string null = ok none
optional_string (str s) = ok (stripped s)
optional_string _ = err ledger_error

-- `for x in value`: the items of a list, the keys of a dict, the characters of a text.
unfoldable pub char_items : String → List Json
char_items String.[] = []
char_items (String.◌∷◌ c s) = str (String.◌∷◌ c String.[]) ∷ char_items s

unfoldable pub key_items : Fields → List Json
key_items end = []
key_items (field k v fs) = str k ∷ key_items fs

unfoldable pub iterate : Json → Result (List Json)
unfolding char_items key_items
iterate (arr vs) = ok (items vs)
iterate (obj fs) = ok (key_items fs)
iterate (str s) = ok (char_items s)
iterate _ = err type_error

-- `{code for code in codes if isinstance(code, str) and code}`, sorted.
unfoldable pub issue_texts : List Json → List String
unfolding elem
issue_texts [] = []
issue_texts (v ∷ vs) =
    let rest = issue_texts vs in
    elim (text_of (some v)) [
      | none ↦ rest
      | some s ↦ if no_text s || elem s rest then rest else s ∷ rest
    ]

unfoldable pub text_items : List String → Items
text_items [] = nil
text_items (s ∷ ss) = cons (str s) (text_items ss)

abbrev pub rejection_fields : Json → Fields
rejection_fields (obj fs) = field "rejection" (obj fs) end
rejection_fields _ = end

-- `line_number is not None and (not isinstance(line_number, int) or line_number < 1)`
abbrev pub line_number_valid : Json → Bool
line_number_valid null = true
line_number_valid (int n) = ltb_ℤ (pos 0) n
line_number_valid (bool b) = b
line_number_valid _ = false

abbrev pub is_outcome : Option String → Bool
is_outcome none = false
is_outcome (some s) = s == "accepted" || s == "rejected"

abbrev pub given_text : Json → Result String
given_text (str s) = ok s
given_text v = err ledger_error

-- The fields of the keyword arguments, in their order.
unfoldable context_from_fields : Json → Result WorkerExecutionTraceContext
unfolding item get optional_string new_context
context_from_fields payload = do
  run_id ← item "run_id" payload
  audit_id ← item "audit_id" payload
  task_id ← item "task_id" payload
  slice_id ← item "slice_id" payload
  worker_role ← item "worker_role" payload
  adapter_invocation ← item "adapter_invocation" payload
  input_digest ← get "input_digest" payload >>= optional_string
  output_digest ← get "output_digest" payload >>= optional_string
  slice_fingerprint ← get "slice_fingerprint" payload >>= optional_string
  snapshot_ref ← get "snapshot_ref" payload >>= optional_string
  prompt_digest ← get "prompt_digest" payload >>= optional_string
  raw_output_digest ← get "raw_output_digest" payload >>= optional_string
  run ← given_text run_id
  audit ← given_text audit_id
  task ← given_text task_id
  slice ← given_text slice_id
  role ← given_text worker_role
  new_context (record {
    run_id = run;
    audit_id = audit;
    task_id = task;
    slice_id = slice;
    worker_role = role;
    adapter_invocation = adapter_invocation;
    input_digest = input_digest;
    output_digest = output_digest;
    slice_fingerprint = slice_fingerprint;
    snapshot_ref = snapshot_ref;
    prompt_digest = prompt_digest;
    raw_output_digest = raw_output_digest;
  })

-- WorkerExecutionTraceContext.from_dict
unfoldable pub context_from_dict : Json → Result WorkerExecutionTraceContext
unfolding context_from_fields
context_from_dict payload = if is_obj payload then context_from_fields payload else err ledger_error
