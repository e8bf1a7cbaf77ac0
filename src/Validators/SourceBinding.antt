-- ===== src/Validators/SourceBinding.antt =====
-- runtime/validators/source_binding.py: the references of an event to the source.
pub mod Ranges
use deterministic_audit_runt.Prelude.{
  ℕ, ◌+◌, Bool, false, not, ◌&&◌, Option, none, some, List, [], ◌∷◌, ◌++◌, String, ◌==◌,
  if◌then◌else◌,
}
use deterministic_audit_runt.Prelude.Int.{ℤ, pos, ltb_ℤ}
use deterministic_audit_runt.Errors.{Result, ok, err, ◌>>=◌, type_error, attribute_error}
use deterministic_audit_runt.Json.{
  Json, bool, int, str, arr, obj, nil, end, item, get, get_default, is_obj, is_null, is_falsy,
  items,
}
use deterministic_audit_runt.Json.Canonical.{equals}
use deterministic_audit_runt.Validators.Issue.{ValidationIssue, IssuePath, at, at_index}
use deterministic_audit_runt.Validators.Transition.{is_text, is_among}

abbrev pub required_source_ref_event_types : List String
required_source_ref_event_types =
    "observation.proposed" ∷ "observation.verified" ∷ "observation.rejected" ∷ []

abbrev source_issue : String → IssuePath → ValidationIssue
source_issue code path = record {
  validator = "source_binding";
  code = code;
  rule_id = none;
  path = some path;
}

-- `value in {...}`, which hashes the value.
unfoldable pub in_set : List String → Json → Result Bool
unfolding is_among
in_set texts (arr xs) = err type_error
in_set texts (obj fs) = err type_error
in_set texts v = ok (is_among texts v)

-- `_extract_source_refs`
unfoldable pub extract_source_refs : Json → Json → Result Json
unfolding in_set
extract_source_refs entity_type payload =
    if is_text "observation" entity_type
    then (do
      provenance ← get "provenance" payload
      if is_obj provenance then get_default "source_refs" (arr nil) provenance else ok (arr nil))
    else if is_text "hypothesis" entity_type
    then get_default "supporting_source_refs" (arr nil) payload
    else (do
      others ← in_set ("contradiction" ∷ "decision" ∷ []) entity_type
      if others then get_default "source_refs" (arr nil) payload else ok (arr nil))

-- `_source_ref_path`, without its index.
unfoldable pub source_ref_path : Json → List String
source_ref_path entity_type =
    if is_text "observation" entity_type
    then "payload" ∷ "provenance" ∷ "source_refs" ∷ []
    else if is_text "hypothesis" entity_type
    then "payload" ∷ "supporting_source_refs" ∷ []
    else "payload" ∷ "source_refs" ∷ []

-- The loop over the references. The characters of a text and the keys of a dict are texts, which
-- have no `get`.
unfoldable pub enumerated : Json → Result (List Json)
enumerated (arr xs) = ok (items xs)
enumerated (str s) = if s == "" then ok [] else err attribute_error
enumerated (obj end) = ok []
enumerated (obj fs) = err attribute_error
enumerated _ = err type_error

-- An `int`, and `bool` is a subclass of it.
unfoldable pub as_int : Json → Option ℤ
as_int (int n) = some n
as_int (bool b) = some (if b then pos 1 else pos 0)
as_int _ = none

abbrev greater_of : Option ℤ → Option ℤ → Result Bool
greater_of (some a) (some b) = ok (ltb_ℤ b a)
greater_of _ _ = err type_error

-- `a > b` for the columns. Only integers are modelled: the event schema admits no other number.
unfoldable pub greater : Json → Json → Result Bool
unfolding as_int
greater a b = greater_of (as_int a) (as_int b)

unfoldable pub column_issues : Json → IssuePath → Result (List ValidationIssue)
unfolding greater
column_issues source_ref path = do
  columns ← get "column_range" source_ref
  if is_null columns then ok [] else do
    start ← get_default "start" (int (pos 0)) columns
    last ← get_default "end" (int (pos 0)) columns
    wrong ← greater start last
    ok (if wrong then source_issue "invalid_column_range" path ∷ [] else [])

unfoldable pub snapshot_issues : Json → Json → IssuePath → Result (List ValidationIssue)
snapshot_issues event source_ref path = do
  of_event ← get "snapshot_ref" event
  of_source ← get "snapshot_ref" source_ref
  ok (
      if not (is_null of_event) && (not (is_null of_source) && not (equals of_source of_event))
      then source_issue "snapshot_ref_mismatch" path ∷ []
      else [])

abbrev is_true : Json → Bool
is_true (bool b) = b
is_true _ = false

-- The part of `_validate_source_ref` behind the tests of the line range.
unfoldable pub range_issues :
    Json → Json → List String → ℕ → Option ℤ → Option ℤ → Result (List ValidationIssue)
unfolding column_issues snapshot_issues
range_issues event source_ref base n (some start) (some last) = do
  inferred ← get "range_inferred" source_ref
  let path = at_index base n
  let order = if ltb_ℤ last start then source_issue "invalid_line_range" path ∷ [] else []
  let degraded = if is_true inferred then source_issue "inferred_line_range" path ∷ [] else []
  columns ← column_issues source_ref path
  snapshot ← snapshot_issues event source_ref path
  ok (order ++ (degraded ++ (columns ++ snapshot)))
range_issues event source_ref base n _ _ =
    ok (source_issue "invalid_line_range_type" (at_index base n) ∷ [])

-- `_validate_source_ref`. The path of an issue is that of the reference: the last part, which names
-- the field of it, is left out.
unfoldable pub validate_source_ref : Json → ℕ → Json → Result (List ValidationIssue)
unfolding source_ref_path as_int range_issues
validate_source_ref event n source_ref = do
  entity_type ← item "entity_type" event
  let base = source_ref_path entity_type
  line_range ← get "line_range" source_ref
  if not (is_obj line_range)
      then ok (source_issue "missing_line_range" (at_index base n) ∷ [])
      else do
        start ← get "start" line_range
        last ← get "end" line_range
        if is_null start
            then ok (source_issue "incomplete_line_range" (at_index base n) ∷ [])
            else if is_null last
            then ok (source_issue "incomplete_line_range" (at_index base n) ∷ [])
            else range_issues event source_ref base n (as_int start) (as_int last)

unfoldable pub validate_source_refs : Json → ℕ → List Json → Result (List ValidationIssue)
unfolding validate_source_ref
validate_source_refs event n [] = ok []
validate_source_refs event n (source_ref ∷ rest) = do
  here ← validate_source_ref event n source_ref
  later ← validate_source_refs event (n + 1) rest
  ok (here ++ later)

unfoldable pub validate_source_binding : Json → Result (List ValidationIssue)
unfolding extract_source_refs enumerated validate_source_refs
validate_source_binding event = do
  payload ← item "payload" event
  event_type ← item "event_type" event
  entity_type ← item "entity_type" event
  source_refs ← extract_source_refs entity_type payload
  required ← in_set required_source_ref_event_types event_type
  if required && is_falsy source_refs
      then ok (
          source_issue "missing_source_refs" (at ("payload" ∷ "provenance" ∷ "source_refs" ∷ []))
          ∷ [])
      else do
        snapshot ← get "snapshot_ref" event
        refs ← enumerated source_refs
        let unbound =
            if not (is_falsy source_refs) && is_null snapshot
            then source_issue "missing_event_snapshot_ref" (at ("snapshot_ref" ∷ [])) ∷ []
            else []
        found ← validate_source_refs event 0 refs
        ok (unbound ++ found)
