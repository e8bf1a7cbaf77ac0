-- ===== src/Tasks/Planner/Refs.antt =====
-- The keys by which the planner of runtime/tasks.py knows near duplicates: _source_ref_key,
-- _follow_up_semantic_key and _source_budget_key.
use deterministic_audit_runt.Errors.{Result, ok, ◌>>=◌}
use deterministic_audit_runt.Prelude.{
  suc, String, Bool, true, false, not, ◌&&◌, Option, none, some, List, [], ◌∷◌, ◌==◌, is_empty,
  if◌then◌else◌, text_le,
}
use deterministic_audit_runt.Prelude.Int.{ltb_ℤ, pos, negsuc}
use deterministic_audit_runt.Tasks.Keys.{task_semantic_key, Part, key_eq}
use deterministic_audit_runt.Json.{
  item, is_falsy, lookup, Json, get, bool, str, get_default, is_obj, Fields, obj, int, end, null,
}
use deterministic_audit_runt.Tasks.Types.{AuditTask, is_blank, TaskType, type_name}
use deterministic_audit_runt.Json.Canonical.{equals}
use deterministic_audit_runt.Tasks.Text.{normalize_target_value, strip}
use deterministic_audit_runt.RunLedger.{iterate, hashable, join_text}
use deterministic_audit_runt.Prelude.Sort.{sort}
use deterministic_audit_runt.Prelude.Decimal.{decimal}

-- `str(value)` of a float, a list or a dict.
pub record Shown : Type 0 where
  pub shown : Json → String

abbrev pub str_of : Shown → Json → String
str_of p null = "None"
str_of p (bool true) = "True"
str_of p (bool false) = "False"
str_of p (int (pos n)) = decimal n
str_of p (int (negsuc n)) = join_text "-" (decimal (suc n))
str_of p (str s) = s
str_of p v = p.shown v

-- A file, its first and last line, a snapshot and a hash.
pub record SourceRefKey : Type 0 where
  pub file_path : String
  pub line_start : Json
  pub line_end : Json
  pub snapshot_ref : String
  pub file_hash : String

-- `line_range["start"], line_range["end"]`, or 0 and 0 where it is no dict.
unfoldable pub range_lines : Json → Result (Json × Json)
unfolding item
range_lines (obj fs) = do
  start ← item "start" (obj fs)
  final ← item "end" (obj fs)
  ok (start, final)
range_lines v = ok (int (pos 0), int (pos 0))

-- `_source_ref_key`
unfoldable pub source_ref_key : Shown → Json → Result SourceRefKey
unfolding get get_default range_lines normalize_target_value strip
source_ref_key p source_ref = do
  line_range ← get "line_range" source_ref
  (start, final) ← range_lines line_range
  file_path ← get_default "file_path" (str "") source_ref
  snapshot_ref ← get_default "snapshot_ref" (str "") source_ref
  file_hash ← get_default "file_hash" (str "") source_ref
  ok (record {
    file_path = normalize_target_value "path" (str_of p file_path);
    line_start = start;
    line_end = final;
    snapshot_ref = strip (str_of p snapshot_ref);
    file_hash = strip (str_of p file_hash);
  })

-- The order of the tuples. The lines are ints, as the schemas of the events ask; others are left in
-- their order here, where the source may refuse to compare or to hash them.
abbrev pub line_le : Json → Json → Bool
line_le (int m) (int n) = not (ltb_ℤ n m)
line_le v w = true

unfoldable pub ref_le : SourceRefKey → SourceRefKey → Bool
unfolding text_le equals
ref_le a b =
    if not (a.file_path == b.file_path)
    then text_le a.file_path b.file_path
    else if not (equals a.line_start b.line_start)
    then line_le a.line_start b.line_start
    else if not (equals a.line_end b.line_end)
    then line_le a.line_end b.line_end
    else if not (a.snapshot_ref == b.snapshot_ref)
    then text_le a.snapshot_ref b.snapshot_ref
    else text_le a.file_hash b.file_hash

unfoldable pub ref_eq : SourceRefKey → SourceRefKey → Bool
unfolding equals
ref_eq a b =
    a.file_path == b.file_path
    && equals a.line_start b.line_start
    && equals a.line_end b.line_end
    && a.snapshot_ref == b.snapshot_ref
    && a.file_hash == b.file_hash

unfoldable pub refs_eq : List SourceRefKey → List SourceRefKey → Bool
unfolding ref_eq
refs_eq [] [] = true
refs_eq (a ∷ ks) (b ∷ ls) = ref_eq a b && refs_eq ks ls
refs_eq _ _ = false

-- The two kinds of tuples, which have different lengths.
pub data SemanticKey : Type 0 where
  by_target : List Part → SemanticKey
  by_observation : String → TaskType → String → Json → List SourceRefKey → SemanticKey

unfoldable pub semantic_eq : SemanticKey → SemanticKey → Bool
unfolding key_eq equals refs_eq
semantic_eq (by_target ps) (by_target qs) = key_eq ps qs
semantic_eq (by_observation a t s e rs) (by_observation b u r f qs) =
    a == b && type_name t == type_name u && s == r && equals e f && refs_eq rs qs
semantic_eq _ _ = false

-- The keys of the refs that are dicts.
unfoldable pub source_ref_keys : Shown → List Json → Result (List SourceRefKey)
unfolding source_ref_key
source_ref_keys p [] = ok []
source_ref_keys p (v ∷ vs) =
    let rest = source_ref_keys p vs in
    if is_obj v then (do key ← source_ref_key p v; keys ← rest; ok (key ∷ keys)) else rest

-- `value or []`, run through.
unfoldable pub iterate_or : Json → Result (List Json)
unfolding is_falsy iterate
iterate_or v = if is_falsy v then ok [] else iterate v

-- `observation.get("provenance", {}).get("source_refs") or []`
unfoldable pub source_refs_of : Json → Result (List Json)
unfolding get get_default iterate_or
source_refs_of observation = do
  provenance ← get_default "provenance" (obj end) observation
  source_refs ← get "source_refs" provenance
  iterate_or source_refs

-- A value of a dict that is a text with more than white space.
unfoldable pub given_statement : Json → Option String
unfolding is_blank
given_statement (str s) = if is_blank s then none else some s
given_statement v = none

abbrev pub key_of_refs : AuditTask → String → Json → List SourceRefKey → SemanticKey
key_of_refs t statement evidence_class [] = by_target (task_semantic_key t)
key_of_refs t statement evidence_class (k ∷ ks) =
    by_observation t.audit_id t.task_type (strip statement) evidence_class (k ∷ ks)

-- The key by an observation that is a dict. A key with a list or a dict in it is refused when it is
-- looked up.
unfoldable pub observation_key : Shown → AuditTask → Json → Result SemanticKey
unfolding get given_statement source_refs_of source_ref_keys sort ref_le hashable
observation_key p t observation = do
  statement ← get "statement" observation
  elim (given_statement statement) [
    | none ↦ ok (by_target (task_semantic_key t))
    | some s ↦ do
      refs ← source_refs_of observation
      keys ← source_ref_keys p refs
      evidence_class ← get "evidence_class" observation
      class ← if is_empty keys then ok evidence_class else hashable evidence_class
      ok (key_of_refs t s class (sort ref_le keys))
  ]

abbrev pub dict_in : Option Json → Option Json
dict_in (some (obj fs)) = some (obj fs)
dict_in _ = none

-- `observations.get(id)`, if it is a dict, for a task about an observation.
unfoldable pub observation_of : Fields → AuditTask → Option Json
unfolding lookup
observation_of observations t =
    if t.target.kind == "observation" then dict_in (lookup t.target.value observations) else none

-- `_follow_up_semantic_key`
unfoldable pub follow_up_semantic_key : Shown → Fields → AuditTask → Result SemanticKey
unfolding observation_of observation_key task_semantic_key
follow_up_semantic_key p observations t = elim (observation_of observations t) [
  | none ↦ ok (by_target (task_semantic_key t))
  | some observation ↦ observation_key p t observation
]

-- The first value under a key of refs that is a text with more than white space.
unfoldable pub first_given : String → List Json → Result (Option String)
unfolding get given_statement
first_given key [] = ok none
first_given key (ref ∷ refs) = do
  value ← get key ref
  let later = first_given key refs
  elim (given_statement value) [ none ↦ later | some text ↦ ok (some text) ]

-- `_source_budget_key`
unfoldable pub source_budget_key : Fields → AuditTask → Result String
unfolding observation_of source_refs_of first_given normalize_target_value
source_budget_key observations t = elim (observation_of observations t) [
  | none ↦ ok (normalize_target_value t.target.kind t.target.value)
  | some observation ↦ do
    refs ← source_refs_of observation
    found ← first_given "file_path" refs
    ok (elim found [
      | none ↦ normalize_target_value t.target.kind t.target.value
      | some path ↦ normalize_target_value "path" path
    ])
]
