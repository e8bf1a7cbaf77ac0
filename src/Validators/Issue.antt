-- ===== src/Validators/Issue.antt =====
-- runtime/validators/models.py. The human-readable messages are left out, and the dotted text of a
-- path is kept as its parts.
use deterministic_audit_runt.Prelude.{ℕ, String, Bool, Option, List, [], ◌∷◌}

-- `payload.status`, or `payload.refs[2]` with its index.
pub data IssuePath : Type 0 where
  at : List String → IssuePath
  at_index : List String → ℕ → IssuePath

pub record ValidationIssue : Type 0 where
  pub validator : String
  pub code : String
  pub rule_id : Option String
  pub path : Option IssuePath

pub record ValidationResult : Type 0 where
  pub is_valid : Bool
  pub issues : List ValidationIssue

abbrev pub codes_of : List ValidationIssue → List String
codes_of [] = []
codes_of (i ∷ is) = i.code ∷ codes_of is
