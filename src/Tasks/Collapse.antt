-- ===== src/Tasks/Collapse.antt =====
-- A normalized path has no empty and no "." part.
use Prim.Native.Char.{Char}
use deterministic_audit_runt.Tasks.Replace.{starts_dot}
use deterministic_audit_runt.Prelude.{String, ◌≡◌, ◌⊎◌, Bool, false, if◌then◌else◌}
use deterministic_audit_runt.Tasks.Text.{has_double, has_dotted, no_text, is_slash}

-- `text.endswith("/")`
unfoldable pub ends_slash : String → Bool
ends_slash String.[] = false
ends_slash (String.◌∷◌ c s) = if no_text s then is_slash c else ends_slash s

-- No empty part, no "." part, no "./" in front, and no "/" at the end but that of the root.
pub IsNormalPath : String → Type 0
IsNormalPath s =
    (has_double s ≡ false)
    × (has_dotted s ≡ false)
    × (starts_dot s ≡ false)
    × ((ends_slash s ≡ false) ⊎ (s ≡ "/"))
