-- ===== src/Tasks/Text.antt =====
-- The texts of runtime/tasks.py: `str.strip` and `_normalize_target_value`.
use Prim.Native.Char.{Char, code}
use deterministic_audit_runt.Prelude.{
  ℕ, zero, suc, String, Bool, true, false, ◌&&◌, ◌||◌, if◌then◌else◌, num_eq, leb, ◌==◌,
}

-- The white space of `str.strip`.
abbrev pub is_space : Char → Bool
is_space c =
    let n = code c in
    leb 9 n && leb n 13
    || leb 28 n && leb n 32
    || num_eq n 133
    || num_eq n 160
    || num_eq n 5760
    || leb 8192 n && leb n 8202
    || num_eq n 8232
    || num_eq n 8233
    || num_eq n 8239
    || num_eq n 8287
    || num_eq n 12288

abbrev pub is_slash : Char → Bool
is_slash c = num_eq (code c) b'/'

abbrev pub is_dot : Char → Bool
is_dot c = num_eq (code c) b'.'

abbrev pub no_text : String → Bool
no_text String.[] = true
no_text (String.◌∷◌ c s) = false

-- `text.lstrip()` and `text.rstrip(...)`, for a set of characters.
unfoldable pub lstrip : (Char → Bool) → String → String
lstrip p String.[] = String.[]
lstrip p (String.◌∷◌ c s) = let rest = lstrip p s in if p c then rest else String.◌∷◌ c s

unfoldable pub rstrip : (Char → Bool) → String → String
rstrip p String.[] = String.[]
rstrip p (String.◌∷◌ c s) =
    let rest = rstrip p s in if p c && no_text rest then String.[] else String.◌∷◌ c rest

-- `text.strip()`
unfoldable pub strip : String → String
unfolding lstrip rstrip
strip s = rstrip is_space (lstrip is_space s)

-- `text.replace("\\", "/")`
unfoldable pub slashes : String → String
slashes String.[] = String.[]
slashes (String.◌∷◌ c s) = String.◌∷◌ (if num_eq (code c) b'\\' then "/" else c) (slashes s)

-- `"//" in text` and `text.replace("//", "/")`
unfoldable pub has_double : String → Bool
has_double (String.◌∷◌ c (String.◌∷◌ d s)) = is_slash c && is_slash d || has_double (String.◌∷◌ d s)
has_double _ = false

unfoldable pub replace_double : String → String
replace_double (String.◌∷◌ c (String.◌∷◌ d s)) =
    let after = replace_double s in
    let later = replace_double (String.◌∷◌ d s) in
    String.◌∷◌ c (if is_slash c && is_slash d then after else later)
replace_double s = s

-- `"/./" in text` and `text.replace("/./", "/")`
unfoldable pub has_dotted : String → Bool
has_dotted (String.◌∷◌ c (String.◌∷◌ d (String.◌∷◌ e s))) =
    is_slash c && is_dot d && is_slash e || has_dotted (String.◌∷◌ d (String.◌∷◌ e s))
has_dotted _ = false

unfoldable pub replace_dotted : String → String
replace_dotted (String.◌∷◌ c (String.◌∷◌ d (String.◌∷◌ e s))) =
    let after = replace_dotted s in
    let later = replace_dotted (String.◌∷◌ d (String.◌∷◌ e s)) in
    String.◌∷◌ c (if is_slash c && is_dot d && is_slash e then after else later)
replace_dotted s = s

-- `while test(text): text = step(text)`, on fuel.
unfoldable pub repeat_while : ℕ → (String → Bool) → (String → String) → String → String
repeat_while zero test step s = s
repeat_while (suc fuel) test step s =
    let rest = repeat_while fuel test step (step s) in if test s then rest else s

abbrev pub size : String → ℕ
size String.[] = 0
size (String.◌∷◌ c s) = suc (size s)

unfoldable pub collapse_double : String → String
unfolding repeat_while has_double replace_double
collapse_double s = repeat_while (size s) has_double replace_double s

unfoldable pub collapse_dotted : String → String
unfolding repeat_while has_dotted replace_dotted
collapse_dotted s = repeat_while (size s) has_dotted replace_dotted s

-- `while text.startswith("./"): text = text[2:]`
unfoldable pub drop_dots : String → String
drop_dots (String.◌∷◌ c (String.◌∷◌ d s)) =
    let rest = drop_dots s in if is_dot c && is_slash d then rest else String.◌∷◌ c (String.◌∷◌ d s)
drop_dots s = s

-- `text.rstrip("/")`, but for "/" alone.
unfoldable pub drop_end : String → String
unfolding rstrip
drop_end s = if s == "/" then s else rstrip is_slash s

abbrev pub is_path_kind : String → Bool
is_path_kind kind = kind == "path" || kind == "module"

unfoldable pub normalize_path : String → String
unfolding collapse_double collapse_dotted drop_dots drop_end slashes
normalize_path s = drop_end (drop_dots (collapse_dotted (collapse_double (slashes s))))

-- `_normalize_target_value`
unfoldable pub normalize_target_value : String → String → String
unfolding strip normalize_path
normalize_target_value kind value =
    let stripped = strip value in if is_path_kind kind then normalize_path stripped else stripped
