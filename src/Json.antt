-- ===== src/Json.antt =====
-- The JSON values that the runtime passes around as Python dicts and lists, and Python's access to
-- them. A float is carried by its repr: the code modelled here never computes with one.
pub mod Canonical
use mathlib.Core.Option
use deterministic_audit_runt.Prelude.{
  ℕ, suc, ◌+◌, String, ◌≡◌, refl, Bool, true, false, Option, none, some, List, [], ◌∷◌, ◌==◌,
  if◌then◌else◌, num_eq, arith, eq_iff, eq_refl, not, ◌||◌,
}
use deterministic_audit_runt.Prelude.Int.{ℤ, pos, negsuc}
use deterministic_audit_runt.Errors.{Error, key_error, attribute_error, type_error, Result, ok, err}

mutual
  pub data Json : Type 0 where
    null : Json
    bool : Bool → Json
    int : ℤ → Json
    float str : String → Json
    arr : Items → Json
    obj : Fields → Json

  pub data Items : Type 0 where
    nil : Items
    cons : Json → Items → Items

  pub data Fields : Type 0 where
    end : Fields
    field : String → Json → Fields → Fields

unfoldable pub lookup : String → Fields → Option Json
lookup k end = none
lookup k (field j v fs) = if j == k then some v else lookup k fs

-- `value.get(key)`, where a missing key and a null both read as None.
unfoldable pub get : String → Json → Result Json
unfolding lookup
get k (obj fs) = ok (Option.get_or (lookup k fs) null)
get k _ = err attribute_error

-- `value[key]`
unfoldable pub item : String → Json → Result Json
unfolding lookup
item k (obj fs) = elim (lookup k fs) [ none ↦ err (key_error k) | some v ↦ ok v ]
item k _ = err type_error

-- `key in value`, for a dict.
unfoldable pub has : String → Json → Bool
unfolding lookup
has k (obj fs) = elim (lookup k fs) [ none ↦ false | some v ↦ true ]
has k _ = false

-- `isinstance(value, dict)`
abbrev pub is_obj : Json → Bool
is_obj (obj fs) = true
is_obj _ = false

-- `value is None`
abbrev pub is_null : Json → Bool
is_null null = true
is_null _ = false

abbrev pub items : Items → List Json
items nil = []
items (cons v vs) = v ∷ items vs

-- `{**value, key: v}` for a key of its own: an assignment keeps the place of an old key.
unfoldable pub set_field : String → Json → Fields → Fields
set_field k v end = field k v end
set_field k v (field j w fs) = if j == k then field j v fs else field j w (set_field k v fs)

pub lookup-set_field :
    (k j : String) (v : Json) (fs : Fields)
    → lookup j (set_field k v fs) ≡ (if k == j then some v else lookup j fs)
unfolding lookup set_field
lookup-set_field k j v end = refl
lookup-set_field k j v (field i w fs) =
    ground (arith, eq_iff k j, eq_iff i k, eq_iff i j, lookup-set_field k j v fs)

pub is_obj_of_item : (k : String) (v : Json) {w : Json} → item k v ≡ ok w → is_obj v ≡ true
unfolding item
is_obj_of_item k (obj fs) h = refl
is_obj_of_item k _ h = cc

-- `value.get(key, default)`: a key that is there with a null gives the null.
unfoldable pub get_default : String → Json → Json → Result Json
unfolding lookup
get_default k default (obj fs) = ok (Option.get_or (lookup k fs) default)
get_default k default _ = err attribute_error

-- `not value`. The text of a float is its repr.
unfoldable pub is_falsy : Json → Bool
is_falsy null = true
is_falsy (bool b) = not b
is_falsy (int (pos n)) = num_eq n 0
is_falsy (float s) = s == "0.0" || s == "-0.0"
is_falsy (str s) = s == ""
is_falsy (arr nil) = true
is_falsy (obj end) = true
is_falsy _ = false
