-- ===== src/Json.antt =====
-- JSON values as Python sees them: what `get`, `[]`, `in`, `==`, `bool` and `isinstance` do on each
-- kind of value, the errors included. Numbers are integers; floats are not modelled.
use tiedie.Prelude.{
  ℕ, zero, suc, ◌&&◌, ◌==ℕ◌, int_beq, Bool, true, false, ◌||◌, not, Option, none, some, List, [],
  ◌∷◌, String, ◌==◌, if◌then◌else◌, has_text, ℤ, pos,
}
use tiedie.Python.{Result, ok, raise, key_error, type_error, attribute_error}

mutual
  pub data Json : Type 0 where
    null : Json
    bool : Bool → Json
    num : ℤ → Json
    str : String → Json
    arr : Items → Json
    obj : Fields → Json

  pub data Items : Type 0 where
    nil : Items
    cons : Json → Items → Items

  pub data Fields : Type 0 where
    end : Fields
    field : String → Json → Fields → Fields

unfoldable pub find_field : String → Fields → Option Json
find_field k end = none
find_field k (field j v fs) = if j == k then some v else find_field k fs

abbrev pub or_null : Option Json → Json
or_null none = null
or_null (some j) = j

-- `d.get(k)`; only a dict has the method
unfoldable pub get : Json → String → Result Json
get (obj fs) k = ok (or_null (find_field k fs))
get _ k = raise attribute_error

-- `d.get(k, default)`
unfoldable pub get_default : Json → String → Json → Result Json
get_default (obj fs) k d = elim (find_field k fs) [ none ↦ ok d | some j ↦ ok j ]
get_default _ k d = raise attribute_error

abbrev pub or_key_error : Option Json → Result Json
or_key_error none = raise key_error
or_key_error (some j) = ok j

-- `d[k]` with a text for `k`
unfoldable pub index : Json → String → Result Json
index (obj fs) k = or_key_error (find_field k fs)
index _ k = raise type_error

abbrev pub is_text : String → Json → Bool
is_text k (str s) = s == k
is_text k _ = false

unfoldable pub has_item : String → Items → Bool
has_item k nil = false
has_item k (cons j js) = is_text k j || has_item k js

abbrev pub is_some {ℓ} : {A : Type ℓ} → Option A → Bool
is_some none = false
is_some (some a) = true

-- `k in d`: the keys of a dict, the items of a list, the substrings of a text
unfoldable pub contains : String → Json → Result Bool
contains k (obj fs) = ok (is_some (find_field k fs))
contains k (arr js) = ok (has_item k js)
contains k (str s) = ok (has_text k s)
contains k _ = raise type_error

-- `bool(j)`
abbrev pub truthy : Json → Bool
truthy null = false
truthy (bool b) = b
truthy (num (pos zero)) = false
truthy (num _) = true
truthy (str s) = not (s == "")
truthy (arr nil) = false
truthy (arr (cons j js)) = true
truthy (obj end) = false
truthy (obj (field k v fs)) = true

-- `isinstance(j, dict)` and `isinstance(j, list)`
abbrev pub is_dict : Json → Bool
is_dict (obj fs) = true
is_dict _ = false

abbrev pub is_list : Json → Bool
is_list (arr js) = true
is_list _ = false

-- `j is True`
abbrev pub is_true : Json → Bool
is_true (bool true) = true
is_true _ = false

-- the items of a `for` loop over a list
abbrev pub items : Items → List Json
items nil = []
items (cons j js) = j ∷ items js

-- the characters of a text, as the items of a loop over it
unfoldable pub chars : String → List Json
chars String.[] = []
chars (String.◌∷◌ c s) = str (String.◌∷◌ c "") ∷ chars s

unfoldable pub keys : Fields → List Json
keys end = []
keys (field k v fs) = str k ∷ keys fs

-- `for x in j`
unfoldable pub iterate : Json → Result (List Json)
unfolding chars keys
iterate (arr js) = ok (items js)
iterate (obj fs) = ok (keys fs)
iterate (str s) = ok (chars s)
iterate _ = raise type_error

abbrev count_fields : Fields → ℕ
count_fields end = 0
count_fields (field k v fs) = suc (count_fields fs)

abbrev as_int : Bool → ℤ
as_int false = pos 0
as_int true = pos 1

-- `a == b`: a dict equals a dict with the same keys and equal values, in any order; a boolean
-- equals the number 0 or 1. Objects of a parsed body hold no key twice.
unfoldable mutual
  pub json_eq : Json → Json → Bool
  json_eq null null = true
  json_eq (bool a) (bool b) = int_beq (as_int a) (as_int b)
  json_eq (bool a) (num n) = int_beq (as_int a) n
  json_eq (num n) (bool b) = int_beq n (as_int b)
  json_eq (num n) (num m) = int_beq n m
  json_eq (str s) (str t) = s == t
  json_eq (arr js) (arr ks) = items_eq js ks
  json_eq (obj fs) (obj gs) = (count_fields fs ==ℕ count_fields gs) && fields_eq fs gs
  json_eq _ _ = false

  pub items_eq : Items → Items → Bool
  items_eq nil nil = true
  items_eq (cons j js) (cons k ks) = json_eq j k && items_eq js ks
  items_eq _ _ = false

  pub fields_eq : Fields → Fields → Bool
  fields_eq end gs = true
  fields_eq (field k v fs) gs =
      elim (find_field k gs) [ none ↦ false | some w ↦ json_eq v w ] && fields_eq fs gs
