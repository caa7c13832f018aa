-- ===== src/Control/Models/Names.antt =====
-- The name under which `register_sdf_model` of gateway/control.py stores a model.
use tiedie.Prelude.{
  suc, ◌-◌, ℤ, pos, negsuc, Bool, true, false, not, ◌||◌, Option, none, some, List, String, ◌+++◌,
  if◌then◌else◌, leb, length, get_elem?,
}
use tiedie.Python.{
  Result, ok, raise, key_error, type_error, attribute_error, index_error, schema_error,
  database_error, ◌>>=◌,
}
use tiedie.Json.{
  Json, bool, num, str, arr, obj, end, field, find_field, get, index, contains, truthy, items,
  chars, or_key_error,
}

abbrev or_index_error : Option Json → Result Json
or_index_error none = raise index_error
or_index_error (some j) = ok j

-- `xs[n]` of a list or of the characters of a text; a negative index counts from the end
unfoldable pub item : List Json → ℤ → Result Json
item xs (pos n) = or_index_error (get_elem? xs n)
item xs (negsuc n) =
    if leb (suc n) (length xs)
    then or_index_error (get_elem? xs (length xs - suc n))
    else raise index_error

abbrev bool_index : Bool → ℤ
bool_index false = pos 0
bool_index true = pos 1

-- `j[k]` for any two JSON values
unfoldable pub subscript : Json → Json → Result Json
unfolding item
subscript (obj fs) (str k) = or_key_error (find_field k fs)
subscript (obj fs) (arr js) = raise type_error
subscript (obj fs) (obj gs) = raise type_error
subscript (obj fs) _ = raise key_error
subscript (arr js) (num n) = item (items js) n
subscript (arr js) (bool b) = item (items js) (bool_index b)
subscript (str s) (num n) = item (chars s) n
subscript (str s) (bool b) = item (chars s) (bool_index b)
subscript _ _ = raise type_error

-- `next(iter(j.keys()))` of a value that is not empty
unfoldable pub first_key : Json → Result String
first_key (obj (field k v fs)) = ok k
first_key (obj end) = raise index_error
first_key _ = raise attribute_error

-- `sdf_name += "#/" + key`, and the query by that name: a list is extended by the characters, but
-- it is no value for the column.
unfoldable pub with_key : Json → String → Result String
with_key (str s) key = ok (s +++ "#/" +++ key)
with_key (arr js) key = raise database_error
with_key _ key = raise type_error

-- `k in model and model[k]`
unfoldable pub has_content : String → Json → Result Bool
has_content k model = do
  inside ← contains k model
  if inside then (do v ← index model k; ok (truthy v)) else ok false

abbrev pub named_by : String → Json → Json → Result String
named_by k model base = do v ← index model k; key ← first_key v; with_key base key

unfoldable pub sdf_name_of : Json → Result String
unfolding subscript first_key with_key has_content
sdf_name_of model = do
  namespace ← get model "namespace"
  default_namespace ← get model "defaultNamespace"
  if not (truthy namespace) || not (truthy default_namespace) then raise schema_error else (do
    base ← subscript namespace default_namespace
    thing ← has_content "sdfThing" model
    if thing then named_by "sdfThing" model base else (do
      object ← has_content "sdfObject" model
      if object then named_by "sdfObject" model base else raise schema_error))
