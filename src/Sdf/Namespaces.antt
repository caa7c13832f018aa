-- ===== src/Sdf/Namespaces.antt =====
-- When a model's 'namespace' holds a URL, said without the functions that look for it.
use tiedie.Prelude.{
  ◌≡◌, ◌⊎◌, inl, inr, refl, ap, sym, ◌∙◌, Bool, true, false, ◌||◌, Option, none, some, String,
  eq_iff, arith, Bool-cases,
}
use tiedie.Python.{ok, ok-injective}
use tiedie.Json.{
  Json, Fields, null, bool, num, str, arr, obj, end, field, find_field, contains, index, is_text,
}
use tiedie.Sdf.{any_url, matches_namespace, names_namespace}

-- some value of the dict is the URL
abbrev pub HasValue : String → Fields → Type 0
HasValue url end = ⊥
HasValue url (field k v fs) = (v ≡ str url) ⊎ HasValue url fs

-- The value of a 'namespace': the URL itself, or a dict with the URL among its values.
abbrev pub IsNamespace : String → Json → Type 0
IsNamespace url j = (j ≡ str url) ⊎ ((gs : Fields) × (j ≡ obj gs) × HasValue url gs)

abbrev pub Holds : String → Json → Type 0
Holds url model =
    (fs : Fields) × (namespace : Json) × (model ≡ obj fs)
    × (find_field "namespace" fs ≡ some namespace)
    × IsNamespace url namespace

-- The test for a 'namespace' does not raise: the model is a dict, or a list or a text without one.
abbrev pub IsReadable : Json → Type 0
IsReadable model = ((fs : Fields) × (model ≡ obj fs)) ⊎ (contains "namespace" model ≡ ok false)

value-text : (url : String) (v : Json) → is_text url v ≡ true → v ≡ str url
value-text url (str s) h = ap str ((eq_iff s url).0 h)
value-text url null h = cc
value-text url (bool b) h = cc
value-text url (num n) h = cc
value-text url (arr js) h = cc
value-text url (obj fs) h = cc

text-value : (url : String) (v : Json) → v ≡ str url → is_text url v ≡ true
text-value url v h = rw h ((eq_iff url url).1 refl)

right_side : (a b : Bool) → a ≡ false → (a || b) ≡ true → b ≡ true
right_side a b e h = ground arith

any_url-HasValue : (url : String) (fs : Fields) → any_url url fs ≡ true → HasValue url fs
unfolding any_url
any_url-HasValue url end h = cc
any_url-HasValue url (field k v fs) h = elim (Bool-cases (is_text url v)) [
  | inl e ↦ inl (value-text url v e)
  | inr e ↦ inr (any_url-HasValue url fs (right_side _ _ e h))
]

HasValue-any_url : (url : String) (fs : Fields) → HasValue url fs → any_url url fs ≡ true
unfolding any_url
HasValue-any_url url end h = elim h [ ]
HasValue-any_url url (field k v fs) (inl e) = rw (text-value url v e) refl
HasValue-any_url url (field k v fs) (inr h) = ground (arith, HasValue-any_url url fs h)

matches-IsNamespace : (url : String) (j : Json) → matches_namespace url j ≡ true → IsNamespace url j
unfolding matches_namespace
matches-IsNamespace url (obj gs) h = inr (gs, refl, any_url-HasValue url gs h)
matches-IsNamespace url (str s) h = inl (ap str ((eq_iff s url).0 h))
matches-IsNamespace url null h = cc
matches-IsNamespace url (bool b) h = cc
matches-IsNamespace url (num n) h = cc
matches-IsNamespace url (arr js) h = cc

IsNamespace-matches : (url : String) (j : Json) → IsNamespace url j → matches_namespace url j ≡ true
unfolding matches_namespace
IsNamespace-matches url j (inl e) = rw e ((eq_iff url url).1 refl)
IsNamespace-matches url j (inr (gs, e, h)) = rw e (HasValue-any_url url gs h)

-- the test of a dict
abbrev tested : String → Option Json → Bool
tested url none = false
tested url (some j) = matches_namespace url j

names-tested :
    (url : String) (fs : Fields)
    → names_namespace url (obj fs) ≡ ok (tested url (find_field "namespace" fs))
unfolding names_namespace contains index
names-tested url fs = by_field (find_field "namespace" fs) refl
  where
    by_field :
        (o : Option Json)
        → find_field "namespace" fs ≡ o
        → names_namespace url (obj fs) ≡ ok (tested url o)
    by_field none e = rw e refl
    by_field (some j) e = rw e refl

-- The test says yes exactly of the models that hold the URL.
pub Holds-named :
    (url : String) (model : Json) → Holds url model → names_namespace url model ≡ ok true
Holds-named url model (fs, j, e, found, h) =
    rw e (names-tested url fs ∙ rw found (ap ok (IsNamespace-matches url j h)))

tested-Holds :
    (url : String) (fs : Fields) (o : Option Json)
    → find_field "namespace" fs ≡ o
    → tested url o ≡ true
    → Holds url (obj fs)
tested-Holds url fs none e h = cc
tested-Holds url fs (some j) e h = (fs, j, refl, e, matches-IsNamespace url j h)

pub named-Holds :
    (url : String) (model : Json) → names_namespace url model ≡ ok true → Holds url model
unfolding names_namespace contains index
named-Holds url (obj fs) h =
    tested-Holds url fs (find_field "namespace" fs) refl
      (ok-injective (sym (names-tested url fs) ∙ h))
named-Holds url (arr js) h = ground arith
named-Holds url (str s) h = ground arith
named-Holds url null h = cc
named-Holds url (bool b) h = cc
named-Holds url (num n) h = cc

-- A model that can be read and does not hold the URL.
pub record IsOther (url : String) (model : Json) : Type 0 where
  pub readable : IsReadable model
  pub lacks : Holds url model → ⊥

unnamed-IsReadable : (url : String) (m : Json) → names_namespace url m ≡ ok false → IsReadable m
unfolding names_namespace contains index
unnamed-IsReadable url (obj fs) h = inl (fs, refl)
unnamed-IsReadable url (arr js) h = inr (ground arith)
unnamed-IsReadable url (str s) h = inr (ground arith)
unnamed-IsReadable url null h = cc
unnamed-IsReadable url (bool b) h = cc
unnamed-IsReadable url (num n) h = cc

pub unnamed-IsOther :
    (url : String) (model : Json) → names_namespace url model ≡ ok false → IsOther url model
unnamed-IsOther url model h = record {
  readable = unnamed-IsReadable url model h;
  lacks = λ holds. absurd_by (Holds-named url model holds);
}
  where
    absurd_by : names_namespace url model ≡ ok true → ⊥
    absurd_by e = cc

pub IsOther-unnamed :
    (url : String) (model : Json) → IsOther url model → names_namespace url model ≡ ok false
unfolding names_namespace
IsOther-unnamed url model other = by_reading other.readable
  where
    by_answer :
        (fs : Fields) (b : Bool)
        → tested url (find_field "namespace" fs) ≡ b
        → model ≡ obj fs
        → names_namespace url model ≡ ok false
    by_answer fs true e same =
        absurd (other.lacks (rw same (tested-Holds url fs (find_field "namespace" fs) refl e)))
    by_answer fs false e same = rw same (names-tested url fs ∙ ap ok e)

    by_reading : IsReadable model → names_namespace url model ≡ ok false
    by_reading (inl (fs, e)) = by_answer fs _ refl e
    by_reading (inr e) = rw e refl
