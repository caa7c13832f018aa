-- ===== src/Sdf/Models.antt =====
-- Which model `lookup_sdf_model` finds.
use tiedie.Prelude.{
  ◌≡◌, refl, true, false, none, List, [], ◌∷◌, ◌++◌, String, All, Bool, ap, ◌∙◌, ◌↔◌, if◌then◌else◌,
}
use tiedie.Python.{Result, ok, raise, ◌>>=◌, ok-injective}
use tiedie.Json.{Json}
use tiedie.Sdf.Namespaces.{
  Holds, IsOther, Holds-named, named-Holds, unnamed-IsOther, IsOther-unnamed,
}
use tiedie.Sdf.{SdfModel, names_namespace, first_in_namespace, lookup_sdf_model}

-- `m` is the first of the models whose 'namespace' holds the URL, and those before it can be read.
pub record IsFirst (url : String) (models : List SdfModel) (m : SdfModel) : Type 0 where
  pub before : List SdfModel
  pub after : List SdfModel
  pub split_at : models ≡ before ++ m ∷ after
  pub others : All (λ (r : SdfModel). IsOther url r.model) before
  pub holds : Holds url m.model

first_complete :
    (url : String) (before after : List SdfModel) (m : SdfModel)
    → All (λ (r : SdfModel). IsOther url r.model) before
    → Holds url m.model
    → first_in_namespace url (before ++ m ∷ after) ≡ ok m.model
unfolding first_in_namespace
first_complete url [] after m others holds = rw (Holds-named url m.model holds)
first_complete url (r ∷ before) after m others holds =
    rw (IsOther-unnamed url r.model others.0) (first_complete url before after m others.1 holds)

abbrev Found : String → List SdfModel → Json → Type 0
Found url models j = (m : SdfModel) × IsFirst url models m × (m.model ≡ j)

Found-cons :
    (url : String) (r : SdfModel) (models : List SdfModel) (j : Json)
    → IsOther url r.model
    → Found url models j
    → Found url (r ∷ models) j
Found-cons url r models j other (m, first, e) = (m, moved, e)
  where
    moved : IsFirst url (r ∷ models) m
    moved = record {
      before = r ∷ first.before;
      after = first.after;
      split_at = ap (λ l. r ∷ l) first.split_at;
      others = (other, first.others);
      holds = first.holds;
    }

sound_at :
    (url : String) (r : SdfModel) (models : List SdfModel) (j : Json) (n : Result Bool)
    → names_namespace url r.model ≡ n
    → (n >>= λ named. if named then ok r.model else first_in_namespace url models) ≡ ok j
    → (first_in_namespace url models ≡ ok j → Found url models j)
    → Found url (r ∷ models) j
sound_at url r models j (ok true) e h ih = (r, here, ok-injective h)
  where
    here : IsFirst url (r ∷ models) r
    here = record {
      before = [];
      after = models;
      split_at = refl;
      others = tt;
      holds = named-Holds url r.model e;
    }
sound_at url r models j (ok false) e h ih =
    Found-cons url r models j (unnamed-IsOther url r.model e) (ih h)
sound_at url r models j (raise x) e h ih = cc

first_sound :
    (url : String) (models : List SdfModel) (j : Json)
    → first_in_namespace url models ≡ ok j
    → Found url models j
unfolding first_in_namespace
first_sound url [] j h = cc
first_sound url (r ∷ models) j h =
    sound_at url r models j (names_namespace url r.model) refl h (first_sound url models j)

first_from :
    (url : String) (models : List SdfModel) (m : SdfModel)
    → IsFirst url models m
    → first_in_namespace url models ≡ ok m.model
first_from url models m first =
    rw first.split_at (first_complete url first.before first.after m first.others first.holds)

-- Without a row of that name, the lookup returns a model exactly when some row is the first whose
-- 'namespace' is the URL or is a dict with the URL among its values, and that row's model is what
-- it returns. The models before it are dicts, or lists or texts without a 'namespace'.
pub lookup-IsFirst :
    (url : String) (models : List SdfModel) (j : Json)
    → (lookup_sdf_model none models url ≡ ok j)
      ↔ ((m : SdfModel) × IsFirst url models m × (m.model ≡ j))
unfolding lookup_sdf_model
lookup-IsFirst url models j =
    (first_sound url models j, λ (m, first, e). first_from url models m first ∙ ap ok e)
