-- ===== src/Scim/Extensions.antt =====
-- The registry of gateway/scim_extensions.py: the functions that the handlers of devices call.
use tiedie.Prelude.{Bool, false, ◌||◌, List, [], ◌∷◌, ◌++◌, if◌then◌else◌, Eq}

pub record Hooks (F : Type 0) : Type 0 where
  pub scim_ext_create : List F
  pub scim_ext_read : List F
  pub scim_ext_update : List F
  pub scim_ext_delete : List F

-- the four functions of an extension
pub record Extension (F : Type 0) : Type 0 where
  pub create_fn : F
  pub read_fn : F
  pub update_fn : F
  pub delete_fn : F

-- as the module begins
abbrev pub no_hooks : {F : Type 0} → Hooks F
no_hooks = record {
  scim_ext_create = [];
  scim_ext_read = [];
  scim_ext_update = [];
  scim_ext_delete = [];
}

unfoldable pub reset_scim_extensions : {F : Type 0} → Hooks F → Hooks F
reset_scim_extensions h = record h {
  scim_ext_create = [];
  scim_ext_read = [];
  scim_ext_update = [];
  scim_ext_delete = [];
}

module _ {F : Type 0} ⦃e : Eq F⦄ where
  -- `fn in target`
  unfoldable pub elem : F → List F → Bool
  elem fn [] = false
  elem fn (g ∷ gs) = e.beq g fn || elem fn gs

  unfoldable pub append_unique : List F → F → List F
  append_unique target fn = if elem fn target then target else target ++ fn ∷ []

  unfoldable pub register_scim_extension : Extension F → Hooks F → Hooks F
  unfolding append_unique
  register_scim_extension x h = record h {
    scim_ext_create = append_unique h.scim_ext_create x.create_fn;
    scim_ext_read = append_unique h.scim_ext_read x.read_fn;
    scim_ext_update = append_unique h.scim_ext_update x.update_fn;
    scim_ext_delete = append_unique h.scim_ext_delete x.delete_fn;
  }

  -- registrations, one after the other
  unfoldable pub register_all : List (Extension F) → Hooks F → Hooks F
  register_all [] h = h
  register_all (x ∷ xs) h = register_all xs (register_scim_extension x h)
