-- ===== src/Database/Memory.antt =====
-- A table as a list of rows.
use mathlib.Core.Path.{subst}
use mathlib.Core.Option.{some-injective}
use tiedie.Prelude.{
  ◌≡◌, ◌⊎◌, refl, sym, ap, Bool, true, false, none, some, List, [], ◌∷◌, if◌then◌else◌, find_first,
  keep, any, arith, Bool-cases, if_cases, if_induction, inl, inr, map,
}
use tiedie.Prelude.{◌==◌}
use tiedie.Database.Tables.{Table, IsTable}
use tiedie.Database.Session.{Schema, IsLawful, same_sdf_name, same_data_app, same_topic, same_event}

module _ {Row : Type 0} (clash : Row → Row → Bool) where
  abbrev pub memory_table : Table Row
  memory_table = record {
    Contents = List Row;
    first = find_first;
    all = keep;
    add = λ r t. if any (clash r) t then none else some (r ∷ t);
    delete = λ p t. keep (λ r. if p r then false else true) t;
    update = λ p f t. map (λ r. if p r then f r else r) t;
  }

-- `r` is in the list.
abbrev pub In : {A : Type 0} → A → List A → Type 0
In r [] = ⊥
In r (x ∷ xs) = (r ≡ x) ⊎ In r xs

not_of_false : (b : Bool) → b ≡ false → (if b then false else true) ≡ true
not_of_false b h = ground arith

false_of_not : (b : Bool) → (if b then false else true) ≡ true → b ≡ false
false_of_not b h = ground arith

module _ {Row : Type 0} where
  find_first-In :
      (p : Row → Bool) (t : List Row) (r : Row) → find_first p t ≡ some r → In r t × (p r ≡ true)
  unfolding find_first
  find_first-In p [] r h = cc
  find_first-In p (x ∷ t) r h = elim (Bool-cases (p x)) [
    | inl e ↦ (inl (ground arith), ground arith)
    | inr e ↦ (let found = find_first-In p t r (rw e at h) in (inr found.0, found.1))
  ]

  find_first-none :
      (p : Row → Bool) (t : List Row) (r : Row) → find_first p t ≡ none → In r t → p r ≡ false
  unfolding find_first
  find_first-none p [] r h m = elim m [ ]
  find_first-none p (x ∷ t) r h (inl e) = ground arith
  find_first-none p (x ∷ t) r h (inr m) = find_first-none p t r (ground arith) m

  any-In : (p : Row → Bool) (t : List Row) (q : Row) → In q t → p q ≡ true → any p t ≡ true
  unfolding any
  any-In p [] q m h = elim m [ ]
  any-In p (x ∷ t) q (inl e) h = ground arith
  any-In p (x ∷ t) q (inr m) h = ground (arith, any-In p t q m h)

  keep-In : (p : Row → Bool) (t : List Row) (r : Row) → In r t → p r ≡ true → In r (keep p t)
  unfolding keep
  keep-In p [] r m h = elim m [ ]
  keep-In p (x ∷ t) r (inl e) h = if_cases (In r) (p x) (λ _. inl e) (λ no_x. cc (e, h, no_x))
  keep-In p (x ∷ t) r (inr m) h =
      if_induction (In r) (p x) (inr (keep-In p t r m h)) (keep-In p t r m h)

  keep_step :
      (p : Row → Bool) (x : Row) (t : List Row) (r : Row) (b : Bool)
      → p x ≡ b
      → In r (if b then x ∷ keep p t else keep p t)
      → (In r (keep p t) → In r t × (p r ≡ true))
      → In r (x ∷ t) × (p r ≡ true)
  keep_step p x t r true e (inl same) ih = (inl same, rw same e)
  keep_step p x t r true e (inr m) ih = (let (m', h) = ih m in (inr m', h))
  keep_step p x t r false e m ih = (let (m', h) = ih m in (inr m', h))

  In-keep : (p : Row → Bool) (t : List Row) (r : Row) → In r (keep p t) → In r t × (p r ≡ true)
  unfolding keep
  In-keep p [] r m = elim m [ ]
  In-keep p (x ∷ t) r m = keep_step p x t r (p x) refl m (In-keep p t r)

  In-map :
      (g : Row → Row) (t : List Row) (r : Row) → In r (map g t) → (q : Row) × In q t × (r ≡ g q)
  In-map g [] r m = elim m [ ]
  In-map g (x ∷ t) r (inl e) = (x, inl refl, e)
  In-map g (x ∷ t) r (inr m) = (let (q, m', e) = In-map g t r m in (q, inr m', e))

  map-In : (g : Row → Row) (t : List Row) (q : Row) → In q t → In (g q) (map g t)
  map-In g [] q m = elim m [ ]
  map-In g (x ∷ t) q (inl e) = inl (ap g e)
  map-In g (x ∷ t) q (inr m) = inr (map-In g t q m)

  add_step :
      (r : Row) (t t' : List Row) (b : Bool)
      → (if b then none else some (r ∷ t)) ≡ some t'
      → t' ≡ r ∷ t
  add_step r t t' true h = cc
  add_step r t t' false h = sym (some-injective (r ∷ t) t' h)

  -- A list of rows has the laws of a table.
  pub memory-IsTable : (clash : Row → Row → Bool) → IsTable (memory_table clash) clash
  memory-IsTable clash = record {
    Has = In;
    first_has = find_first-In;
    first_none = find_first-none;
    has-add = λ r q t t' h m. subst (λ l. In q l) (add_step r t t' (any (clash r) t) h) m;
    add_has =
        λ r t t' h. subst (λ l. In r l) (sym (add_step r t t' (any (clash r) t) h)) (inl refl);
    add_keeps =
        λ r q t t' h m. subst (λ l. In q l) (sym (add_step r t t' (any (clash r) t) h)) (inr m);
    add_clash = λ r q t m h. rw (any-In (clash r) t q m h);
    has-delete = λ p t r m.
        (let (m', h) = In-keep (λ x. if p x then false else true) t r m in
          (m', false_of_not (p r) h));
    delete_keeps =
        λ p t r m h. keep-In (λ x. if p x then false else true) t r m (not_of_false (p r) h);
    has-update = λ p f t r m. In-map (λ x. if p x then f x else x) t r m;
    update_has = λ p f t q m. map-In (λ x. if p x then f x else x) t q m;
  }

-- All tables in memory; the ids of devices and of endpoint applications are primary keys.
abbrev pub memory : Schema
memory = record {
  sdf_model = memory_table same_sdf_name;
  bledevices = memory_table (λ r q. r.device_id == q.device_id);
  devices = memory_table (λ r q. r.device_id == q.device_id);
  endpoint_app = memory_table (λ r q. r.id == q.id);
  data_app = memory_table same_data_app;
  data_app_topics = memory_table same_topic;
  event = memory_table same_event;
}

pub memory-IsLawful : IsLawful memory
memory-IsLawful = record {
  sdf_model = memory-IsTable same_sdf_name;
  data_app = memory-IsTable same_data_app;
  data_app_topics = memory-IsTable same_topic;
  event = memory-IsTable same_event;
}
