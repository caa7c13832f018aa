-- ===== src/Database/Tables.antt =====
-- A table as the handlers see it, over unknown contents.
use tiedie.Prelude.{
  ◌≡◌, refl, ◌⊎◌, inl, inr, Bool, true, false, Option, none, some, List, if◌then◌else◌,
}

pub record Table (Row : Type 0) : Type 1 where
  pub Contents : Type 0
  -- `filter_by(…).first()` and `filter_by(…).all()`
  pub first : (Row → Bool) → Contents → Option Row
  pub all : (Row → Bool) → Contents → List Row
  -- `session.add(row)` and its flush; `none` is an `IntegrityError`
  pub add : Row → Contents → Option Contents
  -- the deletion, and the change, of the rows that pass a test
  pub delete : (Row → Bool) → Contents → Contents
  pub update : (Row → Bool) → (Row → Row) → Contents → Contents

-- `Has r t`: the table holds the row. `clash r q`: a unique column keeps `r` and `q` apart.
pub record IsTable {Row : Type 0} (T : Table Row) (clash : Row → Row → Bool) : Type 1 where
  pub Has : Row → T.Contents → Type 0
  pub first_has :
      (p : Row → Bool) (t : T.Contents) (r : Row) → T.first p t ≡ some r → Has r t × (p r ≡ true)
  pub first_none :
      (p : Row → Bool) (t : T.Contents) (r : Row) → T.first p t ≡ none → Has r t → p r ≡ false
  pub has-add : (r q : Row) (t t' : T.Contents) → T.add r t ≡ some t' → Has q t' → (q ≡ r) ⊎ Has q t
  pub add_has : (r : Row) (t t' : T.Contents) → T.add r t ≡ some t' → Has r t'
  pub add_keeps : (r q : Row) (t t' : T.Contents) → T.add r t ≡ some t' → Has q t → Has q t'
  pub add_clash : (r q : Row) (t : T.Contents) → Has q t → clash r q ≡ true → T.add r t ≡ none
  pub has-delete :
      (p : Row → Bool) (t : T.Contents) (r : Row) → Has r (T.delete p t) → Has r t × (p r ≡ false)
  pub delete_keeps :
      (p : Row → Bool) (t : T.Contents) (r : Row) → Has r t → p r ≡ false → Has r (T.delete p t)
  pub has-update :
      (p : Row → Bool) (f : Row → Row) (t : T.Contents) (r : Row)
      → Has r (T.update p f t)
      → (q : Row) × Has q t × (r ≡ (if p q then f q else q))
  pub update_has :
      (p : Row → Bool) (f : Row → Row) (t : T.Contents) (q : Row)
      → Has q t
      → Has (if p q then f q else q) (T.update p f t)

-- What a query finds after a change.
module _ {Row : Type 0} (T : Table Row) {clash : Row → Row → Bool} (L : IsTable T clash) where
  open L use {Has, first_has, first_none, has-add, add_has, has-delete, has-update, update_has}

  -- A row that was added, where none passed the test, is the one that is found.
  pub first-add :
      (p : Row → Bool) (r : Row) (t t' : T.Contents)
      → T.first p t ≡ none
      → p r ≡ true
      → T.add r t ≡ some t'
      → T.first p t' ≡ some r
  first-add p r t t' fresh passes added = by_result (T.first p t') refl
    where
      same :
          (q : Row) → p q ≡ true → (q ≡ r) ⊎ Has q t → T.first p t' ≡ some q → T.first p t' ≡ some r
      same q e (inl eq) found = rw (← eq) found
      same q e (inr old) found = absurd_by (first_none p t q fresh old)
        where
          absurd_by : p q ≡ false → T.first p t' ≡ some r
          absurd_by e' = cc

      by_result : (o : Option Row) → T.first p t' ≡ o → T.first p t' ≡ some r
      by_result none found = absurd_by (first_none p t' r found (add_has r t t' added))
        where
          absurd_by : p r ≡ false → T.first p t' ≡ some r
          absurd_by e' = cc
      by_result (some q) found =
          let (m, e) = first_has p t' q found in same q e (has-add r q t t' added m) found

  -- Rows that were deleted are not found.
  pub first-delete : (p : Row → Bool) (t : T.Contents) → T.first p (T.delete p t) ≡ none
  first-delete p t = by_result (T.first p (T.delete p t)) refl
    where
      by_result : (o : Option Row) → T.first p (T.delete p t) ≡ o → T.first p (T.delete p t) ≡ none
      by_result none found = found
      by_result (some q) found =
          let (m, e) = first_has p (T.delete p t) q found in absurd_by e (has-delete p t q m).1
        where
          absurd_by : p q ≡ true → p q ≡ false → T.first p (T.delete p t) ≡ none
          absurd_by e e' = cc

  -- After an update that keeps the tested columns, what is found is an updated row.
  pub first-update :
      (p : Row → Bool) (f : Row → Row) (t : T.Contents) (r : Row)
      → ((q : Row) → p q ≡ true → p (f q) ≡ true)
      → T.first p t ≡ some r
      → (q : Row) × Has q t × (T.first p (T.update p f t) ≡ some (f q))
  first-update p f t r keeps found = by_result (T.first p (T.update p f t)) refl
    where
      changed :
          (x q : Row) (b : Bool)
          → p q ≡ b
          → Has q t
          → x ≡ (if b then f q else q)
          → p x ≡ true
          → T.first p (T.update p f t) ≡ some x
          → (q : Row) × Has q t × (T.first p (T.update p f t) ≡ some (f q))
      changed x q true e m eq px at = (q, m, rw (← eq) at)
      changed x q false e m eq px at = absurd_by eq
        where
          absurd_by : x ≡ q → (q : Row) × Has q t × (T.first p (T.update p f t) ≡ some (f q))
          absurd_by same = cc

      missing :
          (b : Bool)
          → p r ≡ b
          → b ≡ true
          → Has (if b then f r else r) (T.update p f t)
          → T.first p (T.update p f t) ≡ none
          → (q : Row) × Has q t × (T.first p (T.update p f t) ≡ some (f q))
      missing true e yes_b m none_found =
          absurd_by (first_none p (T.update p f t) (f r) none_found m)
        where
          absurd_by :
              p (f r) ≡ false → (q : Row) × Has q t × (T.first p (T.update p f t) ≡ some (f q))
          absurd_by e' = cc (keeps r e)
      missing false e yes_b m none_found = cc

      by_result :
          (o : Option Row)
          → T.first p (T.update p f t) ≡ o
          → (q : Row) × Has q t × (T.first p (T.update p f t) ≡ some (f q))
      by_result none at =
          let (m, e) = first_has p t r found in missing (p r) refl e (update_has p f t r m) at
      by_result (some x) at =
          let (m, e) = first_has p (T.update p f t) x at in
          let (q, mq, eq) = has-update p f t x m in changed x q (p q) refl mq eq e at
