-- ===== src/Ble/Advertisements/Search.antt =====
-- What the search finds in a packet that is put together from fields.
use mathlib.Core.Path.{ap₂}
use tiedie.Prelude.{
  concat, ◌≡◌, ◌⊎◌, inl, inr, refl, ap, sym, ◌∙◌, ℕ, zero, suc, ◌+◌, ◌-◌, ◌*◌, ◌/◌, ◌<◌, Bool, true,
  false, ◌||◌, List, [], ◌∷◌, ◌++◌, Option, some, arith, length, length-append, any, All,
  if◌then◌else◌, append_assoc,
}
use tiedie.Python.{ok}
use tiedie.Ble.Advertisements.{
  take, drop, same_bytes, is_list_type, compare_uuids, at_field, search_fields,
  find_service_in_advertisement,
}
use tiedie.Ble.Advertisements.Slices.{
  drop_prefix, take-append, get_elem?-append, get_elem?-append_next,
}

pub data Field : Type 0 where
  -- a list of UUIDs, and a field of any other type
  uuids : ℕ → List (List ℕ) → Field
  other : ℕ → List ℕ → Field

abbrev framed : ℕ → List ℕ → List ℕ → List ℕ
framed t content rest = (length content + 1) ∷ t ∷ content ++ rest

abbrev pub encode : List Field → List ℕ
encode [] = []
encode (uuids t us ∷ fields) = framed t (concat us) (encode fields)
encode (other t content ∷ fields) = framed t content (encode fields)

-- does the field list the UUID?
abbrev pub advertises : List ℕ → Field → Bool
advertises uuid (uuids t us) = any (λ u. same_bytes u uuid) us
advertises uuid (other t content) = false

-- A list of UUIDs of length `k` has one of the two types for that length; no other field has.
abbrev pub IsWellFormed : ℕ → Field → Type 0
IsWellFormed k (uuids t us) = (is_list_type k t ≡ true) × All (λ u. length u ≡ k) us
IsWellFormed k (other t content) = is_list_type k t ≡ false

or_if : (a b : Bool) → (if a then some true else some b) ≡ some (a || b)
or_if true b = refl
or_if false b = refl

module _ (uuid : List ℕ) where
  slice :
      (q u ys : List ℕ) (start : ℕ)
      → length q ≡ start
      → length u ≡ length uuid
      → take (length uuid) (drop start (q ++ (u ++ ys))) ≡ u
  slice q u ys start place size = rw (← place, ← size, drop_prefix q (u ++ ys)) (take-append u ys)

  next_place :
      (q u : List ℕ) (i j k : ℕ)
      → length q ≡ i + 2 + j * k
      → length u ≡ k
      → length (q ++ u) ≡ i + 2 + suc j * k
  next_place q u i j k place size = grind (arith, length-append q u)

  compare-any :
      (us : List (List ℕ)) (q post : List ℕ) (i j : ℕ)
      → length q ≡ i + 2 + j * length uuid
      → All (λ u. length u ≡ length uuid) us
      → compare_uuids (q ++ (concat us ++ post)) uuid (length us) i j
        ≡ any (λ u. same_bytes u uuid) us
  unfolding compare_uuids any
  compare-any [] q post i j place sizes = refl
  compare-any (u ∷ us) q post i j place (size, sizes) =
      ap₂ (λ a b. same_bytes a uuid || b)
        (ap (λ xs. take (length uuid) (drop (i + 2 + j * length uuid) (q ++ xs)))
            (append_assoc u (concat us) post)
          ∙ slice q u (concat us ++ post) _ place size)
        (ap (λ d. compare_uuids d uuid (length us) i (suc j))
            (ap (λ xs. q ++ xs) (append_assoc u (concat us) post)
              ∙ sym (append_assoc q u (concat us ++ post)))
          ∙ compare-any us (q ++ u) post i (suc j) (next_place q u i j (length uuid) place size)
              sizes)

  search_step :
      (pre ys : List ℕ) (l t fuel : ℕ)
      → search_fields (pre ++ l ∷ t ∷ ys) uuid (suc fuel) (length pre)
        ≡ at_field
            (pre ++ l ∷ t ∷ ys)
            uuid
            (length pre)
            l
            t
            (search_fields (pre ++ l ∷ t ∷ ys) uuid fuel (length pre + (l + 1)))
  unfolding search_fields
  search_step pre ys l t fuel = ground (
    arith,
    length-append pre (l ∷ t ∷ ys),
    get_elem?-append pre l (t ∷ ys),
    get_elem?-append_next pre l t ys,
  )

  length-concat :
      (k : ℕ) (us : List (List ℕ)) → All (λ u. length u ≡ k) us → length (concat us) ≡ length us * k
  length-concat k [] h = omega arith
  length-concat k (u ∷ us) (size, sizes) =
      grind (arith, length-append u (concat us), length-concat k us sizes)

  count_uuids : (n m k : ℕ) → (k ≡ 2) ⊎ (k ≡ 16) → m ≡ n * k → (m + 1 - 1) / k ≡ n
  count_uuids n m k (inl e) h = rw e (omega (arith, h ∙ ap (λ (x : ℕ). n * x) e))
  count_uuids n m k (inr e) h = rw e (omega (arith, h ∙ ap (λ (x : ℕ). n * x) e))

  search_end :
      (pre : List ℕ) (fuel : ℕ)
      → search_fields (pre ++ []) uuid (suc fuel) (length pre) ≡ some false
  unfolding search_fields
  search_end pre fuel = ground (arith, length-append pre [])

  next_field :
      (t : ℕ) (content pre rest : List ℕ) (fuel : ℕ)
      → search_fields
          (pre ++ framed t content rest)
          uuid
          fuel
          (length pre + (length content + 1 + 1))
        ≡ search_fields
            ((pre ++ (length content + 1) ∷ t ∷ content) ++ rest)
            uuid
            fuel
            (length (pre ++ (length content + 1) ∷ t ∷ content))
  next_field t content pre rest fuel =
      ap₂ (λ d i. search_fields d uuid fuel i)
        (sym (append_assoc pre ((length content + 1) ∷ t ∷ content) rest))
        (omega (arith, length-append pre ((length content + 1) ∷ t ∷ content)))

  module _ (d : List ℕ) (i l t : ℕ) {r : Option Bool} {b : Bool} where
    listed :
        {a : Bool}
        → is_list_type (length uuid) t ≡ true
        → compare_uuids d uuid ((l - 1) / length uuid) i 0 ≡ a
        → r ≡ some b
        → at_field d uuid i l t r ≡ some (a || b)
    listed typed same next = rw (typed, same, next) (or_if _ b)

    unlisted : is_list_type (length uuid) t ≡ false → r ≡ some b → at_field d uuid i l t r ≡ some b
    unlisted untyped next = rw (untyped, next) refl

  module _ (two_or_sixteen : (length uuid ≡ 2) ⊎ (length uuid ≡ 16)) where
    -- the comparison of a field that is a list of UUIDs
    compare-field :
        (t : ℕ) (us : List (List ℕ)) (pre post : List ℕ)
        → All (λ u. length u ≡ length uuid) us
        → compare_uuids
            (pre ++ framed t (concat us) post)
            uuid
            ((length (concat us) + 1 - 1) / length uuid)
            (length pre)
            0
          ≡ any (λ u. same_bytes u uuid) us
    compare-field t us pre post sizes =
        ap₂ (λ n d. compare_uuids d uuid n (length pre) 0)
          (count_uuids (length us) (length (concat us)) (length uuid) two_or_sixteen
            (length-concat (length uuid) us sizes))
          (sym (append_assoc pre ((length (concat us) + 1) ∷ t ∷ []) (concat us ++ post)))
        ∙ compare-any us (pre ++ (length (concat us) + 1) ∷ t ∷ []) post (length pre) 0
            (omega (arith, length-append pre ((length (concat us) + 1) ∷ t ∷ []))) sizes

    search-encode :
        (fields : List Field) (pre : List ℕ) (fuel : ℕ)
        → All (IsWellFormed (length uuid)) fields
        → length (encode fields) < fuel
        → search_fields (pre ++ encode fields) uuid fuel (length pre)
          ≡ some (any (advertises uuid) fields)
    unfolding any
    search-encode fields pre zero formed enough = elim enough [ ]
    search-encode [] pre (suc fuel) formed enough = search_end pre fuel
    search-encode (uuids t us ∷ fields) pre (suc fuel) ((typed, sizes), formed) enough =
        search_step pre (concat us ++ encode fields) (length (concat us) + 1) t fuel
        ∙ listed (pre ++ framed t (concat us) (encode fields)) (length pre) (length (concat us) + 1)
            t typed (compare-field t us pre (encode fields) sizes)
            (next_field t (concat us) pre (encode fields) fuel
              ∙ search-encode fields (pre ++ (length (concat us) + 1) ∷ t ∷ concat us) fuel formed
                  (omega (arith, enough, length-append (concat us) (encode fields))))
    search-encode (other t content ∷ fields) pre (suc fuel) (untyped, formed) enough =
        search_step pre (content ++ encode fields) (length content + 1) t fuel
        ∙ unlisted (pre ++ framed t content (encode fields)) (length pre) (length content + 1) t
            untyped
            (next_field t content pre (encode fields) fuel
              ∙ search-encode fields (pre ++ (length content + 1) ∷ t ∷ content) fuel formed
                  (omega (arith, enough, length-append content (encode fields))))

-- For a UUID of 2 or of 16 bytes and a packet that is put together from fields, where each list of
-- UUIDs has a type for UUIDs of that length and entries of that length, and no other field has
-- such a type: the search ends, and its answer is whether one of the lists has the UUID.
pub find_service-encode :
    (uuid : List ℕ) (fields : List Field)
    → (length uuid ≡ 2) ⊎ (length uuid ≡ 16)
    → All (IsWellFormed (length uuid)) fields
    → find_service_in_advertisement (encode fields) uuid ≡ some (ok (any (advertises uuid) fields))
unfolding find_service_in_advertisement
find_service-encode uuid fields (inl e) formed =
    rw (e, search-encode uuid (inl e) fields [] (suc (length (encode fields))) formed (omega arith))
find_service-encode uuid fields (inr e) formed =
    rw (e, search-encode uuid (inr e) fields [] (suc (length (encode fields))) formed (omega arith))
