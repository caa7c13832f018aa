-- ===== src/Control/DataApps/Granted.antt =====
-- Which topics the broker lets an application read after its access list is replaced.
use tiedie.Prelude.{
  ◌≡◌, ◌⊎◌, inl, inr, refl, sym, ap, Bool, true, false, not, Option, none, some, List, [], ◌∷◌,
  String, ◌==◌, if◌then◌else◌,
}
use mathlib.Core.Path.{subst}
use tiedie.Prelude.{◌∙◌, ◌≢◌, ◌↔◌, eq_refl, eq_false}
use tiedie.Python.{Result, ok, raise, ◌>>=◌, ok-injective}
use tiedie.Json.{Json, get, truthy}
use tiedie.Database.Tables.{Table, IsTable}
use tiedie.Database.Rows.{DataAppTopic}
use tiedie.Database.Session.{same_topic}
use tiedie.Control.DataApps.Acl.{topic_of, or_database_error, add_topic, add_topics, replace_acl}

-- One of the events has this topic for the data application.
pub data Grants (data_app_id topic : String) : List Json → Type 0 where
  here :
      {event event_name : Json} {events : List Json}
      → get event "event" ≡ ok event_name
      → truthy event_name ≡ true
      → topic_of data_app_id event_name ≡ ok topic
      → Grants data_app_id topic (event ∷ events)
  later :
      {event : Json} {events : List Json}
      → Grants data_app_id topic events
      → Grants data_app_id topic (event ∷ events)

module _ (T : Table DataAppTopic) (L : IsTable T same_topic) (username data_app_id : String) where
  open L use {Has, has-add, add_has, add_keeps, has-delete, delete_keeps}

  abbrev row : String → DataAppTopic
  row topic = record { data_app_id = username; topic = topic }

  -- what one round does
  data Round (event : Json) (t t' : T.Contents) : Type 0 where
    skipped :
        {event_name : Json}
        → get event "event" ≡ ok event_name
        → truthy event_name ≡ false
        → t' ≡ t
        → Round event t t'
    granted :
        {event_name : Json} {topic : String}
        → get event "event" ≡ ok event_name
        → truthy event_name ≡ true
        → topic_of data_app_id event_name ≡ ok topic
        → T.add (row topic) t ≡ some t'
        → Round event t t'

  add_topic-Round :
      (event : Json) (t t' : T.Contents)
      → add_topic T username data_app_id event t ≡ ok t'
      → Round event t t'
  unfolding add_topic
  add_topic-Round event t t' h = by_event (get event "event") refl h
    where
      by_add :
          (event_name : Json) (topic : String) (o : Option T.Contents)
          → get event "event" ≡ ok event_name
          → truthy event_name ≡ true
          → topic_of data_app_id event_name ≡ ok topic
          → T.add (row topic) t ≡ o
          → or_database_error o ≡ ok t'
          → Round event t t'
      by_add event_name topic none g e n added k = cc
      by_add event_name topic (some t'') g e n added k =
          granted g e n (added ∙ ap some (ok-injective k))

      by_topic :
          (event_name : Json) (r : Result String)
          → get event "event" ≡ ok event_name
          → truthy event_name ≡ true
          → topic_of data_app_id event_name ≡ r
          → (r >>= λ topic. or_database_error (T.add (row topic) t)) ≡ ok t'
          → Round event t t'
      by_topic event_name (raise e) g y n k = cc
      by_topic event_name (ok topic) g y n k = by_add event_name topic _ g y n refl k

      by_truth :
          (event_name : Json) (b : Bool)
          → get event "event" ≡ ok event_name
          → truthy event_name ≡ b
          → (if not b
              then ok t
              else (topic_of data_app_id event_name >>= λ topic.
                  or_database_error (T.add (row topic) t)))
            ≡ ok t'
          → Round event t t'
      by_truth event_name false g y k = skipped g y (sym (ok-injective k))
      by_truth event_name true g y k = by_topic event_name _ g y refl k

      by_event :
          (r : Result Json)
          → get event "event" ≡ r
          → (r >>= λ event_name.
              if not (truthy event_name)
              then ok t
              else (topic_of data_app_id event_name >>= λ topic.
                  or_database_error (T.add (row topic) t)))
            ≡ ok t'
          → Round event t t'
      by_event (raise e) g k = cc
      by_event (ok event_name) g k = by_truth event_name _ g refl k

  -- what a loop of rounds does
  data Rounds : List Json → T.Contents → T.Contents → Type 0 where
    done : {t t' : T.Contents} → t' ≡ t → Rounds [] t t'
    next :
        {event : Json} {events : List Json} {t t' t'' : T.Contents}
        → Round event t t'
        → Rounds events t' t''
        → Rounds (event ∷ events) t t''

  add_topics-Rounds :
      (events : List Json) (t t' : T.Contents)
      → add_topics T username data_app_id events t ≡ ok t'
      → Rounds events t t'
  unfolding add_topics
  add_topics-Rounds [] t t' h = done (sym (ok-injective h))
  add_topics-Rounds (event ∷ events) t t' h =
      by_round (λ t1. add_topics-Rounds events t1 t') (add_topic T username data_app_id event t)
        refl h
    where
      by_round :
          ((t1 : T.Contents)
            → add_topics T username data_app_id events t1 ≡ ok t'
            → Rounds events t1 t')
          → (r : Result T.Contents) → add_topic T username data_app_id event t ≡ r
          → (r >>= λ t1. add_topics T username data_app_id events t1) ≡ ok t'
          → Rounds (event ∷ events) t t'
      by_round rest (raise e) g k = cc
      by_round rest (ok t1) g k = next (add_topic-Round event t t1 g) (rest t1 k)

  Round-keeps :
      (event : Json) (t t' : T.Contents) (q : DataAppTopic) → Round event t t' → Has q t → Has q t'
  Round-keeps event t t' q (skipped _ _ same) m = subst (Has q) (sym same) m
  Round-keeps event t t' q (granted {topic = topic} g y n added) m =
      add_keeps (row topic) q t t' added m

  Rounds-keep :
      (events : List Json) (t t' : T.Contents) (q : DataAppTopic)
      → Rounds events t t'
      → Has q t
      → Has q t'
  Rounds-keep [] t t' q (done same) m = subst (Has q) (sym same) m
  Rounds-keep (event ∷ events) t t' q (next {t' = t1} r rs) m =
      Rounds-keep events t1 t' q rs (Round-keeps event t t1 q r m)

  Round-Has :
      (event : Json) (events : List Json) (t t' : T.Contents) (q : DataAppTopic)
      → Round event t t'
      → Has q t'
      → ((q.data_app_id ≡ username) × Grants data_app_id q.topic (event ∷ events)) ⊎ Has q t
  Round-Has event events t t' q (skipped _ _ same) m = inr (subst (Has q) same m)
  Round-Has event events t t' q (granted {event_name} {topic} g y n added) m =
      by_old (has-add (row topic) q t t' added m)
    where
      by_old :
          (q ≡ row topic) ⊎ Has q t
          → ((q.data_app_id ≡ username) × Grants data_app_id q.topic (event ∷ events)) ⊎ Has q t
      by_old (inr old) = inr old
      by_old (inl new) = inl (
        ap (λ x. x.data_app_id) new,
        subst (λ x. Grants data_app_id x.topic (event ∷ events)) (sym new) (here g y n),
      )

  -- A row of the result is an old one, or one of an event.
  Rounds-Has :
      (events : List Json) (t t' : T.Contents) (q : DataAppTopic)
      → Rounds events t t'
      → Has q t'
      → ((q.data_app_id ≡ username) × Grants data_app_id q.topic events) ⊎ Has q t
  Rounds-Has [] t t' q (done same) m = inr (subst (Has q) same m)
  Rounds-Has (event ∷ events) t t' q (next {t' = t1} r rs) m =
      by_rest (Rounds-Has events t1 t' q rs m)
    where
      by_rest :
          ((q.data_app_id ≡ username) × Grants data_app_id q.topic events) ⊎ Has q t1
          → ((q.data_app_id ≡ username) × Grants data_app_id q.topic (event ∷ events)) ⊎ Has q t
      by_rest (inl (same, g)) = inl (same, later g)
      by_rest (inr m1) = Round-Has event events t t1 q r m1

  Round-grants :
      (event : Json) (t t' : T.Contents) (event_name : Json) (topic : String)
      → Round event t t'
      → get event "event" ≡ ok event_name
      → truthy event_name ≡ true
      → topic_of data_app_id event_name ≡ ok topic
      → Has (row topic) t'
  Round-grants event t t' event_name topic (skipped {event_name = e} g' y' same) g y n = cc
  Round-grants event t t' event_name topic (granted {topic = topic'} g' y' n' added) g y n =
      subst (λ x. Has (row x) t') same_topic_name (add_has (row topic') t t' added)
    where
      same_topic_name : topic' ≡ topic
      same_topic_name =
          ok-injective (sym n' ∙ ap (topic_of data_app_id) (ok-injective (sym g' ∙ g)) ∙ n)

  -- Every topic of an event is in the result.
  Rounds-Grants :
      (events : List Json) (t t' : T.Contents) (topic : String)
      → Rounds events t t'
      → Grants data_app_id topic events
      → Has (row topic) t'
  Rounds-Grants [] t t' topic rs g = elim g [ ]
  Rounds-Grants (event ∷ events) t t' topic (next {t' = t1} r rs)
        (here {event_name = event_name} g y n) =
      Rounds-keep events t1 t' (row topic) rs (Round-grants event t t1 event_name topic r g y n)
  Rounds-Grants (event ∷ events) t t' topic (next {t' = t1} r rs) (later g) =
      Rounds-Grants events t1 t' topic rs g

  -- `t'` gives the user exactly the topics of the events, and differs from `t` for no other user.
  abbrev pub IsAccess : List Json → T.Contents → T.Contents → Type 0
  IsAccess events t t' =
      ((topic : String) → Has (row topic) t' ↔ Grants data_app_id topic events)
      × ((q : DataAppTopic) → q.data_app_id ≢ username → Has q t' ↔ Has q t)

  -- With a lawful table: after the access list of a user is replaced without an error, the user
  -- may read exactly the topics of the events, and the rows of every other user are the old ones.
  pub replace_acl-IsAccess :
      (events : List Json) (t t' : T.Contents)
      → replace_acl T username data_app_id events t ≡ ok t'
      → IsAccess events t t'
  unfolding replace_acl
  replace_acl-IsAccess events t t' h = (
    λ topic. (
      λ m. read_back topic (Rounds-Has events t0 t' (row topic) rounds m),
      Rounds-Grants events t0 t' topic rounds,
    ),
    λ q other. (
      λ m. others q other (Rounds-Has events t0 t' q rounds m),
      λ m.
          Rounds-keep events t0 t' q rounds
            (delete_keeps mine t q m (eq_false q.data_app_id username other)),
    ),
  )
    where
      mine : DataAppTopic → Bool
      mine q = q.data_app_id == username

      t0 : T.Contents
      t0 = T.delete mine t

      rounds : Rounds events t0 t'
      rounds = add_topics-Rounds events t0 t' h

      read_back :
          (topic : String)
          → ((username ≡ username) × Grants data_app_id topic events) ⊎ Has (row topic) t0
          → Grants data_app_id topic events
      read_back topic (inl (_, g)) = g
      read_back topic (inr m) = absurd (cc ((has-delete mine t (row topic) m).1, eq_refl username))

      others :
          (q : DataAppTopic)
          → q.data_app_id ≢ username
          → ((q.data_app_id ≡ username) × Grants data_app_id q.topic events) ⊎ Has q t0
          → Has q t
      others q other (inl (same, _)) = absurd (other same)
      others q other (inr m) = (has-delete mine t q m).0
