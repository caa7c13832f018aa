-- ===== src/Server/Outcomes.antt =====
-- What `Connect` answers, after how many attempts.
use mathlib.Core.Path.{subst}
use tiedie.Prelude.{
  ◌≡◌, ◌⊎◌, inl, inr, refl, ap, ◌∙◌, ℕ, ℤ, zero, suc, ◌+◌, ◌<◌, Bool, false, String, arith,
}
use tiedie.Python.{Exc, Result, ok, raise}
use tiedie.Serial.State.{Backend}
use tiedie.Serial.Lifecycle.{acquire, release}
use tiedie.Server.Calls.{
  Requests, Error, no_error, failed, Response, succeeded, error, retries_of, released, or_next,
  connect_loop, connect,
}

module _ (backend : Requests) (mac_address : String) where
  -- the backend after some attempts
  abbrev pub tries : ℕ → Backend → Backend
  tries zero s = s
  tries (suc k) s = tries k (backend.connect mac_address s).1

  -- the attempt after `k` attempts
  abbrev pub Fails : ℕ → Backend → Type 0
  Fails k s = (x : Exc) × ((backend.connect mac_address (tries k s)).0 ≡ raise x)

  abbrev pub Succeeds : ℕ → Backend → Type 0
  Succeeds k s = (backend.connect mac_address (tries k s)).0 ≡ ok tt

  -- one of the first `n` attempts is the first to succeed
  abbrev pub FirstOf : ℕ → Backend → Response (Unit {0}) × Backend → Type 0
  FirstOf n s r =
      (k : ℕ) × (k < n)
      × ((j : ℕ) → j < k → Fails j s)
      × Succeeds k s
      × (r ≡ (succeeded tt, tries (suc k) s))

  -- all `n` attempts fail
  abbrev pub NoneOf : ℕ → Backend → Response (Unit {0}) × Backend → Type 0
  NoneOf n s r = (x : Exc) × ((j : ℕ) → j < n → Fails j s) × (r ≡ (error (failed x), tries n s))

  Outcome : ℕ → Backend → Response (Unit {0}) × Backend → Type 0
  Outcome n s r = FirstOf n s r ⊎ NoneOf n s r

  none_before : (s : Backend) (j : ℕ) → j < 0 → Fails j s
  none_before s j h = elim h [ ]

  Fails-next :
      (n : ℕ) (s : Backend) (x : Exc)
      → (backend.connect mac_address s).0 ≡ raise x
      → ((j : ℕ) → j < n → Fails j (backend.connect mac_address s).1)
      → (j : ℕ) → j < suc n
      → Fails j s
  Fails-next n s x e rest zero h = (x, e)
  Fails-next n s x e rest (suc j) h = rest j (omega arith)

  later :
      (n : ℕ) (s : Backend) (x : Exc) (r : Response (Unit {0}) × Backend)
      → (backend.connect mac_address s).0 ≡ raise x
      → Outcome n (backend.connect mac_address s).1 r
      → Outcome (suc n) s r
  unfolding Outcome
  later n s x r e (inl (k, below, before, success, same)) =
      inl (suc k, omega arith, Fails-next k s x e before, success, same)
  later n s x r e (inr (y, all, same)) = inr (y, Fails-next n s x e all, same)

  by_result :
      (n : ℕ) (s : Backend) (r : Result (Unit {0}))
      → (backend.connect mac_address s).0 ≡ r
      → Outcome
          (suc n)
          s
          (or_next (r, (backend.connect mac_address s).1) (connect_loop backend n mac_address))
  unfolding Outcome connect_loop
  by_result n s (ok u) e = inl (0, omega arith, none_before s, e, refl)
  by_result zero s (raise x) e =
      inr (x, Fails-next 0 s x e (none_before (backend.connect mac_address s).1), refl)
  by_result (suc n) s (raise x) e = later (suc n) s x _ e (
      by_result n (backend.connect mac_address s).1
        (backend.connect mac_address (backend.connect mac_address s).1).0 refl)

  loop-Outcome :
      (n : ℕ) (e : Error) (s : Backend)
      → Outcome (suc n) s (connect_loop backend (suc n) mac_address e s)
  unfolding connect_loop
  loop-Outcome n e s = by_result n s (backend.connect mac_address s).0 refl

suc_plus : (n : ℕ) → suc n ≡ n + 1
suc_plus n = omega arith

pub released_ok :
    {A : Type 0} (r : Result (Unit {0}) × Backend) (body : Backend → Response A × Backend)
    → r.0 ≡ ok tt
    → released r body ≡ (ok (body r.1).0, release (body r.1).1)
released_ok (ok u, s) body h = refl
released_ok (raise e, s) body h = cc

-- `Connect` once it has acquired the backend, with a number of retries below 0 counted as none. If
-- one of the first attempts, up to one more than the retries, succeeds, it answers that the device
-- is connected and has made no attempt after the first that succeeded. Otherwise all these
-- attempts failed, it has made no others, and it answers with an exception. In both cases the
-- backend is released.
pub connect_outcome :
    (backend : Requests) (can_open : Bool) (mac_address : String) (retries : ℤ) (s : Backend)
    → (acquire can_open false false s).0 ≡ ok tt
    → ((k : ℕ) × (k < retries_of retries + 1)
        × ((j : ℕ) → j < k → Fails backend mac_address j (acquire can_open false false s).1)
        × Succeeds backend mac_address k (acquire can_open false false s).1
        × (connect backend can_open mac_address retries s ≡ (
          ok (succeeded tt),
          release (tries backend mac_address (suc k) (acquire can_open false false s).1),
        )))
      ⊎ ((x : Exc) × ((j : ℕ)
            → j < retries_of retries + 1
            → Fails backend mac_address j (acquire can_open false false s).1)
          × (connect backend can_open mac_address retries s ≡ (
            ok (error (failed x)),
            release (
                tries backend mac_address
                  (retries_of retries + 1)
                  (acquire can_open false false s).1),
          )))
unfolding connect Outcome
connect_outcome backend can_open mac_address retries s opened = by_outcome (
    subst (λ n. Outcome backend mac_address n t (connect_loop backend n mac_address no_error t))
      (suc_plus (retries_of retries))
      (loop-Outcome backend mac_address (retries_of retries) no_error t))
  where
    t : Backend
    t = (acquire can_open false false s).1

    answer :
        (r : Response (Unit {0}) × Backend)
        → connect_loop backend (retries_of retries + 1) mac_address no_error t ≡ r
        → connect backend can_open mac_address retries s ≡ (ok r.0, release r.1)
    answer r e =
        released_ok (acquire can_open false false s)
          (connect_loop backend (retries_of retries + 1) mac_address no_error) opened
        ∙ ap (λ (q : Response (Unit {0}) × Backend). (ok q.0, release q.1)) e

    by_outcome :
        Outcome backend mac_address
          (retries_of retries + 1)
          t
          (connect_loop backend (retries_of retries + 1) mac_address no_error t)
        → ((k : ℕ) × (k < retries_of retries + 1)
            × ((j : ℕ) → j < k → Fails backend mac_address j (acquire can_open false false s).1)
            × Succeeds backend mac_address k (acquire can_open false false s).1
            × (connect backend can_open mac_address retries s ≡ (
              ok (succeeded tt),
              release (tries backend mac_address (suc k) (acquire can_open false false s).1),
            )))
          ⊎ ((x : Exc) × ((j : ℕ)
                → j < retries_of retries + 1
                → Fails backend mac_address j (acquire can_open false false s).1)
              × (connect backend can_open mac_address retries s ≡ (
                ok (error (failed x)),
                release (
                    tries backend mac_address
                      (retries_of retries + 1)
                      (acquire can_open false false s).1),
              )))
    by_outcome (inl (k, below, before, success, same)) =
        inl (k, below, before, success, answer _ same)
    by_outcome (inr (x, all, same)) = inr (x, all, answer _ same)
