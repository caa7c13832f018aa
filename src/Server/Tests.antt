-- ===== src/Server/Tests.antt =====
-- Runs of the server's requests and streams.
use tiedie.Prelude.{
  ◌≡◌, ◌⊎◌, refl, ℕ, suc, pos, ◌+◌, ◌<◌, ◌≤◌, true, false, none, some, List, [], ◌∷◌, lookup,
  string_eq, length, All, keep, split, if◌then◌else◌, ◌==ℕ◌, ◌||◌,
}
use tiedie.Python.{Exc, ok, raise, runtime_error}
use tiedie.Serial.State.{Backend, Discovered, init}
use tiedie.Serial.Lifecycle.{acquire, release}
use tiedie.Server.Queues.{
  Move, arrive, yield, streaming, adv_maxsize, batch_limit, moves, accepted, events, idle,
}
use tiedie.Server.Streams.{moves_in_order}
use tiedie.Server.Discovery.{flags_of, assemble}
use tiedie.Server.Grouping.{names, chars_of, is_cons, lookup-assemble}
use tiedie.Server.Calls.{
  Requests, succeeded, error, failed, retries_of, connect, discover, read, write, disconnect,
}
use tiedie.Server.Outcomes.{Fails, Succeeds, tries, connect_outcome}
use tiedie.Server.Balance.{IsBalanced, requests_balance}
use tiedie.Server.Dongle.{dongle}
use tiedie.Serial.Runs.{Op, line, begin}

-- A dongle that counts ids up, connects from the second attempt on, and finds nothing.
abbrev counting : Requests
counting = record {
  connect = λ m s. (
    if s.next_id ==ℕ 1 then raise runtime_error else ok tt,
    record s { next_id = s.next_id + 1 },
  );
  discover = λ m t s. (ok (record { services = []; chars = [] }), s);
  read = λ m c s. (ok [], s);
  write = λ m c v s. (ok tt, s);
  disconnect = λ m s. (ok tt, s);
}

connects_at_second : (connect counting true "c1" (pos 3) init).0 ≡ ok (succeeded tt)
unfolding connect acquire
connects_at_second = refl

abbrev opened : Backend
opened = (acquire true false false init).1

connect_outcome_example :
    ((k : ℕ) × (k < retries_of (pos 3) + 1)
      × ((j : ℕ) → j < k → Fails counting "c1" j opened)
      × Succeeds counting "c1" k opened
      × (connect counting true "c1" (pos 3) init
          ≡ (ok (succeeded tt), release (tries counting "c1" (suc k) opened))))
    ⊎ ((x : Exc) × ((j : ℕ) → j < retries_of (pos 3) + 1 → Fails counting "c1" j opened)
        × (connect counting true "c1" (pos 3) init ≡ (
          ok (error (failed x)),
          release (tries counting "c1" (retries_of (pos 3) + 1) opened),
        )))
unfolding acquire
connect_outcome_example = connect_outcome counting true "c1" (pos 3) init refl

-- The reply to request 1 comes, while another client's request begins.
abbrev replies : ℕ → List Op
replies n = line ("RSP" ∷ "1" ∷ "OK" ∷ []) ∷ begin ("READ" ∷ "c2" ∷ "2a38" ∷ []) ∷ []

requests_balance_example :
    IsBalanced true init (connect (dongle replies) true "c1" (pos 3) init)
    × IsBalanced true init
        (discover (dongle replies) 90000 (λ k. none) (λ k. none) true "c1" (pos 3) init)
    × IsBalanced true init (read (dongle replies) true "c1" "2a38" init)
    × IsBalanced true init (write (dongle replies) true "c1" "2a38" (1 ∷ []) init)
    × IsBalanced true init (disconnect (dongle replies) true "c1" init)
requests_balance_example =
    requests_balance replies true "c1" "2a38" (1 ∷ []) (pos 3) 90000 (λ k. none) (λ k. none) init
      (λ n. (tt, (tt, tt)))

abbrev heart_rate : Discovered
heart_rate = record {
  services = "180d" ∷ "" ∷ "180d" ∷ [];
  chars =
      record { svc_uuid = "180d"; uuid = "2a37"; props = "notify|" }
      ∷ record { svc_uuid = "180f"; uuid = "2a19"; props = "read|notify" }
      ∷ [];
}

flags : flags_of "read||notify|" ≡ "read" ∷ "notify" ∷ []
unfolding flags_of keep split
flags = refl

lookup-assemble_example : lookup "180f" (assemble heart_rate) ≡ (
    if names "180f" heart_rate.services || is_cons (chars_of "180f" heart_rate.chars)
    then some (chars_of "180f" heart_rate.chars)
    else none)
lookup-assemble_example = lookup-assemble heart_rate "180f"

abbrev stream : List (Move ℕ)
stream = arrive 1 ∷ streaming true ∷ arrive 2 ∷ arrive 3 ∷ yield ∷ arrive 4 ∷ []

moves_in_order_example :
    (events adv_maxsize (moves adv_maxsize stream idle) ≡ accepted adv_maxsize stream idle)
    × (length (moves adv_maxsize stream idle).queue ≤ adv_maxsize)
    × All (λ b. (1 ≤ length b) × (length b ≤ batch_limit)) (moves adv_maxsize stream idle).batches
moves_in_order_example = moves_in_order stream
