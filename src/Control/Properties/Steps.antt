-- ===== src/Control/Properties/Steps.antt =====
-- What the calls of the access point guarantee: they never return early.
use tiedie.Prelude.{pos, Bool, true, false, List, [], String}
use tiedie.Python.{Result, ok, raise}
use tiedie.Python.Handlers.{pure, lift, ◌>>◌}
use tiedie.Python.Guarantees.{Ends, Guarantees, then-Guarantees}
use tiedie.Json.{Json}
use tiedie.Control.AccessPoint.{AccessPoint, Service, options_of, call}
use tiedie.Control.Properties.{connect_first, disconnect_last}

abbrev pub Any : {A : Type 0} → A → Type 0
Any a = Unit {0}

module _ {S R : Type 0} (Q : R → Type 0) where
  pub call-Guarantees : {A : Type 0} (f : S → Result A × S) → Guarantees {R = R} Any Q (call f)
  call-Guarantees {A} f s = by_result (f s)
    where
      by_result : (r : Result A × S) → Ends {R = R} Any Q (call (λ _. r) s).0
      by_result (ok a, s') = tt
      by_result (raise e, s') = tt

  pub lift-Guarantees : {A : Type 0} (r : Result A) → Guarantees {S = S} {R = R} Any Q (lift r)
  lift-Guarantees (ok a) s = tt
  lift-Guarantees (raise e) s = tt

  module _ (ap : AccessPoint S) (address : String) where
    pub connect_first-Guarantees :
        (b : Bool) (services : List Json)
        → Guarantees {R = R} Any Q (connect_first ap address b services)
    connect_first-Guarantees false services = λ s. tt
    connect_first-Guarantees true services =
        then-Guarantees Any Any Q (call opens) (call finds >> pure tt) (call-Guarantees opens)
          (then-Guarantees Any Any Q (call finds) (pure tt) (call-Guarantees finds) (λ s. tt))
      where
        opens : S → Result (Unit {0}) × S
        opens = ap.connect address (options_of []) (pos 3)

        finds : S → Result (List Service) × S
        finds = ap.discover address (options_of services) (pos 3)

    pub disconnect_last-Guarantees :
        (b : Bool) → Guarantees {R = R} Any Q (disconnect_last ap address b)
    disconnect_last-Guarantees false = λ s. tt
    disconnect_last-Guarantees true = call-Guarantees (ap.disconnect address)
