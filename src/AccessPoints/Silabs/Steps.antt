-- ===== src/AccessPoints/Silabs/Steps.antt =====
-- Histories of the access point: events of the radio and calls of its methods, one after another.
use tiedie.Prelude.{
  ℕ, true, List, [], ◌∷◌, String, Dict, string_eq, Option, none, some, lookup, insert,
}
use tiedie.Python.{Result}
use tiedie.Ble.Services.{Service, ConnectionRequest}
use tiedie.AccessPoints.Contract.{Key}
use tiedie.AccessPoints.Silabs.Operations.{Evt, Publication, Discovery, discovering}
use tiedie.AccessPoints.Silabs.Events.{SilabsAccessPoint, receive_all}
use tiedie.AccessPoints.Silabs.Calls
use tiedie.AccessPoints.Silabs.Calls.{Radio, append, new_operation}
use tiedie.AccessPoints.Silabs.Values

-- A call has the events that arrive during its wait.
pub data Step : Type 0 where
  events : List Evt → Step
  connect : Radio → String → ℕ → Step
  disconnect : List Evt → String → Step
  -- with the services that were found
  discover : List Evt → String → Dict String Service → Step
  read subscribe unsubscribe : List Evt → Key → Step
  write : List Evt → Key → List ℕ → Step

-- before `start_scan`
abbrev pub init : SilabsAccessPoint
init = record {
  heap = [];
  next = 0;
  operations = [];
  conn_reqs = [];
  running = true;
  commands = [];
}

-- `self.conn_reqs[address].services = …`
abbrev pub with_services :
    Option ConnectionRequest → String → Dict String Service → SilabsAccessPoint → SilabsAccessPoint
with_services none address services s = s
with_services (some r) address services s = record s {
  conn_reqs = insert address (record r { services = services }) s.conn_reqs;
}

abbrev no_discovery : Discovery
no_discovery = record {
  services = [];
  current_service = none;
  current_characteristic = none;
  result = none;
}

module _ (publish : Publication → Result (Unit {0})) where
  -- What an operation that discovers does to the state but for its commands: it is appended, and
  -- what it found goes to the connection, if there still is one.
  abbrev pub discovered :
      Option ConnectionRequest
      → List Evt
      → String
      → Dict String Service
      → SilabsAccessPoint
      → SilabsAccessPoint
  discovered none evts address services s = s
  discovered (some r) evts address services s =
      let s' =
        receive_all publish evts (append (new_operation (discovering no_discovery) r.handle) s) in
      with_services (lookup address s'.conn_reqs) address services s'

  abbrev pub step : Step → SilabsAccessPoint → SilabsAccessPoint
  step (events evts) s = receive_all publish evts s
  step (Step.connect radio address retries) s = (Calls.connect publish radio address retries s).1
  step (Step.disconnect evts address) s = (Calls.disconnect publish evts address s).1
  step (discover evts address services) s =
      discovered (lookup address s.conn_reqs) evts address services s
  step (Step.read evts key) s = (Values.read publish evts key s).1
  step (Step.subscribe evts key) s = (Values.subscribe publish evts key s).1
  step (Step.unsubscribe evts key) s = (Values.unsubscribe publish evts key s).1
  step (Step.write evts key value) s = (Values.write publish evts key value s).1

  abbrev pub steps : List Step → SilabsAccessPoint → SilabsAccessPoint
  steps [] s = s
  steps (t ∷ ts) s = steps ts (step t s)
