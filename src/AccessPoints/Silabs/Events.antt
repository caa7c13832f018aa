-- ===== src/AccessPoints/Silabs/Events.antt =====
-- The state of `SilabsAccessPoint` of gateway/silabs/silabs_access_point.py and the thread that
-- handles the radio's events, the main loop of `GenericApp` in gateway/silabs/common/util.py.
-- Operations are shared objects: the heap has them by identity, and the access point's list their
-- identities, so a call still sees its operation after the event thread has dropped it.
use tiedie.Prelude.{
  ℕ, Bool, true, false, Option, none, some, List, [], ◌∷◌, String, Dict, lookup, insert, nat_eq,
  string_eq, if◌then◌else◌, ◌==ℕ◌, keep,
}
use tiedie.Python.{Result, ok, raise}
use tiedie.Ble.Services.{ConnectionRequest}
use tiedie.AccessPoints.Silabs.Operations.{
  Evt, connection_closed, Publication, Operation, handle_event,
}

-- what is sent to the radio
pub data Command : Type 0 where
  -- whether the address is public
  open' : String → Bool → Command
  close : ℕ → Command
  read_value : ℕ → ℕ → Command
  write_value : ℕ → ℕ → List ℕ → Command
  -- the flag of a subscription
  set_notification : ℕ → ℕ → ℕ → Command

pub record SilabsAccessPoint : Type 0 where
  pub heap : Dict ℕ Operation
  pub next : ℕ
  pub operations : List ℕ
  pub conn_reqs : Dict String ConnectionRequest
  -- the event thread runs
  pub running : Bool
  pub commands : List Command

abbrev pub Heap : Type 0
Heap = Dict ℕ Operation

abbrev pub is_done_of : Option Operation → Bool
is_done_of none = false
is_done_of (some op) = op.is_done

abbrev pub is_done_in : Heap → ℕ → Bool
is_done_in heap i = is_done_of (lookup i heap)

-- `for address, conn_req in conn_reqs.items(): if …: pop(address); break`
unfoldable pub pop_handle : ℕ → Dict String ConnectionRequest → Dict String ConnectionRequest
pop_handle c [] = []
pop_handle c ((address, r) ∷ reqs) =
    if r.handle ==ℕ c then reqs else (address, r) ∷ pop_handle c reqs

-- the method of the access point that is named after the event
abbrev pub event_callback : Evt → SilabsAccessPoint → SilabsAccessPoint
event_callback (connection_closed c reason) s = record s { conn_reqs = pop_handle c s.conn_reqs }
event_callback _ s = s

abbrev pub then_handle :
    Result (Unit {0}) → Heap → (Heap → Result (Unit {0}) × Heap) → Result (Unit {0}) × Heap
then_handle (ok _) heap f = f heap
then_handle (raise e) heap f = (raise e, heap)

abbrev pub handled : Result (Unit {0}) × Heap → Evt → SilabsAccessPoint → SilabsAccessPoint
handled (ok _, heap) evt s = event_callback evt (record s {
  heap = heap;
  operations = keep (λ i. if is_done_in heap i then false else true) s.operations;
})
-- the exception ends the thread
handled (raise e, heap) evt s = record s { heap = heap; running = false }

module _ (publish : Publication → Result (Unit {0})) where
  -- an operation handles the event, and then the rest of the operations do
  abbrev pub handle_found :
      Option Operation
      → Evt
      → ℕ
      → Heap
      → (Heap → Result (Unit {0}) × Heap)
      → Result (Unit {0}) × Heap
  handle_found none evt i heap f = f heap
  handle_found (some op) evt i heap f =
      let r = handle_event publish evt op in then_handle r.0 (insert i r.1 heap) f

  -- `for operation in self.operations: operation.handle_event(evt)`
  unfoldable pub handle_all : Evt → List ℕ → Heap → Result (Unit {0}) × Heap
  handle_all evt [] heap = (ok tt, heap)
  handle_all evt (i ∷ is) heap = handle_found (lookup i heap) evt i heap (handle_all evt is)

  -- An event, which nobody handles once the thread has ended.
  unfoldable pub receive : Evt → SilabsAccessPoint → SilabsAccessPoint
  unfolding pop_handle handle_all
  receive evt s = if s.running then handled (handle_all evt s.operations s.heap) evt s else s

  unfoldable pub receive_all : List Evt → SilabsAccessPoint → SilabsAccessPoint
  unfolding receive
  receive_all [] s = s
  receive_all (evt ∷ evts) s = receive_all evts (receive evt s)
