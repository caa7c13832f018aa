-- ===== src/Serial/Runs.antt =====
-- Histories of the transport: the steps that the event loop takes, in any order.
use tiedie.Prelude.{ℤ, Bool, List, [], ◌∷◌, String}
use tiedie.Serial.State.{Backend}
use tiedie.Serial.Lines.{handle_parts}
use tiedie.Serial.Requests.{begin_request, finish_request}
use tiedie.Serial.Lifecycle.{acquire, release, end_reader}

pub data Op : Type 0 where
  line : List String → Op
  begin : List String → Op
  finish : ℤ → Op
  acquires : Bool → Bool → Bool → Op
  releases : Op
  -- a read of the port fails, or the call of the event loop does
  reader_ends : Op

unfoldable pub step : Op → Backend → Backend
step (line parts) s = handle_parts parts s
step (begin parts) s = (begin_request parts s).1
step (finish req_id) s = (finish_request req_id s).1
step (acquires can_open on_adv on_conn_event) s = (acquire can_open on_adv on_conn_event s).1
step releases s = release s
step reader_ends s = end_reader s

unfoldable pub run : List Op → Backend → Backend
run [] s = s
run (op ∷ ops) s = run ops (step op s)
