-- ===== src/Server/Queues.antt =====
-- The queues of advertisements and connection events and the batches that are streamed, in
-- pi-ap/grpc_server.py.
use tiedie.Prelude.{
  ℕ, ◌-◌, zero, suc, Bool, false, List, [], ◌∷◌, ◌++◌, if◌then◌else◌, ltb, ◌&&◌, length, concat,
}

-- `asyncio.Queue(maxsize=…)`
abbrev pub adv_maxsize : ℕ
adv_maxsize = 100000

abbrev pub conn_event_maxsize : ℕ
conn_event_maxsize = 100

-- the size of a batch
abbrev pub batch_limit : ℕ
batch_limit = 200

module _ {A : Type 0} where
  -- `_queue_advertisement` and `_queue_conn_event`: what does not fit is dropped, and so is what
  -- comes while nobody streams
  unfoldable pub put_nowait : ℕ → Bool → A → List A → List A
  put_nowait maxsize streaming x queue =
      if streaming && ltb (length queue) maxsize then queue ++ x ∷ [] else queue

  -- the loop that drains the queue, with the room that is left in the batch
  unfoldable pub drain : ℕ → List A → List A × List A
  drain zero queue = ([], queue)
  drain (suc room) [] = ([], [])
  drain (suc room) (x ∷ queue) = let r = drain room queue in (x ∷ r.0, r.1)

  abbrev batched : A → List A × List A → List A × List (List A)
  batched x r = (r.1, (x ∷ r.0) ∷ [])

  -- A batch and the queue after it: `await get()` is over as soon as there is an event, and the
  -- loop takes what else there is while the batch has fewer than 200.
  unfoldable pub next_batch : List A → List A × List (List A)
  unfolding drain
  next_batch [] = ([], [])
  next_batch (x ∷ queue) = batched x (drain (batch_limit - 1) queue)

-- What happens to a stream, in any order: an event arrives, a batch is yielded, a client begins to
-- stream or ends.
pub data Move (A : Type 0) : Type 0 where
  arrive : A → Move A
  yield : Move A
  streaming : Bool → Move A

pub record Stream (A : Type 0) : Type 0 where
  pub streams : Bool
  pub queue : List A
  -- what was yielded
  pub batches : List (List A)

module _ {A : Type 0} (maxsize : ℕ) where
  abbrev pub move : Move A → Stream A → Stream A
  move (arrive x) s = record s { queue = put_nowait maxsize s.streams x s.queue }
  move yield s = let r = next_batch s.queue in record s { queue = r.0; batches = s.batches ++ r.1 }
  move (streaming b) s = record s { streams = b }

  abbrev pub moves : List (Move A) → Stream A → Stream A
  moves [] s = s
  moves (m ∷ ms) s = moves ms (move m s)

  -- what arrives while a client streams and the queue has room
  abbrev pub accepts : Move A → Stream A → List A
  accepts (arrive x) s = if s.streams && ltb (length s.queue) maxsize then x ∷ [] else []
  accepts m s = []

  abbrev pub accepted : List (Move A) → Stream A → List A
  accepted [] s = []
  accepted (m ∷ ms) s = accepts m s ++ accepted ms (move m s)

  -- what was yielded and what waits, in order
  abbrev pub events : Stream A → List A
  events s = concat s.batches ++ s.queue

-- before the first client
abbrev pub idle : {A : Type 0} → Stream A
idle = record { streams = false; queue = []; batches = [] }
