-- ===== src/Server/Streams.antt =====
-- A stream yields what it accepts, in order, in batches of bounded size.
use tiedie.Prelude.{
  ◌≡◌, refl, ap, sym, ◌∙◌, ℕ, zero, suc, ◌-◌, ◌≤◌, Bool, true, false, List, [], ◌∷◌, ◌++◌,
  append_assoc, append-nil, if◌then◌else◌, ltb, ◌&&◌, length, length-append, concat, arith, All,
}
use tiedie.Server.Queues.{
  adv_maxsize, batch_limit, put_nowait, drain, next_batch, Move, arrive, yield, streaming, Stream,
  move, moves, accepts, accepted, events, idle,
}

module _ {A : Type 0} where
  drain-append : (room : ℕ) (queue : List A) → (drain room queue).0 ++ (drain room queue).1 ≡ queue
  unfolding drain
  drain-append zero queue = refl
  drain-append (suc room) [] = refl
  drain-append (suc room) (x ∷ queue) = ap (λ xs. x ∷ xs) (drain-append room queue)

  length-drain : (room : ℕ) (queue : List A) → length (drain room queue).0 ≤ room
  unfolding drain
  length-drain zero queue = omega arith
  length-drain (suc room) [] = omega arith
  length-drain (suc room) (x ∷ queue) = omega (arith, length-drain room queue)

module _ {A : Type 0} (maxsize : ℕ) where
  abbrev pub IsBatch : List A → Type 0
  IsBatch b = (1 ≤ length b) × (length b ≤ batch_limit)

  pub record IsFine (s : Stream A) : Type 0 where
    pub fits : length s.queue ≤ maxsize
    pub sized : All IsBatch s.batches

  next_batch-append : (queue : List A) → concat (next_batch queue).1 ++ (next_batch queue).0 ≡ queue
  unfolding next_batch
  next_batch-append [] = refl
  next_batch-append (x ∷ queue) =
      ap (λ xs. (x ∷ xs) ++ (drain (batch_limit - 1) queue).1)
        (append-nil (drain (batch_limit - 1) queue).0)
      ∙ ap (λ xs. x ∷ xs) (drain-append (batch_limit - 1) queue)

  next_batch-IsBatch : (queue : List A) → All IsBatch (next_batch queue).1
  unfolding next_batch
  next_batch-IsBatch [] = tt
  next_batch-IsBatch (x ∷ queue) =
      ((omega arith, omega (arith, length-drain (batch_limit - 1) queue)), tt)

  length-next_batch : (queue : List A) → length (next_batch queue).0 ≤ length queue
  length-next_batch queue =
      let whole = ap length (next_batch-append queue) in
      omega (arith, whole, length-append (concat (next_batch queue).1) (next_batch queue).0)

  All-append : (bs cs : List (List A)) → All IsBatch bs → All IsBatch cs → All IsBatch (bs ++ cs)
  All-append [] cs h k = k
  All-append (b ∷ bs) cs (h, hs) k = (h, All-append bs cs hs k)

  concat-append : (bs cs : List (List A)) → concat (bs ++ cs) ≡ concat bs ++ concat cs
  concat-append [] cs = refl
  concat-append (b ∷ bs) cs =
      ap (λ xs. b ++ xs) (concat-append bs cs) ∙ sym (append_assoc b (concat bs) (concat cs))

  move-IsFine : (m : Move A) (s : Stream A) → IsFine s → IsFine (move maxsize m s)
  unfolding put_nowait
  move-IsFine (arrive x) s h = record {
    fits = ground (arith, h.fits, length-append s.queue (x ∷ []));
    sized = h.sized;
  }
  move-IsFine yield s h = record {
    fits = omega (arith, h.fits, length-next_batch s.queue);
    sized = All-append s.batches (next_batch s.queue).1 h.sized (next_batch-IsBatch s.queue);
  }
  move-IsFine (streaming b) s h = record { fits = h.fits; sized = h.sized }

  events-move :
      (m : Move A) (s : Stream A)
      → events maxsize (move maxsize m s) ≡ events maxsize s ++ accepts maxsize m s
  unfolding put_nowait
  events-move (arrive x) s = by_test (s.streams && ltb (length s.queue) maxsize)
    where
      by_test :
          (b : Bool)
          → concat s.batches ++ (if b then s.queue ++ x ∷ [] else s.queue)
            ≡ events maxsize s ++ (if b then x ∷ [] else [])
      by_test true = sym (append_assoc (concat s.batches) s.queue (x ∷ []))
      by_test false = sym (append-nil (events maxsize s))
  events-move yield s =
      ap (λ xs. xs ++ (next_batch s.queue).0) (concat-append s.batches (next_batch s.queue).1)
      ∙ append_assoc (concat s.batches) (concat (next_batch s.queue).1) (next_batch s.queue).0
      ∙ ap (λ xs. concat s.batches ++ xs) (next_batch-append s.queue)
      ∙ sym (append-nil (events maxsize s))
  events-move (streaming b) s = sym (append-nil (events maxsize s))

  moves_deliver :
      (ms : List (Move A)) (s : Stream A)
      → IsFine s
      → (events maxsize (moves maxsize ms s) ≡ events maxsize s ++ accepted maxsize ms s)
        × IsFine (moves maxsize ms s)
  moves_deliver [] s h = (sym (append-nil (events maxsize s)), h)
  moves_deliver (m ∷ ms) s h =
      let (order, fine) = moves_deliver ms (move maxsize m s) (move-IsFine m s h) in
      (
        order
            ∙ ap (λ xs. xs ++ accepted maxsize ms (move maxsize m s)) (events-move m s)
            ∙ append_assoc (events maxsize s) (accepts maxsize m s)
                (accepted maxsize ms (move maxsize m s)),
        fine,
      )

-- Whatever advertisements arrive, batches are yielded and clients begin and end, in any order: what
-- was yielded, followed by what waits, is what was accepted, in order of arrival, each once. At
-- most 100,000 advertisements wait, and every batch has from 1 to 200 of them.
pub moves_in_order :
    {A : Type 0} (ms : List (Move A))
    → (events adv_maxsize (moves adv_maxsize ms idle) ≡ accepted adv_maxsize ms idle)
      × (length (moves adv_maxsize ms idle).queue ≤ adv_maxsize)
      × All (λ b. (1 ≤ length b) × (length b ≤ batch_limit)) (moves adv_maxsize ms idle).batches
moves_in_order ms =
    let (order, fine) =
      moves_deliver adv_maxsize ms idle (record { fits = omega arith; sized = tt }) in
    (order, fine.fits, fine.sized)
