-- ===== src/AccessPoints/Silabs/Connecting.antt =====
-- How often `connect` tries, and when it cannot succeed.
use tiedie.Prelude.{
  ◌≡◌, refl, ap, ◌∙◌, ℕ, zero, suc, ◌+◌, ◌≤◌, Bool, true, false, List, [], ◌∷◌, ◌++◌, String,
  lookup, nat_eq, string_eq, is_some, lower, arith, ◌==ℕ◌, if_induction,
}
use tiedie.Python.{Result, ok, raise}
use tiedie.AccessPoints.Silabs.Operations.{Publication, connecting, Operation}
use tiedie.AccessPoints.Silabs.Events.{Command, open', close, SilabsAccessPoint}
use tiedie.AccessPoints.Silabs.Calls.{
  Radio, Answer, after_wait, connectable, attempt, handle_of, append, new_operation, send, change,
  is_set, open_loop, give_up, run_connect, connected, connect, is_public_address,
}
use tiedie.AccessPoints.Silabs.Histories.{commands-receive_all}

-- how often `open` was sent
abbrev pub opens : List Command → ℕ
opens [] = 0
opens (open' address public ∷ cs) = suc (opens cs)
opens (_ ∷ cs) = opens cs

opens-append : (cs ds : List Command) → opens (cs ++ ds) ≡ opens cs + opens ds
opens-append [] ds = omega arith
opens-append (open' address public ∷ cs) ds = omega (arith, opens-append cs ds)
opens-append (c ∷ cs) ds = opens-append cs ds

commands-change :
    (i : ℕ) (f : Operation → Operation) (s : SilabsAccessPoint)
    → (change i f s).commands ≡ s.commands
commands-change i f s = ground arith

module _ (publish : Publication → Result (Unit {0})) where
  opens-attempt :
      (radio : Radio) (i : ℕ) (address : String) (public : Bool) (retries : ℕ)
      (s : SilabsAccessPoint)
      → opens (attempt publish radio i address public retries s).commands ≡ opens s.commands + 1
  unfolding attempt
  opens-attempt radio i address public retries s =
      ap opens (commands-receive_all publish (radio retries).1 _ ∙ commands-change i _ _)
      ∙ opens-append s.commands (open' address public ∷ [])

  opens-after :
      (b : Bool) (i : ℕ) (waited : SilabsAccessPoint) (retries n rounds : ℕ)
      (f : SilabsAccessPoint → SilabsAccessPoint × ℕ)
      → opens waited.commands ≡ n + 1
      → ((s : SilabsAccessPoint) → opens (f s).0.commands ≤ opens s.commands + rounds)
      → opens (after_wait b i waited retries f).0.commands ≤ n + suc rounds
  opens-after true i waited retries n rounds f tried rest = omega (arith, tried)
  opens-after false i waited retries n rounds f tried rest =
      let closing = opens-append waited.commands (close (handle_of i waited) ∷ []) in
      omega (arith, rest (send (close (handle_of i waited)) waited), closing, tried)

  opens-loop :
      (rounds : ℕ) (radio : Radio) (i : ℕ) (address : String) (public : Bool) (retries : ℕ)
      (s : SilabsAccessPoint)
      → opens (open_loop publish rounds radio i address public retries s).0.commands
        ≤ opens s.commands + rounds
  unfolding open_loop
  opens-loop zero radio i address public retries s = omega arith
  opens-loop (suc rounds) radio i address public retries s =
      opens-after (is_set i (attempt publish radio i address public retries s)) i
        (attempt publish radio i address public retries s) retries (opens s.commands) rounds
        (open_loop publish rounds radio i address public (retries + 1))
        (opens-attempt radio i address public retries s)
        (opens-loop rounds radio i address public (retries + 1))

  opens-give_up :
      (i retries : ℕ) (r : SilabsAccessPoint × ℕ) → (give_up i retries r).commands ≡ r.0.commands
  opens-give_up i retries (s, failed) =
      if_induction (λ (t : SilabsAccessPoint). t.commands ≡ s.commands) (failed ==ℕ retries + 1)
        (commands-change i _ s) refl

  opens-run :
      (radio : Radio) (i : ℕ) (address : String) (retries : ℕ) (r : Result Bool)
      (s : SilabsAccessPoint)
      → opens (run_connect publish radio i address retries r s).1.commands
        ≤ opens s.commands + (retries + 1)
  opens-run radio i address retries (raise e) s = omega arith
  opens-run radio i address retries (ok public) s = omega (
    arith,
    ap opens (opens-give_up i retries (open_loop publish (retries + 1) radio i address public 0 s)),
    opens-loop (retries + 1) radio i address public 0 s,
  )

  opens-connected :
      (i : ℕ) (address : String) (r : Answer (Unit {0}))
      → (connected i address r).1.commands ≡ r.1.commands
  opens-connected i address (raise e, s) = refl
  opens-connected i address (ok u, s) =
      if_induction (λ (t : Answer (Unit {0})). t.1.commands ≡ s.commands) (is_set i s) refl refl

  -- Whatever the radio answers, a call of `connect` sends at most one `open` more than the retries
  -- that it is given.
  pub connect-opens :
      (radio : Radio) (address : String) (retries : ℕ) (s : SilabsAccessPoint)
      → opens (connect publish radio address retries s).1.commands
        ≤ opens s.commands + (retries + 1)
  unfolding connect
  connect-opens radio address retries s =
      if_induction
        (λ (t : Answer (Unit {0})). opens t.1.commands ≤ opens s.commands + (retries + 1))
        (connectable s)
        (if_induction
          (λ (t : Answer (Unit {0})). opens t.1.commands ≤ opens s.commands + (retries + 1))
          (is_some (lookup address s.conn_reqs)) (omega arith)
          (omega (
            arith,
            ap opens (
                opens-connected s.next address (
                  run_connect publish radio s.next (lower address) retries
                    (is_public_address (lower address))
                    (append (new_operation (connecting (lower address)) 0) s))),
            opens-run radio s.next (lower address) retries (is_public_address (lower address))
                (append (new_operation (connecting (lower address)) 0) s),
          )))
        (omega arith)
