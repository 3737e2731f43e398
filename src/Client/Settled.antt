-- ===== src/Client/Settled.antt =====
-- src/sdk/client.ts: how often a promise is let go of by the client, and where it waits.
pub mod Events
pub mod Calls
pub mod Waiting
pub mod Connection
pub mod Runs
pub mod Closed
use axtp_ts_runtime.Common.{
  ℕ, ◌+◌, List, [], ◌∷◌, ◌++◌, Option, none, some, Bool, true, false, ◌==◌, ◌||◌, if◌then◌else◌,
  Result, returns, throws, ◌≡◌, ◌⊎◌, inl, inr, refl, ap, arith, Bool-cases,
}
use axtp_ts_runtime.Client.State.{
  QueuedEvent, QueuedCall, WaitingCall, Client, ClientOutput, resolved, rejected, raised, handed,
  Step, ◌and_then◌,
}

module _ (p : ℕ) where
  abbrev pub one_if : ℕ → ℕ
  one_if q = if q == p then 1 else 0

  -- How often the client settles the promise: with a value, with an error, or by a throw.
  abbrev pub settles : ClientOutput → ℕ
  settles (resolved q value) = one_if q
  settles (rejected q code) = one_if q
  settles (raised q code) = one_if q
  settles output = 0

  abbrev pub settled : List ClientOutput → ℕ
  settled [] = 0
  settled (output ∷ rest) = settles output + settled rest

  -- How often the promise becomes that of a call of an endpoint, and so the endpoint's to settle.
  abbrev pub passes_on : ClientOutput → ℕ
  passes_on (handed q ep method params timeout) = one_if q
  passes_on output = 0

  abbrev pub passed_on : List ClientOutput → ℕ
  passed_on [] = 0
  passed_on (output ∷ rest) = passes_on output + passed_on rest

  abbrev pub lets_go : ClientOutput → ℕ
  lets_go output = settles output + passes_on output

  -- How often the client lets go of the promise, in one way or the other.
  abbrev pub let_go : List ClientOutput → ℕ
  let_go [] = 0
  let_go (output ∷ rest) = lets_go output + let_go rest

  pub let_go-ways : (os : List ClientOutput) → let_go os ≡ settled os + passed_on os
  let_go-ways [] = omega arith
  let_go-ways (output ∷ os) = omega (arith, let_go-ways os)

  abbrev pub in_list : List ℕ → ℕ
  in_list [] = 0
  in_list (q ∷ qs) = one_if q + in_list qs

  abbrev pub in_events : List QueuedEvent → ℕ
  in_events [] = 0
  in_events (item ∷ items) = one_if item.promise + in_events items

  abbrev pub in_calls : List QueuedCall → ℕ
  in_calls [] = 0
  in_calls (item ∷ items) = in_list item.waiters + in_calls items

  abbrev pub in_flight_call : Option QueuedCall → ℕ
  in_flight_call none = 0
  in_flight_call (some item) = in_list item.waiters

  abbrev pub in_waiting : List WaitingCall → ℕ
  in_waiting [] = 0
  in_waiting (w ∷ ws) = one_if w.wait_promise + in_waiting ws

  -- How often the promise waits in the client.
  abbrev pub pending : Client → ℕ
  pending c =
      in_events c.event_outbox
      + in_calls c.call_queue
      + in_flight_call c.in_flight
      + in_waiting c.waiting_calls

  pub let_go-append : (xs ys : List ClientOutput) → let_go (xs ++ ys) ≡ let_go xs + let_go ys
  let_go-append [] ys = omega arith
  let_go-append (output ∷ xs) ys = omega (arith, let_go-append xs ys)

  pub in_list-append : (xs ys : List ℕ) → in_list (xs ++ ys) ≡ in_list xs + in_list ys
  in_list-append [] ys = omega arith
  in_list-append (q ∷ xs) ys = omega (arith, in_list-append xs ys)

  -- A step that takes the promise in `n` times loses none and makes up none.
  abbrev pub Accounts : ℕ → Client → Step → Type 0
  Accounts n c s = let_go s.1 + pending s.0 ≡ n + pending c

  pub Accounts-after :
      (n : ℕ) (c : Client) (s : Step) (f : Client → Step)
      → Accounts n c s
      → ((d : Client) → Accounts 0 d (f d))
      → Accounts n c (s and_then f)
  unfolding ◌and_then◌
  Accounts-after n c s f h k = omega (arith, h, k s.0, let_go-append s.1 (f s.0).1)

  pub Accounts-before :
      (n : ℕ) (c : Client) (s : Step) (f : Client → Step)
      → Accounts 0 c s
      → ((d : Client) → Accounts n d (f d))
      → Accounts n c (s and_then f)
  unfolding ◌and_then◌
  Accounts-before n c s f h k = omega (arith, h, k s.0, let_go-append s.1 (f s.0).1)

  pub Accounts-if :
      (n : ℕ) (c : Client) (b : Bool) (s t : Step)
      → Accounts n c s
      → Accounts n c t
      → Accounts n c (if b then s else t)
  Accounts-if n c true s t h k = h
  Accounts-if n c false s t h k = k
