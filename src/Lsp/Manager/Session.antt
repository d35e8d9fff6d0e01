-- ===== src/Lsp/Manager/Session.antt =====
-- internal/lsp/manager.go: what `ClientSession` returns.
use dotfs_mcp_server.Base.{
  ℕ, zero, suc, ◌≡◌, refl, inl, inr, Bool, true, false, ◌⊎◌, Option, none, some, Text, bytes_eq,
  lookup, erase, Result, ok, err, Error, sentinel, manager_closed, daemon_exited, wrap, txt,
  Bool-cases, Option-cases,
}
use dotfs_mcp_server.Lsp.Manager.{
  Client, Attempt, Manager, Turn, refused, reuse, join, start, take_pending, found_session,
  turn_unless, take_turn, settled, settle, Awaited, attempt_ended, gave_up, World, Tried, returned,
  again, after_wait, after_turn, try_once, unless_returned, try_session, client_session,
}

module _ (w : World) (key : Text) where
  -- The pools before the tries of a call that begins with the pool `m0`, and the tries left, out of
  -- three: a try that ends without a result hands its pool to the next one.
  pub data Reached (m0 : Manager) : ℕ → Manager → Type 0 where
    begin : Reached m0 3 m0
    next :
        {n : ℕ} {m m' : Manager}
        → Reached m0 (suc n) m
        → try_once w key n m ≡ (again, m')
        → Reached m0 n m'

  -- The first critical section of a try
  abbrev pub turn_at : ℕ → Manager → Turn × Manager
  turn_at n m = take_turn (w.alive n) key (w.fresh n) m

  -- The ways in which a try on the pool `m` ends the call: the pool was closed, a session was found
  -- alive, a wait for another caller ended with a client that is alive or with an error, or the own
  -- spawn ended, behind which the pool may have been closed.
  pub data Ending (n : ℕ) (m : Manager) : Result Client → Type 0 where
    pool_closed :
        {m' : Manager} → turn_at n m ≡ (refused, m') → Ending n m (err (sentinel manager_closed))
    found_alive :
        {c : Client} {m' : Manager}
        → turn_at n m ≡ (reuse c, m')
        → w.alive n c ≡ true
        → Ending n m (ok c)
    joined_alive :
        {a : Attempt} {c : Client} {m' : Manager}
        → turn_at n m ≡ (join a, m')
        → (w.await n a m').0 ≡ attempt_ended (ok c)
        → w.alive_after n c ≡ true
        → Ending n m (ok c)
    joined_error :
        {a : Attempt} {e : Error} {m' : Manager}
        → turn_at n m ≡ (join a, m')
        → ((w.await n a m').0 ≡ attempt_ended (err e)) ⊎ ((w.await n a m').0 ≡ gave_up e)
        → Ending n m (err e)
    spawned :
        {c : Client} {m' : Manager}
        → turn_at n m ≡ (start, m')
        → (w.spawn n m').0 ≡ ok c
        → (w.spawn n m').1.closed ≡ false
        → Ending n m (ok c)
    spawned_late :
        {c : Client} {m' : Manager}
        → turn_at n m ≡ (start, m')
        → (w.spawn n m').0 ≡ ok c
        → (w.spawn n m').1.closed ≡ true
        → Ending n m (err (sentinel manager_closed))
    spawn_failed :
        {e : Error} {m' : Manager}
        → turn_at n m ≡ (start, m')
        → (w.spawn n m').0 ≡ err e
        → Ending n m (err e)

  -- What a call comes to: one of its three tries ends it, or they are used up.
  pub data Outcome (m0 : Manager) : Result Client → Type 0 where
    ended :
        {n : ℕ} {m : Manager} {r : Result Client}
        → Reached m0 (suc n) m
        → Ending n m r
        → Outcome m0 r
    used_up :
        {m : Manager}
        → Reached m0 0 m
        → Outcome m0 (err (wrap (txt "failed to initiate client") (sentinel daemon_exited)))

  -- What a try returns
  abbrev Returns : ℕ → Manager → Tried w key × Manager → Type 0
  Returns n before (returned r, m) = Ending n before r
  Returns n before (again, m) = Unit

  -- A session that is reused is alive.
  abbrev IsTurn : ℕ → Turn × Manager → Type 0
  IsTurn n (reuse c, m) = w.alive n c ≡ true
  IsTurn n (refused, m) = Unit
  IsTurn n (join a, m) = Unit
  IsTurn n (start, m) = Unit

  take_pending-IsTurn : (n : ℕ) (a : Attempt) (m : Manager) → IsTurn n (take_pending key a m)
  unfolding take_pending
  take_pending-IsTurn n a m = elim (Option-cases (lookup key m.pending)) [
    | inl e ↦ rw (e, take_pending) tt
    | inr (b, e) ↦ rw (e, take_pending) tt
  ]

  found_session-IsTurn :
      (n : ℕ) (a : Attempt) (m : Manager) (o : Option Client)
      → IsTurn n (found_session (w.alive n) key a m o)
  found_session-IsTurn n a m none = take_pending-IsTurn n a m
  found_session-IsTurn n a m (some c) = elim (Bool-cases (w.alive n c)) [
    | inl e ↦ rw e e
    | inr e ↦ rw e (take_pending-IsTurn n a (record m { clients = erase key m.clients }))
  ]

  turn_unless-IsTurn :
      (n : ℕ) (a : Attempt) (m : Manager) (b : Bool) → IsTurn n (turn_unless (w.alive n) key a m b)
  turn_unless-IsTurn n a m true = tt
  turn_unless-IsTurn n a m false = found_session-IsTurn n a m (lookup key m.clients)

  module _ (n : ℕ) (before : Manager) where
    after_wait-Returns :
        (a : Attempt) (m : Manager) (o : Awaited × Manager)
        → turn_at n before ≡ (join a, m)
        → (w.await n a m).0 ≡ o.0
        → Returns n before (after_wait w key (w.alive_after n) o)
    after_wait-Returns a m (gave_up e, m') turn is = joined_error turn (inr is)
    after_wait-Returns a m (attempt_ended (err e), m') turn is = joined_error turn (inl is)
    after_wait-Returns a m (attempt_ended (ok c), m') turn is =
        elim (Bool-cases (w.alive_after n c)) [
          | inl e ↦ rw e (joined_alive turn is e)
          | inr e ↦ rw e tt
        ]

    settled-Returns :
        (m m' : Manager) (r : Result Client) (b : Bool)
        → turn_at n before ≡ (start, m)
        → (w.spawn n m).0 ≡ r
        → (w.spawn n m).1.closed ≡ b
        → Returns n before (returned (settled key r m' b).outcome, (settled key r m' b).pool)
    settled-Returns m m' (err e) b turn is closed = spawn_failed turn is
    settled-Returns m m' (ok c) true turn is closed = spawned_late turn is closed
    settled-Returns m m' (ok c) false turn is closed = spawned turn is closed

    after_turn-Returns :
        (t : Turn × Manager)
        → turn_at n before ≡ t
        → IsTurn n t
        → Returns n before (after_turn w key n t)
    unfolding settle
    after_turn-Returns (refused, m) turn h = pool_closed turn
    after_turn-Returns (reuse c, m) turn h = found_alive turn h
    after_turn-Returns (join a, m) turn h = after_wait-Returns a m (w.await n a m) turn refl
    after_turn-Returns (start, m) turn h =
        settled-Returns m (w.spawn n m).1 (w.spawn n m).0 (w.spawn n m).1.closed turn refl refl

    try_once-Returns : Returns n before (try_once w key n before)
    unfolding try_once
    try_once-Returns =
        after_turn-Returns (turn_at n before) refl
          (unfold take_turn in turn_unless-IsTurn n (w.fresh n) before before.closed)

  unless_returned-Outcome :
      (m0 before : Manager) (n : ℕ) (k : Manager → Result Client × Manager)
      (t : Tried w key × Manager)
      → Reached m0 (suc n) before
      → try_once w key n before ≡ t
      → Returns n before t
      → ((m : Manager) → Reached m0 n m → Outcome m0 (k m).0)
      → Outcome m0 (unless_returned w key k t).0
  unless_returned-Outcome m0 before n k (returned r, m) at is h later = ended at h
  unless_returned-Outcome m0 before n k (again, m) at is h later = later m (next at is)

  try_session-Outcome :
      (m0 : Manager) (n : ℕ) (m : Manager) → Reached m0 n m → Outcome m0 (try_session w key n m).0
  unfolding try_session
  try_session-Outcome m0 zero m at = used_up at
  try_session-Outcome m0 (suc n) m at =
      unless_returned-Outcome m0 m n (try_session w key n) (try_once w key n m) at refl
        (try_once-Returns n m) (try_session-Outcome m0 n)

  -- Whatever the other callers do, `ClientSession` ends within three tries. One of them, on the pool
  -- that the tries before it have left, ends the call: with a session of the pool that is alive, with
  -- another caller's client that is alive behind the wait, with the client of the own spawn on a
  -- pool that is still open, or with the error of a closed pool, of the wait or of the spawn. Or all
  -- three have ended without a result, and the call returns that the client was not initiated.
  pub client_session-IsOutcome : (m : Manager) → Outcome m (client_session w key m).0
  unfolding client_session
  client_session-IsOutcome m = try_session-Outcome m 3 m begin
