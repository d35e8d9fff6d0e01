-- ===== src/Lsp/Manager.antt =====
-- internal/lsp/manager.go: the pool of language servers. The lock `mu` makes each function here one
-- step; what other callers do between two of them is a parameter.
pub mod Steps
pub mod Laws
pub mod Session
use dotfs_mcp_server.Base.{
  ℕ, zero, suc, Bool, true, false, Option, none, some, List, [], ◌∷◌, ◌++◌, map, Text, txt,
  bytes_eq, Dict, lookup, insert, erase, Result, ok, err, Error, wrap, sentinel, manager_closed,
  daemon_exited, if◌then◌else◌,
}
use dotfs_mcp_server.Ast.{Language}

-- A client and an attempt to spawn one, each by its identity
abbrev pub Client : Type 0
Client = ℕ

abbrev pub Attempt : Type 0
Attempt = ℕ

-- `Manager`
pub record Manager : Type 0 where
  pub clients : Dict Text Client
  pub pending : Dict Text Attempt
  pub closed : Bool

-- `NewManager`
abbrev pub new_manager : Manager
new_manager = record { clients = []; pending = []; closed = false }

-- The key of a session
unfoldable pub session_key : Text → Language → Text
session_key repo lang = repo ++ txt "|" ++ lang

-- What a caller of `ClientSession` learns under the lock: the pool is closed, there is a live
-- session, another caller is starting one, or the caller has to start one.
pub data Turn : Type 0 where
  refused : Turn
  reuse : Client → Turn
  join : Attempt → Turn
  start : Turn

-- Behind the look at the sessions
unfoldable pub take_pending : Text → Attempt → Manager → Turn × Manager
unfolding lookup insert
take_pending key attempt m = elim (lookup key m.pending) [
  | some inflight ↦ (join inflight, m)
  | none ↦ (start, record m { pending = insert key attempt m.pending })
]

-- With the session that stands in the pool; a dead one is dropped.
abbrev pub found_session :
    (Client → Bool) → Text → Attempt → Manager → Option Client → Turn × Manager
found_session alive key attempt m none = take_pending key attempt m
found_session alive key attempt m (some existing) =
    if alive existing
    then (reuse existing, m)
    else take_pending key attempt (record m { clients = erase key m.clients })

abbrev pub turn_unless : (Client → Bool) → Text → Attempt → Manager → Bool → Turn × Manager
turn_unless alive key attempt m true = (refused, m)
turn_unless alive key attempt m false = found_session alive key attempt m (lookup key m.clients)

-- The first critical section of `ClientSession`; `attempt` is the new attempt, if one is made.
unfoldable pub take_turn : (Client → Bool) → Text → Attempt → Manager → Turn × Manager
unfolding lookup erase take_pending
take_turn alive key attempt m = turn_unless alive key attempt m m.closed

-- What the spawn comes to: the caller's result, the client to shut down, and the pool.
pub record Settled : Type 0 where
  pub outcome : Result Client
  pub orphan : Option Client
  pub pool : Manager

-- A spawn that failed, one that ended behind `Close`, and one whose client joins the pool
abbrev pub settled : Text → Result Client → Manager → Bool → Settled
settled key (err e) m closed = record {
  outcome = err e;
  orphan = none;
  pool = record m { pending = erase key m.pending };
}
settled key (ok client) m true = record {
  outcome = err (sentinel manager_closed);
  orphan = some client;
  pool = record m { pending = erase key m.pending };
}
settled key (ok client) m false = record {
  outcome = ok client;
  orphan = none;
  pool = record m { pending = erase key m.pending; clients = insert key client m.clients };
}

-- The second critical section, behind `spawn`
unfoldable pub settle : Text → Result Client → Manager → Settled
unfolding insert erase
settle key r m = settled key r m m.closed

abbrev pub closing : Manager → Bool → List Client × Manager
closing m true = ([], m)
closing m false = (map (λ e. e.1) m.clients, record m { clients = []; closed = true })

-- The clients to shut down, and the pool, by `Close`
unfoldable pub close : Manager → List Client × Manager
close m = closing m m.closed

-- What happens while a caller waits: another attempt ends, or the caller's context does.
pub data Awaited : Type 0 where
  attempt_ended : Result Client → Awaited
  gave_up : Error → Awaited

-- The callers around one call of `ClientSession`: `await` is what a wait brings and the pool then,
-- `spawn` what the caller's own spawn comes to and the pool then, `alive` and, behind a
-- wait, `alive_after` are asked at each try.
pub record World : Type 0 where
  pub alive : ℕ → Client → Bool
  pub alive_after : ℕ → Client → Bool
  pub await : ℕ → Attempt → Manager → Awaited × Manager
  pub spawn : ℕ → Manager → Result Client × Manager
  pub fresh : ℕ → Attempt

module _ (w : World) (key : Text) where
  -- The result of a try, or that there has to be another one
  pub data Tried : Type 0 where
    returned : Result Client → Tried
    again : Tried

  -- Behind the wait for another caller's attempt
  abbrev pub after_wait : (Client → Bool) → Awaited × Manager → Tried × Manager
  after_wait alive (gave_up e, m) = (returned (err e), m)
  after_wait alive (attempt_ended (err e), m) = (returned (err e), m)
  after_wait alive (attempt_ended (ok client), m) =
      if alive client then (returned (ok client), m) else (again, m)

  abbrev pub after_spawn : Result Client × Manager → Tried × Manager
  after_spawn (r, m) = let s = settle key r m in (returned s.outcome, s.pool)

  abbrev pub after_turn : ℕ → Turn × Manager → Tried × Manager
  after_turn n (refused, m) = (returned (err (sentinel manager_closed)), m)
  after_turn n (reuse client, m) = (returned (ok client), m)
  after_turn n (join attempt, m) = after_wait (w.alive_after n) (w.await n attempt m)
  after_turn n (start, m) = after_spawn (w.spawn n m)

  -- The body of the loop
  unfoldable pub try_once : ℕ → Manager → Tried × Manager
  unfolding take_turn settle
  try_once n m = after_turn n (take_turn (w.alive n) key (w.fresh n) m)

  abbrev pub unless_returned :
      (Manager → Result Client × Manager) → Tried × Manager → Result Client × Manager
  unless_returned next (returned r, m) = (r, m)
  unless_returned next (again, m) = next m

  -- The loop, on the number of tries left
  unfoldable pub try_session : ℕ → Manager → Result Client × Manager
  unfolding try_once
  try_session zero m = (err (wrap (txt "failed to initiate client") (sentinel daemon_exited)), m)
  try_session (suc n) m = unless_returned (λ m'. try_session n m') (try_once n m)

  -- `ClientSession`
  unfoldable pub client_session : Manager → Result Client × Manager
  unfolding try_session
  client_session m = try_session 3 m
