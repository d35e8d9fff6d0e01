-- ===== src/Lsp/Manager/Steps.antt =====
-- internal/lsp/manager.go: any number of callers, crashes of servers and calls of `Close`, in any order.
use dotfs_mcp_server.Base.{
  ℕ, ◌+◌, ◌-◌, ◌<◌, not, Option, none, some, List, [], ◌∷◌, ◌++◌, Text, ◌==◌, bytes_eq, nat_eq,
  contains, ok, err, Error, if◌then◌else◌,
}
use dotfs_mcp_server.Lsp.Manager.{
  Client, Attempt, Manager, new_manager, Turn, refused, reuse, join, start, take_turn, settle,
  close,
}

-- The pool with all that has to do with it: how many callers are spawning a server for each key, the
-- clients whose servers have started, those that `Shutdown` has been called for, and those whose
-- servers have died.
pub record System : Type 0 where
  pub manager : Manager
  pub spawning : Text → ℕ
  pub started : List Client
  pub down : List Client
  pub dead : List Client

abbrev pub initial : System
initial = record { manager = new_manager; spawning = λ key. 0; started = []; down = []; dead = [] }

abbrev pub began : Text → Turn → (Text → ℕ) → Text → ℕ
began key start f = λ k. if key == k then f k + 1 else f k
began key (reuse client) f = f
began key (join attempt) f = f
began key refused f = f

abbrev pub ended : Text → (Text → ℕ) → Text → ℕ
ended key f k = if key == k then f k - 1 else f k

abbrev pub orphans : Option Client → List Client
orphans none = []
orphans (some client) = client ∷ []

-- A caller takes its turn.
abbrev pub turned : Text → Attempt → System → System
turned key attempt p =
    let r = take_turn (λ c. not (contains p.dead c)) key attempt p.manager in
    record p { manager = r.1; spawning = began key r.0 p.spawning }

-- A spawn fails, or brings a new client, which is shut down if it is an orphan.
abbrev pub spawn_failed : Text → Error → System → System
spawn_failed key e p = record p {
  manager = (settle key (err e) p.manager).pool;
  spawning = ended key p.spawning;
}

abbrev pub spawn_done : Text → Client → System → System
spawn_done key client p =
    let s = settle key (ok client) p.manager in
    record p {
      manager = s.pool;
      spawning = ended key p.spawning;
      started = client ∷ p.started;
      down = orphans s.orphan ++ p.down;
    }

abbrev pub closed_down : System → System
closed_down p = let r = close p.manager in record p { manager = r.1; down = r.0 ++ p.down }

pub data Step (p : System) : System → Type 0 where
  turn : (key : Text) (attempt : Attempt) → Step p (turned key attempt p)
  fail : (key : Text) (e : Error) → 0 < p.spawning key → Step p (spawn_failed key e p)
  done : (key : Text) (client : Client) → 0 < p.spawning key → Step p (spawn_done key client p)
  crash : (client : Client) → Step p (record p { dead = client ∷ p.dead })
  shut : Step p (closed_down p)

pub data Reachable : System → Type 0 where
  here : Reachable initial
  next : {p q : System} → Reachable p → Step p q → Reachable q
