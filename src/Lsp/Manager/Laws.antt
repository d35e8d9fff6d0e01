-- ===== src/Lsp/Manager/Laws.antt =====
-- internal/lsp/manager.go: the pool loses no server, and starts one at a time for each key.
use dotfs_mcp_server.Base.{
  ℕ, ◌≡◌, ◌≤◌, ◌<◌, refl, ◌∙◌, Bool, true, false, not, ◌⊎◌, inl, inr, Option, none, some, List, [],
  ◌∷◌, ◌++◌, map, Text, ◌==◌, bytes_eq, nat_eq, contains, contains-append, Dict, lookup, insert,
  erase, lookup-nil, lookup-insert, lookup-erase, ok, Error, arith, Bool-cases, Option-cases,
}
use dotfs_mcp_server.Lsp.Manager.{
  Client, Attempt, Manager, Turn, start, take_pending, take_turn, found_session, turn_unless,
  settled, settle, closing, close,
}
use dotfs_mcp_server.Lsp.Manager.Steps.{
  System, initial, began, ended, orphans, turned, spawn_failed, spawn_done, Step, turn, fail, done,
  crash, shut, Reachable, here, next,
}

abbrev pub occupied : Option Attempt → ℕ
occupied none = 0
occupied (some a) = 1

occupied-le : (o : Option Attempt) → occupied o ≤ 1
occupied-le none = omega arith
occupied-le (some a) = omega arith

-- The client is dead, is being shut down, or stands in the pool.
abbrev pub IsKept : System → Client → Type 0
IsKept p c =
    (contains p.dead c ≡ true)
    ⊎ (contains p.down c ≡ true)
    ⊎ ((key : Text) × (lookup key p.manager.clients ≡ some c))

pub record IsSound (p : System) : Type 0 where
  pub empty : p.manager.closed ≡ true → p.manager.clients ≡ []
  pub counted : (k : Text) → p.spawning k ≡ occupied (lookup k p.manager.pending)
  pub free :
      (k : Text) (a : Attempt)
      → lookup k p.manager.pending ≡ some a
      → lookup k p.manager.clients ≡ none
  pub kept : (c : Client) → contains p.started c ≡ true → IsKept p c

IsKept-more :
    (p : System) (c : Client) (dead down : List Client)
    → (contains p.dead c ≡ true → contains dead c ≡ true)
    → (contains p.down c ≡ true → contains down c ≡ true)
    → IsKept p c
    → IsKept (record p { dead = dead; down = down }) c
IsKept-more p c dead down f g (inl h) = inl (f h)
IsKept-more p c dead down f g (inr (inl h)) = inr (inl (g h))
IsKept-more p c dead down f g (inr (inr h)) = inr (inr h)

module _ (p : System) (v : IsSound p) where
  open v use {empty, counted, free, kept}

  -- A dead client leaves the pool.
  dropped : Text → System
  dropped key = record p { manager = record p.manager { clients = erase key p.manager.clients } }

  dropped-IsKept :
      (key : Text) (d c : Client)
      → lookup key p.manager.clients ≡ some d
      → contains p.dead d ≡ true
      → IsKept p c
      → IsKept (dropped key) c
  unfolding dropped
  dropped-IsKept key d c there gone (inl h) = inl h
  dropped-IsKept key d c there gone (inr (inl h)) = inr (inl h)
  dropped-IsKept key d c there gone (inr (inr (k, h))) = elim (Bool-cases (k == key)) [
    | inl e ↦ inl (ground (arith, there, gone, h, e))
    | inr e ↦ inr (inr (k, lookup-erase k key p.manager.clients ∙ rw e h))
  ]

  dropped-IsSound :
      (key : Text) (d : Client)
      → p.manager.closed ≡ false
      → lookup key p.manager.clients ≡ some d
      → contains p.dead d ≡ true
      → IsSound (dropped key)
  unfolding dropped
  dropped-IsSound key d opened there gone = record {
    empty = λ shut. cc;
    counted = counted;
    free = λ k a h. lookup-erase k key p.manager.clients ∙ ground (arith, free k a h);
    kept = λ c h. dropped-IsKept key d c there gone (kept c h);
  }

  -- A caller begins to spawn.
  spawning : Text → Attempt → System
  spawning key attempt = record p {
    manager = record p.manager { pending = insert key attempt p.manager.pending };
    spawning = began key start p.spawning;
  }

  spawning-IsSound :
      (key : Text) (attempt : Attempt)
      → lookup key p.manager.pending ≡ none
      → lookup key p.manager.clients ≡ none
      → IsSound (spawning key attempt)
  unfolding spawning
  spawning-IsSound key attempt idle absent = record {
    empty = empty;
    counted = λ k. ground (arith, lookup-insert k key attempt p.manager.pending, counted k, idle);
    free =
        λ k a h. ground (arith, lookup-insert k key attempt p.manager.pending, free k a, absent, h);
    kept = kept;
  }

  -- Behind the look at the sessions, with no client in the pool for the key
  taken : Text → Attempt → System
  taken key attempt =
      let r = take_pending key attempt p.manager in
      record p { manager = r.1; spawning = began key r.0 p.spawning }

  taken-IsSound :
      (key : Text) (attempt : Attempt)
      → lookup key p.manager.clients ≡ none
      → IsSound (taken key attempt)
  unfolding taken take_pending
  taken-IsSound key attempt absent = elim (Option-cases (lookup key p.manager.pending)) [
    | inl idle ↦
        rw (idle, take_pending) (unfold spawning in spawning-IsSound key attempt idle absent)
    | inr (inflight, e) ↦ rw (e, take_pending) v
  ]

module _ (p : System) (v : IsSound p) (key : Text) (attempt : Attempt) where
  alive : Client → Bool
  alive c = not (contains p.dead c)

  -- The system behind a turn
  after : Turn × Manager → System
  after r = record p { manager = r.1; spawning = began key r.0 p.spawning }

  found_session-IsSound :
      (o : Option Client)
      → p.manager.closed ≡ false
      → lookup key p.manager.clients ≡ o
      → IsSound (after (found_session alive key attempt p.manager o))
  unfolding after alive taken dropped
  found_session-IsSound none opened there = taken-IsSound p v key attempt there
  found_session-IsSound (some c) opened there = elim (Bool-cases (contains p.dead c)) [
    | inl gone ↦ rw gone (
        taken-IsSound (dropped p v key) (dropped-IsSound p v key c opened there gone) key attempt
          (lookup-erase key key p.manager.clients ∙ ground arith))
    | inr well ↦ rw well v
  ]

  turn_unless-IsSound :
      (b : Bool)
      → p.manager.closed ≡ b
      → IsSound (after (turn_unless alive key attempt p.manager b))
  unfolding after
  turn_unless-IsSound true is = v
  turn_unless-IsSound false is = found_session-IsSound (lookup key p.manager.clients) is refl

  turned-IsSound : IsSound (turned key attempt p)
  unfolding take_turn after alive
  turned-IsSound = turn_unless-IsSound p.manager.closed refl

-- Behind a spawn, the key is free again.
counted-ended :
    (p : System) (v : IsSound p) (key k : Text)
    → 0 < p.spawning key
    → ended key p.spawning k ≡ occupied (lookup k (erase key p.manager.pending))
counted-ended p v key k busy = ground (
  arith,
  lookup-erase k key p.manager.pending,
  v.counted k,
  occupied-le (lookup key p.manager.pending),
)

spawn_failed-IsSound :
    (p : System)
    → IsSound p
    → (key : Text) (e : Error) → 0 < p.spawning key
    → IsSound (spawn_failed key e p)
unfolding settle
spawn_failed-IsSound p v key e busy = record {
  empty = v.empty;
  counted = λ k. counted-ended p v key k busy;
  free = λ k a h. ground (arith, lookup-erase k key p.manager.pending, v.free k a, h);
  kept = v.kept;
}

module _ (p : System) (v : IsSound p) (key : Text) (client : Client)
    (busy : 0 < p.spawning key) where
  -- The key of a spawn has no client.
  absent : lookup key p.manager.clients ≡ none
  absent = elim (Option-cases (lookup key p.manager.pending)) [
    | inl idle ↦ absurd (ground (arith, v.counted key, idle, busy))
    | inr (a, e) ↦ v.free key a e
  ]

  orphaned-IsKept :
      (c : Client)
      → contains (client ∷ p.started) c ≡ true
      → IsKept (record p { down = client ∷ p.down }) c
  orphaned-IsKept c h = elim (Bool-cases (c == client)) [
    | inl e ↦ inr (inl (rw e refl))
    | inr e ↦
        IsKept-more p c p.dead (client ∷ p.down) (λ d. d) (λ d. ground (arith, d))
          (v.kept c (ground (arith, h, e)))
  ]

  -- A client that stood in the pool stands there still.
  joined-kept :
      (c : Client)
      → IsKept p c
      → (contains p.dead c ≡ true)
        ⊎ (contains p.down c ≡ true)
        ⊎ ((k : Text) × (lookup k (insert key client p.manager.clients) ≡ some c))
  joined-kept c (inl h) = inl h
  joined-kept c (inr (inl h)) = inr (inl h)
  joined-kept c (inr (inr (k, h))) =
      inr (inr (k, ground (arith, lookup-insert k key client p.manager.clients, absent, h)))

  new-kept :
      (c : Client)
      → contains (client ∷ p.started) c ≡ true
      → (contains p.dead c ≡ true)
        ⊎ (contains p.down c ≡ true)
        ⊎ ((k : Text) × (lookup k (insert key client p.manager.clients) ≡ some c))
  new-kept c h = elim (Bool-cases (c == client)) [
    | inl e ↦ inr (inr (key, ground (arith, lookup-insert key key client p.manager.clients, e)))
    | inr e ↦ joined-kept c (v.kept c (ground (arith, h, e)))
  ]

  settled-IsSound :
      (b : Bool)
      → p.manager.closed ≡ b
      → IsSound (record p {
        manager = (settled key (ok client) p.manager b).pool;
        spawning = ended key p.spawning;
        started = client ∷ p.started;
        down = orphans (settled key (ok client) p.manager b).orphan ++ p.down;
      })
  settled-IsSound true is = record {
    empty = v.empty;
    counted = λ k. counted-ended p v key k busy;
    free = λ k a h. ground (arith, lookup-erase k key p.manager.pending, v.free k a, h);
    kept = orphaned-IsKept;
  }
  settled-IsSound false is = record {
    empty = λ shut. cc;
    counted = λ k. counted-ended p v key k busy;
    free = λ k a h. ground (
      arith,
      lookup-erase k key p.manager.pending,
      lookup-insert k key client p.manager.clients,
      v.free k a,
      h,
    );
    kept = new-kept;
  }

  spawn_done-IsSound : IsSound (spawn_done key client p)
  unfolding settle
  spawn_done-IsSound = settled-IsSound p.manager.closed refl

crash-IsSound : (p : System) (c : Client) → IsSound p → IsSound (record p { dead = c ∷ p.dead })
crash-IsSound p c v = record {
  empty = v.empty;
  counted = v.counted;
  free = v.free;
  kept = λ d h. IsKept-more p d (c ∷ p.dead) p.down (λ g. ground (arith, g)) (λ g. g) (v.kept d h);
}

-- `Close` hands over every client of the pool.
contains-clients :
    (k : Text) (c : Client) (m : Dict Text Client)
    → lookup k m ≡ some c
    → contains (map (λ e. e.1) m) c ≡ true
unfolding lookup
contains-clients k c [] h = cc
contains-clients k c ((j, d) ∷ m) h = ground (arith, contains-clients k c m, h)

closed-IsKept :
    (p : System) (c : Client)
    → IsKept p c
    → IsKept
        (record p {
          manager = record p.manager { clients = []; closed = true };
          down = map (λ e. e.1) p.manager.clients ++ p.down;
        })
        c
closed-IsKept p c (inl h) = inl h
closed-IsKept p c (inr (inl h)) =
    inr (inl (ground (arith, contains-append (map (λ e. e.1) p.manager.clients) p.down c, h)))
closed-IsKept p c (inr (inr (k, h))) = inr (
    inl (
      ground (
        arith,
        contains-append (map (λ e. e.1) p.manager.clients) p.down c,
        contains-clients k c p.manager.clients h,
      )))

closing-IsSound :
    (p : System) (b : Bool)
    → IsSound p
    → IsSound
        (record p { manager = (closing p.manager b).1; down = (closing p.manager b).0 ++ p.down })
closing-IsSound p true v = v
closing-IsSound p false v = record {
  empty = λ shut. refl;
  counted = v.counted;
  free = λ k a h. lookup-nil k;
  kept = λ c h. closed-IsKept p c (v.kept c h);
}

Step-IsSound : {p q : System} → IsSound p → Step p q → IsSound q
unfolding close
Step-IsSound v (turn key attempt) = turned-IsSound _ v key attempt
Step-IsSound v (fail key e busy) = spawn_failed-IsSound _ v key e busy
Step-IsSound v (done key client busy) = spawn_done-IsSound _ v key client busy
Step-IsSound v (crash client) = crash-IsSound _ client v
Step-IsSound {p} v shut = closing-IsSound p p.manager.closed v

initial-IsSound : IsSound initial
unfolding lookup
initial-IsSound = record {
  empty = λ shut. refl;
  counted = λ k. refl;
  free = λ k a h. refl;
  kept = λ c h. cc;
}

sound : {p : System} → Reachable p → IsSound p
sound here = initial-IsSound
sound (next r step) = Step-IsSound (sound r) step

if_true {ℓ} : {P : Type ℓ} (b : Bool) → (b ≡ true → P) → (b ≡ false) ⊎ P
if_true true h = inr (h refl)
if_true false h = inl refl

-- Whatever callers, crashes and calls of `Close` come in whatever order: no key ever has two callers
-- that spawn a server for it at once; a pool that is closed holds no client; and no server that was
-- started is lost, for its client is dead, or is being shut down, or stands in the pool.
pub Reachable-IsSound :
    {p : System}
    → Reachable p
    → (key : Text) (c : Client)
    → (p.spawning key ≤ 1)
      × ((p.manager.closed ≡ false) ⊎ (p.manager.clients ≡ []))
      × ((contains p.started c ≡ false) ⊎ IsKept p c)
Reachable-IsSound {p} r key c =
    let v = sound r in
    (
      omega (arith, v.counted key, occupied-le (lookup key p.manager.pending)),
      if_true p.manager.closed v.empty,
      if_true (contains p.started c) (v.kept c),
    )
