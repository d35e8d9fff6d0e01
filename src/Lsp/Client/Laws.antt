-- ===== src/Lsp/Client/Laws.antt =====
-- internal/lsp/client.go: every call has its own id, and gets one reply at most.
use mathlib.Core.Path.{subst}
use dotfs_mcp_server.Base.{
  ℕ, suc, ◌≡◌, ◌≤◌, ◌<◌, refl, sym, ap, ◌∙◌, Bool, true, false, ◌⊎◌, inl, inr, Option, none, some,
  List, [], ◌∷◌, ◌++◌, map, ◌==◌, nat_eq, contains, contains-append, All, All-append, Distinct,
  Distinct-append, Dict, lookup, erase, lookup-erase, keys, Distinct-insert, Distinct-erase,
  All-insert, All-erase, All-lookup, arith, ℤ, pos, negsuc, Error, Text, Result, Option-cases,
  if◌then◌else◌,
}
use dotfs_mcp_server.Lsp.Client.{
  Client, Response, Channel, new_client, track_call, forget_call, deliver, dispatch, fail, aborted,
  Wake, expired, ended, replied, finish_call,
}
use dotfs_mcp_server.Lsp.Client.Steps.{track, forget, reply, die, Reachable, here, next}

-- The channels that a reply has been sent on, in order
abbrev pub channels : List (Channel × Response) → List Channel
channels [] = []
channels ((ch, r) ∷ sent) = ch ∷ channels sent

-- A call that waits: its channel is its own, its id has been given out, and nothing has been sent.
abbrev IsWaiting : ℕ → List (Channel × Response) → ℕ × Channel → Type 0
IsWaiting last sent (id, ch) = (ch ≡ id) × (id ≤ last) × (contains (channels sent) id ≡ false)

record IsSound (c : Client) : Type 0 where
  waiting : All (IsWaiting c.next_id c.sent) c.pending
  distinct : Distinct (keys c.pending)
  once : Distinct (channels c.sent)
  given : All (λ ch. ch ≤ c.next_id) (channels c.sent)

All-later : (n : ℕ) (xs : List ℕ) → All (λ x. x ≤ n) xs → All (λ x. x ≤ suc n) xs
All-later n [] h = tt
All-later n (x ∷ xs) h = (omega (arith, h.0), All-later n xs h.1)

not-given : (n m : ℕ) (xs : List ℕ) → All (λ x. x ≤ n) xs → n < m → contains xs m ≡ false
not-given n m [] h lt = refl
not-given n m (x ∷ xs) h lt = ground (arith, not-given n m xs h.1 lt, h)

All-IsWaiting :
    (n : ℕ) (sent : List (Channel × Response)) (m : Dict ℕ Channel)
    → All (IsWaiting n sent) m
    → All (IsWaiting (suc n) sent) m
All-IsWaiting n sent [] h = tt
All-IsWaiting n sent ((id, ch) ∷ m) h =
    ((h.0.0, omega (arith, h.0.1), h.0.2), All-IsWaiting n sent m h.1)

track-IsSound : (c : Client) → IsSound c → IsSound (track_call c).1
unfolding track_call
track-IsSound c v = record {
  waiting =
      All-insert (IsWaiting (suc c.next_id) c.sent) (suc c.next_id) (suc c.next_id) c.pending
        (
          refl,
          omega arith,
          not-given c.next_id (suc c.next_id) (channels c.sent) v.given (omega arith),
        )
        (All-IsWaiting c.next_id c.sent c.pending v.waiting);
  distinct = Distinct-insert (suc c.next_id) (suc c.next_id) c.pending v.distinct;
  once = v.once;
  given = All-later c.next_id (channels c.sent) v.given;
}

forget-IsSound : (id : ℕ) (c : Client) → IsSound c → IsSound (forget_call id c)
unfolding forget_call
forget-IsSound id c v = record {
  waiting =
      All-erase (IsWaiting c.next_id c.sent) (IsWaiting c.next_id c.sent) id c.pending
        (λ i w h _. h) v.waiting;
  distinct = Distinct-erase id c.pending v.distinct;
  once = v.once;
  given = v.given;
}

channels-append :
    (xs ys : List (Channel × Response)) → channels (xs ++ ys) ≡ channels xs ++ channels ys
channels-append [] ys = refl
channels-append ((ch, r) ∷ xs) ys = ap (λ (cs : List Channel). ch ∷ cs) (channels-append xs ys)

module _ (c : Client) (v : IsSound c) where
  -- A reply is sent on the channel of a call that waits.
  sent_on : ℕ → Channel → Response → Client
  sent_on id ch r = record c { pending = erase id c.pending; sent = c.sent ++ (ch, r) ∷ [] }

  sent_on-IsSound :
      (id : ℕ) (ch : Channel) (r : Response)
      → lookup id c.pending ≡ some ch
      → IsSound (sent_on id ch r)
  unfolding sent_on
  sent_on-IsSound id ch r is =
      let (same, old, unsent) =
        All-lookup (IsWaiting c.next_id c.sent) id ch c.pending v.waiting is in
      let all = channels-append c.sent ((ch, r) ∷ []) in
      record {
        waiting =
            All-erase (IsWaiting c.next_id c.sent) (IsWaiting c.next_id (c.sent ++ (ch, r) ∷ [])) id
              c.pending
              (λ i w h other. (
                h.0,
                h.1,
                ap (λ (cs : List Channel). contains cs i) all
                    ∙ contains-append (channels c.sent) (ch ∷ []) i
                    ∙ ground (arith, h.2, same, other),
              ))
              v.waiting;
        distinct = Distinct-erase id c.pending v.distinct;
        once =
            subst (λ (cs : List Channel). Distinct cs) (sym all)
              (Distinct-append (channels c.sent) (ch ∷ []) v.once (refl, tt) (rw same unsent, tt));
        given =
            subst (λ (cs : List Channel). All (λ k. k ≤ c.next_id) cs) (sym all)
              (All-append (λ k. k ≤ c.next_id) (channels c.sent) (ch ∷ []) v.given
                (omega (arith, old, same), tt));
      }

-- The replies of `fail` go to the channels of the calls that wait.
channels-aborted :
    (last : ℕ) (sent : List (Channel × Response)) (reason : Text) (m : Dict ℕ Channel)
    → All (IsWaiting last sent) m
    → channels (map (λ p. (p.1, aborted reason)) m) ≡ keys m
channels-aborted last sent reason [] h = refl
channels-aborted last sent reason ((id, ch) ∷ m) h =
    ground (arith, h.0, channels-aborted last sent reason m h.1)

waiting-apart :
    (last : ℕ) (sent : List (Channel × Response)) (m : Dict ℕ Channel)
    → All (IsWaiting last sent) m
    → All (λ k. contains (channels sent) k ≡ false) (keys m)
waiting-apart last sent [] h = tt
waiting-apart last sent ((id, ch) ∷ m) h = (h.0.2, waiting-apart last sent m h.1)

waiting-given :
    (last : ℕ) (sent : List (Channel × Response)) (m : Dict ℕ Channel)
    → All (IsWaiting last sent) m
    → All (λ k. k ≤ last) (keys m)
waiting-given last sent [] h = tt
waiting-given last sent ((id, ch) ∷ m) h = (h.0.1, waiting-given last sent m h.1)

fail-IsSound : (e : Error) (reason : Text) (c : Client) → IsSound c → IsSound (fail e reason c)
unfolding fail
fail-IsSound e reason c v =
    let all =
      channels-append c.sent (map (λ p. (p.1, aborted reason)) c.pending)
      ∙ ap (λ (cs : List Channel). channels c.sent ++ cs)
          (channels-aborted c.next_id c.sent reason c.pending v.waiting) in
    record {
      waiting = tt;
      distinct = tt;
      once =
          subst (λ (cs : List Channel). Distinct cs) (sym all)
            (Distinct-append (channels c.sent) (keys c.pending) v.once v.distinct
              (waiting-apart c.next_id c.sent c.pending v.waiting));
      given =
          subst (λ (cs : List Channel). All (λ k. k ≤ c.next_id) cs) (sym all)
            (All-append (λ k. k ≤ c.next_id) (channels c.sent) (keys c.pending) v.given
              (waiting-given c.next_id c.sent c.pending v.waiting));
    }

deliver-IsSound : (id : ℕ) (r : Response) (c : Client) → IsSound c → IsSound (deliver id r c)
unfolding deliver
deliver-IsSound id r c v = elim (Option-cases (lookup id c.pending)) [
  | inl e ↦ rw (e, deliver) v
  | inr (ch, e) ↦ rw (e, deliver) (unfold sent_on in sent_on-IsSound c v id ch r e)
]

dispatch-IsSound :
    (id : Option ℤ) (r : Response) (c : Client) → IsSound c → IsSound (dispatch id r c)
unfolding dispatch
dispatch-IsSound none r c v = v
dispatch-IsSound (some (negsuc n)) r c v = v
dispatch-IsSound (some (pos id)) r c v = deliver-IsSound id r c v

new-IsSound : IsSound new_client
new-IsSound = record { waiting = tt; distinct = tt; once = tt; given = tt }

sound : {c : Client} → Reachable c → IsSound c
sound here = new-IsSound
sound (next {c} r track) = track-IsSound c (sound r)
sound (next {c} r (forget id)) = forget-IsSound id c (sound r)
sound (next {c} r (reply id m)) = dispatch-IsSound id m c (sound r)
sound (next {c} r (die e reason)) = fail-IsSound e reason c (sound r)

waiting-unsent :
    (last : ℕ) (sent : List (Channel × Response)) (m : Dict ℕ Channel) (id : ℕ)
    → All (IsWaiting last sent) m
    → (lookup id m ≡ none) ⊎ (contains (channels sent) id ≡ false)
waiting-unsent last sent m id h = elim (Option-cases (lookup id m)) [
  | inl e ↦ inl e
  | inr (ch, e) ↦ inr (All-lookup (IsWaiting last sent) id ch m h e).2
]

not-waiting : (c : Client) (id : ℕ) → IsSound c → c.next_id < id → lookup id c.pending ≡ none
not-waiting c id v lt = elim (Option-cases (lookup id c.pending)) [
  | inl e ↦ e
  | inr (ch, e) ↦
      absurd
        (omega (arith, (All-lookup (IsWaiting c.next_id c.sent) id ch c.pending v.waiting e).1, lt))
]

-- Whatever calls begin, give up or are answered, and whenever the session ends, no channel ever gets
-- two replies, so a send never blocks; a call that still waits has got none; and the id that the
-- next call takes has been neither given to a call that waits nor answered.
pub Reachable-IsOnce :
    {c : Client}
    → Reachable c
    → (id : ℕ)
    → Distinct (channels c.sent)
      × ((lookup id c.pending ≡ none) ⊎ (contains (channels c.sent) id ≡ false))
      × (lookup (track_call c).0.0 c.pending ≡ none)
      × (contains (channels c.sent) (track_call c).0.1 ≡ false)
unfolding track_call
Reachable-IsOnce {c} r id =
    let v = sound r in
    (
      v.once,
      waiting-unsent c.next_id c.sent c.pending id v.waiting,
      not-waiting c (suc c.next_id) v (omega arith),
      not-given c.next_id (suc c.next_id) (channels c.sent) v.given (omega arith),
    )

-- A reply that ends a wait has been sent on the channel of the call.
abbrev pub IsDelivered : Client → ℕ → Wake → Type 0
IsDelivered c id (replied r) = contains (channels c.sent) id ≡ true
IsDelivered c id (expired e) = Unit
IsDelivered c id ended = Unit

-- However a call ends, by its reply, by its context or by the end of the session, it is not among
-- the calls that wait any more, and no other call is touched.
pub finish_call-forgets :
    {c : Client}
    → Reachable c
    → (decode : Text → Result Text) (wanted : Bool) (id j : ℕ) (wake : Wake) → IsDelivered c id wake
    → lookup j (finish_call decode wanted id wake c).1.pending
      ≡ (if j == id then none else lookup j c.pending)
unfolding finish_call forget_call
finish_call-forgets {c} r decode wanted id j (expired e) h = lookup-erase j id c.pending
finish_call-forgets {c} r decode wanted id j ended h = lookup-erase j id c.pending
finish_call-forgets {c} r decode wanted id j (replied m) h =
    ground (arith, waiting-unsent c.next_id c.sent c.pending id (sound r).waiting, h)
