-- ===== src/Correlated/System.antt =====
-- Requests in flight: any interleaving of claims, completions, lookups and stops of one manager.
use home_assistant_whatsapp.Base.{Option, String, none, some, ℕ, ◌+◌, ◌≡◌, ◌≤◌}
use home_assistant_whatsapp.Base.Int.{negsuc, pos, ℤ}
use home_assistant_whatsapp.Correlated.Claim.{Claim, Request, admitted, claim}
use home_assistant_whatsapp.Correlated.Finish.{Finish, abandon, complete}
use home_assistant_whatsapp.Correlated.Ledger.{media_binding}
use home_assistant_whatsapp.Correlated.Outcome.{SendResult}
use home_assistant_whatsapp.Correlated.Start.{stop}
use home_assistant_whatsapp.Correlated.Types.{
  Config, Manager, Record, idempotency_retention, pending,
}
use home_assistant_whatsapp.Dict.{Dict, IsDict, erase, insert, lookup}
use home_assistant_whatsapp.Json.{Value}
use home_assistant_whatsapp.Store.{SaveResult}

-- A manager with its sends in flight, by token; the time of the latest admission of each token; and
-- the time of the latest step.
pub record System : Type 0 where
  pub manager : Manager
  pub flight : Dict Request
  pub sent : Dict ℕ
  pub clock : ℕ

-- The system after a claim that read `created` as its time.
unfoldable pub after_claim : System → Claim → ℕ → System
after_claim s k created = elim k.result [
  | admitted q ↦ record s {
    manager = k.manager;
    flight = insert q.token q s.flight;
    sent = insert q.token created s.sent;
    clock = created;
  }
  | _ ↦ record s { manager = k.manager; clock = created }
]

-- The system after the send of `q` ended and its outcome was recorded.
unfoldable pub after_complete : System → Request → Finish → System
after_complete s q f = record s { manager = f.manager; flight = erase q.token s.flight }

-- One step; the environment chooses the request, the times, and how sends and saves end.
pub data Step (c : Config) (s : System) : System → Type 0 where
  claims :
      (conversation client body : Value) (media : Option Value) (now created : ℕ) (ack : SaveResult)
      → s.clock ≤ now
      → now ≤ created
      → Step c s
          (after_claim s (claim c s.manager conversation client body media now created ack) created)
  completes :
      (q : Request) (send : SendResult) (ack : SaveResult)
      → lookup q.token s.flight ≡ some q
      → Step c s (after_complete s q (complete s.manager q send ack))
  abandons :
      (q : Request)
      → lookup q.token s.flight ≡ some q
      → Step c s (after_complete s q (abandon s.manager))
  asks :
      (conversation client upload principal : String) (now : ℕ)
      → s.clock ≤ now
      → Step c s (record s {
        manager = (media_binding c s.manager conversation client upload principal now).0;
        clock = now;
      })
  stops : Step c s (record s { manager = stop s.manager })

pub data Reach (c : Config) (s : System) : System → Type 0 where
  here : Reach c s s
  next : {t u : System} → Reach c s t → Step c t u → Reach c s u

-- A record whose send is pending.
abbrev pub IsPending : Option Record → Type 0
IsPending none = ⊥
IsPending (some r) = r.status ≡ pending

-- An instant no earlier than `t`.
abbrev pub Since : ℕ → ℤ → Type 0
Since t (pos u) = t ≤ u
Since t (negsuc u) = ⊥

-- A token sent at `t` has a record that is retained at least as long, or its retention is over.
abbrev pub Covers : ℕ → ℕ → Option Record → Type 0
Covers clock t none = t + idempotency_retention ≤ clock
Covers clock t (some r) = Since t r.created_at

pub record IsConsistent (s : System) : Type 0 where
  pub dict : IsDict s.manager.records
  pub in_flight :
      (t : String) (q : Request)
      → lookup t s.flight ≡ some q
      → (q.token ≡ t) × IsPending (lookup t s.manager.records)
  pub covered :
      (t : String) (at : ℕ)
      → lookup t s.sent ≡ some at
      → Covers s.clock at (lookup t s.manager.records)
