-- ===== src/Correlated/AtMostOnce.antt =====
-- Idempotency of `async_execute` over the interleavings of one manager's calls.
use mathlib.Core.Path.{subst}
use home_assistant_whatsapp.Base.{
  Option-cases, [], arith, inl, inr, none, some, true, ℕ, ◌+◌, ◌≡◌, ◌≢◌, ◌≤◌,
}
use home_assistant_whatsapp.Correlated.Admission.{claim-IsAdmitted}
use home_assistant_whatsapp.Correlated.Claim.{Request, claim_locked}
use home_assistant_whatsapp.Correlated.Coverage.{Covers-prune}
use home_assistant_whatsapp.Correlated.Fence.{is_admitted}
use home_assistant_whatsapp.Correlated.Finish.{complete, missing}
use home_assistant_whatsapp.Correlated.InFlight.{claim_locked-in_flight}
use home_assistant_whatsapp.Correlated.Interleaving.{Reach-IsConsistent}
use home_assistant_whatsapp.Correlated.Outcome.{SendResult}
use home_assistant_whatsapp.Correlated.System.{Covers, IsConsistent, IsPending, Reach, System}
use home_assistant_whatsapp.Correlated.Types.{Config, Manager, Record, idempotency_retention}
use home_assistant_whatsapp.Dict.{IsDict, lookup}
use home_assistant_whatsapp.Store.{SaveResult}

-- A manager with its ledger read and nothing in flight.
abbrev pub begin : Manager → ℕ → System
begin m clock = record { manager = m; flight = []; sent = []; clock = clock }

begin-IsConsistent : (m : Manager) (clock : ℕ) → IsDict m.records → IsConsistent (begin m clock)
unfolding lookup
begin-IsConsistent m clock u = record {
  dict = u;
  in_flight = λ t q e. absurd (cc);
  covered = λ t at e. absurd (cc);
}

complete_found :
    (m : Manager) (q : Request) (send : SendResult) (ack : SaveResult) (r : Record)
    → lookup q.token m.records ≡ some r
    → (complete m q send ack).result ≢ missing
unfolding complete
complete_found m q send ack r h = ground arith

module _ (c : Config) (m : Manager) (clock : ℕ) (u : IsDict m.records) {t : System}
    (run : Reach c (begin m clock) t) where
  consistent : IsConsistent t
  consistent = Reach-IsConsistent c (begin-IsConsistent m clock u) run

  -- From a manager with nothing in flight, whose ledger repeats no token, let any claims,
  -- completions, sends whose outcome a cancellation keeps from the ledger, media lookups and stops
  -- interleave, with a clock that never goes back. A claim
  -- that is then admitted for a token that was sent before comes only after the retention of the
  -- latest send of that token has run out, and never while that send is in flight.
  pub at_most_once :
      (q : Request) (now created at : ℕ) (ack : SaveResult)
      → t.clock ≤ now
      → lookup q.token t.sent ≡ some at
      → is_admitted (claim_locked c t.manager q now created ack).result ≡ true
      → (at + idempotency_retention ≤ now) × (lookup q.token t.flight ≡ none)
  at_most_once q now created at ack h sent e = (
    subst (Covers now at) ((claim-IsAdmitted c t.manager q now created ack e).1.fresh) (
        Covers-prune t.clock now at t.manager q.token consistent.dict h
          (consistent.covered q.token at sent)),
    idle,
  )
    where
      idle : lookup q.token t.flight ≡ none
      idle = elim (Option-cases (lookup q.token t.flight)) [
        | inl f ↦ f
        | inr (p, f) ↦ absurd (
            ground (
              arith,
              claim_locked-in_flight c t.manager q now created ack consistent.dict
                  (consistent.in_flight q.token p f).1,
            ))
      ]

  -- A send that is in flight finds its record again when it ends: none of the interleavings of
  -- `at_most_once` makes `_finish` raise a `KeyError`.
  pub complete-ne-missing :
      (q : Request) (send : SendResult) (ack : SaveResult)
      → lookup q.token t.flight ≡ some q
      → (complete t.manager q send ack).result ≢ missing
  complete-ne-missing q send ack f = elim (Option-cases (lookup q.token t.manager.records)) [
    | inl e ↦ absurd (subst IsPending e (consistent.in_flight q.token q f).1)
    | inr (r, e) ↦ complete_found t.manager q send ack r e
  ]
