-- ===== src/Correlated/Interleaving.antt =====
-- The steps of a `CorrelatedSendManager`, interleaved: claims, completions, lookups and stops.
use home_assistant_whatsapp.Base.{
  Bool-cases, Option, Option-cases, String, arith, inl, inr, none, refl, some, str_eq, str_eq_iff,
  ℕ, ◌≡◌, ◌≤◌,
}
use home_assistant_whatsapp.Correlated.Claim.{Request, check_request, claim, claim_locked, invalid}
use home_assistant_whatsapp.Correlated.Coverage.{
  Covers-prune, complete-Covers, complete-IsDict, complete_others,
}
use home_assistant_whatsapp.Correlated.Finish.{abandon, release, complete}
use home_assistant_whatsapp.Correlated.Ledger.{media_binding}
use home_assistant_whatsapp.Correlated.Outcome.{SendResult}
use home_assistant_whatsapp.Correlated.Retention.{prune-IsDict}
use home_assistant_whatsapp.Correlated.Start.{stop}
use home_assistant_whatsapp.Correlated.System.{
  Covers, IsConsistent, IsPending, Reach, Step, System, after_claim, after_complete, asks, claims,
  abandons, completes, here, next, stops,
}
use home_assistant_whatsapp.Correlated.Types.{Config, Manager, Record}
use home_assistant_whatsapp.Dict.{erase, lookup, lookup-erase}
use home_assistant_whatsapp.Json.{Value}
use home_assistant_whatsapp.Store.{SaveResult}
use home_assistant_whatsapp.Correlated.InFlight.{claim_locked-IsConsistent, prune-IsPending}

after_claim_invalid :
    (s : System) (created : ℕ)
    → after_claim s (record { manager = s.manager; written = none; result = invalid }) created
      ≡ record s { clock = created }
unfolding after_claim
after_claim_invalid s created = refl

Covers-later : (a b at : ℕ) (o : Option Record) → a ≤ b → Covers a at o → Covers b at o
Covers-later a b at none h k = omega arith
Covers-later a b at (some r) h k = k

waited-IsConsistent :
    (s : System) (now : ℕ)
    → IsConsistent s
    → s.clock ≤ now
    → IsConsistent (record s { clock = now })
waited-IsConsistent s now v h = record {
  dict = v.dict;
  in_flight = v.in_flight;
  covered = λ t at e. Covers-later s.clock now at _ h (v.covered t at e);
}

module _ (c : Config) (m : Manager) (x y b : Value) (media : Option Value) (now created : ℕ)
    (ack : SaveResult) where
  claim-invalid :
      check_request c x y b media ≡ none
      → claim c m x y b media now created ack
        ≡ record { manager = m; written = none; result = invalid }
  unfolding claim
  claim-invalid e = ground arith

  pub claim-checked :
      (q : Request)
      → check_request c x y b media ≡ some q
      → claim c m x y b media now created ack ≡ claim_locked c m q now created ack
  unfolding claim
  claim-checked q e = ground arith

module _ (c : Config) (s : System) (v : IsConsistent s) where
  claim-IsConsistent :
      (conversation client body : Value) (media : Option Value) (now created : ℕ) (ack : SaveResult)
      → s.clock ≤ now
      → now ≤ created
      → IsConsistent
          (after_claim s (claim c s.manager conversation client body media now created ack) created)
  claim-IsConsistent conversation client body media now created ack h h' =
      elim (Option-cases (check_request c conversation client body media)) [
        | inl e ↦
            rw
              (
                claim-invalid c s.manager conversation client body media now created ack e,
                after_claim_invalid s created,
              )
              (waited-IsConsistent s created v (omega arith))
        | inr (q, e) ↦
            rw (claim-checked c s.manager conversation client body media now created ack q e)
              (claim_locked-IsConsistent c s q now created ack v h h')
      ]

  others_in_flight :
      (q p : Request) (send : SendResult) (ack : SaveResult) (t : String)
      → lookup t (erase q.token s.flight) ≡ some p
      → (p.token ≡ t) × IsPending (lookup t (complete s.manager q send ack).manager.records)
  others_in_flight q p send ack t e = elim (Bool-cases (str_eq q.token t)) [
    | inl same ↦ absurd (ground (arith, lookup-erase q.token t s.flight))
    | inr other ↦
        let was = v.in_flight t p (ground (arith, lookup-erase q.token t s.flight)) in
        (
          was.0,
          rw (complete_others s.manager q send ack t (λ k. ground (arith, str_eq_iff q.token t)))
              was.1,
        )
  ]

  complete-IsConsistent :
      (q : Request) (send : SendResult) (ack : SaveResult)
      → lookup q.token s.flight ≡ some q
      → IsConsistent (after_complete s q (complete s.manager q send ack))
  unfolding after_complete
  complete-IsConsistent q send ack f = record {
    dict = complete-IsDict s.manager q send ack v.dict;
    in_flight = λ t p e. others_in_flight q p send ack t e;
    covered = λ t at e. complete-Covers s.manager q send ack s.clock at t (v.covered t at e);
  }

  abandon-IsConsistent :
      (q : Request)
      → lookup q.token s.flight ≡ some q
      → IsConsistent (after_complete s q (abandon s.manager))
  unfolding after_complete abandon release
  abandon-IsConsistent q f = record {
    dict = v.dict;
    in_flight = λ t p e. v.in_flight t p (grind (arith, lookup-erase q.token t s.flight, e));
    covered = v.covered;
  }

  asks-IsConsistent :
      (conversation client upload principal : String) (now : ℕ)
      → s.clock ≤ now
      → IsConsistent (record s {
        manager = (media_binding c s.manager conversation client upload principal now).0;
        clock = now;
      })
  unfolding media_binding
  asks-IsConsistent conversation client upload principal now h = record {
    dict = prune-IsDict now s.manager v.dict;
    in_flight = λ t p e.
        ((v.in_flight t p e).0, prune-IsPending now s.manager t v.dict (v.in_flight t p e).1);
    covered = λ t at e. Covers-prune s.clock now at s.manager t v.dict h (v.covered t at e);
  }

  stops-IsConsistent : IsConsistent (record s { manager = stop s.manager })
  unfolding stop
  stops-IsConsistent = record { dict = v.dict; in_flight = v.in_flight; covered = v.covered }

module _ (c : Config) where
  Step-IsConsistent : {s t : System} → Step c s t → IsConsistent s → IsConsistent t
  Step-IsConsistent {s} (claims x y b m now created ack h h') v =
      claim-IsConsistent c s v x y b m now created ack h h'
  Step-IsConsistent {s} (completes q send ack f) v = complete-IsConsistent c s v q send ack f
  Step-IsConsistent {s} (abandons q f) v = abandon-IsConsistent c s v q f
  Step-IsConsistent {s} (asks x y u p now h) v = asks-IsConsistent c s v x y u p now h
  Step-IsConsistent {s} stops v = stops-IsConsistent c s v

  -- Every reachable system is consistent.
  pub Reach-IsConsistent : {s t : System} → IsConsistent s → Reach c s t → IsConsistent t
  Reach-IsConsistent v here = v
  Reach-IsConsistent v (next r st) = Step-IsConsistent st (Reach-IsConsistent v r)
