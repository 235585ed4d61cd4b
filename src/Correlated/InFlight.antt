-- ===== src/Correlated/InFlight.antt =====
-- How a claim of `async_execute` changes the records of the sends in flight.
use mathlib.Core.Path.{subst}
use home_assistant_whatsapp.Base.{
  Bool-cases, Option, Option-cases, String, arith, false, inl, inr, none, refl, some, str_eq,
  str_eq_iff, sym, true, ℕ, ◌∙◌, ◌≡◌, ◌≤◌,
}
use home_assistant_whatsapp.Correlated.Admission.{claim-IsAdmitted}
use home_assistant_whatsapp.Correlated.Claim.{Claim, Request, admitted, claim_locked, new_record}
use home_assistant_whatsapp.Correlated.Coverage.{claim_locked-Covers}
use home_assistant_whatsapp.Correlated.Fence.{
  HasSend, claim_locked-IsDict, claim_locked_fence, claim_locked_others, is_admitted,
}
use home_assistant_whatsapp.Correlated.Ledger.{is_open, prune}
use home_assistant_whatsapp.Correlated.Retention.{lookup-prune_open}
use home_assistant_whatsapp.Correlated.System.{Covers, IsConsistent, IsPending, System, after_claim}
use home_assistant_whatsapp.Correlated.Types.{Config, Manager, Record, pending}
use home_assistant_whatsapp.Dict.{IsDict, insert, lookup, lookup-insert, lookup-insert_self}
use home_assistant_whatsapp.Store.{SaveResult}

IsPending-open : (r : Record) → r.status ≡ pending → is_open r.status ≡ true
IsPending-open r h = rw h

IsPending-send : (r : Record) (o : Option Record) → r.status ≡ pending → HasSend r o → IsPending o
IsPending-send r none p h = h
IsPending-send r (some s) p h = h.status ∙ p

module _ (now : ℕ) (m : Manager) where
  pub prune-IsPending :
      (t : String)
      → IsDict m.records
      → IsPending (lookup t m.records)
      → IsPending (lookup t (prune now m).records)
  prune-IsPending t u p = elim (Option-cases (lookup t m.records)) [
    | inl e ↦ absurd (subst IsPending e p)
    | inr (r, e) ↦
        let p' : r.status ≡ pending = subst IsPending e p in
        rw (lookup-prune_open now m t r u e (IsPending-open r p')) p'
  ]

module _ (c : Config) (m : Manager) (q : Request) (now created : ℕ) (ack : SaveResult) where
  abbrev claimed : Claim
  claimed = claim_locked c m q now created ack

  claim_locked-IsPending :
      (t : String)
      → IsDict m.records
      → IsPending (lookup t m.records)
      → IsPending (lookup t claimed.manager.records)
  claim_locked-IsPending t u p = elim (Bool-cases (str_eq q.token t)) [
    | inr other ↦
        rw (claim_locked_others c m q now created ack t (λ e. ground (arith, str_eq_iff q.token t)))
          (prune-IsPending now m t u p)
    | inl same ↦ elim (Option-cases (lookup t m.records)) [
      | inl e ↦ absurd (subst IsPending e p)
      | inr (r, e) ↦
          let p' : r.status ≡ pending = subst IsPending e p in
          let k = sym ((str_eq_iff q.token t).0 same) in
          let held =
            claim_locked_fence c m q now created ack r u
              (subst (λ t'. lookup t' m.records ≡ some r) k e) (IsPending-open r p') in
          subst (λ t'. IsPending (lookup t' claimed.manager.records)) (sym k)
            (IsPending-send r _ p' held.1)
    ]
  ]

  -- A token in flight is not admitted again.
  pub claim_locked-in_flight :
      IsDict m.records → IsPending (lookup q.token m.records) → is_admitted claimed.result ≡ false
  claim_locked-in_flight u p = elim (Option-cases (lookup q.token m.records)) [
    | inl e ↦ absurd (subst IsPending e p)
    | inr (r, e) ↦
        (claim_locked_fence c m q now created ack r u e (IsPending-open r (subst IsPending e p))).0
  ]

after_claim_admitted :
    (s : System) (k : Claim) (created : ℕ) (q : Request)
    → k.result ≡ admitted q
    → after_claim s k created ≡ record s {
      manager = k.manager;
      flight = insert q.token q s.flight;
      sent = insert q.token created s.sent;
      clock = created;
    }
unfolding after_claim
after_claim_admitted s k created q h = ground arith

after_claim_other :
    (s : System) (k : Claim) (created : ℕ)
    → is_admitted k.result ≡ false
    → after_claim s k created ≡ record s { manager = k.manager; clock = created }
unfolding after_claim
after_claim_other s k created h = ground arith

module _ (c : Config) (s : System) (q : Request) (now created : ℕ) (ack : SaveResult)
    (v : IsConsistent s) (h : s.clock ≤ now) (h' : now ≤ created) where
  abbrev k : Claim
  k = claim_locked c s.manager q now created ack

  abbrev sent_on : System
  sent_on = record s {
    manager = k.manager;
    flight = insert q.token q s.flight;
    sent = insert q.token created s.sent;
    clock = created;
  }

  held-IsConsistent : IsConsistent (record s { manager = k.manager; clock = created })
  held-IsConsistent = record {
    dict = claim_locked-IsDict c s.manager q now created ack v.dict;
    in_flight = λ t p e. (
      (v.in_flight t p e).0,
      claim_locked-IsPending c s.manager q now created ack t v.dict (v.in_flight t p e).1,
    );
    covered = λ t at e.
        claim_locked-Covers c s.manager q now created at ack s.clock t v.dict h h'
          (v.covered t at e);
  }

  lookup-admitted :
      is_admitted k.result ≡ true → lookup q.token k.manager.records ≡ some (new_record q created)
  lookup-admitted e =
      rw ((claim-IsAdmitted c s.manager q now created ack e).1.recorded)
        (lookup-insert_self q.token (new_record q created) (prune now s.manager).records)

  sent_on-in_flight :
      is_admitted k.result ≡ true
      → (t : String) (p : Request) → lookup t sent_on.flight ≡ some p
      → (p.token ≡ t) × IsPending (lookup t k.manager.records)
  sent_on-in_flight e t p f = elim (Bool-cases (str_eq q.token t)) [
    | inl same ↦
        let same' = (str_eq_iff q.token t).0 same in
        (
          ground (arith, lookup-insert q.token t q s.flight),
          subst (λ t'. IsPending (lookup t' k.manager.records)) same' (rw (lookup-admitted e) refl),
        )
    | inr other ↦
        held-IsConsistent.in_flight t p (ground (arith, lookup-insert q.token t q s.flight))
  ]

  sent_on-covered :
      is_admitted k.result ≡ true
      → (t : String) (at : ℕ) → lookup t sent_on.sent ≡ some at
      → Covers created at (lookup t k.manager.records)
  sent_on-covered e t at f = elim (Bool-cases (str_eq q.token t)) [
    | inl same ↦
        let same' = (str_eq_iff q.token t).0 same in
        subst (λ t'. Covers created at (lookup t' k.manager.records)) same'
          (rw (lookup-admitted e) (ground (arith, lookup-insert q.token t created s.sent)))
    | inr other ↦
        held-IsConsistent.covered t at (ground (arith, lookup-insert q.token t created s.sent))
  ]

  pub claim_locked-IsConsistent : IsConsistent (after_claim s k created)
  claim_locked-IsConsistent = elim (Bool-cases (is_admitted k.result)) [
    | inr e ↦ rw (after_claim_other s k created e) held-IsConsistent
    | inl e ↦
        rw
          (after_claim_admitted s k created q
            (claim-IsAdmitted c s.manager q now created ack e).1.result)
          (record {
            dict = held-IsConsistent.dict;
            in_flight = sent_on-in_flight e;
            covered = sent_on-covered e;
          })
  ]
