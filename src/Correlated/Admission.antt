-- ===== src/Correlated/Admission.antt =====
-- Admission: when a claim lets a send through, what is durable by then, and how large the ledger
-- can get.
use mathlib.Core.Path.{subst}
use home_assistant_whatsapp.Base.{
  Option-cases, String, [], ap, arith, contains, false, inl, inr, length, none, remove,
  remove-append_last, some, sym, true, ℕ, ◌++◌, ◌+◌, ◌∙◌, ◌∷◌, ◌≡◌, ◌≤◌,
}
use home_assistant_whatsapp.Correlated.Claim.{
  Claim, Request, add_alias, admitted, claim_locked, claim_new, new_record, replay, restage,
  with_aliases,
}
use home_assistant_whatsapp.Correlated.Fence.{
  claim_locked_found, claim_locked_new, is_admitted, replay_refuses,
}
use home_assistant_whatsapp.Correlated.Ledger.{fits, nul_text, prune, reserve}
use home_assistant_whatsapp.Correlated.Retention.{length-prune-le}
use home_assistant_whatsapp.Correlated.Types.{
  Config, Manager, Media, Record, max_idempotency_records,
}
use home_assistant_whatsapp.Dict.{
  Dict, erase-insert_new, insert, insert-insert, insert_same, length-insert, length-map_values,
  lookup, lookup-insert_self,
}
use home_assistant_whatsapp.Store.{SaveResult, save_failed, saved}

-- What an admitted claim has done.
pub record IsAdmitted (c : Config) (before : Manager) (q : Request) (created : ℕ) (k : Claim)
    : Type 0 where
  pub result : k.result ≡ admitted q
  pub running : before.stopping ≡ false
  pub available : before.persistence_available ≡ true
  pub fresh : lookup q.token before.records ≡ none
  pub room : fits c (insert q.token (new_record q created) before.records) ≡ true
  pub durable : k.written ≡ some k.manager.records
  pub recorded : k.manager.records ≡ insert q.token (new_record q created) before.records
  pub counted : k.manager.active ≡ before.active + 1
  pub undrained : k.manager.drained ≡ false

module _ (c : Config) where
  claim_new-IsAdmitted :
      (m : Manager) (q : Request) (created : ℕ) (ack : SaveResult)
      → lookup q.token m.records ≡ none
      → is_admitted (claim_new c m q created ack).result ≡ true
      → (ack ≡ saved) × IsAdmitted c m q created (claim_new c m q created ack)
  unfolding claim_new
  claim_new-IsAdmitted m q created ack h e = ground arith

  -- A send is admitted only with a new token, on a running manager with its store at hand, and
  -- only once the store has acknowledged the very records that hold its intent, which fit the bounds.
  pub claim-IsAdmitted :
      (m : Manager) (q : Request) (now created : ℕ) (ack : SaveResult)
      → is_admitted (claim_locked c m q now created ack).result ≡ true
      → (ack ≡ saved) × IsAdmitted c (prune now m) q created (claim_locked c m q now created ack)
  claim-IsAdmitted m q now created ack e =
      elim (Option-cases (lookup q.token (prune now m).records)) [
        | inl h ↦
            let new = claim_locked_new c m q now created ack h in
            subst (λ k. (ack ≡ saved) × IsAdmitted c (prune now m) q created k) (sym new)
              (claim_new-IsAdmitted (prune now m) q created ack h
                (ap (λ k. is_admitted k.result) (sym new) ∙ e))
        | inr (r, h) ↦ ground (
          arith,
          claim_locked_found c m q now created ack r h,
          replay_refuses c (prune now m) q r ack,
        )
      ]

  -- A refused alias is taken out again: the ledger is the one before it, entry by entry.
  alias_undone :
      (m : Manager) (q : Request) (r : Record) (b : Media) (token : String)
      → lookup q.token m.records ≡ some r
      → r.media ≡ some b
      → contains token b.upload_tokens ≡ false
      → insert q.token
          (with_aliases r b (remove token (b.upload_tokens ++ token ∷ [])))
          (insert q.token (with_aliases r b (b.upload_tokens ++ token ∷ [])) m.records)
        ≡ m.records
  alias_undone m q r b token h e new =
      insert-insert q.token _ _ m.records
      ∙ ap (λ l. insert q.token (with_aliases r b l) m.records)
          (remove-append_last token b.upload_tokens new)
      ∙ insert_same q.token _ m.records (rw h (ground arith))

  -- A restaging of recorded media whose save fails leaves the ledger as it was.
  pub add_alias_rollback :
      (m : Manager) (q : Request) (r : Record) (b : Media) (token : String)
      → lookup q.token m.records ≡ some r
      → r.media ≡ some b
      → (add_alias c m q r b token save_failed).manager.records ≡ m.records
  unfolding add_alias
  add_alias_rollback m q r b token h e = ground (arith, alias_undone m q r b token h e)

  length-add_alias :
      (m : Manager) (q : Request) (r : Record) (b : Media) (token : String) (ack : SaveResult)
      → lookup q.token m.records ≡ some r
      → length (add_alias c m q r b token ack).manager.records ≡ length m.records
  unfolding add_alias
  length-add_alias m q r b token ack h = grind (arith, length-insert, lookup-insert_self)

  length-replay :
      (m : Manager) (q : Request) (r : Record) (ack : SaveResult)
      → lookup q.token m.records ≡ some r
      → length (replay c m q r ack).manager.records ≡ length m.records
  unfolding replay restage
  length-replay m q r ack h = grind (arith, length-add_alias)

  fits-length : (d : Dict Record) → fits c d ≡ true → length d ≤ max_idempotency_records
  unfolding fits
  fits-length d h = ground (arith, length-map_values (reserve (nul_text 256)) d)

  length-claim_new-le :
      (m : Manager) (q : Request) (created : ℕ) (ack : SaveResult)
      → lookup q.token m.records ≡ none
      → length m.records ≤ max_idempotency_records
      → length (claim_new c m q created ack).manager.records ≤ max_idempotency_records
  unfolding claim_new
  length-claim_new-le m q created ack h k = grind (
    arith,
    fits-length (insert q.token (new_record q created) m.records),
    erase-insert_new,
    length-insert,
    lookup-insert_self,
  )

  -- No claim takes a ledger within its record limit past it, refused and failed claims included.
  pub claim_bounded :
      (m : Manager) (q : Request) (now created : ℕ) (ack : SaveResult)
      → length m.records ≤ max_idempotency_records
      → length (claim_locked c m q now created ack).manager.records ≤ max_idempotency_records
  claim_bounded m q now created ack h = elim (Option-cases (lookup q.token (prune now m).records)) [
    | inl e ↦
        rw (claim_locked_new c m q now created ack e)
          (length-claim_new-le (prune now m) q created ack e (omega (arith, length-prune-le now m)))
    | inr (r, e) ↦
        rw (claim_locked_found c m q now created ack r e)
          (omega (arith, length-prune-le now m, length-replay (prune now m) q r ack e))
  ]
