-- ===== src/Correlated/Fence.antt =====
-- The fence around a recorded send: what one claim does to the ledger, at its own token and at the
-- others.
use mathlib.Core.Path.{subst}
use home_assistant_whatsapp.Base.{
  Bool, Option, String, arith, false, none, some, str_eq_iff, sym, true, ℕ, ◌≡◌, ◌≢◌,
}
use home_assistant_whatsapp.Correlated.Claim.{
  Claimed, Request, add_alias, admitted, claim_locked, claim_new, replay, restage,
}
use home_assistant_whatsapp.Correlated.Ledger.{is_open, prune}
use home_assistant_whatsapp.Correlated.Retention.{lookup-prune_open, prune-IsDict}
use home_assistant_whatsapp.Correlated.Types.{Config, Manager, Media, Record}
use home_assistant_whatsapp.Dict.{
  Dict, IsDict, erase-IsDict, insert-IsDict, lookup, lookup-erase, lookup-insert_ne,
  lookup-insert_self,
}
use home_assistant_whatsapp.Store.{SaveResult}

-- The record of the same send: all but the aliases of its media is unchanged.
pub record SameSend (r s : Record) : Type 0 where
  pub digest : s.digest ≡ r.digest
  pub created_at : s.created_at ≡ r.created_at
  pub status : s.status ≡ r.status
  pub message_id : s.message_id ≡ r.message_id
  pub error_code : s.error_code ≡ r.error_code

-- A lookup that found the record of the same send.
abbrev pub HasSend : Record → Option Record → Type 0
HasSend r none = ⊥
HasSend r (some s) = SameSend r s

abbrev pub is_admitted : Claimed → Bool
is_admitted (admitted _) = true
is_admitted _ = false

module _ (c : Config) where
  -- A replay leaves the other tokens alone.
  module _ (m : Manager) (q : Request) (r : Record) (ack : SaveResult) where
    add_alias_others :
        (b : Media) (token t : String)
        → q.token ≢ t
        → lookup t (add_alias c m q r b token ack).manager.records ≡ lookup t m.records
    unfolding add_alias
    add_alias_others b token t h = grind (arith, lookup-insert_ne)

    add_alias_self :
        (b : Media) (token : String)
        → lookup q.token m.records ≡ some r
        → HasSend r (lookup q.token (add_alias c m q r b token ack).manager.records)
    unfolding add_alias
    add_alias_self b token h = grind (arith, lookup-insert_self)

    add_alias-IsDict :
        (b : Media) (token : String)
        → IsDict m.records
        → IsDict (add_alias c m q r b token ack).manager.records
    unfolding add_alias
    add_alias-IsDict b token u = grind (arith, insert-IsDict)

    add_alias_refuses :
        (b : Media) (token : String) → is_admitted (add_alias c m q r b token ack).result ≡ false
    unfolding add_alias
    add_alias_refuses b token = ground arith

    replay_others :
        (t : String)
        → q.token ≢ t
        → lookup t (replay c m q r ack).manager.records ≡ lookup t m.records
    unfolding replay restage
    replay_others t h = grind (arith, add_alias_others)

    pub replay_self :
        lookup q.token m.records ≡ some r
        → HasSend r (lookup q.token (replay c m q r ack).manager.records)
    unfolding replay restage
    replay_self h = grind (arith, add_alias_self)

    pub replay-IsDict : IsDict m.records → IsDict (replay c m q r ack).manager.records
    unfolding replay restage
    replay-IsDict u = grind (arith, add_alias-IsDict)

    pub replay_refuses : is_admitted (replay c m q r ack).result ≡ false
    unfolding replay restage
    replay_refuses = grind (arith, add_alias_refuses)

  module _ (m : Manager) (q : Request) (created : ℕ) (ack : SaveResult) where
    pub claim_new_others :
        (t : String)
        → q.token ≢ t
        → lookup t (claim_new c m q created ack).manager.records ≡ lookup t m.records
    unfolding claim_new
    claim_new_others t h = grind (arith, lookup-insert_ne, lookup-erase, str_eq_iff)

    claim_new-IsDict : IsDict m.records → IsDict (claim_new c m q created ack).manager.records
    unfolding claim_new
    claim_new-IsDict u = grind (arith, insert-IsDict, erase-IsDict)

  module _ (m : Manager) (q : Request) (now created : ℕ) (ack : SaveResult) where
    abbrev after : Dict Record
    after = (claim_locked c m q now created ack).manager.records

    pub claim_locked-IsDict : IsDict m.records → IsDict after
    unfolding claim_locked
    claim_locked-IsDict u = grind (arith, replay-IsDict, claim_new-IsDict, prune-IsDict)

    -- A claim leaves the records of the other tokens alone, but for the prune that it begins with.
    pub claim_locked_others :
        (t : String) → q.token ≢ t → lookup t after ≡ lookup t (prune now m).records
    unfolding claim_locked
    claim_locked_others t h = grind (arith, replay_others, claim_new_others)

    pub claim_locked_found :
        (r : Record)
        → lookup q.token (prune now m).records ≡ some r
        → claim_locked c m q now created ack ≡ replay c (prune now m) q r ack
    unfolding claim_locked
    claim_locked_found r h = ground arith

    pub claim_locked_new :
        lookup q.token (prune now m).records ≡ none
        → claim_locked c m q now created ack ≡ claim_new c (prune now m) q created ack
    unfolding claim_locked
    claim_locked_new h = ground arith

    pub claim_locked_fence :
        (r : Record)
        → IsDict m.records
        → lookup q.token m.records ≡ some r
        → is_open r.status ≡ true
        → (is_admitted (claim_locked c m q now created ack).result ≡ false)
          × HasSend r (lookup q.token after)
    claim_locked_fence r u h o =
        let kept = lookup-prune_open now m q.token r u h o in
        subst (λ k. (is_admitted k.result ≡ false) × HasSend r (lookup q.token k.manager.records))
          (sym (claim_locked_found r kept))
          (replay_refuses (prune now m) q r ack, replay_self (prune now m) q r ack kept)
