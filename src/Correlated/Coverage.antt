-- ===== src/Correlated/Coverage.antt =====
-- How one step of `correlated.py` changes the record of a token that was sent.
use mathlib.Core.Path.{subst}
use home_assistant_whatsapp.Base.{
  Bool-cases, Option, Option-cases, String, arith, false, if◌then◌else◌, inl, inr, none, some,
  str_eq, str_eq_iff, sym, ℕ, ◌+◌, ◌||◌, ◌≡◌, ◌≢◌, ◌≤◌,
}
use home_assistant_whatsapp.Base.Int.{negsuc, pos, ℤ}
use home_assistant_whatsapp.Correlated.Claim.{Request, claim_locked, claim_new}
use home_assistant_whatsapp.Correlated.Fence.{
  HasSend, claim_locked_found, claim_locked_new, claim_locked_others, replay_self,
}
use home_assistant_whatsapp.Correlated.Finish.{complete}
use home_assistant_whatsapp.Correlated.Ledger.{is_kept, is_open, is_retained, prune}
use home_assistant_whatsapp.Correlated.Outcome.{SendResult}
use home_assistant_whatsapp.Correlated.Retention.{lookup-prune-none, lookup-prune-some}
use home_assistant_whatsapp.Correlated.System.{Covers, Since}
use home_assistant_whatsapp.Correlated.Types.{Config, Manager, Record, idempotency_retention}
use home_assistant_whatsapp.Dict.{
  IsDict, insert-IsDict, lookup, lookup-erase, lookup-insert_ne, lookup-insert_self,
}
use home_assistant_whatsapp.Store.{SaveResult}

Covers-le : (a b at : ℕ) (o : Option Record) → a ≤ b → Covers a at o → Covers b at o
Covers-le a b at none h k = omega arith
Covers-le a b at (some r) h k = k

Covers-send :
    (clock at : ℕ) (r : Record) (o : Option Record)
    → HasSend r o
    → Covers clock at (some r)
    → Covers clock at o
Covers-send clock at r none h k = absurd h
Covers-send clock at r (some s) h k = rw (h.created_at) k

Since-dropped :
    (at : ℕ) (z : ℤ) (now : ℕ)
    → Since at z
    → is_retained z now ≡ false
    → at + idempotency_retention ≤ now
unfolding is_retained
Since-dropped at (pos u) now h e = ground arith
Since-dropped at (negsuc u) now h e = absurd h

-- A record that covers a token and is dropped is past its retention.
Covers-kept :
    (clock now at : ℕ) (r : Record)
    → Covers clock at (some r)
    → Covers now at (if is_kept now r then some r else none)
unfolding is_kept
Covers-kept clock now at r k =
    elim (Bool-cases (is_open r.status || is_retained r.created_at now)) [
      | inl e ↦ rw e k
      | inr e ↦ rw e (Since-dropped at r.created_at now k (ground arith))
    ]

pub Covers-prune :
    (clock now at : ℕ) (m : Manager) (t : String)
    → IsDict m.records
    → clock ≤ now
    → Covers clock at (lookup t m.records)
    → Covers now at (lookup t (prune now m).records)
Covers-prune clock now at m t u h k = elim (Option-cases (lookup t m.records)) [
  | inl e ↦
      rw (lookup-prune-none now m t e) (Covers-le clock now at none h (subst (Covers clock at) e k))
  | inr (r, e) ↦
      rw (lookup-prune-some now m t r u e)
        (Covers-kept clock now at r (subst (Covers clock at) e k))
]

-- What `claim_new` leaves at its own token, if nothing was there.
abbrev CreatedAt : ℕ → Option Record → Type 0
CreatedAt created none = Unit
CreatedAt created (some r) = r.created_at ≡ pos created

module _ (c : Config) (m : Manager) (q : Request) where
  claim_new_self :
      (created : ℕ) (ack : SaveResult)
      → lookup q.token m.records ≡ none
      → CreatedAt created (lookup q.token (claim_new c m q created ack).manager.records)
  unfolding claim_new
  claim_new_self created ack h = grind (arith, lookup-insert_self, lookup-erase)

  CreatedAt-Covers :
      (now created at : ℕ) (o : Option Record)
      → now ≤ created
      → Covers now at none
      → CreatedAt created o
      → Covers created at o
  CreatedAt-Covers now created at none h k p = omega arith
  CreatedAt-Covers now created at (some r) h k p = rw p (omega arith)

module _ (c : Config) (m : Manager) (q : Request) (now created at : ℕ) (ack : SaveResult) where
  claim_locked_own :
      now ≤ created
      → Covers now at (lookup q.token (prune now m).records)
      → Covers created at (lookup q.token (claim_locked c m q now created ack).manager.records)
  claim_locked_own h k = elim (Option-cases (lookup q.token (prune now m).records)) [
    | inl e ↦ rw (claim_locked_new c m q now created ack e) (
        CreatedAt-Covers c m q now created at _ h (subst (Covers now at) e k)
          (claim_new_self c (prune now m) q created ack e))
    | inr (r, e) ↦ rw (claim_locked_found c m q now created ack r e) (
        Covers-send created at r _ (replay_self c (prune now m) q r ack e)
          (Covers-le now created at (some r) h (subst (Covers now at) e k)))
  ]

  -- One claim keeps what covers a token, its own or another.
  pub claim_locked-Covers :
      (clock : ℕ) (t : String)
      → IsDict m.records
      → clock ≤ now
      → now ≤ created
      → Covers clock at (lookup t m.records)
      → Covers created at (lookup t (claim_locked c m q now created ack).manager.records)
  claim_locked-Covers clock t u h h' k =
      let k' = Covers-prune clock now at m t u h k in
      elim (Bool-cases (str_eq q.token t)) [
        | inr other ↦
            rw
              (claim_locked_others c m q now created ack t
                (λ e. ground (arith, str_eq_iff q.token t)))
              (Covers-le now created at _ h' k')
        | inl same ↦
            let e = (str_eq_iff q.token t).0 same in
            subst
              (λ t'.
                Covers created at (lookup t' (claim_locked c m q now created ack).manager.records))
              e
              (claim_locked_own h'
                (subst (λ t'. Covers now at (lookup t' (prune now m).records)) (sym e) k'))
      ]

-- The outcome of a send is recorded in its own record, whose time stays.
module _ (m : Manager) (q : Request) (send : SendResult) (ack : SaveResult) where
  pub complete_others :
      (t : String)
      → q.token ≢ t
      → lookup t (complete m q send ack).manager.records ≡ lookup t m.records
  unfolding complete
  complete_others t h = grind (arith, lookup-insert_ne)

  pub complete-IsDict : IsDict m.records → IsDict (complete m q send ack).manager.records
  unfolding complete
  complete-IsDict u = grind (arith, insert-IsDict)

  complete_own :
      (clock at : ℕ)
      → Covers clock at (lookup q.token m.records)
      → Covers clock at (lookup q.token (complete m q send ack).manager.records)
  unfolding complete
  complete_own clock at k = grind (arith, lookup-insert_self)

  pub complete-Covers :
      (clock at : ℕ) (t : String)
      → Covers clock at (lookup t m.records)
      → Covers clock at (lookup t (complete m q send ack).manager.records)
  complete-Covers clock at t k = elim (Bool-cases (str_eq q.token t)) [
    | inr other ↦ rw (complete_others t (λ e. ground (arith, str_eq_iff q.token t))) k
    | inl same ↦
        let e = (str_eq_iff q.token t).0 same in
        subst (λ t'. Covers clock at (lookup t' (complete m q send ack).manager.records)) e
          (complete_own clock at (subst (λ t'. Covers clock at (lookup t' m.records)) (sym e) k))
  ]
