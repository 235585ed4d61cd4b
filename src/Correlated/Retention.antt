-- ===== src/Correlated/Retention.antt =====
-- Retention: what `_prune` keeps, in terms of lookups.
use home_assistant_whatsapp.Base.{
  Option-cases, String, arith, if◌then◌else◌, inl, inr, length, none, some, true, ℕ, ◌≡◌, ◌≤◌,
}
use home_assistant_whatsapp.Correlated.Ledger.{is_kept, is_open, prune}
use home_assistant_whatsapp.Correlated.Types.{Manager, Record}
use home_assistant_whatsapp.Dict.{
  IsDict, filter-IsDict, length-filter-le, lookup, lookup-filter_none, lookup-filter_some,
}

pub prune-IsDict : (now : ℕ) (m : Manager) → IsDict m.records → IsDict (prune now m).records
unfolding prune
prune-IsDict now m u = filter-IsDict (is_kept now) m.records u

pub lookup-prune-none :
    (now : ℕ) (m : Manager) (token : String)
    → lookup token m.records ≡ none
    → lookup token (prune now m).records ≡ none
unfolding prune
lookup-prune-none now m token h = lookup-filter_none (is_kept now) token m.records h

pub lookup-prune-some :
    (now : ℕ) (m : Manager) (token : String) (r : Record)
    → IsDict m.records
    → lookup token m.records ≡ some r
    → lookup token (prune now m).records ≡ (if is_kept now r then some r else none)
unfolding prune
lookup-prune-some now m token r u h = lookup-filter_some (is_kept now) token r m.records u h

-- What is found after a prune was there before.
pub lookup-prune_inv :
    (now : ℕ) (m : Manager) (token : String) (r : Record)
    → IsDict m.records
    → lookup token (prune now m).records ≡ some r
    → lookup token m.records ≡ some r
lookup-prune_inv now m token r u h = elim (Option-cases (lookup token m.records)) [
  | inl e ↦ ground (arith, lookup-prune-none now m token e)
  | inr (s, e) ↦ ground (arith, lookup-prune-some now m token s u e)
]

pub lookup-prune_open :
    (now : ℕ) (m : Manager) (token : String) (r : Record)
    → IsDict m.records
    → lookup token m.records ≡ some r
    → is_open r.status ≡ true
    → lookup token (prune now m).records ≡ some r
unfolding is_kept
lookup-prune_open now m token r u h o = ground (arith, lookup-prune-some now m token r u h)

pub length-prune-le : (now : ℕ) (m : Manager) → length (prune now m).records ≤ length m.records
unfolding prune
length-prune-le now m = length-filter-le (is_kept now) m.records
