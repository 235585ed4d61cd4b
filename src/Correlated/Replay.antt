-- ===== src/Correlated/Replay.antt =====
-- Replays: what a recorded request is answered, and what a stopped manager still does.
use mathlib.Core.Path.{subst}
use home_assistant_whatsapp.Base.{
  Option, Option-cases, String, arith, false, if◌then◌else◌, inl, inr, none, refl, some, str_eq,
  true, ℕ, ◌≡◌, ◌≢◌,
}
use home_assistant_whatsapp.Correlated.Claim.{
  Request, add_alias, answer, claim_locked, claim_new, refusal, replay, replay_of, restage,
}
use home_assistant_whatsapp.Correlated.Fence.{is_admitted}
use home_assistant_whatsapp.Correlated.Ledger.{prune}
use home_assistant_whatsapp.Correlated.Outcome.{
  SendResult, authentication_error, code_of, correlated_error, mapping_outcome, other_error,
  outcome, request_error, returned, safe_message_id, send_outcome, session_not_found, settle,
  settled_status_of, status_of,
}
use home_assistant_whatsapp.Correlated.Types.{
  Code, Config, Manager, Outcome, Record, Status, accepted, failed, pending, request_conflict,
  unknown,
}
use home_assistant_whatsapp.Dict.{Dict, lookup}
use home_assistant_whatsapp.Json.{
  Value, bool, dict, float, get, get_default, int, list, null, str, to_dict,
}
use home_assistant_whatsapp.Store.{SaveResult}

-- A request that is on record is answered from its record and writes nothing: with the recorded
-- outcome if it is the same request, with a conflict if its body differs. Requests with media may
-- also write an alias, and are left out.
pub claim_recorded :
    (c : Config) (m : Manager) (q : Request) (r : Record) (now created : ℕ) (ack : SaveResult)
    → lookup q.token (prune now m).records ≡ some r
    → q.media ≡ none
    → claim_locked c m q now created ack
      ≡ answer
          (prune now m)
          (if str_eq r.digest q.digest then replay_of q r else refusal q request_conflict)
unfolding claim_locked replay restage
claim_recorded c m q r now created ack h e = ground arith

-- A stopped manager admits nothing and writes nothing through a claim; its ledger is only pruned.
pub claim_stopped :
    (c : Config) (m : Manager) (q : Request) (now created : ℕ) (ack : SaveResult)
    → m.stopping ≡ true
    → ((claim_locked c m q now created ack).written ≡ none)
      × (is_admitted (claim_locked c m q now created ack).result ≡ false)
      × ((claim_locked c m q now created ack).manager.records ≡ (prune now m).records)
unfolding claim_locked replay restage add_alias claim_new prune
claim_stopped c m q now created ack h = ground arith

-- A recorded outcome is settled or open, and has an error code exactly when it is not accepted.
pub record IsOutcome (o : Outcome) : Type 0 where
  pub ended : o.status ≢ pending
  pub accepted_clean : o.status ≡ accepted → o.error_code ≡ none
  pub else_coded : o.status ≢ accepted → o.error_code ≢ none

mapped-IsOutcome :
    (s : Status) (i : Option String) (e : Option Code) → s ≢ pending → IsOutcome (settle s i e)
unfolding settle
mapped-IsOutcome pending i e h = absurd (h refl)
mapped-IsOutcome accepted i e h = ground arith
mapped-IsOutcome failed i e h = ground arith
mapped-IsOutcome unknown i e h = ground arith

settled-ne-pending : (v : Value) (s : Status) → settled_status_of v ≡ some s → s ≢ pending
unfolding settled_status_of
settled-ne-pending v s h = elim (Option-cases (status_of v)) [
  | inl e ↦ ground arith
  | inr (t, e) ↦ ground arith
]

mapping-IsOutcome : (d : Dict Value) (o : Outcome) → mapping_outcome d ≡ some o → IsOutcome o
unfolding mapping_outcome
mapping-IsOutcome d o h =
    elim (Option-cases (settled_status_of (get_default "status" (str "accepted") d))) [
      | inl e ↦ ground arith
      | inr (s, e) ↦ elim (Option-cases (safe_message_id (get "message_id" d))) [
        | inl e' ↦ ground arith
        | inr (i, e') ↦ elim (Option-cases (code_of (get "error_code" d))) [
          | inl e'' ↦ ground arith
          | inr (k, e'') ↦
              let same : settle s i k ≡ o = ground arith in
              subst IsOutcome same (mapped-IsOutcome s i k (settled-ne-pending _ s e))
        ]
      ]
    ]

accepted-IsOutcome : (i : Option String) → IsOutcome (settle accepted i none)
accepted-IsOutcome i = mapped-IsOutcome accepted i none (λ e. cc)

outcome-IsOutcome : (v : Value) (o : Outcome) → outcome v ≡ some o → IsOutcome o
unfolding outcome
outcome-IsOutcome null o h = subst IsOutcome (ground arith) (accepted-IsOutcome none)
outcome-IsOutcome (str s) o h = elim (Option-cases (safe_message_id (str s))) [
  | inl e ↦ absurd (ground arith)
  | inr (i, e) ↦
      let same : settle accepted i none ≡ o = ground arith in
      subst IsOutcome same (accepted-IsOutcome i)
]
outcome-IsOutcome (dict fs) o h = mapping-IsOutcome (to_dict fs) o h
outcome-IsOutcome (bool b) o h = cc
outcome-IsOutcome (int n) o h = cc
outcome-IsOutcome (float x) o h = cc
outcome-IsOutcome (list xs) o h = cc

-- However the callback ends, what is recorded is no longer pending, and it has an error code
-- exactly when it is not accepted.
pub send_outcome-IsOutcome : (s : SendResult) → IsOutcome (send_outcome s)
unfolding send_outcome settle
send_outcome-IsOutcome (returned v) = elim (Option-cases (outcome v)) [
  | inl e ↦ rw (e, send_outcome) (mapped-IsOutcome unknown none none (λ k. cc))
  | inr (o, e) ↦ rw (e, send_outcome) (outcome-IsOutcome v o e)
]
send_outcome-IsOutcome SendResult.cancelled = ground arith
send_outcome-IsOutcome (correlated_error c b) = ground arith
send_outcome-IsOutcome authentication_error = ground arith
send_outcome-IsOutcome session_not_found = ground arith
send_outcome-IsOutcome (request_error n) = ground arith
send_outcome-IsOutcome other_error = ground arith
