-- ===== src/Polls/Invariant.antt =====
-- Well-formed registries, and the operations of `PollRegistry` on them.
use mathlib.Core.Path.{subst}
use home_assistant_whatsapp.Base.{
  Bool, Bool-cases, List, Option, Option-cases, String, [], arith, inl, inr, none, refl, some,
  str_eq, str_eq_iff, sym, ℕ, ◌∙◌, ◌∷◌, ◌≡◌, ◌≢◌, ◌⊎◌,
}
use home_assistant_whatsapp.Dict.{Dict, erase, insert, lookup, lookup-erase, lookup-insert}
use home_assistant_whatsapp.Json.{Value}
use home_assistant_whatsapp.Polls.Identity.{canonical_message_id}
use home_assistant_whatsapp.Polls.Registry.{
  Verdict, apply_vote, commit, is_admissible, judge, judge_time, new_poll, refused, register,
  restore_uncommitted, timely, voted,
}
use home_assistant_whatsapp.Polls.Types.{
  Origin, PendingPoll, PollOption, PollVote, Registry, VoteRejection, unknown_poll,
}

-- A choice that the poll offers, with its time and its deadline, or no deadline.
abbrev pub IsChoice : Option String → Dict (Option String) → Option ℕ → Option ℕ → Type 0
IsChoice none options latest deadline = deadline ≡ none
IsChoice (some title) options latest deadline =
    (lookup title options ≢ none) × (latest ≢ none) × (deadline ≢ none)

abbrev pub IsPoll : PendingPoll → Type 0
IsPoll p = IsChoice p.selected_title p.options p.latest_vote_timestamp p.commit_at

-- Every poll is well formed and stands under its id; ids are not repeated.
abbrev pub ArePolls : Dict PendingPoll → Type 0
ArePolls [] = Unit
ArePolls ((k, p) ∷ d) = IsPoll p × (p.message_id ≡ k) × (lookup k d ≡ none) × ArePolls d

pub lookup-ArePolls :
    (k : String) (p : PendingPoll) (d : Dict PendingPoll)
    → ArePolls d
    → lookup k d ≡ some p
    → IsPoll p × (p.message_id ≡ k)
unfolding lookup
lookup-ArePolls k p [] h e = absurd (cc)
lookup-ArePolls k p ((i, q) ∷ d) h e = elim (Bool-cases (str_eq i k)) [
  | inl same ↦
      let e' : q ≡ p = ground arith in (subst IsPoll e' h.0, ground (arith, str_eq_iff i k))
  | inr other ↦ lookup-ArePolls k p d h.3 (ground arith)
]

pub insert-ArePolls :
    (k : String) (p : PendingPoll) (d : Dict PendingPoll)
    → ArePolls d
    → IsPoll p
    → p.message_id ≡ k
    → ArePolls (insert k p d)
unfolding insert lookup
insert-ArePolls k p [] h v e = (v, e, refl, tt)
insert-ArePolls k p ((i, q) ∷ d) h v e = elim (Bool-cases (str_eq i k)) [
  | inl same ↦ rw same (v, e ∙ sym ((str_eq_iff i k).0 same), h.2, h.3)
  | inr other ↦ rw other (
    h.0,
    h.1,
    ground (arith, lookup-insert k i p d, str_eq_iff k i, str_eq_iff i k),
    insert-ArePolls k p d h.3 v e,
  )
]

pub erase-ArePolls : (k : String) (d : Dict PendingPoll) → ArePolls d → ArePolls (erase k d)
unfolding erase
erase-ArePolls k [] h = tt
erase-ArePolls k ((i, q) ∷ d) h = elim (Bool-cases (str_eq i k)) [
  | inl same ↦ rw same (erase-ArePolls k d h.3)
  | inr other ↦ rw other (h.0, h.1, ground (arith, lookup-erase k i d), erase-ArePolls k d h.3)
]

abbrev pub IsValid : Registry → Type 0
IsValid g = ArePolls g.polls

-- A new registration keeps the registry well formed.
pub register-IsValid :
    (g : Registry) (message_id chat_id : String) (options : List PollOption) (settle_seconds : ℕ)
    (person conversation : Option String) (origin : Origin) (request : Option String)
    (legacy : Bool) (g' : Registry)
    → IsValid g
    → register g message_id chat_id options settle_seconds person conversation origin request legacy
      ≡ some g'
    → IsValid g'
unfolding register
register-IsValid g message_id chat_id options settle_seconds person conversation origin request
      legacy g' v h =
    elim (Bool-cases (is_admissible origin conversation request legacy)) [
      | inr e ↦ absurd (ground arith)
      | inl e ↦
          let key = canonical_message_id message_id in
          let p =
            new_poll key chat_id options settle_seconds person conversation origin request legacy in
          let same : record g { polls = insert key p g.polls } ≡ g' = ground arith in
          subst IsValid same (insert-ArePolls key p g.polls v refl refl)
    ]

judge-title :
    (p : PendingPoll) (vote : PollVote) (received_at t : ℕ) (title : String)
    → judge p vote received_at ≡ timely t
    → vote.selected_title ≡ some title
    → lookup title p.options ≢ none
unfolding judge judge_time
judge-title p vote received_at t title h e = ground arith

voted-id :
    (p : PendingPoll) (vote : PollVote) (received_at t : ℕ)
    → (voted p vote received_at t).message_id ≡ p.message_id
unfolding voted
voted-id p vote received_at t = refl

voted-IsPoll :
    (p : PendingPoll) (vote : PollVote) (received_at t : ℕ)
    → judge p vote received_at ≡ timely t
    → IsPoll (voted p vote received_at t)
unfolding voted
voted-IsPoll p vote received_at t h = elim (Option-cases vote.selected_title) [
  | inl e ↦ rw e refl
  | inr (title, e) ↦ rw e (judge-title p vote received_at t title h e, (λ k. cc), (λ k. cc))
]

module _ (g : Registry) (vote : PollVote) (received_at : ℕ) where
  pub apply_vote_unknown :
      lookup (canonical_message_id vote.message_id) g.polls ≡ none
      → apply_vote g vote received_at ≡ (g, some unknown_poll)
  unfolding apply_vote
  apply_vote_unknown e = ground arith

  module _ (p : PendingPoll)
      (found : lookup (canonical_message_id vote.message_id) g.polls ≡ some p) where
    pub apply_vote_refused :
        (e : VoteRejection)
        → judge p vote received_at ≡ refused e
        → apply_vote g vote received_at ≡ (g, some e)
    unfolding apply_vote
    apply_vote_refused e h = ground arith

    pub apply_vote_timely :
        (t : ℕ)
        → judge p vote received_at ≡ timely t
        → apply_vote g vote received_at ≡ (
          record g {
            polls =
                insert (canonical_message_id vote.message_id) (voted p vote received_at t) g.polls;
          },
          none,
        )
    unfolding apply_vote
    apply_vote_timely t h = ground arith

pub Verdict-cases :
    (v : Verdict) → ((e : VoteRejection) × (v ≡ refused e)) ⊎ ((t : ℕ) × (v ≡ timely t))
Verdict-cases (refused e) = inl (e, refl)
Verdict-cases (timely t) = inr (t, refl)

-- A vote keeps the registry well formed, accepted or not.
pub apply_vote-IsValid :
    (g : Registry) (vote : PollVote) (received_at : ℕ)
    → IsValid g
    → IsValid (apply_vote g vote received_at).0
apply_vote-IsValid g vote received_at v =
    let key = canonical_message_id vote.message_id in
    elim (Option-cases (lookup key g.polls)) [
      | inl e ↦ rw (apply_vote_unknown g vote received_at e) v
      | inr (p, e) ↦ elim (Verdict-cases (judge p vote received_at)) [
        | inl (k, j) ↦ rw (apply_vote_refused g vote received_at p e k j) v
        | inr (t, j) ↦ rw (apply_vote_timely g vote received_at p e t j) (
            insert-ArePolls key (voted p vote received_at t) g.polls v
              (voted-IsPoll p vote received_at t j)
              (voted-id p vote received_at t ∙ (lookup-ArePolls key p g.polls v e).1))
      ]
    ]

-- A settlement keeps the registry well formed.
pub commit-IsValid :
    (g : Registry) (message_id : String) (vote_timestamp now : ℕ)
    → IsValid g
    → IsValid (commit g message_id vote_timestamp now).0
unfolding commit
commit-IsValid g message_id vote_timestamp now v =
    grind (arith, erase-ArePolls (canonical_message_id message_id) g.polls v)

-- Putting back a well-formed poll that was not announced keeps the registry well formed.
pub restore_uncommitted-IsValid :
    (g : Registry) (p : PendingPoll) (selection : Option (Dict Value))
    → IsValid g
    → IsPoll p
    → IsValid (restore_uncommitted g p selection)
unfolding restore_uncommitted
restore_uncommitted-IsValid g p selection v h = elim (Option-cases (lookup p.message_id g.polls)) [
  | inl e ↦ rw (e, restore_uncommitted) (insert-ArePolls p.message_id p g.polls v h refl)
  | inr (q, e) ↦ rw (e, restore_uncommitted) v
]
