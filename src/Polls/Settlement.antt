-- ===== src/Polls/Settlement.antt =====
-- Votes and their settlement: `apply_vote_with_reason` and `commit`.
use home_assistant_whatsapp.Base.{
  false, Option, Option-cases, String, ap, arith, if◌then◌else◌, inl, inr, leb, none, some,
  str_eq_iff, true, ℕ, ◌&&◌, ◌+◌, ◌<◌, ◌==◌, ◌∙◌, ◌≡◌, ◌≢◌, ◌⊎◌,
}
use home_assistant_whatsapp.Dict.{Dict, lookup, lookup-erase, lookup-insert_ne, lookup-insert_self}
use home_assistant_whatsapp.Polls.Identity.{canonical_message_id, same_chat_id}
use home_assistant_whatsapp.Polls.Invariant.{
  IsValid, Verdict-cases, apply_vote_refused, apply_vote_timely, lookup-ArePolls,
}
use home_assistant_whatsapp.Polls.Registry.{
  is_unknown_title, apply_vote, commit, due_title, judge, judge_time, missing_option, not_due,
  pending, settled, timely, voted,
}
use home_assistant_whatsapp.Polls.Timestamp.{microseconds}
use home_assistant_whatsapp.Polls.Types.{PendingPoll, PollVote, Registry, VoteRejection}

-- A time after the last one.
abbrev pub IsNewer : Option ℕ → ℕ → Type 0
IsNewer none t = Unit
IsNewer (some last) t = last < t

judge-IsNewer :
    (p : PendingPoll) (vote : PollVote) (received_at t : ℕ)
    → judge p vote received_at ≡ timely t
    → (microseconds false vote.timestamp ≡ some t)
      × IsNewer p.latest_vote_timestamp t
      × (same_chat_id vote.sender p.chat_id ≡ true)
unfolding judge judge_time microseconds
judge-IsNewer p vote received_at t h = ground arith

-- The deadline of a choice, or none without a choice.
abbrev pub deadline_of : Option String → ℕ → Option ℕ
deadline_of none t = none
deadline_of (some title) t = some t

-- A choice among the options, or none.
abbrev pub IsOffered : Dict (Option String) → Option String → Type 0
IsOffered options none = Unit
IsOffered options (some title) = lookup title options ≢ none

known-IsOffered :
    (title : Option String) (options : Dict (Option String))
    → is_unknown_title title options ≡ false
    → IsOffered options title
known-IsOffered none options h = tt
known-IsOffered (some title) options h = ground arith

judge-is_known :
    (p : PendingPoll) (vote : PollVote) (received_at t : ℕ)
    → judge p vote received_at ≡ timely t
    → is_unknown_title vote.selected_title p.options ≡ false
unfolding judge judge_time
judge-is_known p vote received_at t h = ground arith

judge-IsOffered :
    (p : PendingPoll) (vote : PollVote) (received_at t : ℕ)
    → judge p vote received_at ≡ timely t
    → IsOffered p.options vote.selected_title
judge-IsOffered p vote received_at t h =
    known-IsOffered vote.selected_title p.options (judge-is_known p vote received_at t h)

voted_lem :
    (p : PendingPoll) (vote : PollVote) (received_at t : ℕ)
    → voted p vote received_at t ≡ record p {
      latest_vote_timestamp = some t;
      selected_title = vote.selected_title;
      commit_at = deadline_of vote.selected_title (received_at + p.settle_seconds);
      invalid_timestamp = false;
    }
unfolding voted
voted_lem p vote received_at t = elim (Option-cases vote.selected_title) [
  | inl e ↦ ground arith
  | inr (title, e) ↦ ground arith
]

-- A vote for a pending poll is either rejected, and leaves the registry as it was, or accepted. It is
-- accepted only at the vote's own time, which is after that of the vote before it, from the chat that
-- the poll was sent to and for an option of the poll or for none. The poll then has this time and
-- this choice, and it is to be committed its settling time after the vote was received if there is a
-- choice, and not otherwise; the rest of the poll is as it was.
pub apply_vote_lem :
    (g : Registry) (vote : PollVote) (received_at : ℕ) (p : PendingPoll)
    → lookup (canonical_message_id vote.message_id) g.polls ≡ some p
    → ((e : VoteRejection) × (apply_vote g vote received_at ≡ (g, some e)))
      ⊎ ((t : ℕ) × (microseconds false vote.timestamp ≡ some t)
          × IsNewer p.latest_vote_timestamp t
          × (same_chat_id vote.sender p.chat_id ≡ true)
          × IsOffered p.options vote.selected_title
          × ((apply_vote g vote received_at).1 ≡ none)
          × (lookup (canonical_message_id vote.message_id) (apply_vote g vote received_at).0.polls
              ≡ some (record p {
                latest_vote_timestamp = some t;
                selected_title = vote.selected_title;
                commit_at = deadline_of vote.selected_title (received_at + p.settle_seconds);
                invalid_timestamp = false;
              })))
apply_vote_lem g vote received_at p found = elim (Verdict-cases (judge p vote received_at)) [
  | inl (e, j) ↦ inl (e, apply_vote_refused g vote received_at p found e j)
  | inr (t, j) ↦
      let now = apply_vote_timely g vote received_at p found t j in
      let (time, newer, same) = judge-IsNewer p vote received_at t j in
      inr (
        t,
        time,
        newer,
        same,
        judge-IsOffered p vote received_at t j,
        ap (λ r. r.1) now,
        ap (λ r. lookup (canonical_message_id vote.message_id) r.0.polls) now
            ∙ lookup-insert_self (canonical_message_id vote.message_id) (voted p vote received_at t)
                g.polls
            ∙ ap some (voted_lem p vote received_at t),
      )
]

-- A vote leaves every poll but its own alone.
pub apply_vote_others :
    (g : Registry) (vote : PollVote) (received_at : ℕ) (k : String)
    → canonical_message_id vote.message_id ≢ k
    → lookup k (apply_vote g vote received_at).0.polls ≡ lookup k g.polls
unfolding apply_vote
apply_vote_others g vote received_at k h = grind (arith, lookup-insert_ne)

module _ (g : Registry) (message_id : String) (vote_timestamp now : ℕ) where
  -- On a well-formed registry `commit` finds the action of its choice: it raises no `KeyError`.
  pub commit-ne-missing_option :
      IsValid g → (commit g message_id vote_timestamp now).1 ≢ missing_option
  unfolding commit due_title
  commit-ne-missing_option v =
      elim (Option-cases (lookup (canonical_message_id message_id) g.polls)) [
        | inl e ↦ ground arith
        | inr (p, e) ↦
            ground (arith, lookup-ArePolls (canonical_message_id message_id) p g.polls v e)
      ]

  -- A poll that settled is gone from the registry, and another attempt on it at once is not due.
  pub commit_once :
      (action : Option String) (t later : ℕ)
      → (commit g message_id vote_timestamp now).1 ≡ settled action
      → (pending (commit g message_id vote_timestamp now).0 message_id ≡ none)
        × ((commit (commit g message_id vote_timestamp now).0 message_id t later).1 ≡ not_due)
  unfolding commit pending
  commit_once action t later h = grind (arith, lookup-erase, str_eq_iff)

module _ (g : Registry) (vote : PollVote) (received_at t : ℕ) (p : PendingPoll)
    (found : lookup (canonical_message_id vote.message_id) g.polls ≡ some p)
    (accepted : judge p vote received_at ≡ timely t) where
  abbrev then_voted : Registry
  then_voted = (apply_vote g vote received_at).0

  found_voted :
      lookup (canonical_message_id vote.message_id) then_voted.polls
      ≡ some (voted p vote received_at t)
  found_voted =
      ap (λ r. lookup (canonical_message_id vote.message_id) r.0.polls)
        (apply_vote_timely g vote received_at p found t accepted)
      ∙ lookup-insert_self (canonical_message_id vote.message_id) (voted p vote received_at t)
          g.polls

  -- After an accepted vote for a title that the poll offers, a settlement gives that title's action
  -- when it names this vote's time and comes no earlier than the settling time after the vote was
  -- received, and is not due otherwise.
  pub vote_commit :
      (title : String) (action : Option String) (at now : ℕ)
      → vote.selected_title ≡ some title
      → lookup title p.options ≡ some action
      → (commit then_voted vote.message_id at now).1
        ≡ (if t == at && leb (received_at + p.settle_seconds) now then settled action else not_due)
  unfolding commit due_title voted
  vote_commit title action at now e o = ground (arith, found_voted)

  -- After an accepted vote that takes the choice back, no settlement of its poll is due.
  pub unvote_commit :
      (at now : ℕ)
      → vote.selected_title ≡ none
      → (commit then_voted vote.message_id at now).1 ≡ not_due
  unfolding commit due_title voted
  unvote_commit at now e = ground (arith, found_voted)
