-- ===== src/Polls/RoundTrip.antt =====
-- What `from_dict` and `load` make of any stored value.
use mathlib.Core.Path.{subst}
use home_assistant_whatsapp.Base.{
  ◌∙◌, >>=-eq-some, Bool, Bool-cases, ◌⊎◌, List, Option, Option-cases, String, [], arith, false,
  guard, inl, inr, leb, length, none, or_else, refl, some, some-inj, sym, true, ℕ, ◌∷◌, ◌≡◌,
}
use home_assistant_whatsapp.Dict.{Dict}
use home_assistant_whatsapp.Json.{
  Value, as_bool, as_dict, as_list, bool, get, get_default, nonempty, str,
}
use home_assistant_whatsapp.Polls.Invariant.{ArePolls, IsChoice, IsPoll, IsValid, insert-ArePolls}
use home_assistant_whatsapp.Polls.Load.{
  Loaded, Read, is_raising, load, load_stored, load_journal, load_polls, load_receipts, loaded_rows,
  loaded_sequence, parsed, raised, read_of, read_pending, read_poll, read_receipt, skipped,
  sort_loaded,
}
use home_assistant_whatsapp.Polls.Storage.{
  StoredVote, from_storage, is_coherent, is_nonempty, is_person, is_request_id, is_stored_origin,
  no_vote, optional_text, options_of, origin_of, seconds, settle_of, stored_vote, vote_time,
}
use home_assistant_whatsapp.Polls.Types.{PendingPoll, Registry, new_registry}

guard-true : (b : Bool) (u : Unit {0}) → guard b ≡ some u → b ≡ true
guard-true true u h = refl
guard-true false u h = cc

coherent-IsChoice :
    (options : Dict (Option String)) (title : Option String) (latest deadline : Option ℕ)
    → is_coherent options (record { latest = latest; title = title; deadline = deadline }) ≡ true
    → IsChoice title options latest deadline
unfolding is_coherent
coherent-IsChoice options none latest deadline h = ground arith
coherent-IsChoice options (some title) latest deadline h = ground arith

stored_vote-IsChoice :
    (d : Dict Value) (options : Dict (Option String)) (v : StoredVote)
    → stored_vote d options ≡ some v
    → IsChoice v.title options v.latest v.deadline
unfolding stored_vote
stored_vote-IsChoice d options v h =
    let (latest, _, h1) =
      >>=-eq-some (vote_time (get "latest_vote_timestamp" d) (get "timestamp_unit" d)) _ h in
    let (deadline, _, h2) = >>=-eq-some (vote_time (get "commit_at" d) seconds) _ h1 in
    let (title, _, h3) = >>=-eq-some (optional_text (λ s. true) (get "selected_title" d)) _ h2 in
    let w : StoredVote = record { latest = latest; title = title; deadline = deadline } in
    let (_, ok, h4) = >>=-eq-some (guard (is_coherent options w)) _ h3 in
    let same : w ≡ v = some-inj h4 in
    subst (λ v'. IsChoice v'.title options v'.latest v'.deadline) same
      (coherent-IsChoice options title latest deadline (guard-true _ _ ok))

chosen-IsChoice :
    (d : Dict Value) (options : Dict (Option String))
    → let v = or_else (stored_vote d options) no_vote in
      IsChoice v.title options v.latest v.deadline
chosen-IsChoice d options = elim (Option-cases (stored_vote d options)) [
  | inl e ↦ rw e refl
  | inr (v, e) ↦ rw e (stored_vote-IsChoice d options v e)
]

-- A poll read from a store is well formed, whatever the store holds.
pub from_storage-IsPoll : (d : Dict Value) (p : PendingPoll) → from_storage d ≡ some p → IsPoll p
unfolding from_storage
from_storage-IsPoll d p h =
    let (message_id, _, h1) = >>=-eq-some (nonempty (get "message_id" d)) _ h in
    let (chat_id, _, h2) = >>=-eq-some (nonempty (get "chat_id" d)) _ h1 in
    let (raw, _, h3) = >>=-eq-some (as_dict (get "options" d)) _ h2 in
    let (settle_seconds, _, h4) = >>=-eq-some (settle_of (get "settle_seconds" d)) _ h3 in
    let (origin, _, h5) =
      >>=-eq-some (origin_of (get_default "origin" (str "automation") d)) _ h4 in
    let (legacy, _, h6) =
      >>=-eq-some (as_bool (get_default "emit_legacy_action" (bool true) d)) _ h5 in
    let (request, _, h7) =
      >>=-eq-some (optional_text is_request_id (get "client_request_id" d)) _ h6 in
    let (_, _, h8) = >>=-eq-some (guard (is_stored_origin origin request legacy)) _ h7 in
    let (person, _, h9) = >>=-eq-some (optional_text is_person (get "person_entity_id" d)) _ h8 in
    let (conversation, _, h10) =
      >>=-eq-some (optional_text is_nonempty (get "conversation_id" d)) _ h9 in
    let (options, _, h11) = >>=-eq-some (options_of raw) _ h10 in
    let (_, _, h12) = >>=-eq-some (guard (leb 2 (length options))) _ h11 in
    subst IsPoll (some-inj h12) (chosen-IsChoice d options)

read_of-parsed {ℓ} : {A : Type ℓ} (o : Option A) (x : A) → read_of o ≡ parsed x → o ≡ some x
read_of-parsed none x h = absurd (cc)
read_of-parsed (some y) x h = cc

read_poll-IsPoll : (v : Value) (p : PendingPoll) → read_poll v ≡ parsed p → IsPoll p
unfolding read_poll read_pending
read_poll-IsPoll v p h = elim (Option-cases (as_dict v)) [
  | inl e ↦ absurd (ground arith)
  | inr (d, e) ↦ elim (Bool-cases (is_raising d)) [
    | inl r ↦ absurd (ground arith)
    | inr r ↦ from_storage-IsPoll d p (read_of-parsed (from_storage d) p (ground arith))
  ]
]

Read-cases {ℓ} :
    {A : Type ℓ} (r : Read A) → (r ≡ raised) ⊎ (r ≡ skipped) ⊎ ((x : A) × (r ≡ parsed x))
Read-cases raised = inl refl
Read-cases skipped = inr (inl refl)
Read-cases (parsed x) = inr (inr (x, refl))

load_polls-IsValid :
    (vs : List Value) (g : Registry) → IsValid g → IsValid (load_polls g vs).registry
unfolding load_polls
load_polls-IsValid [] g ok = ok
load_polls-IsValid (v ∷ vs) g ok = elim (Read-cases (read_poll v)) [
  | inl e ↦ rw (e, load_polls) ok
  | inr (inl e) ↦ rw (e, load_polls) (load_polls-IsValid vs _ ok)
  | inr (inr (p, e)) ↦
      rw (e, load_polls)
        (load_polls-IsValid vs _
          (insert-ArePolls p.message_id p g.polls ok (read_poll-IsPoll v p e) refl))
]

load_receipts-polls :
    (now : ℕ) (seen : List ℕ) (g : Registry) (vs : List Value)
    → (load_receipts now seen g vs).registry.polls ≡ g.polls
unfolding load_receipts
load_receipts-polls now seen g [] = refl
load_receipts-polls now seen g (v ∷ vs) = elim (Read-cases (read_receipt now seen v)) [
  | inl e ↦ rw (e, load_receipts) refl
  | inr (inl e) ↦ rw (e, load_receipts) (load_receipts-polls now seen g vs)
  | inr (inr ((n, r), e)) ↦ rw (e, load_receipts) (load_receipts-polls now (n ∷ seen) _ vs)
]

sort_loaded-polls : (l : Loaded) → (sort_loaded l).registry.polls ≡ l.registry.polls
unfolding sort_loaded
sort_loaded-polls l = ground arith

load_journal-polls :
    (d : Dict Value) (now : ℕ) (g : Registry) → (load_journal d now g).registry.polls ≡ g.polls
unfolding load_journal
load_journal-polls d now g = elim (Option-cases (loaded_rows d)) [
  | inl e ↦ rw (e, load_journal) refl
  | inr (journal, e) ↦
      rw (e, load_journal)
        (sort_loaded-polls _
          ∙ load_receipts-polls now [] (record g { selection_sequence = loaded_sequence d })
              journal)
]

load_stored-IsValid :
    (d : Dict Value) (polls : List Value) (now : ℕ) → IsValid (load_stored d polls now).registry
unfolding load_stored
load_stored-IsValid d polls now =
    let ok = load_polls-IsValid polls new_registry tt in
    elim (Bool-cases (load_polls new_registry polls).raising) [
      | inl r ↦ rw (r, load_stored) ok
      | inr r ↦
          rw (r, load_stored)
            (subst ArePolls
              (sym (load_journal-polls d now (load_polls new_registry polls).registry)) ok)
    ]

-- A load leaves a well-formed registry, whatever value the store held, also where an exception ends
-- it before all of the store is read.
pub load-IsValid : (stored : Value) (now : ℕ) → IsValid (load stored now).registry
unfolding load
load-IsValid stored now = elim (Option-cases (as_dict stored)) [
  | inl e ↦ rw (e, load) tt
  | inr (d, e) ↦ elim (Option-cases (as_list (get "polls" d))) [
    | inl e' ↦ rw (e, load) (rw e' tt)
    | inr (polls, e') ↦ rw (e, load) (rw e' (load_stored-IsValid d polls now))
  ]
]
