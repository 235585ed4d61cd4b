-- ===== src/Guests/Turns.antt =====
-- What the loop of `async_reconcile` over the roster keeps of the participants, whatever
-- `_resolve_identity` keeps of them.
use home_assistant_whatsapp.Base.{
  >>=-eq-some, Bool, Bool-cases, List, Option, Option-cases, String, [], ap, arith, contains, guard,
  inl, inr, length, or_else, refl, some, some-inj, sym, ℕ, ◌==◌, ◌||◌, ◌≤◌, ◌∷◌, ◌≡◌,
}
use mathlib.Core.Path.{subst}
use home_assistant_whatsapp.Dict.{Dict, IsDict, lookup}
use home_assistant_whatsapp.Guests.Hints.{HintType}
use home_assistant_whatsapp.Guests.Linked.{
  AllAgree, AreDistinct, AreFresh, IsLinked, ItemsAgree, resolve_identity_of-AreDistinct,
  resolve_identity_of-IsLinked,
}
use home_assistant_whatsapp.Guests.Reconcile.{
  Entry, Roll, RosterItem, admit_all, admit_entry, admit_item, enroll, has_account, update_member,
}
use home_assistant_whatsapp.Guests.Roster.{Resolved, member_of, resolve_identity_of}
use home_assistant_whatsapp.Guests.Rows.{IsItem}
use home_assistant_whatsapp.Guests.Types.{Membership}

module _ (uuid : ℕ → String) (account : Option String) (previous : Option ℕ)
    (hints : Dict (HintType × ℕ)) (when : ℕ) where
  update_member-kept :
      (r : Roll) (e : Entry) (k : String) (m : Membership)
      → ((update_member uuid account previous hints when r e k m).participants ≡ r.participants)
        × (r.next_id ≤ (update_member uuid account previous hints when r e k m).next_id)
  unfolding update_member
  update_member-kept r e k m = ground arith

  admit_entry-kept :
      (r t : Roll) (e : Entry)
      → admit_entry uuid account previous hints when r e ≡ some t
      → (t.participants ≡ r.participants) × (r.next_id ≤ t.next_id)
  unfolding admit_entry enroll
  admit_entry-kept r t e h = elim (Bool-cases (contains e.participant_id r.seen)) [
    | inl c ↦ absurd (ground arith)
    | inr c ↦
        let r' : Roll = record r { seen = e.participant_id ∷ r.seen } in
        elim (Option-cases (member_of e.participant_id r.memberships)) [
          | inl f ↦
              let same : enroll uuid account previous hints when r' e ≡ t = ground arith in
              (sym (ap (λ x. x.participants) same), ground (arith, ap (λ x. x.next_id) same))
          | inr ((k, m), f) ↦
              let same : update_member uuid account previous hints when r' e k m ≡ t =
                ground arith in
              subst (λ x. (x.participants ≡ r.participants) × (r.next_id ≤ x.next_id)) same
                (update_member-kept r' e k m)
        ]
  ]

  module _ (Q : ℕ → Dict (List String) → Type 0) (P : RosterItem → Type 0)
      (later : (n m : ℕ) (ps : Dict (List String)) → n ≤ m → Q n ps → Q m ps)
      (resolve : (n : ℕ) (ps : Dict (List String)) (x : RosterItem) (r : Resolved)
        → P x
        → Q n ps
        → resolve_identity_of uuid n ps x.aliases ≡ some r
        → Q r.next_id r.participants) where
    admit_item-keeps :
        (r t : Roll) (x : RosterItem)
        → P x
        → Q r.next_id r.participants
        → admit_item uuid account previous hints when r x ≡ some t
        → Q t.next_id t.participants
    unfolding admit_item
    admit_item-keeps r t x p v h =
        let (kind, ek, h1) = >>=-eq-some x.kind _ h in
        let (role, er, h2) = >>=-eq-some x.role _ h1 in
        let (w, ew, h3) = >>=-eq-some (guard (x.aliases_verified || length x.aliases == 1)) _ h2 in
        let (found, f, h4) =
          >>=-eq-some (resolve_identity_of uuid r.next_id r.participants x.aliases) _ h3 in
        let r' : Roll = record r { participants = found.participants; next_id = found.next_id } in
        let kept : Q r'.next_id r'.participants = resolve r.next_id r.participants x found p v f in
        let aliases = or_else (lookup found.participant_id found.participants) [] in
        elim (Bool-cases (has_account account aliases)) [
          | inl c ↦
              let same : r' ≡ t = ground arith in subst (λ u. Q u.next_id u.participants) same kept
          | inr c ↦
              let (same, le) =
                admit_entry-kept r' t
                  (record {
                    kind = kind;
                    role = role;
                    participant_id = found.participant_id;
                    aliases = aliases;
                  })
                  (ground arith) in
              later r'.next_id t.next_id t.participants le (subst (Q r'.next_id) (sym same) kept)
        ]

    admit_all-keeps :
        (r t : Roll) (items : List RosterItem)
        → ((x : RosterItem) → IsItem x items → P x)
        → Q r.next_id r.participants
        → admit_all uuid account previous hints when r items ≡ some t
        → Q t.next_id t.participants
    unfolding admit_all
    admit_all-keeps r t [] p v h = subst (λ u. Q u.next_id u.participants) (some-inj h) v
    admit_all-keeps r t (x ∷ items) p v h =
        elim (Option-cases (admit_item uuid account previous hints when r x)) [
          | inl e ↦ absurd (ground arith)
          | inr (s, e) ↦
              admit_all-keeps s t items (λ y k. p y (inr k))
                (admit_item-keeps r s x (p x (inl refl)) v e) (ground arith)
        ]

  -- The loop repeats no alias of a participant.
  pub admit_all-AreDistinct :
      (r t : Roll) (items : List RosterItem)
      → AreDistinct r.participants
      → admit_all uuid account previous hints when r items ≡ some t
      → AreDistinct t.participants
  admit_all-AreDistinct r t items v h =
      admit_all-keeps (λ n ps. AreDistinct ps) (λ x. Unit {0}) (λ n m ps le k. k)
        (λ n ps x f p k e. resolve_identity_of-AreDistinct uuid n ps x.aliases f k e) r t items
        (λ x k. tt) v h

  -- The loop links no aliases that neither a participant nor an item links.
  pub admit_all-AllAgree :
      (mine : String → Bool) (distinct : (i j : ℕ) → uuid i ≡ uuid j → i ≡ j) (r t : Roll)
      (items : List RosterItem)
      → IsDict r.participants
      → AreFresh uuid r.next_id r.participants
      → AllAgree mine r.participants
      → ItemsAgree mine items
      → admit_all uuid account previous hints when r items ≡ some t
      → AllAgree mine t.participants
  admit_all-AllAgree mine distinct r t items u v w linked h =
      let start : IsLinked mine uuid distinct r.next_id r.participants = record {
        dict = u;
        fresh = v;
        agree = w;
      } in
      let kept =
        admit_all-keeps (IsLinked mine uuid distinct) (λ x. IsItem x items)
          (λ n m ps le k. record {
            dict = k.dict;
            fresh = λ j o. k.fresh j (omega arith);
            agree = k.agree;
          })
          (λ n ps x f p k e.
            resolve_identity_of-IsLinked mine uuid distinct n ps x.aliases f k
              (λ js o. linked x js p o) e)
          r t items (λ x k. k) start h in
      kept.agree
