-- ===== src/Groups/Verified.antt =====
-- Where a general group message is sent.
use mathlib.Core.Path.{subst}
use home_assistant_whatsapp.Base.{
  &&_iff, >>=-eq-some, Bool-cases, List, Option, Option-cases, String, [], ap, arith, false, guard,
  guard-eq-some, inl, inr, not, some, some-inj, str_eq, str_eq_iff, sym, true, ℕ, ◌&&◌, ◌==◌, ◌∙◌,
  ◌∷◌, ◌≡◌,
}
use home_assistant_whatsapp.Dict.{Dict, keys, lookup}
use home_assistant_whatsapp.Groups.Identity.{normalize_group_id, participant_alias}
use home_assistant_whatsapp.Groups.Review.{
  VerifiedGroup, Waha, accepted, is_still, review, review_roster, send_group, verify,
}
use home_assistant_whatsapp.Groups.Roster.{Review-cases}
use home_assistant_whatsapp.Groups.Routes.{
  Destination, GroupSubentry, configured, destination_of, first_conversation, is_guest_group,
  is_true, resolve_conversation, resolve_subentry, same_destination,
}
use home_assistant_whatsapp.Json.{Value, str}

-- A subentry that is enabled, and the only one to configure its group.
abbrev pub IsEligible : Dict GroupSubentry → String → String → String → Type 0
IsEligible es k group account =
    (e : GroupSubentry) × (lookup k es ≡ some e)
    × (is_true e.enabled ≡ true)
    × (normalize_group_id e.group_id ≡ some group)
    × (participant_alias e.account ≡ some account)
    × (configured group es ≡ 1)

==-eq : (a b : ℕ) → (a == b) ≡ true → a ≡ b
==-eq a b h = ground arith

module _ (opaque_id : String → String → String → String) (guest_group : Option String) where
  destination-lem :
      (k : String) (e : GroupSubentry) (d : Destination)
      → destination_of opaque_id guest_group k e ≡ some d
      → (is_true e.enabled ≡ true)
        × (normalize_group_id e.group_id ≡ some d.group_jid)
        × (participant_alias e.account ≡ some d.bot_account)
        × (d.subentry_id ≡ k)
        × (is_guest_group guest_group d.group_jid ≡ false)
  unfolding destination_of
  destination-lem k e d h =
      let (w, e1, h1) =
        >>=-eq-some (guard (str_eq e.subentry_type "group" && is_true e.enabled)) _ h in
      let (g, e2, h2) = >>=-eq-some (normalize_group_id e.group_id) _ h1 in
      let (a, e3, h3) = >>=-eq-some (participant_alias e.account) _ h2 in
      let (w', e4, h4) = >>=-eq-some (guard (not (is_guest_group guest_group g))) _ h3 in
      let both = guard-eq-some (str_eq e.subentry_type "group" && is_true e.enabled) w e1 in
      let other = guard-eq-some (not (is_guest_group guest_group g)) w' e4 in
      let (t, enabled) = (&&_iff (str_eq e.subentry_type "group") (is_true e.enabled)).0 both in
      let same = some-inj h4 in
      let group : g ≡ d.group_jid = ap (λ x. x.group_jid) same in
      let free : is_guest_group guest_group g ≡ false = ground arith in
      (
        enabled,
        e2 ∙ ap some group,
        e3 ∙ ap some (ap (λ x. x.bot_account) same),
        sym (ap (λ x. x.subentry_id) same),
        subst (λ x. is_guest_group guest_group x ≡ false) group free,
      )

  subentry-IsEligible :
      (es : Dict GroupSubentry) (k : String) (d : Destination)
      → resolve_subentry opaque_id guest_group es k ≡ some d
      → IsEligible es d.subentry_id d.group_jid d.bot_account
        × (is_guest_group guest_group d.group_jid ≡ false)
  unfolding resolve_subentry
  subentry-IsEligible es k d h =
      let (e, l, h1) = >>=-eq-some (lookup k es) _ h in
      let (d', f, h2) = >>=-eq-some (destination_of opaque_id guest_group k e) _ h1 in
      let (w, one, h3) = >>=-eq-some (guard (configured d'.group_jid es == 1)) _ h2 in
      let once =
        ==-eq (configured d'.group_jid es) 1
          (guard-eq-some (configured d'.group_jid es == 1) w one) in
      let (enabled, group, account, id, free) = destination-lem k e d' f in
      subst
        (λ x.
          IsEligible es x.subentry_id x.group_jid x.bot_account
          × (is_guest_group guest_group x.group_jid ≡ false))
        (some-inj h3) ((e, ap (λ x. lookup x es) id ∙ l, enabled, group, account, once), free)

  first-IsEligible :
      (es : Dict GroupSubentry) (c : String) (ks : List String) (d : Destination)
      → first_conversation opaque_id guest_group es c ks ≡ some d
      → IsEligible es d.subentry_id d.group_jid d.bot_account
        × (is_guest_group guest_group d.group_jid ≡ false)
        × (d.conversation_id ≡ c)
  unfolding first_conversation
  first-IsEligible es c [] d h = absurd (cc)
  first-IsEligible es c (k ∷ ks) d h =
      elim (Option-cases (resolve_subentry opaque_id guest_group es k)) [
        | inl e ↦ first-IsEligible es c ks d (ground arith)
        | inr (x, e) ↦ elim (Bool-cases (str_eq x.conversation_id c)) [
          | inr f ↦ first-IsEligible es c ks d (ground arith)
          | inl f ↦
              let is : x ≡ d = ground arith in
              let (eligible, free) = subentry-IsEligible es k d (e ∙ ap some is) in
              (
                eligible,
                free,
                ap (λ y. y.conversation_id) (sym is) ∙ (str_eq_iff x.conversation_id c).0 f,
              )
        ]
      ]

  still-IsEligible :
      (es : Dict GroupSubentry) (c : String) (d : Destination)
      → is_still (resolve_conversation opaque_id guest_group es c) d ≡ true
      → IsEligible es d.subentry_id d.group_jid d.bot_account
        × (is_guest_group guest_group d.group_jid ≡ false)
  unfolding resolve_conversation
  still-IsEligible es c d h =
      elim (Option-cases (resolve_conversation opaque_id guest_group es c)) [
        | inl e ↦ absurd (ground arith)
        | inr (x, e) ↦
            let same : same_destination x d ≡ true = ap (λ y. is_still y d) (sym e) ∙ h in
            let (three, account) = (&&_iff _ (str_eq x.bot_account d.bot_account)).0 same in
            let (two, group) = (&&_iff _ (str_eq x.group_jid d.group_jid)).0 three in
            let (one, id) = (&&_iff _ (str_eq x.subentry_id d.subentry_id)).0 two in
            let (eligible, free, at) = first-IsEligible es c (keys es) x e in
            let same_group = (str_eq_iff x.group_jid d.group_jid).0 group in
            (
              subst (λ a. IsEligible es d.subentry_id d.group_jid a)
                  ((str_eq_iff x.bot_account d.bot_account).0 account)
                  (subst (λ g. IsEligible es d.subentry_id g x.bot_account) same_group
                    (subst (λ k. IsEligible es k x.group_jid x.bot_account)
                      ((str_eq_iff x.subentry_id d.subentry_id).0 id) eligible)),
              subst (λ g. is_guest_group guest_group g ≡ false) same_group free,
            )
      ]

-- What a review that was accepted has seen.
pub review-accepted :
    (guest_group : Option String) (w : Waha) (v : Value) (p : VerifiedGroup)
    → review guest_group w v ≡ accepted p
    → (w.capable ≡ true)
      × (w.working ≡ true)
      × (participant_alias w.account_id ≡ some p.bot_account)
      × (review_roster [] w.roster ≡ accepted p.aliases)
      × (lookup p.bot_account p.aliases ≡ some p.bot_identity)
unfolding review
review-accepted guest_group w v p h = elim (Option-cases (normalize_group_id v)) [
  | inl e ↦ absurd (ground arith)
  | inr (g, e) ↦ elim (Bool-cases (is_guest_group guest_group g)) [
    | inl f ↦ absurd (ground arith)
    | inr f ↦ elim (Bool-cases w.capable) [
      | inr c ↦ absurd (ground arith)
      | inl c ↦ elim (Option-cases (participant_alias w.account_id)) [
        | inl a ↦ absurd (ground arith)
        | inr (account, a) ↦ elim (Bool-cases w.working) [
          | inr k ↦ absurd (ground arith)
          | inl k ↦ elim (Review-cases (review_roster [] w.roster)) [
            | inl (x, r) ↦ absurd (ground arith)
            | inr (al, r) ↦ elim (Option-cases (lookup account al)) [
              | inl l ↦ absurd (ground arith)
              | inr (bot, l) ↦
                  let q : VerifiedGroup = record {
                    group_jid = g;
                    bot_account = account;
                    aliases = al;
                    bot_identity = bot;
                  } in
                  let same : q ≡ p = ground arith in
                  subst
                    (λ x.
                      (w.capable ≡ true)
                      × (w.working ≡ true)
                      × (participant_alias w.account_id ≡ some x.bot_account)
                      × (review_roster [] w.roster ≡ accepted x.aliases)
                      × (lookup x.bot_account x.aliases ≡ some x.bot_identity))
                    same (c, k, a, r, l)
            ]
          ]
        ]
      ]
    ]
  ]
]

module _ (opaque_id : String → String → String → String) (guest_group guest_later : Option String)
    (es later : Dict GroupSubentry) (w : Waha) where
  verify-accepted :
      (p : VerifiedGroup) (d : Destination)
      → verify opaque_id guest_group es guest_later later w d ≡ accepted p
      → (q : VerifiedGroup) × (review guest_group w (str d.group_jid) ≡ accepted q)
        × (q.bot_account ≡ d.bot_account)
        × IsEligible later d.subentry_id d.group_jid d.bot_account
        × (is_guest_group guest_later d.group_jid ≡ false)
  unfolding verify
  verify-accepted p d h =
      let c = d.conversation_id in
      elim (Bool-cases (is_still (resolve_conversation opaque_id guest_group es c) d)) [
        | inr e ↦ absurd (ground arith)
        | inl e ↦ elim (Review-cases (review guest_group w (str d.group_jid))) [
          | inl (x, f) ↦ absurd (ground arith)
          | inr (q, f) ↦ elim (Bool-cases (str_eq q.bot_account d.bot_account)) [
            | inr b ↦ absurd (ground arith)
            | inl b ↦
                elim (Bool-cases
                  (is_still (resolve_conversation opaque_id guest_later later c) d)) [
                    | inr l ↦ absurd (ground arith)
                    | inl l ↦
                        let (eligible, free) = still-IsEligible opaque_id guest_later later c d l in
                        (q, f, (str_eq_iff q.bot_account d.bot_account).0 b, eligible, free)
                  ]
          ]
        ]
      ]

  -- Where a message of a general group is sent, its group is that of a subentry that is enabled and the
  -- only one to configure it, before the roster was read and after; it is not what the guest group is
  -- before and not what it is after; and WAHA works with the account that is configured, which is in
  -- the group's roster.
  pub send_group_lem :
      (c g : String)
      → send_group opaque_id guest_group es guest_later later w c ≡ accepted g
      → (k : String) × (account : String) × (aliases : Dict String) × (bot : String) × IsEligible es
          k g account
        × IsEligible later k g account
        × (is_guest_group guest_group g ≡ false)
        × (is_guest_group guest_later g ≡ false)
        × (w.capable ≡ true)
        × (w.working ≡ true)
        × (participant_alias w.account_id ≡ some account)
        × (review_roster [] w.roster ≡ accepted aliases)
        × (lookup account aliases ≡ some bot)
  unfolding send_group verify resolve_conversation
  send_group_lem c g h = elim (Option-cases (resolve_conversation opaque_id guest_group es c)) [
    | inl e ↦ absurd (ground arith)
    | inr (d, e) ↦ elim (Review-cases (verify opaque_id guest_group es guest_later later w d)) [
      | inl (x, f) ↦ absurd (ground arith)
      | inr (p, f) ↦
          let group : d.group_jid ≡ g = ground arith in
          let (eligible, free, at) = first-IsEligible opaque_id guest_group es c (keys es) d e in
          let (q, r, account, again, free_later) = verify-accepted p d f in
          let (capable, working, a, roster, bot) =
            review-accepted guest_group w (str d.group_jid) q r in
          subst
            (λ x.
              (k : String) × (account : String) × (aliases : Dict String) × (bot : String)
              × IsEligible es k x account
              × IsEligible later k x account
              × (is_guest_group guest_group x ≡ false)
              × (is_guest_group guest_later x ≡ false)
              × (w.capable ≡ true)
              × (w.working ≡ true)
              × (participant_alias w.account_id ≡ some account)
              × (review_roster [] w.roster ≡ accepted aliases)
              × (lookup account aliases ≡ some bot))
            group
            (
              d.subentry_id,
              d.bot_account,
              q.aliases,
              q.bot_identity,
              eligible,
              again,
              free,
              free_later,
              capable,
              working,
              a ∙ ap some account,
              roster,
              ap (λ x. lookup x q.aliases) (sym account) ∙ bot,
            )
    ]
  ]
