-- ===== src/Admins/Distinct.antt =====
-- The contacts and the gaps of `async_guest_admin_preview`.
use home_assistant_whatsapp.Admins.Preview.{
  GuestAdminGap, map_admin, map_person, safe_user_name, Admin, GuestAdminContact, Mapping, State,
  Subentry, User, admin_users, chat_counts, contact, contacts_in, gap, gaps_in, guest_admin_preview,
  insert_admin, is_unshared, map_admins, person_ids_by_user, preview_of, recipients_by_person,
  shared_gaps, sort_admins,
}
use home_assistant_whatsapp.Base.{
  none, some, not, ◌++◌, ◌&&◌, Bool, Bool-cases, List, String, [], arith, contains, false,
  if◌then◌else◌, inl, inr, is_distinct, keep, or_else, refl, str_eq, str_eq_iff, true, ℕ, ◌+◌, ◌∙◌,
  ◌∷◌, ◌≡◌, ◌≤◌,
}
use home_assistant_whatsapp.Dict.{Dict, insert, lookup, lookup-insert}

-- How many of a list pass a test.
abbrev pub tally {ℓ} : {A : Type ℓ} → (A → Bool) → List A → ℕ
tally p [] = 0
tally p (x ∷ xs) = (if p x then 1 else 0) + tally p xs

tally-append {ℓ} :
    {A : Type ℓ} (p : A → Bool) (xs ys : List A) → tally p (xs ++ ys) ≡ tally p xs + tally p ys
tally-append p [] ys = omega arith
tally-append p (x ∷ xs) ys = omega (arith, tally-append p xs ys)

-- Whether the user is an active administrator of Home Assistant, no system user, and has an id that
-- passes a test together with the name shown.
abbrev pub is_shown : (String → String → Bool) → User → Bool
is_shown q u =
    u.is_admin
    && u.is_active
    && not u.is_system_generated
    && elim u.id [ none ↦ false | some i ↦ q i (safe_user_name u.name) ]

module _ (q : String → String → Bool) where
  abbrev by_admin : Admin → Bool
  by_admin a = q a.user_id a.name

  abbrev pub by_contact : GuestAdminContact → Bool
  by_contact c = q c.user_id c.name

  abbrev pub by_gap : GuestAdminGap → Bool
  by_gap g = q g.user_id g.name

  tally-admins :
      (a : Admin) (bs : List Admin)
      → tally by_admin (insert_admin a bs) ≡ (if by_admin a then 1 else 0) + tally by_admin bs
  unfolding insert_admin
  tally-admins a [] = refl
  tally-admins a (b ∷ bs) = ground (arith, tally-admins a bs)

  tally-sort_admins : (bs : List Admin) → tally by_admin (sort_admins bs) ≡ tally by_admin bs
  unfolding sort_admins
  tally-sort_admins [] = refl
  tally-sort_admins (b ∷ bs) = omega (arith, tally-admins b (sort_admins bs), tally-sort_admins bs)

  tally-admin_users : (us : List User) → tally by_admin (admin_users us) ≡ tally (is_shown q) us
  unfolding admin_users
  tally-admin_users [] = refl
  tally-admin_users (u ∷ us) = ground (arith, tally-admin_users us)

  abbrev by_mapping : Mapping → Bool
  by_mapping (contact c) = by_contact c
  by_mapping (gap g) = by_gap g

  map_person_lem :
      (a : Admin) (person : String) (recipients : List String)
      → by_mapping (map_person a person recipients) ≡ by_admin a
  unfolding map_person
  map_person_lem a person [] = refl
  map_person_lem a person (r ∷ []) = refl
  map_person_lem a person (r ∷ s ∷ rs) = refl

  map_admin_lem :
      (recipients : Dict (List String)) (a : Admin) (persons : List String)
      → by_mapping (map_admin recipients a persons) ≡ by_admin a
  unfolding map_admin
  map_admin_lem recipients a [] = refl
  map_admin_lem recipients a (p ∷ []) = map_person_lem a p (or_else (lookup p recipients) [])
  map_admin_lem recipients a (p ∷ q' ∷ ps) = refl

  tally-map_admins :
      (persons recipients : Dict (List String)) (bs : List Admin)
      → tally by_mapping (map_admins persons recipients bs) ≡ tally by_admin bs
  unfolding map_admins
  tally-map_admins persons recipients [] = refl
  tally-map_admins persons recipients (b ∷ bs) =
      let first = map_admin_lem recipients b (or_else (lookup b.user_id persons) []) in
      ground (arith, first, tally-map_admins persons recipients bs)

  tally-mappings :
      (ms : List Mapping)
      → tally by_contact (contacts_in ms) + tally by_gap (gaps_in ms) ≡ tally by_mapping ms
  unfolding contacts_in gaps_in
  tally-mappings [] = refl
  tally-mappings (contact c ∷ ms) = omega (arith, tally-mappings ms)
  tally-mappings (gap g ∷ ms) = omega (arith, tally-mappings ms)

  tally-unshared :
      (counts : Dict ℕ) (cs : List GuestAdminContact)
      → tally by_contact (keep (is_unshared counts) cs) + tally by_gap (shared_gaps counts cs)
        ≡ tally by_contact cs
  unfolding keep shared_gaps
  tally-unshared counts [] = refl
  tally-unshared counts (c ∷ cs) = ground (arith, tally-unshared counts cs)

  tally-preview :
      (ms : List Mapping)
      → tally by_contact (preview_of ms).contacts + tally by_gap (preview_of ms).gaps
        ≡ tally by_mapping ms
  unfolding preview_of
  tally-preview ms =
      let counts = chat_counts [] (contacts_in ms) in
      omega (
        arith,
        tally-unshared counts (contacts_in ms),
        tally-mappings ms,
        tally-append by_gap (gaps_in ms) (shared_gaps counts (contacts_in ms)),
      )

  -- Each active administrator of Home Assistant that has an id and is no system user is listed once,
  -- as a contact or as a gap, under that id and the name shown for it, and nothing else is listed:
  -- whatever the test of an id and a name, as many contacts and gaps pass it as such users do.
  pub guest_admin_preview_lem :
      (users : List User) (states : List State) (subentries : List Subentry)
      → tally by_contact (guest_admin_preview users states subentries).contacts
          + tally by_gap (guest_admin_preview users states subentries).gaps
        ≡ tally (is_shown q) users
  unfolding guest_admin_preview
  guest_admin_preview_lem users states subentries =
      tally-preview _
      ∙ tally-map_admins _ _ _
      ∙ tally-sort_admins (admin_users users)
      ∙ tally-admin_users users

abbrev pub chats : List GuestAdminContact → List String
chats [] = []
chats (c ∷ cs) = c.chat_id ∷ chats cs

-- How often a text stands in a list.
abbrev occurrences : String → List String → ℕ
occurrences s [] = 0
occurrences s (x ∷ xs) = (if str_eq x s then 1 else 0) + occurrences s xs

lookup-chat_counts :
    (s : String) (d : Dict ℕ) (cs : List GuestAdminContact)
    → or_else (lookup s (chat_counts d cs)) 0 ≡ or_else (lookup s d) 0 + occurrences s (chats cs)
unfolding chat_counts
lookup-chat_counts s d [] = omega arith
lookup-chat_counts s d (c ∷ cs) =
    let d' = insert c.chat_id (or_else (lookup c.chat_id d) 0 + 1) d in
    let rest = lookup-chat_counts s d' cs in
    let here = lookup-insert c.chat_id s (or_else (lookup c.chat_id d) 0 + 1) d in
    elim (Bool-cases (str_eq c.chat_id s)) [
      | inl same ↦ let e = (str_eq_iff c.chat_id s).0 same in ground (arith, rest, here, e)
      | inr other ↦ ground (arith, rest, here)
    ]

kept_absent :
    (p : GuestAdminContact → Bool) (s : String) (cs : List GuestAdminContact)
    → occurrences s (chats cs) ≡ 0
    → contains s (chats (keep p cs)) ≡ false
unfolding keep contains
kept_absent p s [] h = refl
kept_absent p s (c ∷ cs) h = ground (arith, kept_absent p s cs)

kept_distinct :
    (p : GuestAdminContact → Bool) (cs : List GuestAdminContact)
    → ((c : GuestAdminContact) → p c ≡ true → occurrences c.chat_id (chats cs) ≤ 1)
    → is_distinct (chats (keep p cs)) ≡ true
unfolding keep is_distinct
kept_distinct p [] h = refl
kept_distinct p (c ∷ cs) h =
    let rest = kept_distinct p cs (λ b e. omega (arith, h b e)) in
    elim (Bool-cases (p c)) [
      | inr e ↦ rw e rest
      | inl e ↦
          let self : str_eq c.chat_id c.chat_id ≡ true = (str_eq_iff c.chat_id c.chat_id).1 refl in
          let once = h c e in
          let none_left : occurrences c.chat_id (chats cs) ≡ 0 = ground arith in
          rw (e, kept_absent p c.chat_id cs none_left, rest) refl
    ]

-- No two contacts of a preview have the same chat.
pub guest_admin_preview-is_distinct :
    (users : List User) (states : List State) (subentries : List Subentry)
    → is_distinct (chats (guest_admin_preview users states subentries).contacts) ≡ true
unfolding guest_admin_preview preview_of is_unshared lookup
guest_admin_preview-is_distinct users states subentries =
    let cs = contacts_in (
      map_admins (person_ids_by_user [] states) (recipients_by_person [] subentries)
        (sort_admins (admin_users users))) in
    kept_distinct (is_unshared (chat_counts [] cs)) cs
      (λ c e. ground (arith, lookup-chat_counts c.chat_id [] cs))
