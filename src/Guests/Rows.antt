-- ===== src/Guests/Rows.antt =====
-- The rows of a roster in the registry: what one turn of the loop of `async_reconcile` writes.
use text.Mathlib.TextLemmas.{append_cancel_left}
use home_assistant_whatsapp.Base.{
  some-inj, Bool-cases, List, Option, String, [], ap, arith, concat, contains, inl, inr, none, refl,
  some, str_eq, str_eq_iff, sym, true, ℕ, ◌+◌, ◌≤◌, ◌&&◌, ◌∙◌, ◌∷◌, ◌≡◌, ◌≢◌, ◌⊎◌,
}
use home_assistant_whatsapp.Dict.{lookup-insert_self, Dict, insert, lookup, lookup-insert}
use home_assistant_whatsapp.Guests.Book.{Extends, IsBook, insert-IsBook}
use home_assistant_whatsapp.Guests.Identity.{fresh_id}
use home_assistant_whatsapp.Guests.Members.{member_none, member_some}
use home_assistant_whatsapp.Guests.Reconcile.{Entry, Roll, RosterItem, enroll, update_member}
use home_assistant_whatsapp.Guests.Hints.{HintType}
use home_assistant_whatsapp.Guests.Roster.{has_items, jids, member_of}
use home_assistant_whatsapp.Guests.Types.{Kind, Role, Membership, is_active, kind_name, role_name}

abbrev pub IsItem : RosterItem → List RosterItem → Type 0
IsItem x [] = ⊥
IsItem x (y ∷ ys) = (x ≡ y) ⊎ IsItem x ys

-- A participant has all aliases of an item.
pub record Names (ps : Dict (List String)) (x : RosterItem) (i : String) : Type 0 where
  pub canonical : List String
  pub read : jids x.aliases ≡ some canonical
  pub some_alias : has_items canonical ≡ true
  pub aliases : List String
  pub stored : lookup i ps ≡ some aliases
  pub included : (a : String) → contains a canonical ≡ true → contains a aliases ≡ true

-- A participant has an active membership with the kind and the role of an item.
pub record Holds (ms : Dict Membership) (x : RosterItem) (i : String) : Type 0 where
  pub membership_id : String
  pub membership : Membership
  pub stored : lookup membership_id ms ≡ some membership
  pub mine : membership.participant_id ≡ i
  pub running : is_active membership.status ≡ true
  pub kind : x.kind ≡ some membership.kind
  pub role : x.role ≡ some membership.role

pub extend-Names :
    (ps qs : Dict (List String)) (x : RosterItem) (i : String)
    → Extends ps qs
    → Names ps x i
    → Names qs x i
extend-Names ps qs x i e n =
    let (ys, l, h) = e i n.aliases n.stored in
    record {
      canonical = n.canonical;
      read = n.read;
      some_alias = n.some_alias;
      aliases = ys;
      stored = l;
      included = λ a c. h a (n.included a c);
    }

-- A membership is written at the id of no other active one.
pub insert-Holds :
    (k : String) (m : Membership) (ms : Dict Membership) (x : RosterItem) (i : String)
    → ((n : Membership) → lookup k ms ≡ some n → is_active n.status ≡ true → n.participant_id ≢ i)
    → Holds ms x i
    → Holds (insert k m ms) x i
insert-Holds k m ms x i other h = record {
  membership_id = h.membership_id;
  membership = h.membership;
  stored = elim (Bool-cases (str_eq k h.membership_id)) [
    | inl same ↦ absurd (
        other h.membership
          (ap (λ j. lookup j ms) ((str_eq_iff k h.membership_id).0 same) ∙ h.stored) h.running
          h.mine)
    | inr ne ↦ ground (arith, lookup-insert k h.membership_id m ms, h.stored)
  ];
  mine = h.mine;
  running = h.running;
  kind = h.kind;
  role = h.role;
}

kind_name-inj : (a b : Kind) → kind_name a ≡ kind_name b → a ≡ b
kind_name-inj Kind.host Kind.host h = refl
kind_name-inj Kind.guest Kind.guest h = refl
kind_name-inj Kind.host Kind.guest h = absurd (ground (arith, ap (str_eq "host") h))
kind_name-inj Kind.guest Kind.host h = absurd (ground (arith, ap (str_eq "guest") h))

role_name-inj : (a b : Role) → role_name a ≡ role_name b → a ≡ b
role_name-inj Role.participant Role.participant h = refl
role_name-inj Role.participant Role.admin h = absurd (ground (arith, ap (str_eq "participant") h))
role_name-inj Role.participant Role.superadmin h =
    absurd (ground (arith, ap (str_eq "participant") h))
role_name-inj Role.admin Role.participant h = absurd (ground (arith, ap (str_eq "admin") h))
role_name-inj Role.admin Role.admin h = refl
role_name-inj Role.admin Role.superadmin h = absurd (ground (arith, ap (str_eq "admin") h))
role_name-inj Role.superadmin Role.participant h =
    absurd (ground (arith, ap (str_eq "superadmin") h))
role_name-inj Role.superadmin Role.admin h = absurd (ground (arith, ap (str_eq "superadmin") h))
role_name-inj Role.superadmin Role.superadmin h = refl

-- The membership ids that are given from the n-th `uuid4` on are not in use.
abbrev pub AreUnused : (ℕ → String) → ℕ → Dict Membership → Type 0
AreUnused uuid n ms = (j : ℕ) → n ≤ j → lookup (fresh_id uuid "membership" j) ms ≡ none

pub fresh_id-inj :
    (uuid : ℕ → String) (p : String) (m n : ℕ)
    → fresh_id uuid p m ≡ fresh_id uuid p n
    → uuid m ≡ uuid n
fresh_id-inj uuid p m n h =
    append_cancel_left "_" (uuid m) (uuid n)
      (append_cancel_left p (concat "_" (uuid m)) (concat "_" (uuid n)) h)

-- An id that is given leaves the later ones unused.
pub insert-AreUnused :
    (uuid : ℕ → String) (n : ℕ) (m : Membership) (ms : Dict Membership)
    → ((i j : ℕ) → uuid i ≡ uuid j → i ≡ j)
    → AreUnused uuid n ms
    → AreUnused uuid (n + 2) (insert (fresh_id uuid "membership" n) m ms)
insert-AreUnused uuid n m ms distinct v j h =
    let k = fresh_id uuid "membership" n in
    let l = fresh_id uuid "membership" j in
    elim (Bool-cases (str_eq k l)) [
      | inl same ↦
          let e = distinct n j (fresh_id-inj uuid "membership" n j ((str_eq_iff k l).0 same)) in
          absurd (omega arith)
      | inr other ↦ ground (arith, lookup-insert k l m ms, v j (omega arith))
    ]

write-AreUnused :
    (uuid : ℕ → String) (n : ℕ) (k : String) (m m' : Membership) (ms : Dict Membership)
    → lookup k ms ≡ some m
    → AreUnused uuid n ms
    → AreUnused uuid n (insert k m' ms)
write-AreUnused uuid n k m m' ms l v j h =
    let i = fresh_id uuid "membership" j in
    ground (arith, lookup-insert k i m' ms, v j h, str_eq_iff k i, ap (λ x. lookup x ms))

-- What one turn does to the rows: it keeps those of the participants seen before, and has one for the
-- entry's participant.
pub record Admits (uuid : ℕ → String) (r t : Roll) (x : RosterItem) (i : String) : Type 0 where
  pub book : IsBook t.participants t.memberships
  pub row : Holds t.memberships x i
  pub same_participants : t.participants ≡ r.participants
  pub same_seen : t.seen ≡ r.seen
  pub unused : AreUnused uuid t.next_id t.memberships
  pub kept :
      (y : RosterItem) (j : String) → j ≢ i → Holds r.memberships y j → Holds t.memberships y j

module _ (uuid : ℕ → String) (account : Option String) (previous : Option ℕ)
    (hints : Dict (HintType × ℕ)) (when : ℕ) (r : Roll) (e : Entry) (x : RosterItem)
    (kind : x.kind ≡ some e.kind) (role : x.role ≡ some e.role)
    (v : IsBook r.participants r.memberships) (xs : List String)
    (known : lookup e.participant_id r.participants ≡ some xs)
    (u : AreUnused uuid r.next_id r.memberships) where
  pub enroll-Admits :
      member_of e.participant_id r.memberships ≡ none
      → ((i j : ℕ) → uuid i ≡ uuid j → i ≡ j)
      → Admits uuid r (enroll uuid account previous hints when r e) x e.participant_id
  unfolding enroll
  enroll-Admits h distinct =
      let k = fresh_id uuid "membership" r.next_id in
      let free : lookup k r.memberships ≡ none = u r.next_id (omega arith) in
      record {
        book =
            insert-IsBook r.participants k _ r.memberships xs v known
              (λ l n f a same. absurd (member_none e.participant_id l r.memberships n h f a same));
        row = record {
          membership_id = k;
          membership = _;
          stored = lookup-insert_self k _ r.memberships;
          mine = refl;
          running = refl;
          kind = kind;
          role = role;
        };
        same_participants = refl;
        same_seen = refl;
        unused = insert-AreUnused uuid r.next_id _ r.memberships distinct u;
        kept = λ y j other. insert-Holds k _ r.memberships y j (λ n f. absurd (ground arith));
      }

  pub update-Admits :
      (k : String) (m : Membership)
      → member_of e.participant_id r.memberships ≡ some (k, m)
      → Admits uuid r (update_member uuid account previous hints when r e k m) x e.participant_id
  unfolding update_member
  update-Admits k m h =
      let (l, p, a) = member_some e.participant_id k r.memberships m v.memberships_dict h in
      elim (Bool-cases (
        str_eq (kind_name m.kind) (kind_name e.kind)
        && str_eq (role_name m.role) (role_name e.role))) [
          | inl same ↦ rw same (record {
            book = v;
            row = record {
              membership_id = k;
              membership = m;
              stored = l;
              mine = p;
              running = a;
              kind =
                  kind
                  ∙ ap some (
                      kind_name-inj e.kind m.kind (
                        sym ((str_eq_iff (kind_name m.kind) (kind_name e.kind)).0 (ground arith))));
              role =
                  role
                  ∙ ap some (
                      role_name-inj e.role m.role (
                        sym ((str_eq_iff (role_name m.role) (role_name e.role)).0 (ground arith))));
            };
            same_participants = refl;
            same_seen = refl;
            unused = u;
            kept = λ y j other g. g;
          })
          | inr other ↦ rw other (record {
            book =
                insert-IsBook r.participants k _ r.memberships xs v
                  (ap (λ i. lookup i r.participants) p ∙ known)
                  (λ j n f b same. v.single j k n m f l b a same);
            row = record {
              membership_id = k;
              membership = _;
              stored = lookup-insert_self k _ r.memberships;
              mine = p;
              running = a;
              kind = kind;
              role = role;
            };
            same_participants = refl;
            same_seen = refl;
            unused = write-AreUnused uuid r.next_id k m _ r.memberships l u;
            kept = λ y j ne. insert-Holds k _ r.memberships y j (λ n f b same.
                ne (sym same ∙ ap (λ x. x.participant_id) (some-inj (sym f ∙ l)) ∙ p));
          })
        ]
