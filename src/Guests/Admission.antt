-- ===== src/Guests/Admission.antt =====
-- The loop of `async_reconcile` over the roster.
use home_assistant_whatsapp.Guests.Growth.{
  IsRoll, IsAdmitted, Grows, Grows-refl, Grows-trans, grow-IsAdmitted,
}
use mathlib.Core.Path.{subst}
use home_assistant_whatsapp.Guests.Types.{Kind, Role}
use home_assistant_whatsapp.Base.{
  ◌||◌, length, ◌==◌, if◌then◌else◌, >>=-eq-some, Bool-cases, List, Option, Option-cases, String,
  [], ap, arith, contains, guard, inl, inr, or_else, refl, some, some-inj, str_eq, str_eq_iff, sym,
  true, false, ℕ, ◌≤◌, ◌∙◌, ◌∷◌, ◌≡◌, ◌≢◌,
}
use home_assistant_whatsapp.Guests.Aliases.{AreOwned, resolve_identity_of-IsResolved}
use home_assistant_whatsapp.Guests.Book.{Extends, extend-IsBook}
use home_assistant_whatsapp.Guests.Reconcile.{
  Entry, Roll, RosterItem, admit_all, admit_entry, admit_item, enroll, has_account, update_member,
}
use home_assistant_whatsapp.Guests.Hints.{HintType}
use home_assistant_whatsapp.Guests.Roster.{
  Resolved, has_items, jids, member_of, owners_of, resolve_identity_of, resolve_jids,
}
use home_assistant_whatsapp.Guests.Rows.{
  Admits, Holds, IsItem, Names, enroll-Admits, extend-Names, update-Admits,
}
use home_assistant_whatsapp.Dict.{IsDict, Dict, lookup}

resolve_jids-next :
    (uuid : ℕ → String) (n : ℕ) (ps : Dict (List String)) (js os : List String) (r : Resolved)
    → resolve_jids uuid n ps js os ≡ some r
    → n ≤ r.next_id
unfolding resolve_jids
resolve_jids-next uuid n ps js [] r h = ground (arith, ap (λ x. x.next_id) (some-inj h))
resolve_jids-next uuid n ps js (o ∷ []) r h = ground (arith, ap (λ x. x.next_id) (some-inj h))
resolve_jids-next uuid n ps js (o ∷ p ∷ os) r h = absurd (cc)

resolve_identity-next :
    (uuid : ℕ → String) (n : ℕ) (ps : Dict (List String)) (aliases : List String) (r : Resolved)
    → resolve_identity_of uuid n ps aliases ≡ some r
    → n ≤ r.next_id
unfolding resolve_identity_of
resolve_identity-next uuid n ps aliases r h =
    let (js, e, h1) = >>=-eq-some (jids aliases) _ h in
    let (w, some_item, h2) = >>=-eq-some (guard (has_items js)) _ h1 in
    resolve_jids-next uuid n ps js (owners_of js ps) r h2

module _ (uuid : ℕ → String) (distinct : (i j : ℕ) → uuid i ≡ uuid j → i ≡ j)
    (account : Option String) (previous : Option ℕ) (hints : Dict (HintType × ℕ)) (when : ℕ)
    (P : RosterItem → Type 0) where
  -- What one turn of the loop does.
  record Turn (r t : Roll) (x : RosterItem) : Type 0 where
    roll : IsRoll uuid P t
    admitted : IsAdmitted account t x
    grows : Grows r t

  grow-IsRoll :
      (r : Roll) (found : Resolved)
      → IsDict found.participants
      → AreOwned found.participants
      → Extends r.participants found.participants
      → r.next_id ≤ found.next_id
      → IsRoll uuid P r
      → IsRoll uuid P (record r { participants = found.participants; next_id = found.next_id })
  grow-IsRoll r found u o e le v = record {
    book = extend-IsBook r.participants found.participants r.memberships v.book u o e;
    unused = λ j h. v.unused j (omega arith);
    rows = λ i c.
        let (x, p, n, h) = v.rows i c in
        (x, p, extend-Names r.participants found.participants x i e n, h);
  }

  -- The rows after the turn of a participant that was not seen before.
  Admits-Turn :
      (r t : Roll) (x : RosterItem) (i : String)
      → IsRoll uuid P r
      → P x
      → Names r.participants x i
      → contains i r.seen ≡ false
      → Admits uuid (record r { seen = i ∷ r.seen }) t x i
      → Turn r t x
  unfolding contains
  Admits-Turn r t x i v p n c a =
      let stay : (j : String) → contains j r.seen ≡ true → j ≢ i =
        λ j d e. absurd (ground (arith, ap (λ k. contains k r.seen) e)) in
      let now : contains i t.seen ≡ true =
        ap (contains i) a.same_seen ∙ ground (arith, str_eq_iff i i) in
      let names : (y : RosterItem) (j : String)
          → Names r.participants y j
          → Names t.participants y j =
        λ y j m. subst (λ ps. Names ps y j) (sym a.same_participants) m in
      record {
        roll = record {
          book = a.book;
          unused = a.unused;
          rows = λ j d. elim (Bool-cases (str_eq i j)) [
            | inl same ↦
                subst
                  (λ k. (y : RosterItem) × P y × Names t.participants y k × Holds t.memberships y k)
                  ((str_eq_iff i j).0 same) (x, p, names x i n, a.row)
            | inr other ↦
                let seen : contains j r.seen ≡ true = ground (arith, ap (contains j) a.same_seen) in
                let (y, q, m, h) = v.rows j seen in (y, q, names y j m, a.kept y j (stay j seen) h)
          ];
        };
        admitted = (i, names x i n, inl (now, a.row));
        grows = record {
          extends = λ j xs e. (xs, ap (lookup j) a.same_participants ∙ e, λ b h. h);
          kept =
              λ j d. (ap (contains j) a.same_seen ∙ ground (arith), λ y h. a.kept y j (stay j d) h);
        };
      }

  admit_entry-Turn :
      (r t : Roll) (e : Entry) (x : RosterItem)
      → IsRoll uuid P r
      → P x
      → x.kind ≡ some e.kind
      → x.role ≡ some e.role
      → Names r.participants x e.participant_id
      → admit_entry uuid account previous hints when r e ≡ some t
      → Turn r t x
  unfolding admit_entry
  admit_entry-Turn r t e x v p kind role n h =
      elim (Bool-cases (contains e.participant_id r.seen)) [
        | inl c ↦ absurd (ground arith)
        | inr c ↦
            let r' : Roll = record r { seen = e.participant_id ∷ r.seen } in
            elim (Option-cases (member_of e.participant_id r.memberships)) [
              | inl f ↦
                  let same : enroll uuid account previous hints when r' e ≡ t = ground arith in
                  subst (λ u. Turn r u x) same
                    (Admits-Turn r _ x e.participant_id v p n c (
                      enroll-Admits uuid account previous hints when r' e x kind role v.book
                        n.aliases n.stored v.unused f distinct))
              | inr ((k, m), f) ↦
                  let same : update_member uuid account previous hints when r' e k m ≡ t =
                    ground arith in
                  subst (λ u. Turn r u x) same
                    (Admits-Turn r _ x e.participant_id v p n c (
                      update-Admits uuid account previous hints when r' e x kind role v.book
                        n.aliases n.stored v.unused k m f))
            ]
      ]

  -- The turn of an item whose identity was resolved.
  resolved-Turn :
      (r t : Roll) (x : RosterItem) (kind : Kind) (role : Role) (found : Resolved)
      → IsRoll uuid P r
      → P x
      → x.kind ≡ some kind
      → x.role ≡ some role
      → resolve_identity_of uuid r.next_id r.participants x.aliases ≡ some found
      → (let aliases = or_else (lookup found.participant_id found.participants) [] in
          let r' : Roll = record r { participants = found.participants; next_id = found.next_id } in
          (if has_account account aliases
            then some r'
            else admit_entry uuid account previous hints when r' (record {
              kind = kind;
              role = role;
              participant_id = found.participant_id;
              aliases = aliases;
            }))
          ≡ some t)
      → Turn r t x
  resolved-Turn r t x kind role found v p ek er f h =
      let (js, read, some_alias, s) =
        resolve_identity_of-IsResolved uuid r.next_id r.participants x.aliases found
          v.book.participants_dict v.book.owned f in
      let (xs, stored, included) = s.known in
      let le = resolve_identity-next uuid r.next_id r.participants x.aliases found f in
      let r' : Roll = record r { participants = found.participants; next_id = found.next_id } in
      let v' : IsRoll uuid P r' = grow-IsRoll r found s.dict s.owned s.kept le v in
      let n : Names r'.participants x found.participant_id = record {
        canonical = js;
        read = read;
        some_alias = some_alias;
        aliases = xs;
        stored = stored;
        included = included;
      } in
      let aliases = or_else (lookup found.participant_id found.participants) [] in
      let g : Grows r r' = record { extends = s.kept; kept = λ i c. (c, λ y w. w) } in
      elim (Bool-cases (has_account account aliases)) [
        | inl c ↦
            let same : r' ≡ t = ground arith in
            subst (λ u. Turn r u x) same
              (record {
                roll = v';
                admitted = (
                  found.participant_id,
                  n,
                  inr (xs, stored, ap (λ o. has_account account (or_else o [])) (sym stored) ∙ c),
                );
                grows = g;
              })
        | inr c ↦
            let e : Entry = record {
              kind = kind;
              role = role;
              participant_id = found.participant_id;
              aliases = aliases;
            } in
            let w = admit_entry-Turn r' t e x v' p ek er n (ground arith) in
            record { roll = w.roll; admitted = w.admitted; grows = Grows-trans r r' t g w.grows }
      ]

  admit_item-Turn :
      (r t : Roll) (x : RosterItem)
      → IsRoll uuid P r
      → P x
      → admit_item uuid account previous hints when r x ≡ some t
      → Turn r t x
  unfolding admit_item
  admit_item-Turn r t x v p h =
      let (kind, ek, h1) = >>=-eq-some x.kind _ h in
      let (role, er, h2) = >>=-eq-some x.role _ h1 in
      let (w, ew, h3) = >>=-eq-some (guard (x.aliases_verified || length x.aliases == 1)) _ h2 in
      let (found, f, h4) =
        >>=-eq-some (resolve_identity_of uuid r.next_id r.participants x.aliases) _ h3 in
      resolved-Turn r t x kind role found v p ek er f h4

  -- What the whole loop does.
  pub admit_all-IsRoll :
      (r t : Roll) (items : List RosterItem)
      → IsRoll uuid P r
      → ((x : RosterItem) → IsItem x items → P x)
      → admit_all uuid account previous hints when r items ≡ some t
      → IsRoll uuid P t × ((x : RosterItem) → IsItem x items → IsAdmitted account t x) × Grows r t
  unfolding admit_all
  admit_all-IsRoll r t [] v q h =
      let e : r ≡ t = some-inj h in
      subst (λ u. IsRoll uuid P u × ((x : RosterItem) → ⊥ → IsAdmitted account u x) × Grows r u) e
        (v, (λ x k. absurd k), Grows-refl r)
  admit_all-IsRoll r t (x ∷ items) v q h =
      elim (Option-cases (admit_item uuid account previous hints when r x)) [
        | inl e ↦ absurd (ground arith)
        | inr (s, e) ↦
            let a = admit_item-Turn r s x v (q x (inl refl)) e in
            let (w, all, g) =
              admit_all-IsRoll s t items a.roll (λ y k. q y (inr k)) (ground arith) in
            (
              w,
              (λ y k. elim k [
                | inl same ↦
                    subst (IsAdmitted account t) (sym same)
                      (grow-IsAdmitted account s t x g a.admitted)
                | inr rest ↦ all y rest
              ]),
              Grows-trans r s t a.grows g,
            )
      ]
