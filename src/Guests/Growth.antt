-- ===== src/Guests/Growth.antt =====
-- What the loop of `async_reconcile` over the roster keeps.
use home_assistant_whatsapp.Base.{
  List, Option, String, contains, inl, inr, none, some, true, ℕ, ◌≡◌, ◌⊎◌,
}
use home_assistant_whatsapp.Guests.Book.{Extends, IsBook}
use home_assistant_whatsapp.Guests.Reconcile.{Roll, RosterItem, has_account}
use home_assistant_whatsapp.Guests.Rows.{AreUnused, Holds, Names, extend-Names}
use home_assistant_whatsapp.Dict.{lookup}

has_account-included :
    (account : Option String) (xs ys : List String)
    → ((a : String) → contains a xs ≡ true → contains a ys ≡ true)
    → has_account account xs ≡ true
    → has_account account ys ≡ true
has_account-included none xs ys h c = c
has_account-included (some a) xs ys h c = h a c

-- A participant that was seen has an active membership, as some item of the roster says.
pub record IsRoll (uuid : ℕ → String) (P : RosterItem → Type 0) (r : Roll) : Type 0 where
  pub book : IsBook r.participants r.memberships
  pub unused : AreUnused uuid r.next_id r.memberships
  pub rows :
      (i : String)
      → contains i r.seen ≡ true
      → (x : RosterItem) × P x × Names r.participants x i × Holds r.memberships x i

-- An item is in the registry: by the membership of the participant it names, or as the account.
abbrev pub IsAdmitted : Option String → Roll → RosterItem → Type 0
IsAdmitted account t x =
    (i : String) × Names t.participants x i
    × (((contains i t.seen ≡ true) × Holds t.memberships x i)
        ⊎ ((ys : List String) × (lookup i t.participants ≡ some ys)
            × (has_account account ys ≡ true)))

-- Nothing of what the loop has done is lost.
pub record Grows (r t : Roll) : Type 0 where
  pub extends : Extends r.participants t.participants
  pub kept :
      (i : String)
      → contains i r.seen ≡ true
      → (contains i t.seen ≡ true)
        × ((y : RosterItem) → Holds r.memberships y i → Holds t.memberships y i)

pub Grows-refl : (r : Roll) → Grows r r
Grows-refl r = record { extends = λ i xs e. (xs, e, λ a h. h); kept = λ i h. (h, λ y g. g) }

pub Grows-trans : (r s t : Roll) → Grows r s → Grows s t → Grows r t
Grows-trans r s t g h = record {
  extends = λ i xs e.
      let (ys, f, p) = g.extends i xs e in
      let (zs, f', q) = h.extends i ys f in (zs, f', λ a c. q a (p a c));
  kept = λ i c. let (c', p) = g.kept i c in let (c'', q) = h.kept i c' in (c'', λ y w. q y (p y w));
}

pub grow-IsAdmitted :
    (account : Option String) (r t : Roll) (x : RosterItem)
    → Grows r t
    → IsAdmitted account r x
    → IsAdmitted account t x
grow-IsAdmitted account r t x g (i, n, inl (c, h)) =
    let (c', keep) = g.kept i c in
    (i, extend-Names r.participants t.participants x i g.extends n, inl (c', keep x h))
grow-IsAdmitted account r t x g (i, n, inr (xs, e, c)) =
    let (ys, f, p) = g.extends i xs e in
    (
      i,
      extend-Names r.participants t.participants x i g.extends n,
      inr (ys, f, has_account-included account xs ys p c),
    )
