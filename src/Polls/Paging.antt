-- ===== src/Polls/Paging.antt =====
-- The pages of the journal that `selections` cuts.
use mathlib.Core.Path.{subst}
use home_assistant_whatsapp.Base.{
  Bool, List, String, [], ap, arith, drop, keep, length, ltb, refl, some, suc, sym, take, zero, ℕ,
  ◌∙◌, ◌∷◌, ◌≡◌, ◌≤◌,
}
use home_assistant_whatsapp.Dict.{Dict}
use home_assistant_whatsapp.Json.{Value}
use home_assistant_whatsapp.Polls.Journal.{
  AllAbove, AllUpTo, IsAscending, IsJournal, keep-IsAscending, sequence,
}
use home_assistant_whatsapp.Polls.Receipts.{Page, is_row, last_sequence, payloads, selections}
use home_assistant_whatsapp.Polls.Types.{Receipt, Registry}

-- The receipts that come after a sequence number.
abbrev above : ℕ → Receipt → Bool
above n r = ltb n (sequence r)

module _ (n : ℕ) where
  keep-above_all : (rs : List Receipt) → AllAbove n rs → keep (above n) rs ≡ rs
  unfolding keep
  keep-above_all [] a = refl
  keep-above_all (r ∷ rs) a = ground (arith, keep-above_all rs a.1)

  keep-above_none : (rs : List Receipt) → AllUpTo n rs → keep (above n) rs ≡ []
  unfolding keep
  keep-above_none [] a = refl
  keep-above_none (r ∷ rs) a = ground (arith, keep-above_none rs a.1)

payloads-take : (k : ℕ) (rs : List Receipt) → payloads (take k rs) ≡ take k (payloads rs)
unfolding payloads
payloads-take zero rs = refl
payloads-take (suc k) [] = refl
payloads-take (suc k) (r ∷ rs) = ap (◌∷◌ r.payload) (payloads-take k rs)

payloads-drop : (k : ℕ) (rs : List Receipt) → payloads (drop k rs) ≡ drop k (payloads rs)
unfolding payloads
payloads-drop zero rs = refl
payloads-drop (suc k) [] = refl
payloads-drop (suc k) (r ∷ rs) = payloads-drop k rs

-- The sequence number of the last of the first `k + 1` receipts.
abbrev last_of : ℕ → Receipt → List Receipt → ℕ
last_of k r rs = last_sequence 0 (payloads (take (suc k) (r ∷ rs)))

last_of-ge :
    (k : ℕ) (r : Receipt) (rs : List Receipt) → IsAscending (r ∷ rs) → sequence r ≤ last_of k r rs
unfolding last_sequence payloads
last_of-ge zero r rs a = omega arith
last_of-ge (suc k) r [] a = omega arith
last_of-ge (suc k) r (s ∷ rs) a = omega (arith, last_of-ge k s rs a.1)

keep-above_head :
    (n : ℕ) (r : Receipt) (rs : List Receipt)
    → sequence r ≤ n
    → keep (above n) (r ∷ rs) ≡ keep (above n) rs
unfolding keep
keep-above_head n r rs h = ground arith

keep-last_of :
    (k : ℕ) (r : Receipt) (rs : List Receipt)
    → IsAscending (r ∷ rs)
    → keep (above (last_of k r rs)) (r ∷ rs) ≡ drop k rs
unfolding last_sequence payloads
keep-last_of zero r rs a =
    keep-above_head (sequence r) r rs (omega arith) ∙ keep-above_all (sequence r) rs a.0
keep-last_of (suc k) r [] a =
    keep-above_head (sequence r) r [] (omega arith) ∙ keep-above_all (sequence r) [] tt
keep-last_of (suc k) r (s ∷ rs) a =
    keep-above_head (last_of k s rs) r (s ∷ rs) (omega (arith, last_of-ge k s rs a.1))
    ∙ keep-last_of k s rs a.1

-- The receipts of a conversation after a sequence number, of which a page shows the first.
abbrev pub rows : Registry → String → ℕ → ℕ → List Receipt
rows g conversation after now = keep (is_row conversation after now) g.selections

module _ (conversation : String) (now after : ℕ) where
  row-AllAbove : (rs : List Receipt) → AllAbove after (keep (is_row conversation after now) rs)
  unfolding keep is_row
  row-AllAbove [] = tt
  row-AllAbove (r ∷ rs) = ground (arith, row-AllAbove rs)

  row_none : (rs : List Receipt) → AllUpTo after rs → keep (is_row conversation after now) rs ≡ []
  unfolding keep is_row
  row_none [] u = refl
  row_none (r ∷ rs) u = ground (arith, row_none rs u.1)

  row_later :
      (later : ℕ) (rs : List Receipt)
      → after ≤ later
      → keep (is_row conversation later now) rs
        ≡ keep (above later) (keep (is_row conversation after now) rs)
  unfolding keep is_row
  row_later later [] h = refl
  row_later later (r ∷ rs) h = ground (arith, row_later later rs h)

module _ (g : Registry) (conversation : String) (after now k : ℕ) (v : IsJournal g) where
  abbrev next_of : List Receipt → ℕ
  next_of rs = last_sequence g.selection_sequence (payloads (take (suc k) rs))

  last_of_default :
      (d e : ℕ) (p : Dict Value) (ps : List (Dict Value))
      → last_sequence d (p ∷ ps) ≡ last_sequence e (p ∷ ps)
  unfolding last_sequence
  last_of_default d e p [] = refl
  last_of_default d e p (q ∷ ps) = last_of_default d e q ps

  rows_next :
      (rs : List Receipt)
      → rows g conversation after now ≡ rs
      → rows g conversation (next_of rs) now ≡ drop (suc k) rs
  unfolding last_sequence payloads
  rows_next [] e = row_none conversation now g.selection_sequence g.selections v.up_to
  rows_next (r ∷ rs) e =
      let n = last_of k r rs in
      let asc : IsAscending (r ∷ rs) =
        subst IsAscending e
          (keep-IsAscending (is_row conversation after now) g.selections v.ascending) in
      let lo : AllAbove after (r ∷ rs) =
        subst (AllAbove after) e (row-AllAbove conversation now after g.selections) in
      ap (λ m. rows g conversation m now)
        (last_of_default g.selection_sequence 0 r.payload (payloads (take k rs)))
      ∙ row_later conversation now after n g.selections (omega (arith, last_of-ge k r rs asc))
      ∙ ap (keep (above n)) e
      ∙ keep-last_of k r rs asc

  abbrev page_of : Page
  page_of =
      let ps = payloads (rows g conversation after now) in
      record {
        events = take (suc k) ps;
        has_more = ltb (suc k) (length ps);
        next_sequence = last_sequence g.selection_sequence (take (suc k) ps);
      }

  selections_lem :
      (page : Page) → selections g conversation after (suc k) now ≡ some page → page_of ≡ page
  unfolding selections
  selections_lem page h = ground arith

  -- On an ascending journal a page shows the recent receipts of one conversation that are after the
  -- given number, as many as the limit allows, and says whether there are more. The receipts after
  -- its `next_sequence`, at the same time, are exactly those that it left out: going on from there
  -- skips none and repeats none.
  pub selections_page :
      (page : Page)
      → selections g conversation after (suc k) now ≡ some page
      → (page.events ≡ take (suc k) (payloads (rows g conversation after now)))
        × (page.has_more ≡ ltb (suc k) (length (payloads (rows g conversation after now))))
        × (payloads (rows g conversation page.next_sequence now)
            ≡ drop (suc k) (payloads (rows g conversation after now)))
  selections_page page h =
      let all = rows g conversation after now in
      let same = selections_lem page h in
      (
        ap (λ p. p.events) (sym same),
        ap (λ p. p.has_more) (sym same),
        ap (λ n. payloads (rows g conversation n now))
              (ap (λ p. p.next_sequence) (sym same)
                ∙ ap (last_sequence g.selection_sequence) (sym (payloads-take (suc k) all)))
            ∙ ap payloads (rows_next all refl)
            ∙ payloads-drop (suc k) all,
      )
