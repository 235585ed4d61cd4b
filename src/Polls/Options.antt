-- ===== src/Polls/Options.antt =====
-- What `build_poll_options` builds.
use mathlib.Core.Path.{subst}
use home_assistant_whatsapp.Base.{
  Bool-cases, List, Option, Option-cases, String, [], ap, arith, contains, contains-append, false,
  inl, inr, is_distinct, is_distinct-append_last, leb, length, length-append, none, refl, some,
  str_eq, true, ℕ, ◌&&◌, ◌++◌, ◌+◌, ◌==◌, ◌||◌, ◌∙◌, ◌∷◌, ◌≡◌, ◌≤◌,
}
use home_assistant_whatsapp.Dict.{Dict}
use home_assistant_whatsapp.Json.{Value, get}
use home_assistant_whatsapp.Polls.Build.{
  Built, add_no_action, add_option, add_options, build_poll_options, nothing_built, stripped,
}
use home_assistant_whatsapp.Polls.Types.{PollOption}
use home_assistant_whatsapp.Text.{strip}

abbrev pub titles : List PollOption → List String
titles [] = []
titles (o ∷ os) = o.title ∷ titles os

titles-append :
    (os : List PollOption) (o : PollOption) → titles (os ++ o ∷ []) ≡ titles os ++ o.title ∷ []
titles-append [] o = refl
titles-append (p ∷ os) o = ap (◌∷◌ p.title) (titles-append os o)

-- The titles seen are those of the options, which are distinct; there are `n` of them.
record IsBuilt (n : ℕ) (b : Built) : Type 0 where
  same : (s : String) → contains s (titles b.options) ≡ contains s b.seen_titles
  distinct : is_distinct (titles b.options) ≡ true
  counted : length b.options ≡ n

abbrev grown : Built → String → String → Built
grown b title action = record {
  options = b.options ++ record { title = title; action = some action } ∷ [];
  seen_titles = title ∷ b.seen_titles;
  seen_actions = action ∷ b.seen_actions;
}

add_option-grown :
    (b b' : Built) (item : Dict Value)
    → add_option b item ≡ some b'
    → (title action : String) × (contains title b.seen_titles ≡ false) × (grown b title action ≡ b')
unfolding add_option
add_option-grown b b' item h = elim (Option-cases (stripped (get "action" item))) [
  | inl e ↦ absurd (ground arith)
  | inr (action, e) ↦ elim (Option-cases (stripped (get "title" item))) [
    | inl e' ↦ absurd (ground arith)
    | inr (title, e') ↦ (title, action, ground arith, ground arith)
  ]
]

contains_last :
    (s title : String) (xs : List String) → contains s (xs ++ title ∷ []) ≡ contains s (title ∷ xs)
unfolding contains
contains_last s title xs = ground (arith, contains-append s xs (title ∷ []))

module _ (n : ℕ) (b : Built) (v : IsBuilt n b) (title : String) (action : Option String)
    (new : contains title b.seen_titles ≡ false) where
  abbrev more : List PollOption
  more = b.options ++ record { title = title; action = action } ∷ []

  more-distinct : is_distinct (titles more) ≡ true
  more-distinct =
      rw (titles-append b.options (record { title = title; action = action }))
        (is_distinct-append_last title (titles b.options) v.distinct (v.same title ∙ new))

  more-same : (s : String) → contains s (titles more) ≡ contains s (title ∷ b.seen_titles)
  unfolding contains
  more-same s =
      ap (contains s) (titles-append b.options (record { title = title; action = action }))
      ∙ contains_last s title (titles b.options)
      ∙ ap (λ c. str_eq title s || c) (v.same s)

  more-length : length more ≡ n + 1
  more-length =
      rw (length-append b.options (record { title = title; action = action } ∷ []))
        (omega (arith, v.counted))

add_option-IsBuilt :
    (n : ℕ) (b b' : Built) (item : Dict Value)
    → IsBuilt n b
    → add_option b item ≡ some b'
    → IsBuilt (n + 1) b'
add_option-IsBuilt n b b' item v h =
    let (title, action, new, same) = add_option-grown b b' item h in
    subst (IsBuilt (n + 1)) same (record {
      same = more-same n b v title (some action) new;
      distinct = more-distinct n b v title (some action) new;
      counted = more-length n b v title (some action) new;
    })

add_options-IsBuilt :
    (n : ℕ) (b b' : Built) (items : List (Dict Value))
    → IsBuilt n b
    → add_options b items ≡ some b'
    → IsBuilt (n + length items) b'
unfolding add_options
add_options-IsBuilt n b b' [] v h =
    let same : b ≡ b' = ground arith in
    let none_more : n ≡ n + 0 = omega arith in
    subst (λ c. IsBuilt (n + 0) c) same (subst (λ k. IsBuilt k b) none_more v)
add_options-IsBuilt n b b' (item ∷ items) v h = elim (Option-cases (add_option b item)) [
  | inl e ↦ absurd (ground arith)
  | inr (c, e) ↦
      let rest =
        add_options-IsBuilt (n + 1) c b' items (add_option-IsBuilt n b c item v e) (ground arith) in
      subst (λ k. IsBuilt k b') (omega arith) rest
]

-- Options that fit in a poll.
abbrev pub FitPoll : List PollOption → Type 0
FitPoll os = (2 ≤ length os) × (length os ≤ 12) × (is_distinct (titles os) ≡ true)

add_no_action-FitPoll :
    (n : ℕ) (b : Built) (no_action_title : String) (os : List PollOption)
    → IsBuilt n b
    → 1 ≤ n
    → n ≤ 12
    → add_no_action b no_action_title ≡ some os
    → FitPoll os
unfolding add_no_action
add_no_action-FitPoll n b no_action_title os v lo hi h =
    let title = strip no_action_title in
    elim (Bool-cases (length b.options == 1)) [
      | inr many ↦
          let same : b.options ≡ os = ground arith in
          subst FitPoll same (ground arith, omega (arith, v.counted), v.distinct)
      | inl one ↦ elim (Bool-cases (str_eq title "" || contains title b.seen_titles)) [
        | inl bad ↦ absurd (ground arith)
        | inr good ↦
            let new : contains title b.seen_titles ≡ false = ground arith in
            let same : more n b v title none new ≡ os = ground arith in
            let size = more-length n b v title none new in
            let one' : n ≡ 1 = ground (arith, v.counted) in
            subst FitPoll same
              (omega (arith, size), omega (arith, size), more-distinct n b v title none new)
      ]
    ]

nothing-IsBuilt : IsBuilt 0 nothing_built
unfolding is_distinct
nothing-IsBuilt = record { same = λ s. refl; distinct = refl; counted = refl }

-- Options that were built are 2 to 12 and have no title twice.
pub build_poll_options-FitPoll :
    (actions : List (Dict Value)) (no_action_title : String) (os : List PollOption)
    → build_poll_options actions no_action_title ≡ some os
    → FitPoll os
unfolding build_poll_options
build_poll_options-FitPoll actions no_action_title os h =
    elim (Bool-cases (leb 1 (length actions) && leb (length actions) 12)) [
      | inr e ↦ absurd (ground arith)
      | inl k ↦ elim (Option-cases (add_options nothing_built actions)) [
        | inl e ↦ absurd (ground arith)
        | inr (b, e) ↦
            add_no_action-FitPoll (0 + length actions) b no_action_title os
              (add_options-IsBuilt 0 nothing_built b actions nothing-IsBuilt e) (ground arith)
              (ground arith) (ground arith)
      ]
    ]
