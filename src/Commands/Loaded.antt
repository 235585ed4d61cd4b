-- ===== src/Commands/Loaded.antt =====
-- What `async_start` loads, and which command a name resolves to.
use mathlib.Core.Path.{subst}
use home_assistant_whatsapp.Base.{
  >>=-eq-some, Bool-cases, List, Option-cases, String, [], ap, arith, contains, contains-append,
  false, guard, inl, inr, leb, length, none, some, some-inj, str_eq, str_eq_iff, sym, true, ◌++◌,
  ◌>>=◌, ◌∙◌, ◌∷◌, ◌≡◌, ◌≢◌,
}
use home_assistant_whatsapp.Commands.Definition.{CommandDefinition, max_commands, stored_definition}
use home_assistant_whatsapp.Commands.Registry.{
  all_names, find_command, load_commands, overlaps, stored_commands,
}
use home_assistant_whatsapp.Commands.Unambiguous.{IsUnambiguous, overlaps_none}
use home_assistant_whatsapp.Dict.{Dict, IsDict, insert, lookup, lookup-insert}
use home_assistant_whatsapp.Json.{Value, as_dict, as_list, get, is_version}

-- The names in use are those of the commands.
abbrev Covers : List String → Dict CommandDefinition → Type 0
Covers used ds =
    (n i : String) (d : CommandDefinition)
    → lookup i ds ≡ some d
    → contains n (all_names d) ≡ true
    → contains n used ≡ true

insert-Covers :
    (used : List String) (ds : Dict CommandDefinition) (d : CommandDefinition)
    → Covers used ds
    → Covers (all_names d ++ used) (insert d.name d ds)
insert-Covers used ds d v n i e h c = elim (Bool-cases (str_eq d.name i)) [
  | inl same ↦ ground (arith, contains-append n (all_names d) used, lookup-insert d.name i d ds)
  | inr other ↦
      rw (contains-append n (all_names d) used)
        (ground (arith, v n i e (ground (arith, lookup-insert d.name i d ds)) c))
]

insert-IsUnambiguous :
    (used : List String) (ds : Dict CommandDefinition) (d : CommandDefinition)
    → overlaps used (all_names d) ≡ false
    → Covers used ds
    → IsUnambiguous ds
    → IsUnambiguous (insert d.name d ds)
insert-IsUnambiguous used ds d o v u n i j a b p q c k = elim (Bool-cases (str_eq d.name i)) [
  | inl si ↦ elim (Bool-cases (str_eq d.name j)) [
    | inl sj ↦ sym ((str_eq_iff d.name i).0 si) ∙ (str_eq_iff d.name j).0 sj
    | inr oj ↦
        let d' : d ≡ a = ground (arith, lookup-insert d.name i d ds) in
        let free =
          overlaps_none n used (all_names d) o (ap (λ x. contains n (all_names x)) d' ∙ c) in
        let taken = v n j b (ground (arith, lookup-insert d.name j d ds)) k in absurd (cc)
  ]
  | inr oi ↦ elim (Bool-cases (str_eq d.name j)) [
    | inl sj ↦
        let d' : d ≡ b = ground (arith, lookup-insert d.name j d ds) in
        let free =
          overlaps_none n used (all_names d) o (ap (λ x. contains n (all_names x)) d' ∙ k) in
        let taken = v n i a (ground (arith, lookup-insert d.name i d ds)) c in absurd (cc)
    | inr oj ↦
        u n i j a b (ground (arith, lookup-insert d.name i d ds))
          (ground (arith, lookup-insert d.name j d ds)) c k
  ]
]

load_commands-IsUnambiguous :
    (used : List String) (ds es : Dict CommandDefinition) (vs : List Value)
    → Covers used ds
    → IsUnambiguous ds
    → load_commands used ds vs ≡ some es
    → IsUnambiguous es
unfolding load_commands
load_commands-IsUnambiguous used ds es [] c u h = subst IsUnambiguous (some-inj h) u
load_commands-IsUnambiguous used ds es (v ∷ vs) c u h =
    elim (Option-cases (as_dict v >>= stored_definition)) [
      | inl e ↦ absurd (ground arith)
      | inr (d, e) ↦ elim (Bool-cases (overlaps used (all_names d))) [
        | inl o ↦ absurd (ground arith)
        | inr o ↦
            load_commands-IsUnambiguous (all_names d ++ used) (insert d.name d ds) es vs
              (insert-Covers used ds d c) (insert-IsUnambiguous used ds d o c u) (ground arith)
      ]
    ]

-- Whatever value a store holds, the commands read from it have no name in common.
pub stored_commands-IsUnambiguous :
    (raw : Value) (ds : Dict CommandDefinition) → stored_commands raw ≡ some ds → IsUnambiguous ds
unfolding stored_commands lookup
stored_commands-IsUnambiguous raw ds h =
    let (d, _, h1) = >>=-eq-some (as_dict raw) _ h in
    let (_, _, h2) = >>=-eq-some (guard (is_version (get "version" d))) _ h1 in
    let (items, _, h3) = >>=-eq-some (as_list (get "commands" d)) _ h2 in
    let (_, _, h4) = >>=-eq-some (guard (leb (length items) max_commands)) _ h3 in
    load_commands-IsUnambiguous [] [] ds items (λ n i e p c. absurd (cc))
      (λ n i j a b p q c k. absurd (cc)) h4

found_owner :
    (n : String) (ds : Dict CommandDefinition) (e : CommandDefinition)
    → IsDict ds
    → find_command n ds ≡ some e
    → (j : String) × (lookup j ds ≡ some e) × (contains n (all_names e) ≡ true)
unfolding find_command lookup
found_owner n [] e u h = absurd (cc)
found_owner n ((k, d) ∷ ds) e u h = elim (Bool-cases (contains n (all_names d))) [
  | inl c ↦
      let d' : d ≡ e = ground arith in
      (k, ground (arith, str_eq_iff k k), sym (ap (λ x. contains n (all_names x)) d') ∙ c)
  | inr c ↦
      let (j, l, o) = found_owner n ds e u.1 (ground arith) in
      (j, ground (arith, str_eq_iff k j), o)
]

owner_found :
    (n i : String) (ds : Dict CommandDefinition) (d : CommandDefinition)
    → lookup i ds ≡ some d
    → contains n (all_names d) ≡ true
    → find_command n ds ≢ none
unfolding find_command lookup
owner_found n i [] d h c = absurd (cc)
owner_found n i ((k, b) ∷ ds) d h c = elim (Bool-cases (str_eq k i)) [
  | inl same ↦
      let d' : b ≡ d = ground arith in
      let own : contains n (all_names b) ≡ true = ap (λ x. contains n (all_names x)) d' ∙ c in
      ground arith
  | inr other ↦ ground (arith, owner_found n i ds d (ground arith) c)
]

-- Where no two commands share a name and no key is repeated, an invocation by a command's name or by
-- any of its aliases finds that command, in whatever order the commands stand.
pub find_command_lem :
    (n i : String) (ds : Dict CommandDefinition) (d : CommandDefinition)
    → IsDict ds
    → IsUnambiguous ds
    → lookup i ds ≡ some d
    → contains n (all_names d) ≡ true
    → find_command n ds ≡ some d
find_command_lem n i ds d u v h c = elim (Option-cases (find_command n ds)) [
  | inl e ↦ absurd (owner_found n i ds d h c e)
  | inr (e, f) ↦
      let (j, l, o) = found_owner n ds e u f in
      let same : i ≡ j = v n i j d e h l c o in f ∙ sym l ∙ ap (λ x. lookup x ds) (sym same) ∙ h
]
