-- ===== src/Commands/Unambiguous.antt =====
-- Names and aliases in the registry, and `async_register`.
use home_assistant_whatsapp.Base.{
  Bool-cases, List, Option-cases, String, [], ap, arith, contains, contains-append, false, inl, inr,
  leb, length, refl, some, str_eq, str_eq_iff, sym, true, ◌&&◌, ◌++◌, ◌∙◌, ◌∷◌, ◌≡◌, ◌≢◌, ◌≤◌, ◌⊎◌,
}
use home_assistant_whatsapp.Commands.Definition.{CommandDefinition, definition_of, max_commands}
use home_assistant_whatsapp.Commands.Registry.{
  Change, CommandRegistry, all_names, are_disjoint, changed, commands_value, overlaps,
  register_command, register_definition, save_commands,
}
use home_assistant_whatsapp.Dict.{Dict, insert, lookup, lookup-insert_ne, lookup-insert_self}
use home_assistant_whatsapp.Json.{Value, from_list, list}
use home_assistant_whatsapp.Store.{SaveResult, save_cancelled, save_failed, saved}

abbrev pub IsUnambiguous : Dict CommandDefinition → Type 0
IsUnambiguous ds =
    (n i j : String) (d e : CommandDefinition)
    → lookup i ds ≡ some d
    → lookup j ds ≡ some e
    → contains n (all_names d) ≡ true
    → contains n (all_names e) ≡ true
    → i ≡ j

pub overlaps_none :
    (n : String) (used names : List String)
    → overlaps used names ≡ false
    → contains n names ≡ true
    → contains n used ≡ false
unfolding overlaps contains
overlaps_none n used [] h e = absurd (cc)
overlaps_none n used (x ∷ xs) h e = ground (arith, overlaps_none n used xs, str_eq_iff x n)

unused_append :
    (n : String) (xs ys : List String)
    → contains n (xs ++ ys) ≡ false
    → (contains n xs ≡ false) × (contains n ys ≡ false)
unused_append n xs ys h = ground (arith, contains-append n xs ys)

disjoint_unused :
    (n i : String) (used : List String) (ds : Dict CommandDefinition) (d : CommandDefinition)
    → are_disjoint used ds ≡ true
    → lookup i ds ≡ some d
    → contains n (all_names d) ≡ true
    → contains n used ≡ false
unfolding are_disjoint lookup
disjoint_unused n i used [] d h e c = absurd (cc)
disjoint_unused n i used ((k, b) ∷ ds) d h e c = elim (Bool-cases (str_eq k i)) [
  | inl same ↦
      let e' : b ≡ d = ground arith in
      overlaps_none n used (all_names b) (ground arith) (ap (λ x. contains n (all_names x)) e' ∙ c)
  | inr other ↦
      (unused_append n (all_names b) used
        (disjoint_unused n i (all_names b ++ used) ds d (ground arith) (ground arith) c)).1
]

are_disjoint-IsUnambiguous :
    (used : List String) (ds : Dict CommandDefinition)
    → are_disjoint used ds ≡ true
    → IsUnambiguous ds
unfolding are_disjoint lookup
are_disjoint-IsUnambiguous used [] h n i j d e p q c k = absurd (cc)
are_disjoint-IsUnambiguous used ((m, b) ∷ ds) h n i j d e p q c k =
    let rest : are_disjoint (all_names b ++ used) ds ≡ true = ground arith in
    elim (Bool-cases (str_eq m i)) [
      | inl si ↦ elim (Bool-cases (str_eq m j)) [
        | inl sj ↦ sym ((str_eq_iff m i).0 si) ∙ (str_eq_iff m j).0 sj
        | inr oj ↦
            let d' : b ≡ d = ground arith in
            let free =
              (unused_append n (all_names b) used
                (disjoint_unused n j (all_names b ++ used) ds e rest (ground arith) k)).0 in
            absurd (ground (arith, ap (λ x. contains n (all_names x)) d' ∙ c))
      ]
      | inr oi ↦ elim (Bool-cases (str_eq m j)) [
        | inl sj ↦
            let e' : b ≡ e = ground arith in
            let free =
              (unused_append n (all_names b) used
                (disjoint_unused n i (all_names b ++ used) ds d rest (ground arith) c)).0 in
            absurd (ground (arith, ap (λ x. contains n (all_names x)) e' ∙ k))
        | inr oj ↦
            are_disjoint-IsUnambiguous (all_names b ++ used) ds rest n i j d e (ground arith)
              (ground arith) c k
      ]
    ]

-- What a registration that changed the registry has done.
pub record IsRegistered (g : CommandRegistry) (d : CommandDefinition) (ack : SaveResult)
    (k : Change) : Type 0 where
  pub open_store : g.available ≡ true
  pub acknowledged : ack ≡ saved
  pub durable : k.written ≡ some (commands_value k.registry.commands)
  pub own : lookup d.name k.registry.commands ≡ some d
  pub others : (n : String) → d.name ≢ n → lookup n k.registry.commands ≡ lookup n g.commands
  pub unambiguous : IsUnambiguous k.registry.commands
  pub bounded : length k.registry.commands ≤ max_commands

-- A change that was refused, or whose save did not succeed.
abbrev pub IsUndone : CommandRegistry → Change → Type 0
IsUndone g k = (k.registry ≡ g) × (k.result ≢ changed)

register_definition_refused :
    (g : CommandRegistry) (d : CommandDefinition) (ack : SaveResult)
    → (g.available
        && are_disjoint [] (insert d.name d g.commands)
        && leb (length (insert d.name d g.commands)) max_commands)
      ≡ false
    → IsUndone g (register_definition g d ack)
unfolding register_definition
register_definition_refused g d ack e = rw e (refl, (λ k. cc))

register_definition_saved :
    (g : CommandRegistry) (d : CommandDefinition) (ack : SaveResult)
    → (g.available
        && are_disjoint [] (insert d.name d g.commands)
        && leb (length (insert d.name d g.commands)) max_commands)
      ≡ true
    → IsUndone g (register_definition g d ack) ⊎ IsRegistered g d ack (register_definition g d ack)
unfolding register_definition save_commands
register_definition_saved g d save_failed e = inl (rw e (refl, (λ k. cc)))
register_definition_saved g d save_cancelled e = inl (rw e (refl, (λ k. cc)))
register_definition_saved g d saved e = inr (
    rw e (record {
      open_store = ground arith;
      acknowledged = refl;
      durable = refl;
      own = lookup-insert_self d.name d g.commands;
      others = λ n h. lookup-insert_ne d.name n d g.commands h;
      unambiguous = are_disjoint-IsUnambiguous [] (insert d.name d g.commands) (ground arith);
      bounded = ground arith;
    }))

register_definition_lem :
    (g : CommandRegistry) (d : CommandDefinition) (ack : SaveResult)
    → IsUndone g (register_definition g d ack) ⊎ IsRegistered g d ack (register_definition g d ack)
register_definition_lem g d ack =
    elim (Bool-cases (
      g.available
      && are_disjoint [] (insert d.name d g.commands)
      && leb (length (insert d.name d g.commands)) max_commands)) [
        | inr e ↦ inl (register_definition_refused g d ack e)
        | inl e ↦ register_definition_saved g d ack e
      ]

-- A registration either leaves the registry as it was, or has stored a valid declaration under its
-- own name: its store acknowledged the very commands that the registry then holds, no other command
-- changed, every name belongs to one command, and there are at most 32 commands.
pub register_command_lem :
    (g : CommandRegistry) (name : Value) (aliases contact_ids : List Value) (allow : Value)
    (ack : SaveResult)
    → IsUndone g (register_command g name aliases contact_ids allow ack)
      ⊎ ((d : CommandDefinition) × (definition_of name
              (list (from_list aliases))
              (list (from_list contact_ids))
              allow
            ≡ some d)
          × IsRegistered g d ack (register_command g name aliases contact_ids allow ack))
unfolding register_command
register_command_lem g name aliases contact_ids allow ack =
    elim (Option-cases
      (definition_of name (list (from_list aliases)) (list (from_list contact_ids)) allow)) [
        | inl e ↦ inl (rw (e, register_command) (refl, (λ k. cc)))
        | inr (d, e) ↦ elim (register_definition_lem g d ack) [
          | inl same ↦ inl (rw (e, register_command) same)
          | inr new ↦ inr (d, e, rw (e, register_command) new)
        ]
      ]
