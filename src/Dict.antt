-- ===== src/Dict.antt =====
-- A Python dict with text keys, in insertion order.
use home_assistant_whatsapp.Base.{
  suc, is_some, ap, ◌∙◌, ℕ, ◌+◌, ◌≤◌, ◌≡◌, refl, ◌≢◌, Bool, Option, none, some, List, [], ◌∷◌, ◌++◌,
  arith, String, str_eq, str_eq_iff, if◌then◌else◌, length,
}

abbrev pub Dict {ℓ} : Type ℓ → Type ℓ
Dict V = List (String × V)

module _ {ℓ} {V : Type ℓ} where
  -- `d.get(k)`
  unfoldable pub lookup : String → Dict V → Option V
  lookup k [] = none
  lookup k ((j, v) ∷ d) = if str_eq j k then some v else lookup k d

  -- `d[k] = v`: in place, or at the end.
  unfoldable pub insert : String → V → Dict V → Dict V
  insert k v [] = (k, v) ∷ []
  insert k v ((j, w) ∷ d) = if str_eq j k then (j, v) ∷ d else (j, w) ∷ insert k v d

  -- `del d[k]`, `d.pop(k, None)`
  unfoldable pub erase : String → Dict V → Dict V
  erase k [] = []
  erase k ((j, w) ∷ d) = if str_eq j k then erase k d else (j, w) ∷ erase k d

  -- `{k: v for k, v in d.items() if p(v)}`
  unfoldable pub filter_values : (V → Bool) → Dict V → Dict V
  filter_values p [] = []
  filter_values p ((j, w) ∷ d) = if p w then (j, w) ∷ filter_values p d else filter_values p d

  -- `{k: f(v) for k, v in d.items()}`
  unfoldable pub map_values {κ} : {W : Type κ} → (V → W) → Dict V → Dict W
  map_values f [] = []
  map_values f ((j, v) ∷ d) = (j, f v) ∷ map_values f d

  -- `sum(p(v) for v in d.values())`
  unfoldable pub count_values : (V → Bool) → Dict V → ℕ
  count_values p [] = 0
  count_values p ((j, v) ∷ d) = (if p v then 1 else 0) + count_values p d

  abbrev pub values : Dict V → List V
  values [] = []
  values ((j, v) ∷ d) = v ∷ values d

  abbrev pub keys : Dict V → List String
  keys [] = []
  keys ((j, v) ∷ d) = j ∷ keys d

  -- No key is listed twice.
  abbrev pub IsDict : Dict V → Type ℓ
  IsDict [] = Unit
  IsDict ((j, v) ∷ d) = (lookup j d ≡ none) × IsDict d

module _ {ℓ} {V : Type ℓ} where
  pub lookup-insert :
      (k j : String) (v : V) (d : Dict V)
      → lookup j (insert k v d) ≡ (if str_eq k j then some v else lookup j d)
  unfolding lookup insert
  lookup-insert k j v [] = refl
  lookup-insert k j v ((i, w) ∷ d) =
      ground (arith, str_eq_iff k j, str_eq_iff i k, str_eq_iff i j, lookup-insert k j v d)

  pub lookup-insert_self : (k : String) (v : V) (d : Dict V) → lookup k (insert k v d) ≡ some v
  lookup-insert_self k v d = ground (arith, str_eq_iff k k, lookup-insert k k v d)

  pub lookup-insert_ne :
      (k j : String) (v : V) (d : Dict V) → k ≢ j → lookup j (insert k v d) ≡ lookup j d
  lookup-insert_ne k j v d h = ground (arith, str_eq_iff k j, lookup-insert k j v d)

  pub lookup-erase :
      (k j : String) (d : Dict V) → lookup j (erase k d) ≡ (if str_eq k j then none else lookup j d)
  unfolding lookup erase
  lookup-erase k j [] = ground arith
  lookup-erase k j ((i, w) ∷ d) =
      ground (arith, str_eq_iff k j, str_eq_iff i k, str_eq_iff i j, lookup-erase k j d)

  pub insert-IsDict : (k : String) (v : V) (d : Dict V) → IsDict d → IsDict (insert k v d)
  unfolding insert lookup
  insert-IsDict k v [] h = (refl, tt)
  insert-IsDict k v ((i, w) ∷ d) h =
      ground (arith, insert-IsDict k v d h.1, lookup-insert k i v d, str_eq_iff i k, str_eq_iff k i)

  pub erase-IsDict : (k : String) (d : Dict V) → IsDict d → IsDict (erase k d)
  unfolding erase
  erase-IsDict k [] h = tt
  erase-IsDict k ((i, w) ∷ d) h = ground (arith, erase-IsDict k d h.1, lookup-erase k i d)

  -- A new key goes to the end, and deleting it gives the dict back.
  pub insert_new :
      (k : String) (v : V) (d : Dict V) → lookup k d ≡ none → insert k v d ≡ d ++ (k, v) ∷ []
  unfolding lookup insert
  insert_new k v [] h = refl
  insert_new k v ((i, w) ∷ d) h = ground (arith, insert_new k v d)

  pub erase-insert_new :
      (k : String) (v : V) (d : Dict V) → lookup k d ≡ none → erase k (insert k v d) ≡ d
  unfolding lookup insert erase
  erase-insert_new k v [] h = ground (arith, str_eq_iff k k)
  erase-insert_new k v ((i, w) ∷ d) h = ground (arith, erase-insert_new k v d)

  module _ (p : V → Bool) where
    pub lookup-filter_none :
        (k : String) (d : Dict V) → lookup k d ≡ none → lookup k (filter_values p d) ≡ none
    unfolding lookup filter_values
    lookup-filter_none k [] h = refl
    lookup-filter_none k ((i, w) ∷ d) h = ground (arith, lookup-filter_none k d)

    pub lookup-filter_some :
        (k : String) (v : V) (d : Dict V)
        → IsDict d
        → lookup k d ≡ some v
        → lookup k (filter_values p d) ≡ (if p v then some v else none)
    unfolding lookup filter_values
    lookup-filter_some k v [] u h = ground arith
    lookup-filter_some k v ((i, w) ∷ d) u h =
        ground (arith, str_eq_iff i k, lookup-filter_some k v d u.1, lookup-filter_none k d)

    pub filter-IsDict : (d : Dict V) → IsDict d → IsDict (filter_values p d)
    unfolding filter_values
    filter-IsDict [] h = tt
    filter-IsDict ((i, w) ∷ d) h = ground (arith, filter-IsDict d h.1, lookup-filter_none i d)

    pub length-filter-le : (d : Dict V) → length (filter_values p d) ≤ length d
    unfolding filter_values
    length-filter-le [] = omega arith
    length-filter-le (e ∷ d) = ground (arith, length-filter-le d)

    -- Nothing was dropped exactly when the length is the same.
    pub filter-eq_of_length :
        (d : Dict V) → length (filter_values p d) ≡ length d → filter_values p d ≡ d
    unfolding filter_values
    filter-eq_of_length [] h = refl
    filter-eq_of_length (e ∷ d) h = ground (arith, filter-eq_of_length d, length-filter-le d)

  pub lookup-map_values {κ} :
      {W : Type κ} (f : V → W) (k : String) (d : Dict V)
      → lookup k (map_values f d) ≡ elim (lookup k d) [ none ↦ none | some v ↦ some (f v) ]
  unfolding lookup map_values
  lookup-map_values f k [] = refl
  lookup-map_values f k ((i, w) ∷ d) = ground (arith, lookup-map_values f k d)

  pub map_values-IsDict {κ} :
      {W : Type κ} (f : V → W) (d : Dict V) → IsDict d → IsDict (map_values f d)
  unfolding map_values
  map_values-IsDict f [] h = tt
  map_values-IsDict f ((i, w) ∷ d) h =
      (lookup-map_values f i d ∙ ground arith, map_values-IsDict f d h.1)

module _ {ℓ} {V : Type ℓ} where
  pub length-insert :
      (k : String) (v : V) (d : Dict V)
      → length (insert k v d) ≡ (if is_some (lookup k d) then length d else suc (length d))
  unfolding lookup insert
  length-insert k v [] = refl
  length-insert k v ((i, w) ∷ d) = ground (arith, length-insert k v d)

  -- Writing back what is there changes nothing.
  pub insert_same : (k : String) (v : V) (d : Dict V) → lookup k d ≡ some v → insert k v d ≡ d
  unfolding lookup insert
  insert_same k v [] h = cc
  insert_same k v ((i, w) ∷ d) h = ground (arith, insert_same k v d)

  pub insert-insert : (k : String) (v w : V) (d : Dict V) → insert k w (insert k v d) ≡ insert k w d
  unfolding insert
  insert-insert k v w [] = ground (arith, str_eq_iff k k)
  insert-insert k v w ((i, x) ∷ d) = ground (arith, insert-insert k v w d, str_eq_iff i k)

  pub length-map_values {κ} :
      {W : Type κ} (f : V → W) (d : Dict V) → length (map_values f d) ≡ length d
  unfolding map_values
  length-map_values f [] = refl
  length-map_values f (e ∷ d) = ap suc (length-map_values f d)
