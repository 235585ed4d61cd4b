-- ===== src/Recipients.antt =====
-- Normal forms of recipients, of custom_components/waha_whatsapp/helpers.py.
use home_assistant_whatsapp.Base.{
  Bool-cases, Char, String, ap, arith, code, concat, false, inl, inr, refl, some, sym, true, ◌∙◌,
  ◌≡◌,
}
use home_assistant_whatsapp.Helpers.{
  is_separator, normalize_recipient, recipient_chat_id, without_separators,
}
use home_assistant_whatsapp.Text.{all_chars, is_digit, is_digits, is_space, lstrip, rstrip, strip}

digit-plain :
    (c : Char)
    → is_digit (code c) ≡ true
    → (is_space (code c) ≡ false) × (is_separator (code c) ≡ false)
unfolding is_space
digit-plain c h = ground arith

lstrip_digits : (s : String) → all_chars is_digit s ≡ true → lstrip s ≡ s
unfolding all_chars lstrip
lstrip_digits String.[] h = refl
lstrip_digits (String.◌∷◌ c s) h = rw ((digit-plain c (ground arith)).0) refl

rstrip_digits : (s : String) → all_chars is_digit s ≡ true → rstrip s ≡ s
unfolding all_chars rstrip
rstrip_digits String.[] h = refl
rstrip_digits (String.◌∷◌ c s) h =
    rw (rstrip_digits s (ground arith), (digit-plain c (ground arith)).0) (ground arith)

separators_digits : (s : String) → all_chars is_digit s ≡ true → without_separators s ≡ s
unfolding all_chars without_separators
separators_digits String.[] h = refl
separators_digits (String.◌∷◌ c s) h =
    rw (separators_digits s (ground arith), (digit-plain c (ground arith)).1) refl

-- A number of 7 to 15 digits is its own normal form.
normalize_digits : (s : String) → is_digits 7 15 s ≡ true → normalize_recipient s ≡ some s
unfolding normalize_recipient strip is_digits
normalize_digits s h =
    let d : all_chars is_digit s ≡ true = ground arith in
    rw (lstrip_digits s d, rstrip_digits s d, separators_digits s d) (ground arith)

normalize_recipient-digits :
    (s v : String) → normalize_recipient s ≡ some v → is_digits 7 15 v ≡ true
unfolding normalize_recipient
normalize_recipient-digits s v h =
    elim (Bool-cases (is_digits 7 15 (without_separators (strip s)))) [
      | inl e ↦
          let same : without_separators (strip s) ≡ v = ground arith in
          ap (is_digits 7 15) (sym same) ∙ e
      | inr e ↦ absurd (ground arith)
    ]

-- A recipient that was normalised has 7 to 15 digits, is its own normal form, and has a chat id.
pub normalize_recipient_lem :
    (s v : String)
    → normalize_recipient s ≡ some v
    → (is_digits 7 15 v ≡ true)
      × (normalize_recipient v ≡ some v)
      × (recipient_chat_id v ≡ some (concat v "@c.us"))
unfolding recipient_chat_id
normalize_recipient_lem s v h =
    let d = normalize_recipient-digits s v h in let n = normalize_digits v d in (d, n, rw n refl)
