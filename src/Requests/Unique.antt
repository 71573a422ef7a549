-- ===== src/Requests/Unique.antt =====
-- What a list of enumeration values is parsed to.
use zigbee_control.Prelude.{
  ◌≡◌, refl, sym, subst, ◌∙◌, select, inl, inr, String, Bool, true, false, ◌||◌, Option, none, some,
  List, [], ◌∷◌, ◌++◌, if◌then◌else◌, Eq, ◌==◌, ==-iff, any, contains, contains-append, count,
  count-append, arith, Bool-cases, Option-cases,
}
use mathlib.Core.List.{append-nil, append_assoc}
use zigbee_control.Prelude.Results.{ok, ok-injective}
use zigbee_control.Requests.{tokens_of, parse_tokens, parsed_or_error, parse_enum_list_query_param}

contains-count {ℓ} :
    {A : Type ℓ} ⦃e : Eq A⦄ (xs : List A) (a : A) → contains xs a ≡ false → count a xs ≡ 0
unfolding contains
contains-count [] a h = refl
contains-count ⦃e⦄ (x ∷ xs) a h =
    ground (arith, contains-count xs a, e.same_iff x a, e.same_iff a x)

-- A new value at the end is counted once more, and only it.
grown {ℓ} :
    {A : Type ℓ} ⦃e : Eq A⦄ (xs : List A) (b a : A) (later : Bool)
    → contains xs b ≡ false
    → (if contains (xs ++ b ∷ []) a then count a (xs ++ b ∷ []) else if later then 1 else 0)
      ≡ (if contains xs a then count a xs else if b == a || later then 1 else 0)
unfolding contains
grown ⦃e⦄ xs b a later fresh =
    let found = contains-append xs (b ∷ []) a in
    let counted = count-append a xs (b ∷ []) in
    elim (Bool-cases (b == a)) [
      | inl same ↦
          let here = subst (λ x. contains xs x ≡ false) ((==-iff b a).0 same) fresh in
          let nothing = contains-count xs a here in
          ground (arith, found, counted, e.same_iff b a, e.same_iff a b)
      | inr other ↦ ground (arith, found, counted, e.same_iff b a, e.same_iff a b)
    ]

module _ {E : Type 0} ⦃e : Eq E⦄ (member : String → Option E) (valid_values : List String) where
  abbrev pub is_member : E → Option E → Bool
  is_member a none = false
  is_member a (some b) = b == a

  -- Whether a token stands for the value.
  abbrev pub named : E → List String → Bool
  named a tokens = any (λ token. is_member a (member token)) tokens

  count-parse_tokens :
      (tokens : List String) (parsed : List E) (invalid : List String) (a : E)
      → count a (parse_tokens member valid_values tokens (parsed, invalid)).0
        ≡ (if contains parsed a then count a parsed else if named a tokens then 1 else 0)
  unfolding parse_tokens contains
  count-parse_tokens [] parsed invalid a = elim (Bool-cases (contains parsed a)) [
    | inl seen ↦ simp seen refl
    | inr fresh ↦ simp fresh (contains-count parsed a fresh)
  ]
  count-parse_tokens (token ∷ tokens) parsed invalid a = elim (Option-cases (member token)) [
    | inl f ↦ simp f (count-parse_tokens tokens parsed (invalid ++ token ∷ []) a)
    | inr (b, f) ↦ elim (Bool-cases (contains parsed b)) [
      | inl seen ↦
          let rest = count-parse_tokens tokens parsed invalid a in
          elim (Bool-cases (b == a)) [
            | inl same ↦
                let here = subst (λ x. contains parsed x ≡ true) ((==-iff b a).0 same) seen in
                simp (f, seen, here) (simp here at rest)
            | inr other ↦ simp (f, seen, other) rest
          ]
      | inr fresh ↦
          simp (f, fresh)
            (count-parse_tokens tokens (parsed ++ b ∷ []) invalid a
              ∙ grown parsed b a (named a tokens) fresh)
    ]
  ]

  abbrev pub is_unknown : Option E → Bool
  is_unknown none = true
  is_unknown (some b) = false

  -- The tokens that no value of the enumeration has.
  abbrev pub unknown : List String → List String
  unknown tokens = select (λ token. is_unknown (member token)) tokens

  parse_tokens-unknown :
      (tokens : List String) (parsed : List E) (invalid : List String)
      → (parse_tokens member valid_values tokens (parsed, invalid)).1 ≡ invalid ++ unknown tokens
  unfolding parse_tokens
  parse_tokens-unknown [] parsed invalid = sym (append-nil invalid)
  parse_tokens-unknown (token ∷ tokens) parsed invalid = elim (Option-cases (member token)) [
    | inl f ↦ simp f (
        parse_tokens-unknown tokens parsed (invalid ++ token ∷ [])
        ∙ append_assoc invalid (token ∷ []) (unknown tokens))
    | inr (b, f) ↦ elim (Bool-cases (contains parsed b)) [
      | inl seen ↦ simp (f, seen) (parse_tokens-unknown tokens parsed invalid)
      | inr fresh ↦ simp (f, fresh) (parse_tokens-unknown tokens (parsed ++ b ∷ []) invalid)
    ]
  ]

  parsed_or_error-ok :
      (parsed : List E) (invalid : List String) (es : List E)
      → parsed_or_error member valid_values (parsed, invalid) ≡ ok es
      → (invalid ≡ []) × (parsed ≡ es)
  parsed_or_error-ok parsed [] es h = (refl, ok-injective refl h)
  parsed_or_error-ok parsed (value ∷ values) es h = cc

  parsed_or_error-valid :
      (parsed : List E) (invalid : List String)
      → invalid ≡ []
      → parsed_or_error member valid_values (parsed, invalid) ≡ ok parsed
  parsed_or_error-valid parsed invalid e = simp e refl

  -- A list parameter is parsed exactly if every token is a value of the enumeration; then each value
  -- stands in the result once if some token stands for it, and else not at all.
  pub parse_enum_list_exact :
      (raw_values : List String)
      → let parse = parse_enum_list_query_param member valid_values (some raw_values) in
        let tokens = tokens_of raw_values in
        ((unknown tokens ≡ []) → ((es : List E) × (parse ≡ ok es)))
        × ((es : List E)
            → parse ≡ ok es
            → (unknown tokens ≡ []) × ((a : E) → count a es ≡ (if named a tokens then 1 else 0)))
  unfolding parse_enum_list_query_param contains
  parse_enum_list_exact raw_values =
      let tokens = tokens_of raw_values in
      let (parsed, invalid) = parse_tokens member valid_values tokens ([], []) in
      let rejected = parse_tokens-unknown tokens [] [] in
      (
        λ all. (parsed, parsed_or_error-valid parsed invalid (rejected ∙ all)),
        λ es h.
            let (none_left, same) = parsed_or_error-ok parsed invalid es h in
            (
              sym rejected ∙ none_left,
              λ a.
                  subst (λ xs. count a xs ≡ (if named a tokens then 1 else 0)) same
                    (count-parse_tokens tokens [] [] a),
            ),
      )
