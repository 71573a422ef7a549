-- ===== src/Prelude/Texts.antt =====
-- Python's methods on texts, as far as several components use them.
use Prim.Native.String
use Prim.Native.String.append
use Prim.Native.String.compare
use Prim.Native.String.{String, ◌++◌ as append}
use Prim.Native.Nat.{ℕ, Ordering}
use Prim.Native.Char.{Char, code}
use mathlib.Core.Path.{◌≡◌, refl}
use mathlib.Core.Bool.{Bool, true, false, ◌&&◌, ◌||◌}
use mathlib.Core.Option.{Option, none, some}
use mathlib.Core.List.{List, [], ◌∷◌}
use native.Mathlib.Omega.{arith}
pub use text.Mathlib.TextLemmas.{nil-append, append_assoc as text-append_assoc}
use zigbee_control.Prelude.Tests.{if◌then◌else◌, ◌==◌, nat_eq, string_eq, truthy, truthy_opt}

-- `s.startswith(prefix)`
abbrev pub starts_with : (word : String) → String → Bool
starts_with String.[] s = true
starts_with (String.◌∷◌ c word) String.[] = false
starts_with (String.◌∷◌ c word) (String.◌∷◌ d s) = code c == code d && starts_with word s

-- Whether a character, given by its number, stands in the text.
abbrev pub has_char : ℕ → String → Bool
has_char n String.[] = false
has_char n (String.◌∷◌ c s) = code c == n || has_char n s

-- `s.rstrip(c)` for one character.
unfoldable pub rstrip_char : ℕ → String → String
rstrip_char n String.[] = String.[]
rstrip_char n (String.◌∷◌ c s) =
    let rest = rstrip_char n s in if code c == n && rest == "" then String.[] else String.◌∷◌ c rest

-- `s.endswith(c)` for one character.
abbrev pub ends_with_char : ℕ → String → Bool
ends_with_char n String.[] = false
ends_with_char n (String.◌∷◌ c String.[]) = code c == n
ends_with_char n (String.◌∷◌ c (String.◌∷◌ d s)) = ends_with_char n (String.◌∷◌ d s)

-- `separator.join(texts)`
abbrev pub join_with : String → List String → String
join_with separator [] = ""
join_with separator (s ∷ []) = s
join_with separator (s ∷ t ∷ rest) = append s (append separator (join_with separator (t ∷ rest)))

-- `a or b` for two optional texts.
abbrev pub or_text : Option String → Option String → Option String
or_text a b = if truthy_opt a then a else b

-- The text before and after the first such character, where there is one.
unfoldable pub partition : ℕ → String → Option (String × String)
partition n String.[] = none
partition n (String.◌∷◌ c s) =
    let rest = partition n s in
    if code c == n
    then some ("", s)
    else elim rest [ none ↦ none | some (before, after) ↦ some (String.◌∷◌ c before, after) ]

-- The text up to the first such character, and the parts after it.
unfoldable pub split_first : ℕ → String → String × List String
split_first n String.[] = ("", [])
split_first n (String.◌∷◌ c s) =
    let (first, rest) = split_first n s in
    if code c == n then ("", first ∷ rest) else (String.◌∷◌ c first, rest)

-- `s.split(c)` for one character.
unfoldable pub split_char : ℕ → String → List String
unfolding split_first
split_char n s = let (first, rest) = split_first n s in first ∷ rest

pub append-cons : (c : Char) (s t : String) → append (String.◌∷◌ c s) t ≡ String.◌∷◌ c (append s t)
append-cons c s t = λ i. append.cons c s t i

pub starts_with-append : (s t : String) → starts_with s (append s t) ≡ true
starts_with-append String.[] t = refl
starts_with-append (String.◌∷◌ c s) t =
    rw (append-cons c s t) (ground (arith, starts_with-append s t))

cons_nil : (c : Char) (s : String) → String.compare (String.◌∷◌ c s) "" ≡ Ordering.gt
cons_nil c s = λ i. compare.cons-nil c s i

truthy-cons : (c : Char) (s : String) → truthy (String.◌∷◌ c s) ≡ true
truthy-cons c s = rw (cons_nil c s) refl

-- A text with something in front of it is not empty.
pub truthy-append : (s t : String) → truthy s ≡ true → truthy (append s t) ≡ true
truthy-append String.[] t h = absurd (cc h)
truthy-append (String.◌∷◌ c s) t h = rw (append-cons c s t) (truthy-cons c (append s t))

pub has_char-append :
    (n : ℕ) (s t : String) → has_char n (append s t) ≡ has_char n s || has_char n t
has_char-append n String.[] t = rw (nil-append t) refl
has_char-append n (String.◌∷◌ c s) t =
    rw (append-cons c s t) (ground (arith, has_char-append n s t))

-- A text is split at the first such character into the line before it and the rest.
pub split_char-line :
    (n : ℕ) (line : String) (c : Char) (s : String)
    → has_char n line ≡ false
    → (code c == n) ≡ true
    → split_char n (append line (String.◌∷◌ c s)) ≡ line ∷ split_char n s
unfolding split_char
split_char-line n String.[] c s clean ends = rw (nil-append (String.◌∷◌ c s)) (rw ends refl)
split_char-line n (String.◌∷◌ d line) c s clean ends =
    rw (append-cons d line (String.◌∷◌ c s)) (ground (arith, split_char-line n line c s))
