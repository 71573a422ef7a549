-- ===== src/Kube/Errors.antt =====
-- The restart errors of app/exceptions.py and their texts.
use Prim.Native.String.{◌++◌ as append}
use zigbee_control.Prelude.{
  ℕ, zero, suc, ◌/◌, ◌%◌, String, Option, none, some, List, [], ◌∷◌, ◌++◌, if◌then◌else◌, ltb, ◌==◌,
  truthy_opt, nat_eq, ◌≡◌, refl, true, false,
}

-- `other` is any exception that is no RestartError, with its text.
pub data Failure : Type 0 where
  failed : (message namespace deployment : String) → Failure
  timed_out : (namespace deployment : String) → ℕ → Failure
  in_progress : (namespace deployment : String) → Failure
  other : String → Failure

abbrev pub digit : ℕ → String
digit n =
    if n == 0
    then "0"
    else if n == 1
    then "1"
    else if n == 2
    then "2"
    else if n == 3
    then "3"
    else if n == 4
    then "4"
    else if n == 5
    then "5"
    else if n == 6
    then "6"
    else if n == 7
    then "7"
    else if n == 8
    then "8"
    else "9"

-- The decimal numeral of `n`, before the text `out`; `suc n` is fuel enough.
pub numeral : ℕ → ℕ → String → String
numeral zero n out = out
numeral (suc fuel) n out =
    let out' = append (digit (n % 10)) out in
    elim (ltb n 10) [ true ↦ out' | false ↦ numeral fuel (n / 10) out' ]

unfoldable pub show_ℕ : ℕ → String
unfolding numeral
show_ℕ n = numeral (suc n) n ""

abbrev pub join : List String → String
join [] = ""
join (s ∷ []) = s
join (s ∷ t ∷ rest) = append s (append ", " (join (t ∷ rest)))

abbrev pub part : String → Option String → List String
part label none = []
part label (some s) = if truthy_opt (some s) then append label s ∷ [] else []

-- `RestartError.__init__`: the text of the exception.
unfoldable pub restart_error_text : String → Option String → Option String → String
restart_error_text message namespace deployment =
    elim (part "namespace=" namespace ++ part "deployment=" deployment) [
      | [] ↦ message
      | s ∷ rest ↦ append message (append " (" (append (join (s ∷ rest)) ")"))
    ]

-- `str(exc)`
unfoldable pub failure_text : Failure → String
unfolding restart_error_text show_ℕ
failure_text (failed message namespace deployment) =
    restart_error_text message (some namespace) (some deployment)
failure_text (timed_out namespace deployment seconds) =
    restart_error_text
      (append "restart did not finish within " (append (show_ℕ seconds) " seconds"))
      (some namespace) (some deployment)
failure_text (in_progress namespace deployment) =
    restart_error_text "restart already in progress" (some namespace) (some deployment)
failure_text (other text) = text

timeout_text :
    failure_text (timed_out "home" "zigbee" 180)
    ≡ "restart did not finish within 180 seconds (namespace=home, deployment=zigbee)"
unfolding failure_text
timeout_text = refl
