-- ===== src/LogCapture/Framing.antt =====
-- `format_sse_event` of app/utils/sse_utils.py, and how a browser takes a stream of such texts apart.
use Prim.Native.String.{◌++◌ as append}
use Prim.Native.Char.{Char, code}
use zigbee_control.Prelude.{
  ◌≡◌, refl, ap, ◌∙◌, String, Bool, true, false, not, ◌&&◌, ◌||◌, Option, none, some, List, [], ◌∷◌,
  ◌++◌, if◌then◌else◌, arith, ◌==◌, nat_eq, string_eq, truthy, truthy_opt,
}
use zigbee_control.Prelude.Texts.{
  has_char, split_char, append-cons, has_char-append, nil-append, truthy-append, text-append_assoc,
  split_char-line,
}
use zigbee_control.Json.{Json, Fields, text, object, end, field}

-- `key in data`
unfoldable pub has_field : String → Fields → Bool
has_field key end = false
has_field key (field k value rest) = k == key || has_field key rest

-- `data[key] = value` for a key that is not there.
unfoldable pub add_field : String → Json → Fields → Fields
add_field key value end = field key value end
add_field key value (field k v rest) = field k v (add_field key value rest)

abbrev pub correlation_value : Option String → Json
correlation_value none = text ""
correlation_value (some correlation_id) = text correlation_id

unfoldable pub with_correlation : (correlation_id : Option String) → Fields → Fields
unfolding has_field add_field
with_correlation correlation_id fields =
    if truthy_opt correlation_id && not (has_field "correlation_id" fields)
    then add_field "correlation_id" (correlation_value correlation_id) fields
    else fields

-- The data of an event: a dict or a text.
pub data EventData : Type 0 where
  dict : Fields → EventData
  str : String → EventData

module _ (dumps : Json → String) where
  unfoldable pub data_text : EventData → (correlation_id : Option String) → String
  unfolding with_correlation
  data_text (dict fields) correlation_id = dumps (object (with_correlation correlation_id fields))
  data_text (str s) correlation_id = s

  unfoldable pub format_sse_event :
      (event : String) → EventData → (correlation_id : Option String) → String
  format_sse_event event event_data correlation_id =
      append "event: "
        (append event (append "\ndata: " (append (data_text event_data correlation_id) "\n\n")))

-- What follows the prefix in a line.
unfoldable pub after_prefix : String → String → Option String
after_prefix String.[] s = some s
after_prefix (String.◌∷◌ c word) String.[] = none
after_prefix (String.◌∷◌ c word) (String.◌∷◌ d s) =
    let rest = after_prefix word s in if code c == code d then rest else none

abbrev joined : Option String → String → String
joined none t = t
joined (some s) t = append s (append "\n" t)

-- A browser reads a stream line by line. It collects the name and the data of an event, and an empty
-- line ends the event.
abbrev after_line : String → String × Option String → String × Option String
after_line line (name, body) =
    if line == "" then ("", none) else elim (after_prefix "event: " line) [
      | some event ↦ (event, body)
      | none ↦ elim (after_prefix "data: " line) [
        | some t ↦ (name, some (joined body t))
        | none ↦ (name, body)
      ]
    ]

abbrev shown_at : String → String × Option String → List (String × String)
shown_at line (name, none) = []
shown_at line (name, some body) = if line == "" then (name, body) ∷ [] else []

unfoldable pub read_lines : List String → String × Option String → List (String × String)
unfolding after_prefix
read_lines [] state = []
read_lines (line ∷ rest) state = shown_at line state ++ read_lines rest (after_line line state)

unfoldable pub read_stream : String → List (String × String)
unfolding read_lines split_char
read_stream s = read_lines (split_char 10 s) ("", none)

after_prefix-append : (word s : String) → after_prefix word (append word s) ≡ some s
unfolding after_prefix
after_prefix-append String.[] s = rw (nil-append s) refl
after_prefix-append (String.◌∷◌ c word) s =
    rw (append-cons c word s) (ground (arith, after_prefix-append word s))

-- The event as a browser shows it: its name and its text.
abbrev pub NoBreak : String → Type 0
NoBreak s = has_char 10 s ≡ false

not_empty : (s t : String) → truthy s ≡ true → (append s t == "") ≡ false
not_empty s t h = ground (arith, truthy-append s t h)

after_line-event :
    (event : String) (body : Option String)
    → after_line (append "event: " event) ("", body) ≡ (event, body)
after_line-event event body =
    rw (not_empty "event: " event refl) (rw (after_prefix-append "event: " event) refl)

after_prefix-data : (body : String) → after_prefix "event: " (append "data: " body) ≡ none
unfolding after_prefix
after_prefix-data body = rw (append-cons "d" "ata: " body) refl

after_line-data :
    (name body : String) → after_line (append "data: " body) (name, none) ≡ (name, some body)
after_line-data name body =
    rw (not_empty "data: " body refl)
      (rw (after_prefix-data body) (rw (after_prefix-append "data: " body) refl))

read_lines-collect :
    (line : String) (rest : List String) (state state' : String × Option String)
    → shown_at line state ≡ []
    → after_line line state ≡ state'
    → read_lines (line ∷ rest) state ≡ read_lines rest state'
unfolding read_lines
read_lines-collect line rest state state' nothing next = rw nothing (ap (read_lines rest) next)

read_lines-frame :
    (event body : String) (lines : List String)
    → read_lines (append "event: " event ∷ append "data: " body ∷ "" ∷ lines) ("", none)
      ≡ (event, body) ∷ read_lines lines ("", none)
unfolding read_lines
read_lines-frame event body lines =
    read_lines-collect (append "event: " event) (append "data: " body ∷ "" ∷ lines) ("", none)
      (event, none) refl (after_line-event event none)
    ∙ read_lines-collect (append "data: " body) ("" ∷ lines) (event, none) (event, some body) refl
        (after_line-data event body)

abbrev newline : Char
newline = "\n"

-- The text of one event with what follows it, as its lines.
framed :
    (event body rest : String)
    → append (append "event: " (append event (append "\ndata: " (append body "\n\n")))) rest
      ≡ append (append "event: " event) (
          String.◌∷◌ newline
            (append (append "data: " body) (String.◌∷◌ newline (String.◌∷◌ newline rest))))
framed event body rest =
    let D : String = "data: " in
    let X = append body "\n\n" in
    rw (← text-append_assoc "event: " event (append "\ndata: " X)) (
      rw (text-append_assoc (append "event: " event) (append "\ndata: " X) rest) (
        rw (append-cons newline "data: " X) (
          rw (append-cons newline (append "data: " X) rest) (
            rw (← text-append_assoc "data: " body "\n\n") (
              rw (text-append_assoc (append "data: " body) "\n\n" rest) (
                rw (append-cons newline "\n" rest)
                  (rw (append-cons newline "" rest) (rw (nil-append rest) refl))))))))

split_char-frame :
    (event body rest : String)
    → NoBreak event
    → NoBreak body
    → split_char 10
        (append (append "event: " (append event (append "\ndata: " (append body "\n\n")))) rest)
      ≡ append "event: " event ∷ append "data: " body ∷ "" ∷ split_char 10 rest
split_char-frame event body rest clean clean' = rw (framed event body rest) (
    split_char-line 10 (append "event: " event) newline _
      (rw (has_char-append 10 "event: " event) clean) refl
    ∙ ap (◌∷◌ (append "event: " event)) (
        split_char-line 10 (append "data: " body) newline _
          (rw (has_char-append 10 "data: " body) clean') refl
        ∙ ap (◌∷◌ (append "data: " body)) (unfold split_char in refl)))

-- What a browser reads off a stream that begins with the text of an event.
pub read_stream-format :
    (dumps : Json → String) (event : String) (body : EventData) (correlation_id : Option String)
    (rest : String)
    → NoBreak event
    → NoBreak (data_text dumps body correlation_id)
    → read_stream (append (format_sse_event dumps event body correlation_id) rest)
      ≡ (event, data_text dumps body correlation_id) ∷ read_stream rest
unfolding read_stream format_sse_event
read_stream-format dumps event body correlation_id rest clean clean' =
    let t = data_text dumps body correlation_id in
    ap (λ lines. read_lines lines ("", none)) (split_char-frame event t rest clean clean')
    ∙ read_lines-frame event t (split_char 10 rest)
