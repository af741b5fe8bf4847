-- ===== src/Conventions/Render.antt =====
-- render_packet_text and the reactions of apis/arqs_conventions.py. A text that is laid out by `json.dumps` or
-- that shows an error is a value that names its parts.
use Prim.Native.Char.{code}
use Prim.Native.String.{◌++◌}
use text.Mathlib.Text.{starts_with}
use arqs.Auth.{text_eq}
use arqs.Json.{is_empty, get_field, Fields}
use arqs.Conventions.Decode.{DecodeError, DecodedPacketView}
use arqs.Conventions.{codes, strip_text, Python, header_value, text_or_empty, word}
use arqs.Prelude.{
  ◌||◌, ◌∷◌, [], ◌==◌, some, ◌&&◌, Option, false, none, not, str_eq, Bool, if◌then◌else◌, String,
}

pub data Rendered : Type 0 where
  shown : String → Rendered
  dumped : Fields → Rendered
  problem : String → DecodeError → Rendered
  empty_message : Rendered

-- str(data.get(name) or "").strip()
unfoldable pub stripped : Python → String → Fields → String
unfolding text_or_empty strip_text
stripped py name payload = strip_text (text_or_empty py (get_field name payload))

starts_with_colon : String → Bool
starts_with_colon s = starts_with s ":"

ends_with_colon : String → Bool
ends_with_colon String.[] = false
ends_with_colon (String.◌∷◌ c s) = if str_eq s "" then code c == 58 else ends_with_colon s

has_blank : String → Bool
has_blank String.[] = false
has_blank (String.◌∷◌ c s) = (code c == 32) || has_blank s

-- The name without colons is put between two.
unfoldable pub emoji_label : String → String
unfolding starts_with_colon ends_with_colon has_blank
emoji_label name =
    if str_eq name ""
    then ""
    else if starts_with_colon name && ends_with_colon name
    then name
    else if has_blank name
    then name
    else ":" ++ (name ++ ":")

-- _reaction_display_value
unfoldable pub reaction_display_value : Python → Fields → String
unfolding header_value strip_text emoji_label stripped
reaction_display_value py payload = elim (header_value py (get_field "emoji" payload)) [
  | none ↦ emoji_label (stripped py "emoji_name" payload)
  | some emoji ↦
      if str_eq (strip_text emoji) ""
      then emoji_label (stripped py "emoji_name" payload)
      else strip_text emoji
]

unfoldable pub render_reaction_text : Python → Fields → Option String
unfolding word text_or_empty reaction_display_value
render_reaction_text py payload =
    let display = reaction_display_value py payload in
    let action = word (text_or_empty py (get_field "action" payload)) in
    if str_eq display ""
    then none
    else if text_eq action (codes "set")
    then some ("reacted with " ++ display)
    else if text_eq action (codes "remove")
    then some ("removed reaction " ++ display)
    else none

-- With data, and no text of a reaction.
unfoldable pub render_rest : DecodedPacketView → Fields → Rendered
render_rest v payload = if not (is_empty payload) then dumped payload else elim v.errors [
  | [] ↦ empty_message
  | e ∷ es ↦ problem (elim v.arqs_type [ none ↦ "packet" | some t ↦ t ]) e
]

unfoldable pub render_data : Python → DecodedPacketView → Fields → Rendered
unfolding render_reaction_text render_rest
render_data py v payload =
    if elim v.arqs_type [ none ↦ false | some t ↦ str_eq t "reaction.v1" ] && not (is_empty payload)
    then elim (render_reaction_text py payload) [ none ↦ render_rest v payload | some t ↦ shown t ]
    else render_rest v payload

-- The text of a packet whose body is decoded as `v`.
unfoldable pub render_packet_text : Python → DecodedPacketView → Fields → Rendered
unfolding render_data
render_packet_text py v payload = elim v.body_text [
  | none ↦ render_data py v payload
  | some body ↦ if str_eq body "" then render_data py v payload else shown body
]
