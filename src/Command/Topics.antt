-- ===== src/Command/Topics.antt =====
-- The MQTT topics of commands (src/command.rs).
use Prim.Native.Char.{Char, code}
use Prim.Native.String
use text.Mathlib.TextLemmas.{nil-append, cons-append}
use text.Mathlib.TextLemmas
use mathlib.Core.Path.{ap₂}
use text.Mathlib.TextEquality.{Char-path}
use ocpp_proxy.Base.{
  eqb, eqb_iff, Bool-cases, inl, inr, ap, sym, ◌∙◌, String, false, Option, none, some, List, [],
  ◌∷◌, ◌≡◌, refl, ◌==◌, if◌then◌else◌, arith, eq_iff,
}
use ocpp_proxy.Base.Text.{push_head, format, split, Lacks, split-append, is_blank}

pub data CommandTopic : Type 0 where
  command current_limit : CommandTopic

-- `command_topic`, `current_limit_topic`, `command_result_topic`
unfoldable pub command_topic : String → String
command_topic id = format ("ocpp/" ∷ id ∷ "/command" ∷ [])

unfoldable pub current_limit_topic : String → String
current_limit_topic id = format ("ocpp/" ∷ id ∷ "/command/current_limit" ∷ [])

unfoldable pub command_result_topic : String → String
command_result_topic id = format ("ocpp/" ∷ id ∷ "/command/result" ∷ [])

-- the parts after the charge point id
abbrev topic_kind : List String → Option CommandTopic
topic_kind [] = some command
topic_kind (a ∷ []) = if a == "current_limit" then some current_limit else none
topic_kind (a ∷ b ∷ parts) = none

abbrev addressed : String → Option CommandTopic → Option (String × CommandTopic)
addressed id none = none
addressed id (some kind) = some (id, kind)

abbrev parse_parts : List String → Option (String × CommandTopic)
parse_parts [] = none
parse_parts (root ∷ []) = none
parse_parts (root ∷ id ∷ []) = none
parse_parts (root ∷ id ∷ verb ∷ rest) =
    if root == "ocpp"
    then (if is_blank id
        then none
        else if verb == "command"
        then addressed id (topic_kind rest)
        else none)
    else none

-- `parse_command_topic`
unfoldable pub parse_command_topic : String → Option (String × CommandTopic)
unfolding split
parse_command_topic topic = parse_parts (split b'/' topic)

topics_in :
    (parse_command_topic "ocpp/CP1/command" ≡ some ("CP1", command))
    × (parse_command_topic "ocpp/CP1/command/current_limit" ≡ some ("CP1", current_limit))
    × (parse_command_topic "ocpp/CP1/command/result" ≡ none)
    × (parse_command_topic "ocpp//command" ≡ none)
unfolding parse_command_topic
topics_in = (refl, refl, refl, refl)

-- a topic whose first part ends here
split_first :
    (s t : String)
    → Lacks b'/' s
    → split b'/' (String.◌++◌ (String.◌++◌ s "/") t) ≡ s ∷ split b'/' t
split_first s t h =
    rw (TextLemmas.append_assoc s "/" t)
      (rw (cons-append "/" "" t, nil-append t) (split-append b'/' s "/" t h refl))

split_topic :
    (id rest : String)
    → Lacks b'/' id
    → split b'/' (format ("ocpp/" ∷ id ∷ String.◌∷◌ "/" rest ∷ [])) ≡ "ocpp" ∷ id ∷ split b'/' rest
split_topic id rest h = rw (TextLemmas.append-nil (String.◌∷◌ "/" rest)) (
    split_first "ocpp" (String.◌++◌ id (String.◌∷◌ "/" rest)) (omega arith)
    ∙ ap (λ parts. "ocpp" ∷ parts) (split-append b'/' id "/" rest h refl))

-- The two command topics of a charge point whose id is not empty and has no slash are recognised as
-- what they are, with that id; the topic of its results is no command topic.
pub parse_command_topic_lem :
    (id : String)
    → Lacks b'/' id
    → is_blank id ≡ false
    → (parse_command_topic (command_topic id) ≡ some (id, command))
      × (parse_command_topic (current_limit_topic id) ≡ some (id, current_limit))
      × (parse_command_topic (command_result_topic id) ≡ none)
unfolding parse_command_topic command_topic current_limit_topic command_result_topic
parse_command_topic_lem id h n = (
  rw (split_topic id "command" h, n),
  rw (split_topic id "command/current_limit" h, n),
  rw (split_topic id "command/result" h, n),
)

-- the text of a list of parts, a slash between two of them
rejoin : List String → String
rejoin [] = ""
rejoin (p ∷ []) = p
rejoin (p ∷ q ∷ ps) = String.◌++◌ p (String.◌∷◌ "/" (rejoin (q ∷ ps)))

rejoin-push_head :
    (c : Char) (ps : List String) → rejoin (push_head c ps) ≡ String.◌∷◌ c (rejoin ps)
unfolding rejoin
rejoin-push_head c [] = refl
rejoin-push_head c (p ∷ []) = refl
rejoin-push_head c (p ∷ q ∷ ps) = cons-append c p (String.◌∷◌ "/" (rejoin (q ∷ ps)))

rejoin-blank :
    (p : String) (ps : List String) → rejoin ("" ∷ p ∷ ps) ≡ String.◌∷◌ "/" (rejoin (p ∷ ps))
unfolding rejoin
rejoin-blank p ps = nil-append (String.◌∷◌ "/" (rejoin (p ∷ ps)))

split-cons : (s : String) → (p : String) × (ps : List String) × (split b'/' s ≡ p ∷ ps)
unfolding split
split-cons String.[] = ("", [], refl)
split-cons (String.◌∷◌ c s) = elim (Bool-cases (eqb (code c) b'/')) [
  | inl e ↦ ("", split b'/' s, rw e)
  | inr e ↦ let (p, ps, same) = split-cons s in (String.◌∷◌ c p, ps, rw (e, same))
]

rejoin_one : (p : String) → rejoin (p ∷ []) ≡ p
unfolding rejoin
rejoin_one p = refl

rejoin-split : (s : String) → rejoin (split b'/' s) ≡ s
unfolding split
rejoin-split String.[] = rejoin_one ""
rejoin-split (String.◌∷◌ c s) =
    let (p, ps, same) = split-cons s in
    let rest = ap rejoin (sym same) ∙ rejoin-split s in
    elim (Bool-cases (eqb (code c) b'/')) [
      | inl e ↦
          rw (e, same)
            (rejoin-blank p ps
              ∙ ap₂ String.◌∷◌ (Char-path "/" c (sym ((eqb_iff (code c) b'/').0 e))) rest)
      | inr e ↦ rw (e, same) (rejoin-push_head c (p ∷ ps) ∙ ap (String.◌∷◌ c) rest)
    ]

-- the topic of a kind
abbrev pub topic_of : String → CommandTopic → String
topic_of id command = command_topic id
topic_of id current_limit = current_limit_topic id

rejoin_ocpp : (rest : String) → String.◌++◌ "ocpp" (String.◌∷◌ "/" rest) ≡ String.◌++◌ "ocpp/" rest
rejoin_ocpp rest = sym (
    TextLemmas.append_assoc "ocpp" "/" rest
    ∙ ap (String.◌++◌ "ocpp") (cons-append "/" "" rest ∙ ap (String.◌∷◌ "/") (nil-append rest)))

rejoin_command : (id : String) → rejoin ("ocpp" ∷ id ∷ "command" ∷ []) ≡ command_topic id
unfolding rejoin command_topic
rejoin_command id = rejoin_ocpp (String.◌++◌ id "/command")

rejoin_limit :
    (id : String) → rejoin ("ocpp" ∷ id ∷ "command" ∷ "current_limit" ∷ []) ≡ current_limit_topic id
unfolding rejoin current_limit_topic
rejoin_limit id = rejoin_ocpp (String.◌++◌ id "/command/current_limit")

parse_parts_sound :
    (parts : List String) (id : String) (kind : CommandTopic)
    → parse_parts parts ≡ some (id, kind)
    → (rejoin parts ≡ topic_of id kind) × (is_blank id ≡ false)
parse_parts_sound [] id kind h = absurd (cc)
parse_parts_sound (root ∷ []) id kind h = absurd (cc)
parse_parts_sound (root ∷ i ∷ []) id kind h = absurd (cc)
parse_parts_sound (root ∷ i ∷ verb ∷ []) id kind h =
    let facts : (root ≡ "ocpp")
        × (verb ≡ "command")
        × (i ≡ id)
        × (kind ≡ command)
        × (is_blank id ≡ false) =
      ground (arith, eq_iff root "ocpp", eq_iff verb "command") in
    rw (facts.0, facts.1, facts.2, facts.3) (rejoin_command id, facts.4)
parse_parts_sound (root ∷ i ∷ verb ∷ a ∷ []) id kind h =
    let facts : (root ≡ "ocpp")
        × (verb ≡ "command")
        × (a ≡ "current_limit")
        × (i ≡ id)
        × (kind ≡ current_limit)
        × (is_blank id ≡ false) =
      ground (arith, eq_iff root "ocpp", eq_iff verb "command", eq_iff a "current_limit") in
    rw (facts.0, facts.1, facts.2, facts.3, facts.4) (rejoin_limit id, facts.5)
parse_parts_sound (root ∷ i ∷ verb ∷ a ∷ b ∷ parts) id kind h = absurd (ground arith)

-- A topic is recognised only as the command topic of the charge point that it is read for, whose id
-- is not empty: nothing else is taken for a command.
pub parse_command_topic_sound :
    (topic id : String) (kind : CommandTopic)
    → parse_command_topic topic ≡ some (id, kind)
    → (topic ≡ topic_of id kind) × (is_blank id ≡ false)
unfolding parse_command_topic
parse_command_topic_sound topic id kind h =
    let (same, named) = parse_parts_sound (split b'/' topic) id kind h in
    (sym (rejoin-split topic) ∙ same, named)
