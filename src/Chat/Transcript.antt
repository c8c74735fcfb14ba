-- ===== src/Chat/Transcript.antt =====
-- Views of the messages of web/src/types/message.ts that the theorems speak of: all parts in order, and what the users wrote.
use Prim.Native.String
use pockode.Prelude.{
  ◌≡◌, refl, ap, false, Option, List, [], ◌∷◌, ◌++◌, map, String, get_or, is_some, any, arith,
}
use pockode.Chat.Message.{ContentPart, text, Message, user, assistant}
use pockode.Chat.Updates.{map_parts, map_messages}

abbrev pub parts_of : Message → List ContentPart
parts_of (user m) = []
parts_of (assistant m) = m.parts

-- The parts of all assistant messages, oldest first.
abbrev pub all_parts : List Message → List ContentPart
all_parts [] = []
all_parts (m ∷ messages) = parts_of m ++ all_parts messages

abbrev pub user_contents : List Message → List String
user_contents [] = []
user_contents (user m ∷ messages) = m.content ∷ user_contents messages
user_contents (assistant m ∷ messages) = user_contents messages

abbrev pub text_of : ContentPart → String
text_of (text content) = content
text_of _ = ""

-- The text that the assistant wrote.
abbrev pub written : List ContentPart → String
written [] = ""
written (part ∷ parts) = String.◌++◌ (text_of part) (written parts)

-- A part after a revision.
abbrev pub revised : (ContentPart → Option ContentPart) → ContentPart → ContentPart
revised f part = get_or (f part) part

abbrev pub revise_message : (ContentPart → Option ContentPart) → Message → Message
revise_message f (user m) = user m
revise_message f (assistant m) = assistant (record m { parts = map (revised f) m.parts })

abbrev pub revise : (ContentPart → Option ContentPart) → List Message → List Message
revise f [] = []
revise f (m ∷ messages) = revise_message f m ∷ revise f messages

module _ (f : ContentPart → Option ContentPart) where
  map_parts-items : (parts : List ContentPart) → (map_parts f parts).items ≡ map (revised f) parts
  unfolding map_parts
  map_parts-items [] = refl
  map_parts-items (part ∷ parts) = ground (arith, map_parts-items parts)

  pub map_parts_unchanged :
      (parts : List ContentPart)
      → (map_parts f parts).changed ≡ false
      → map (revised f) parts ≡ parts
  unfolding map_parts
  map_parts_unchanged [] h = refl
  map_parts_unchanged (part ∷ parts) h = ground (arith, map_parts_unchanged parts)

  pub map_parts-changed :
      (parts : List ContentPart)
      → (map_parts f parts).changed ≡ any (λ part. is_some (f part)) parts
  unfolding map_parts
  map_parts-changed [] = refl
  map_parts-changed (part ∷ parts) = ground (arith, map_parts-changed parts)

  pub map_messages-items :
      (messages : List Message) → (map_messages f messages).items ≡ revise f messages
  unfolding map_messages
  map_messages-items [] = refl
  map_messages-items (user m ∷ messages) = ap (◌∷◌ (user m)) (map_messages-items messages)
  map_messages-items (assistant m ∷ messages) =
      ground
        (arith, map_messages-items messages, map_parts-items m.parts, map_parts_unchanged m.parts)
