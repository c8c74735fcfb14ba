-- ===== src/Chat/Revisions.antt =====
-- web/src/lib/messageReducer.ts: the loops that revise parts in place, and the identity test that they end with.
use pockode.Prelude.{
  ◌≡◌, refl, ap, ◌∙◌, sym, Bool, false, ◌||◌, Option, List, [], ◌∷◌, ◌++◌, map, is_some, any, arith,
  append_assoc, map-append,
}
use pockode.Chat.Message.{ContentPart, Message, user, assistant}
use pockode.Chat.Updates.{map_messages, update_messages}
use pockode.Chat.Transcript.{
  all_parts, user_contents, revised, revise, map_parts-changed, map_parts_unchanged,
  map_messages-items,
}

pub any-append {ℓ} :
    {A : Type ℓ} (p : A → Bool) (xs ys : List A) → any p (xs ++ ys) ≡ (any p xs || any p ys)
any-append p [] ys = refl
any-append p (x ∷ xs) ys = ground (arith, any-append p xs ys)

pub all_parts-append : (xs ys : List Message) → all_parts (xs ++ ys) ≡ all_parts xs ++ all_parts ys
all_parts-append [] ys = refl
all_parts-append (user m ∷ xs) ys = all_parts-append xs ys
all_parts-append (assistant m ∷ xs) ys =
    rw (all_parts-append xs ys) (sym (append_assoc m.parts (all_parts xs) (all_parts ys)))

pub user_contents-append :
    (xs ys : List Message) → user_contents (xs ++ ys) ≡ user_contents xs ++ user_contents ys
user_contents-append [] ys = refl
user_contents-append (user m ∷ xs) ys = ap (◌∷◌ m.content) (user_contents-append xs ys)
user_contents-append (assistant m ∷ xs) ys = user_contents-append xs ys

module _ (f : ContentPart → Option ContentPart) where
  map_messages-changed :
      (messages : List Message)
      → (map_messages f messages).changed ≡ any (λ part. is_some (f part)) (all_parts messages)
  unfolding map_messages
  map_messages-changed [] = refl
  map_messages-changed (user m ∷ messages) = map_messages-changed messages
  map_messages-changed (assistant m ∷ messages) = ground (
    arith,
    map_parts-changed f m.parts,
    map_messages-changed messages,
    any-append (λ part. is_some (f part)) m.parts (all_parts messages),
  )

  revise_unchanged :
      (messages : List Message)
      → (map_messages f messages).changed ≡ false
      → revise f messages ≡ messages
  unfolding map_messages
  revise_unchanged [] h = refl
  revise_unchanged (user m ∷ messages) h = ap (◌∷◌ (user m)) (revise_unchanged messages h)
  revise_unchanged (assistant m ∷ messages) h =
      ground (arith, map_parts_unchanged f m.parts, revise_unchanged messages)

  -- Whether or not the list is copied, its value is that of the plain map.
  pub update_messages-items :
      (messages : List Message) → (update_messages f messages).items ≡ revise f messages
  unfolding update_messages
  update_messages-items messages =
      ground (arith, map_messages-items f messages, revise_unchanged messages)

  -- The identity test says whether a part was replaced.
  pub update_messages-changed :
      (messages : List Message)
      → (update_messages f messages).changed ≡ any (λ part. is_some (f part)) (all_parts messages)
  unfolding update_messages
  update_messages-changed messages = ground (arith, map_messages-changed messages)

  pub all_parts-revise :
      (messages : List Message)
      → all_parts (revise f messages) ≡ map (revised f) (all_parts messages)
  all_parts-revise [] = refl
  all_parts-revise (user m ∷ messages) = all_parts-revise messages
  all_parts-revise (assistant m ∷ messages) =
      rw (all_parts-revise messages) (sym (map-append (revised f) m.parts (all_parts messages)))

  pub user_contents-revise :
      (messages : List Message) → user_contents (revise f messages) ≡ user_contents messages
  user_contents-revise [] = refl
  user_contents-revise (user m ∷ messages) = ap (◌∷◌ m.content) (user_contents-revise messages)
  user_contents-revise (assistant m ∷ messages) = user_contents-revise messages

  pub revise_of_none :
      (messages : List Message)
      → any (λ part. is_some (f part)) (all_parts messages) ≡ false
      → revise f messages ≡ messages
  revise_of_none messages h = revise_unchanged messages (map_messages-changed messages ∙ h)

module _ (f g h : ContentPart → Option ContentPart) where
  map-revised :
      ((part : ContentPart) → revised f (revised g part) ≡ revised h part)
      → (parts : List ContentPart) → map (revised f) (map (revised g) parts) ≡ map (revised h) parts
  map-revised e [] = refl
  map-revised e (part ∷ parts) = cc (e part, map-revised e parts)

  -- Two passes are one, if they are on every part.
  pub revise-revise :
      ((part : ContentPart) → revised f (revised g part) ≡ revised h part)
      → (messages : List Message) → revise f (revise g messages) ≡ revise h messages
  revise-revise e [] = refl
  revise-revise e (user m ∷ messages) = ap (◌∷◌ (user m)) (revise-revise e messages)
  revise-revise e (assistant m ∷ messages) =
      ground (arith, map-revised e m.parts, revise-revise e messages)
