-- ===== src/Mqtt/Topics/Layout.antt =====
-- The command topic of an entity is read back as that entity, and no other topic is.
use home_pc_agent.Common.{
  true, false, Option, none, some, [], ◌∷◌, ◌++◌, Text, codes, strip_prefix, strip_prefix-append,
  strip_prefix_sound, has_char, all, is_empty, ◌≡◌, ◌↔◌, refl, sym, ◌∙◌, arith, append_assoc,
}
use home_pc_agent.Entity.{id_matches, id_head, id_tail}
use home_pc_agent.Mqtt.Topics.{command_topic, command_entity_id, entity_part, trim_slashes}

command_topic-append : (prefix id : Text) → command_topic prefix id ≡ command_topic prefix [] ++ id
unfolding command_topic
command_topic-append prefix id = sym (append_assoc (trim_slashes prefix) (codes "/command/") id)

entity_part-some :
    (o : Option Text) (id : Text)
    → entity_part o ≡ some id
    → (o ≡ some id) × (is_empty id ≡ false) × (has_char b'/' id ≡ false)
entity_part-some none id h = absurd (ground arith)
entity_part-some (some x) id h = (ground arith, ground arith, ground arith)

-- A topic is taken for a command to an entity exactly when it is that entity's command topic and
-- the entity id is not empty and has no slash.
pub command_entity_id_iff :
    (prefix topic id : Text)
    → (command_entity_id prefix topic ≡ some id)
      ↔ ((topic ≡ command_topic prefix id) × (is_empty id ≡ false) × (has_char b'/' id ≡ false))
unfolding command_entity_id
command_entity_id_iff prefix topic id = (
  (λ h.
      let parts = entity_part-some (strip_prefix (command_topic prefix []) topic) id h in
      (
        strip_prefix_sound (command_topic prefix []) topic id parts.0
            ∙ sym (command_topic-append prefix id),
        parts.1,
        parts.2,
      )),
  (λ (e, n, s).
      rw (e, command_topic-append prefix id, strip_prefix-append (command_topic prefix []) id)
        (ground arith)),
)

no_slash : (cs : Text) → all id_tail cs ≡ true → has_char b'/' cs ≡ false
unfolding all has_char id_tail id_head
no_slash [] h = refl
no_slash (c ∷ cs) h = ground (arith, no_slash cs)

-- Every entity that the registry accepts is reached by its own command topic.
pub command_entity_id-command_topic :
    (prefix id : Text)
    → id_matches id ≡ true
    → command_entity_id prefix (command_topic prefix id) ≡ some id
unfolding id_matches
command_entity_id-command_topic prefix [] h = absurd (ground arith)
command_entity_id-command_topic prefix (c ∷ cs) h =
    (command_entity_id_iff prefix (command_topic prefix (c ∷ cs)) (c ∷ cs)).1
      (refl, refl, unfold has_char in ground (arith, no_slash cs))
