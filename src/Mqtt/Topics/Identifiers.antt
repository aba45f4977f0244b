-- ===== src/Mqtt/Topics/Identifiers.antt =====
-- The identifiers that discovery topics are made of.
use home_pc_agent.Common.{
  ℕ, Bool, true, false, [], ◌∷◌, ◌++◌, Text, codes, trim, every, every-trim, is_empty, nat_eq, ◌≡◌,
  ◌≢◌, ◌↔◌, refl, sym, ap, ◌∙◌, arith, if◌then◌else◌, length, length-append, ltb, is_upper, ◌+◌,
  append_assoc, Bool-cases, inl, inr,
}
use home_pc_agent.Entity.{Entity}
use home_pc_agent.Mqtt.Topics.{
  DiscoveryOptions, replace_runs, replace_char, word_char, is_underscore, to_lower, object_slug,
  object_id, or_default, discovery_node_id, discovery_topic, legacy_discovery_topic,
}

every-replace_runs :
    (safe : ℕ → Bool) (in_run : Bool) (s : Text)
    → safe b'_' ≡ true
    → every safe (replace_runs safe in_run s) ≡ true
unfolding every replace_runs
every-replace_runs safe in_run [] u = refl
every-replace_runs safe in_run (c ∷ s) u =
    ground (arith, every-replace_runs safe true s u, every-replace_runs safe false s u)

every-default : every word_char (codes "home_pc_agent_entity") ≡ true
unfolding every
every-default = refl

default_safe :
    (value : Text)
    → every word_char value ≡ true
    → (every word_char (or_default value) ≡ true) × (is_empty (or_default value) ≡ false)
default_safe value h = elim (Bool-cases (is_empty value)) [
  | inl e ↦ rw e (every-default, refl)
  | inr n ↦ rw n (h, n)
]

one_level_more :
    (base component node rest : Text)
    → base ++ b'/' ∷ (component ++ b'/' ∷ rest)
      ≢ base ++ b'/' ∷ (component ++ b'/' ∷ (node ++ b'/' ∷ rest))
one_level_more base component node rest h = omega (
  arith,
  ap length h,
  length-append base (b'/' ∷ (component ++ b'/' ∷ rest)),
  length-append base (b'/' ∷ (component ++ b'/' ∷ (node ++ b'/' ∷ rest))),
  length-append component (b'/' ∷ rest),
  length-append component (b'/' ∷ (node ++ b'/' ∷ rest)),
  length-append node (b'/' ∷ rest),
)

module _ (lower_other : ℕ → ℕ) where
  -- Whatever the agent id and the entity id, the object id is not empty and has only letters,
  -- digits and underscores.
  pub object_id_safe :
      (agent_id entity_id : Text)
      → (every word_char (object_id lower_other agent_id entity_id) ≡ true)
        × (is_empty (object_id lower_other agent_id entity_id) ≡ false)
  unfolding object_id object_slug
  object_id_safe agent_id entity_id = default_safe _ (
      every-trim is_underscore word_char _ (
        every-replace_runs word_char false
          (replace_char b'-' b'_'
            (replace_char b'.' b'_' (to_lower lower_other (agent_id ++ b'_' ∷ entity_id))))
          refl))

  -- the characters "." and "_" become one
  dots_replaced :
      (u v : Text)
      → replace_char b'.' b'_' (to_lower lower_other (u ++ b'.' ∷ v))
        ≡ replace_char b'.' b'_' (to_lower lower_other (u ++ b'_' ∷ v))
  unfolding replace_char to_lower
  dots_replaced [] v = refl
  dots_replaced (c ∷ u) v =
      ap (λ s. (if nat_eq (lowered c) b'.' then b'_' else lowered c) ∷ s) (dots_replaced u v)
    where
      lowered : ℕ → ℕ
      lowered c = if ltb c 128 then (if is_upper c then c + 32 else c) else lower_other c

  object_id_dots :
      (agent_id u v : Text)
      → object_id lower_other agent_id (u ++ b'.' ∷ v)
        ≡ object_id lower_other agent_id (u ++ b'_' ∷ v)
  unfolding object_id object_slug
  object_id_dots agent_id u v =
      ap
        (λ s.
          or_default (trim is_underscore (replace_runs word_char false (replace_char b'-' b'_' s))))
        (regroup b'.' ∙ dots_replaced (agent_id ++ b'_' ∷ u) v ∙ sym (regroup b'_'))
    where
      regroup :
          (c : ℕ)
          → replace_char b'.' b'_' (to_lower lower_other (agent_id ++ b'_' ∷ (u ++ c ∷ v)))
            ≡ replace_char b'.' b'_' (to_lower lower_other ((agent_id ++ b'_' ∷ u) ++ c ∷ v))
      regroup c =
          ap (λ s. replace_char b'.' b'_' (to_lower lower_other s))
            (sym (append_assoc agent_id (b'_' ∷ u) (c ∷ v)))

  -- Two entities of one kind whose ids differ only in having "." or "_" at one place share their
  -- discovery topic, so that the retained configuration of one overwrites that of the other.
  pub discovery_topic_collides :
      (e f : Entity) (opts : DiscoveryOptions) (u v : Text)
      → e.kind ≡ f.kind
      → e.id ≡ u ++ b'.' ∷ v
      → f.id ≡ u ++ b'_' ∷ v
      → discovery_topic lower_other e opts ≡ discovery_topic lower_other f opts
  unfolding discovery_topic
  discovery_topic_collides e f opts u v k p q = ground (arith, object_id_dots opts.agent_id u v)

  -- The topic of earlier versions, which is cleared, is never the topic in use, unless the prefix
  -- gives no node id; then the two are one and nothing is cleared.
  pub legacy_discovery_topic_iff :
      (e : Entity) (opts : DiscoveryOptions)
      → (legacy_discovery_topic lower_other e opts ≡ discovery_topic lower_other e opts)
        ↔ (is_empty (discovery_node_id lower_other opts.topic_prefix) ≡ true)
  unfolding legacy_discovery_topic discovery_topic
  legacy_discovery_topic_iff e opts =
      elim (Bool-cases (is_empty (discovery_node_id lower_other opts.topic_prefix))) [
        | inl y ↦ ((λ h. y), (λ h. rw y))
        | inr n ↦ (
          (λ h.
              absurd (
                one_level_more _ _ (discovery_node_id lower_other opts.topic_prefix) _
                  (rw n at h))),
          (λ h. ground arith),
        )
      ]
