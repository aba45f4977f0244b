-- ===== src/Runner/Settings/Defaults.antt =====
-- The defaults are settled after one pass.
use home_pc_agent.Common.{
  Option, none, some, List, [], ◌∷◌, Text, codes, Dict, ℤ, pos, is_zero, trim_space, is_empty, ◌≡◌,
  refl, ap, ap₂, ◌∙◌, arith, Bool-cases, inl, inr,
}
use home_pc_agent.Runner.Settings.{
  Getter, Setter, Action, Config, or_number, or_text, or_command, or_args, seconds, setter_defaults,
  getter_defaults, filled_getter, filled_options_getter, refresh_of, action_defaults,
  actions_defaults, with_defaults,
}

or_number_idem : (d n : ℤ) → or_number d (or_number d n) ≡ or_number d n
or_number_idem d n = elim (Bool-cases (is_zero n)) [
  | inl h ↦ rw (h) (ground arith)
  | inr h ↦ rw (h, h) refl
]

or_text_idem : (d t : Text) → or_text d (or_text d t) ≡ or_text d t
or_text_idem [] [] = refl
or_text_idem (c ∷ d) [] = refl
or_text_idem d (c ∷ t) = refl

or_args_idem : (d args : List Text) → or_args d (or_args d args) ≡ or_args d args
or_args_idem [] [] = refl
or_args_idem (c ∷ d) [] = refl
or_args_idem d (c ∷ t) = refl

or_command_idem : (d t : Text) → or_command d (or_command d t) ≡ or_command d t
or_command_idem d t = elim (Bool-cases (is_empty (trim_space t))) [
  | inl h ↦ rw (h) (ground arith)
  | inr h ↦ rw (h, h) refl
]

refresh_idem :
    (c : Config) (source : Text) (r : ℤ)
    → refresh_of c source (refresh_of c source r) ≡ refresh_of c source r
refresh_idem c source r = ground arith

getter_idem :
    (c : Config) (format : Text) (r r' : ℤ) (g : Getter)
    → r ≡ r'
    → filled_getter format r (getter_defaults c (filled_getter format r' (getter_defaults c g)))
      ≡ filled_getter format r' (getter_defaults c g)
unfolding getter_defaults
getter_idem c format r r' g h i = record g {
  command = or_command_idem c.default_command g.command i;
  args = or_args_idem c.default_args g.args i;
  format = or_text_idem format g.format i;
  timeout = or_number_idem (seconds 30) g.timeout i;
  refresh = h i;
}

options_getter_idem :
    (c : Config) (g : Option Getter)
    → filled_options_getter c (filled_options_getter c g) ≡ filled_options_getter c g
options_getter_idem c none = refl
options_getter_idem c (some g) = ap some (getter_idem c (codes "json") g.refresh g.refresh g refl)

setter_idem :
    (c : Config) (timeout t' : ℤ) (s : Setter)
    → timeout ≡ t'
    → setter_defaults c
        (record (setter_defaults c (record s {
          input = or_text (codes "none") s.input;
          delivery = or_text (codes "args") s.delivery;
          timeout = or_number t' s.timeout;
        })) {
          input = or_text (codes "none") (or_text (codes "none") s.input);
          delivery = or_text (codes "args") (or_text (codes "args") s.delivery);
          timeout = or_number timeout (or_number t' s.timeout);
        })
      ≡ setter_defaults c (record s {
        input = or_text (codes "none") s.input;
        delivery = or_text (codes "args") s.delivery;
        timeout = or_number t' s.timeout;
      })
unfolding setter_defaults
setter_idem c timeout t' s h i = record s {
  command = or_command_idem c.default_command s.command i;
  args = or_args_idem c.default_args s.args i;
  input = or_text_idem (codes "none") s.input i;
  delivery = or_text_idem (codes "args") s.delivery i;
  timeout = (ap (λ t. or_number t (or_number t' s.timeout)) h ∙ or_number_idem t' s.timeout) i;
}

source_path :
    (c : Config) (a : Action)
    → refresh_of c
        (or_text (codes "last_success") (or_text (codes "last_success") a.state.source))
        (refresh_of c (or_text (codes "last_success") a.state.source) a.getter.refresh)
      ≡ refresh_of c (or_text (codes "last_success") a.state.source) a.getter.refresh
source_path c a =
    ap
      (λ t.
        refresh_of c t
          (refresh_of c (or_text (codes "last_success") a.state.source) a.getter.refresh))
      (or_text_idem (codes "last_success") a.state.source)
    ∙ refresh_idem c (or_text (codes "last_success") a.state.source) a.getter.refresh

action_defaults_idem :
    (c : Config) (a : Action) → action_defaults c (action_defaults c a) ≡ action_defaults c a
unfolding action_defaults
action_defaults_idem c a i =
    let timeout = or_number_idem c.default_timeout a.timeout in
    record a {
      timeout = timeout i;
      state = record {
        source = or_text_idem (codes "last_success") a.state.source i;
        after_set = or_text_idem (codes "refresh") a.state.after_set i;
      };
      setter =
          setter_idem c (or_number c.default_timeout (or_number c.default_timeout a.timeout))
            (or_number c.default_timeout a.timeout) a.setter timeout i;
      getter =
          getter_idem c (codes "plain")
            (refresh_of c
              (or_text (codes "last_success") (or_text (codes "last_success") a.state.source))
              (refresh_of c (or_text (codes "last_success") a.state.source) a.getter.refresh))
            (refresh_of c (or_text (codes "last_success") a.state.source) a.getter.refresh) a.getter
            (source_path c a) i;
      options_getter = options_getter_idem c a.options_getter i;
      max_bytes = or_number_idem (pos 65_536) a.max_bytes i;
    }

actions_idem :
    (c : Config) (acts : Dict Action)
    → actions_defaults c (actions_defaults c acts) ≡ actions_defaults c acts
unfolding actions_defaults
actions_idem c [] = refl
actions_idem c ((key, a) ∷ later) =
    ap₂ (λ x y. (key, x) ∷ y) (action_defaults_idem c a) (actions_idem c later)

-- The actions' defaults read only the defaults of the configuration.
actions_of_defaults :
    (c : Config) (acts later : Dict Action)
    → actions_defaults (record c { actions = later }) acts ≡ actions_defaults c acts
unfolding actions_defaults action_defaults setter_defaults getter_defaults
actions_of_defaults c [] later = refl
actions_of_defaults c ((key, a) ∷ acts) later =
    ap (λ t. (key, action_defaults c a) ∷ t) (actions_of_defaults c acts later)

-- Filling in the defaults once is enough: a second pass changes nothing.
pub with_defaults_idem : (c : Config) → with_defaults (with_defaults c) ≡ with_defaults c
unfolding with_defaults
with_defaults_idem c i = record c {
  default_timeout = or_number_idem (seconds 120) c.default_timeout i;
  actions =
      (ap
            (λ t.
              actions_defaults
                (record c {
                  default_timeout = t;
                  actions =
                      actions_defaults
                        (record c { default_timeout = or_number (seconds 120) c.default_timeout })
                        c.actions;
                })
                (actions_defaults
                  (record c { default_timeout = or_number (seconds 120) c.default_timeout })
                  c.actions))
            (or_number_idem (seconds 120) c.default_timeout)
          ∙ actions_of_defaults
              (record c { default_timeout = or_number (seconds 120) c.default_timeout })
              (actions_defaults
                (record c { default_timeout = or_number (seconds 120) c.default_timeout })
                c.actions)
              (actions_defaults
                (record c { default_timeout = or_number (seconds 120) c.default_timeout })
                c.actions)
          ∙ actions_idem (record c { default_timeout = or_number (seconds 120) c.default_timeout })
              c.actions)
        i;
}
