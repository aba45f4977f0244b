-- ===== src/Config/Sections.antt =====
-- What the configuration says of its plugin sections.
use home_pc_agent.Common.{
  Bool, Bool-cases, sym, subst, ◌==◌, is_some, any_object, if◌then◌else◌, true, false, ◌&&◌, Option,
  none, some, [], ◌∷◌, Text, codes, ==_iff, Dict, lookup, keys, contains-keys, Value, null, boolean,
  text, number, opaque_value, array, object, Fields, no_fields, field, get_field, contains,
  contains-sort, ◌≡◌, refl, ap, arith, ◌⊎◌, inl, inr, ◌↔◌, ◌∙◌,
}
use home_pc_agent.Config.{
  normalize, normalize_fields, normalize_entries, plugin_raw, plugin_enabled, raw_section,
  enabled_section, enabled_value, folds_to_true, enabled_plugin_ids, enabled_ids_from,
}

-- What makes a section an enabled one.
abbrev pub Enables : Option Value → Type 0
Enables entry =
    (entry ≡ some (boolean true))
    ⊎ ((t : Text) × (entry ≡ some (text t)) × (folds_to_true t ≡ true))

enabled_value-Enables : (entry : Option Value) → (enabled_value entry ≡ true) → Enables entry
enabled_value-Enables none h = absurd (ground arith)
enabled_value-Enables (some (boolean b)) h = inl (ground arith)
enabled_value-Enables (some (text t)) h = inr (t, refl, h)
enabled_value-Enables (some _) h = absurd (ground arith)

Enables-enabled_value : (entry : Option Value) → Enables entry → enabled_value entry ≡ true
Enables-enabled_value entry (inl e) = rw e
Enables-enabled_value entry (inr (t, e, f)) = rw e f

normalize-enabled_value : (v : Value) → enabled_value (some (normalize v)) ≡ enabled_value (some v)
unfolding normalize
normalize-enabled_value null = refl
normalize-enabled_value (boolean b) = refl
normalize-enabled_value (text t) = refl
normalize-enabled_value (number n) = refl
normalize-enabled_value (opaque_value t) = refl
normalize-enabled_value (array xs) = refl
normalize-enabled_value (object fs) = refl
normalize-enabled_value (any_object fs) = refl

normalize_fields-enabled :
    (k : Text) (fs : Fields)
    → enabled_value (get_field k (normalize_fields fs)) ≡ enabled_value (get_field k fs)
unfolding normalize_fields get_field
normalize_fields-enabled k no_fields = refl
normalize_fields-enabled k (field j v fs) = elim (Bool-cases (j == k)) [
  | inl e ↦ rw (e) (normalize-enabled_value v)
  | inr e ↦ rw (e) (normalize_fields-enabled k fs)
]

-- the last entry of a key
abbrev pub or_this : Bool → Value → Option Value → Option Value
or_this same v (some w) = some w
or_this true v none = some v
or_this false v none = none

unfoldable pub last_field : Text → Fields → Option Value
last_field k no_fields = none
last_field k (field j v fs) = or_this (j == k) v (last_field k fs)

normalized : Option Value → Option Value
normalized none = none
normalized (some v) = some (normalize v)

-- what is there under one of two equal keys is there under the other
same_there :
    (k j : Text) (rest : Fields) (b : Bool)
    → (j == k) ≡ true
    → is_some (get_field j rest) ≡ b
    → is_some (get_field k rest) ≡ b
same_there k j rest b e h = subst (λ t. is_some (get_field t rest) ≡ b) ((==_iff j k).0 e) h

kept_entry :
    (k j : Text) (v : Value) (rest : Fields) (last : Option Value) (there same : Bool)
    → get_field k rest ≡ normalized last
    → is_some (get_field j rest) ≡ there
    → (j == k) ≡ same
    → get_field k (if there then rest else field j (normalize v) rest)
      ≡ normalized (or_this same v last)
unfolding get_field normalized
kept_entry k j v rest (some w) true same g h e = g
kept_entry k j v rest none true false g h e = g
kept_entry k j v rest none true true g h e =
    absurd (let q : false ≡ true = sym (ap is_some g) ∙ same_there k j rest true e h in cc q)
kept_entry k j v rest (some w) false true g h e =
    absurd (let q : true ≡ false = sym (ap is_some g) ∙ same_there k j rest false e h in cc q)
kept_entry k j v rest (some w) false false g h e = rw (e) g
kept_entry k j v rest none false true g h e = rw (e) refl
kept_entry k j v rest none false false g h e = rw (e) g

get_field-normalize_entries :
    (k : Text) (fs : Fields) → get_field k (normalize_entries fs) ≡ normalized (last_field k fs)
unfolding normalize_entries last_field get_field normalized
get_field-normalize_entries k no_fields = refl
get_field-normalize_entries k (field j v fs) =
    kept_entry k j v (normalize_entries fs) (last_field k fs)
      (is_some (get_field j (normalize_entries fs))) (j == k) (get_field-normalize_entries k fs)
      refl refl

normalized-enabled_value :
    (entry : Option Value) → enabled_value (normalized entry) ≡ enabled_value entry
unfolding normalized
normalized-enabled_value none = refl
normalized-enabled_value (some v) = normalize-enabled_value v

-- the value that a section has under a key: of a map[any]any that of the last entry whose key is
-- printed so
abbrev pub entry_of : Text → Option Value → Option Value
entry_of k (some (object fs)) = get_field k fs
entry_of k (some (any_object fs)) = last_field k fs
entry_of k _ = none

section_enabled :
    (o : Option Value)
    → enabled_section (raw_section o) ≡ enabled_value (entry_of (codes "enabled") o)
unfolding normalize
section_enabled none = refl
section_enabled (some (object fs)) = normalize_fields-enabled (codes "enabled") fs
section_enabled (some (any_object fs)) =
    ap enabled_value (get_field-normalize_entries (codes "enabled") fs)
    ∙ normalized-enabled_value (last_field (codes "enabled") fs)
section_enabled (some null) = refl
section_enabled (some (boolean _)) = refl
section_enabled (some (text _)) = refl
section_enabled (some (number _)) = refl
section_enabled (some (opaque_value _)) = refl
section_enabled (some (array _)) = refl

-- A plugin is enabled exactly when its section is a map, with string keys or with any keys, whose
-- entry `enabled` is the boolean true or a string that reads "true" in some case; if several keys
-- of the section print as `enabled`, the last one counts.
pub plugin_enabled_iff :
    (id : Text) (plugins : Dict Value)
    → (plugin_enabled id plugins ≡ true) ↔ Enables (entry_of (codes "enabled") (lookup id plugins))
unfolding plugin_enabled
plugin_enabled_iff id plugins =
    let e = section_enabled (lookup id plugins) in
    ((λ h. enabled_value-Enables _ (sym e ∙ h)), (λ n. e ∙ Enables-enabled_value _ n))

contains-enabled_ids_from :
    (k : Text) (plugins rest : Dict Value)
    → contains (enabled_ids_from plugins rest) k
      ≡ (contains (keys rest) k && plugin_enabled k plugins)
unfolding enabled_ids_from keys contains
contains-enabled_ids_from k plugins [] = refl
contains-enabled_ids_from k plugins ((j, v) ∷ rest) =
    ground (arith, contains-enabled_ids_from k plugins rest, ==_iff j k)

missing_disabled :
    (k : Text) (plugins : Dict Value) → lookup k plugins ≡ none → plugin_enabled k plugins ≡ false
unfolding plugin_enabled plugin_raw
missing_disabled k plugins h = ground arith

-- EnabledPluginIDs lists exactly the enabled plugins.
pub contains-enabled_plugin_ids :
    (k : Text) (plugins : Dict Value)
    → contains (enabled_plugin_ids plugins) k ≡ plugin_enabled k plugins
unfolding enabled_plugin_ids
contains-enabled_plugin_ids k plugins =
    contains-sort k (enabled_ids_from plugins plugins)
    ∙ contains-enabled_ids_from k plugins plugins
    ∙ ground (arith, contains-keys k plugins, missing_disabled k plugins)
