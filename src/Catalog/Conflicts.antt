-- ===== src/Catalog/Conflicts.antt =====
-- What a configuration without errors guarantees of its plugins.
use home_pc_agent.Common.{
  true, none, some, List, [], Text, Dict, lookup, keys, sort, contains, contains-sort,
  contains-keys, has, ok, Value, ◌≡◌, ◌≢◌, false, Bool-cases, inl, inr, arith,
}
use home_pc_agent.Config.{plugin_raw, plugin_enabled}
use home_pc_agent.Catalog.{
  CatalogFactory, resolve_ids, validate_factory, supported_on, by_id, check_all, validate_plugins,
}
use home_pc_agent.Catalog.Owners.{IsAccepted, Owns, check_all_lem}

accepted :
    (goos : Text) (builtin : List CatalogFactory) (sections : Dict Value) (k : Text)
    → validate_plugins goos builtin sections ≡ []
    → has k sections ≡ true
    → IsAccepted goos
        (lookup k (by_id builtin []))
        sections
        k
        (check_all goos (by_id builtin []) sections (sort (keys sections)) []).1
unfolding validate_plugins
accepted goos builtin sections k h p =
    (check_all_lem goos (by_id builtin []) sections (sort (keys sections)) [] h).1 k
      (ground (arith, contains-sort k (keys sections), contains-keys k sections, p))

-- A configuration for which the catalog reports nothing has for each section a factory that builds
-- the plugin; each enabled plugin is supported on the system, passes its own validation and resolves
-- its entity ids.
pub validate_plugins-accepted :
    (goos : Text) (builtin : List CatalogFactory) (sections : Dict Value) (k : Text)
    → validate_plugins goos builtin sections ≡ []
    → has k sections ≡ true
    → (f : CatalogFactory) × (lookup k (by_id builtin []) ≡ some f)
      × (f.build_error (plugin_raw k sections) ≡ none)
      × (plugin_enabled k sections ≡ true
          → (supported_on f goos ≡ true)
            × (validate_factory f (plugin_raw k sections) ≡ none)
            × ((xs : List Text) × (resolve_ids f (plugin_raw k sections) ≡ ok xs)))
validate_plugins-accepted goos builtin sections k h p =
    let (f, q, b, n) = accepted goos builtin sections k h p in
    (f, q, b, λ t. let (s, v, (xs, r, own)) = n t in (s, v, (xs, r)))

owner_of :
    (goos : Text) (builtin : List CatalogFactory) (sections : Dict Value) (k : Text)
    (f : CatalogFactory) (xs : List Text)
    → validate_plugins goos builtin sections ≡ []
    → has k sections ≡ true
    → plugin_enabled k sections ≡ true
    → lookup k (by_id builtin []) ≡ some f
    → resolve_ids f (plugin_raw k sections) ≡ ok xs
    → Owns k xs (check_all goos (by_id builtin []) sections (sort (keys sections)) []).1
owner_of goos builtin sections k f xs h p t q r x c =
    let (g, q', b, n) = accepted goos builtin sections k h p in
    let (s, v, (ys, r', own)) = n t in own x (ground (arith, q, q', r, r', c))

same_owner :
    (k j x : Text) (owners : Dict Text) (ys : List Text)
    → k ≢ j
    → lookup x owners ≡ some k
    → (contains ys x ≡ true → lookup x owners ≡ some j)
    → contains ys x ≡ false
same_owner k j x owners ys n one two = elim (Bool-cases (contains ys x)) [
  | inl c ↦ absurd (n (ground (arith, one, two c)))
  | inr c ↦ c
]

-- In a configuration for which the catalog reports nothing, two different enabled plugins provide
-- no entity id in common.
pub validate_plugins_exclusive :
    (goos : Text) (builtin : List CatalogFactory) (sections : Dict Value) (k j : Text)
    (f g : CatalogFactory) (xs ys : List Text) (x : Text)
    → validate_plugins goos builtin sections ≡ []
    → (has k sections ≡ true) × (plugin_enabled k sections ≡ true)
    → (has j sections ≡ true) × (plugin_enabled j sections ≡ true)
    → lookup k (by_id builtin []) ≡ some f
    → lookup j (by_id builtin []) ≡ some g
    → resolve_ids f (plugin_raw k sections) ≡ ok xs
    → resolve_ids g (plugin_raw j sections) ≡ ok ys
    → k ≢ j
    → contains xs x ≡ true
    → contains ys x ≡ false
validate_plugins_exclusive goos builtin sections k j f g xs ys x h a b q p r s n c =
    same_owner k j x (check_all goos (by_id builtin []) sections (sort (keys sections)) []).1 ys n
      (owner_of goos builtin sections k f xs h a.0 a.1 q r x c)
      (owner_of goos builtin sections j g ys h b.0 b.1 p s x)
