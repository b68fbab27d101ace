-- ===== src/Command/Environment.antt =====
-- A variable that a client forwards, in the environment of the session's process.
use hauntty.Prelude.{
  ◌≡◌, refl, sym, ap, ◌∙◌, Bool, Bool-cases, inl, inr, true, false, List, [], ◌∷◌, ◌++◌, Option,
  Option-cases, none, some, Text, text_eq, text_eq→eq, if◌then◌else◌, All,
}
use hauntty.Daemon.Names.{listed}
use hauntty.Daemon.Env.{key_prefix, get_env, merge_env}
use hauntty.Daemon.Env.Laws.{IsKey, entries, last_value, get_env-merge_env}
use hauntty.Command.{always_forward_env, forwarded_env, collect_forwarded_env}

module _ (lookup : Text → Option Text) where
  pairs : List Text → List (Text × Text)
  pairs [] = []
  pairs (key ∷ keys) = elim (lookup key) [ none ↦ pairs keys | some val ↦ (key, val) ∷ pairs keys ]

  forwarded-entries : (keys : List Text) → forwarded_env lookup keys ≡ entries (pairs keys)
  unfolding forwarded_env pairs
  forwarded-entries [] = refl
  forwarded-entries (key ∷ keys) = elim (Option-cases (lookup key)) [
    | inl e ↦ rw (e, forwarded_env, pairs) (forwarded-entries keys)
    | inr (val, e) ↦
        rw (e, forwarded_env, pairs)
          (ap (λ rest. (key_prefix key ++ val) ∷ rest) (forwarded-entries keys))
  ]

  forwarded-append :
      (xs ys : List Text)
      → forwarded_env lookup (xs ++ ys) ≡ forwarded_env lookup xs ++ forwarded_env lookup ys
  unfolding forwarded_env
  forwarded-append [] ys = refl
  forwarded-append (x ∷ xs) ys = elim (Option-cases (lookup x)) [
    | inl e ↦ rw (e, forwarded_env) (forwarded-append xs ys)
    | inr (val, e) ↦
        rw (e, forwarded_env) (ap (λ rest. (key_prefix x ++ val) ∷ rest) (forwarded-append xs ys))
  ]

  pairs-All : (keys : List Text) → All IsKey keys → All (λ pair. IsKey pair.0) (pairs keys)
  unfolding pairs
  pairs-All [] h = tt
  pairs-All (key ∷ keys) h = elim (Option-cases (lookup key)) [
    | inl e ↦ rw (e, pairs) (pairs-All keys h.1)
    | inr (val, e) ↦ rw (e, pairs) (h.0, pairs-All keys h.1)
  ]

  -- The value of a variable, or else `old`.
  abbrev pub value_or : Option Text → Text → Text
  value_or none old = old
  value_or (some val) old = val

  same_branch :
      (b : Bool) (o : Option Text) (val : Text)
      → o ≡ some val
      → (if b then value_or o val else val) ≡ val
  same_branch true none val e = cc
  same_branch true (some v) val e = cc
  same_branch false o val e = refl

  none_branch :
      (b : Bool) (o : Option Text) (old : Text)
      → o ≡ none
      → (if b then value_or o old else old) ≡ value_or o old
  none_branch true o old e = refl
  none_branch false none old e = refl
  none_branch false (some v) old e = cc

  last_value-pairs :
      (keys : List Text) (key old : Text)
      → last_value (pairs keys) key old
        ≡ (if listed key keys then value_or (lookup key) old else old)
  unfolding last_value pairs listed
  last_value-pairs [] key old = refl
  last_value-pairs (k ∷ keys) key old = elim (Bool-cases (text_eq k key)) [
    | inl same ↦
        let alike : lookup key ≡ lookup k = ap lookup (sym (text_eq→eq k key same)) in
        elim (Option-cases (lookup k)) [
          | inl e ↦
              rw (same, e, pairs)
                (last_value-pairs keys key old
                  ∙ none_branch (listed key keys) (lookup key) old (alike ∙ e))
          | inr (val, e) ↦
              rw (e, pairs, same)
                (last_value-pairs keys key val
                  ∙ (same_branch (listed key keys) (lookup key) val (alike ∙ e)
                      ∙ sym (ap (λ o. value_or o old) (alike ∙ e))))
        ]
    | inr apart ↦ elim (Option-cases (lookup k)) [
      | inl e ↦ rw (apart, e, pairs) (last_value-pairs keys key old)
      | inr (val, e) ↦ rw (e, pairs, apart) (last_value-pairs keys key old)
    ]
  ]

  -- In the environment that the daemon merges for a session from its own and the one that the client
  -- collects, each variable that is forwarded, always or by the configuration, has the client's value
  -- if the client has it, and every other variable has the daemon's.
  pub get_env-collect_forwarded_env :
      (base extra : List Text) (key : Text)
      → IsKey key
      → All IsKey (always_forward_env ++ extra)
      → get_env (merge_env base (collect_forwarded_env extra lookup)) key ≡ (
          if listed key (always_forward_env ++ extra)
          then value_or (lookup key) (get_env base key)
          else get_env base key)
  unfolding collect_forwarded_env
  get_env-collect_forwarded_env base extra key k keys =
      let all = always_forward_env ++ extra in
      ap (λ env. get_env (merge_env base env) key)
        (sym (forwarded-append always_forward_env extra) ∙ forwarded-entries all)
      ∙ (get_env-merge_env base (pairs all) key k (pairs-All all keys)
          ∙ last_value-pairs all key (get_env base key))
