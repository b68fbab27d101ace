-- ===== src/Daemon/Env/Laws.antt =====
-- What is looked up behind a change of the environment.
use hauntty.Prelude.{
  ◌≡◌, refl, ap, ◌∙◌, subst, true, false, List, [], ◌∷◌, ◌++◌, Text, text_eq, text_eq→eq, ◌==◌,
  if◌then◌else◌, drop-append, Bool-cases, inl, inr, arith, All,
}
use hauntty.Daemon.Env.{has_prefix, cut_key, key_prefix, get_env, replace_entry, set_env, merge_env}

-- A key has no `=`.
abbrev pub IsKey : Text → Type 0
IsKey key = All (λ c. (c == 61) ≡ false) key

has_prefix-append : (prefix s : Text) → has_prefix prefix (prefix ++ s) ≡ true
has_prefix-append [] s = refl
has_prefix-append (p ∷ prefix) s = ground (arith, has_prefix-append prefix s)

-- No entry has two keys.
one_key :
    (key other e : Text)
    → IsKey key
    → IsKey other
    → text_eq key other ≡ false
    → has_prefix (key_prefix key) e ≡ true
    → has_prefix (key_prefix other) e ≡ false
unfolding text_eq
one_key [] [] e k o d h = cc
one_key [] (c ∷ other) [] k o d h = refl
one_key [] (c ∷ other) (x ∷ e) k o d h = ground arith
one_key (b ∷ key) other [] k o d h = cc
one_key (b ∷ key) [] (x ∷ e) k o d h = ground arith
one_key (b ∷ key) (c ∷ other) (x ∷ e) k o d h = ground (arith, one_key key other e k.1 o.1)

get_env-replace_entry :
    (env : List Text) (key value : Text)
    → get_env (replace_entry env (key_prefix key) (key_prefix key ++ value)) key ≡ value
unfolding get_env replace_entry
get_env-replace_entry [] key value =
    rw (has_prefix-append (key_prefix key) value) (drop-append (key_prefix key) value)
get_env-replace_entry (e ∷ env) key value = elim (Bool-cases (has_prefix (key_prefix key) e)) [
  | inl h ↦ rw (h, has_prefix-append (key_prefix key) value) (drop-append (key_prefix key) value)
  | inr h ↦ rw (h, h) (get_env-replace_entry env key value)
]

get_env-replace_other :
    (env : List Text) (key value other : Text)
    → IsKey key
    → IsKey other
    → text_eq key other ≡ false
    → get_env (replace_entry env (key_prefix key) (key_prefix key ++ value)) other
      ≡ get_env env other
unfolding get_env replace_entry
get_env-replace_other [] key value other k o d =
    rw
      (one_key key other (key_prefix key ++ value) k o d (has_prefix-append (key_prefix key) value))
get_env-replace_other (e ∷ env) key value other k o d =
    elim (Bool-cases (has_prefix (key_prefix key) e)) [
      | inl h ↦ rw (
        h,
        one_key key other (key_prefix key ++ value) k o d
            (has_prefix-append (key_prefix key) value),
        one_key key other e k o d h,
      )
      | inr h ↦ elim (Bool-cases (has_prefix (key_prefix other) e)) [
        | inl there ↦ rw (h, there)
        | inr gone ↦ rw (h, gone) (get_env-replace_other env key value other k o d)
      ]
    ]

-- A variable that was set reads as its value, and every other one reads as before.
pub get_env-set_env :
    (env : List Text) (key value other : Text)
    → IsKey key
    → IsKey other
    → text_eq key other ≡ false
    → (get_env (set_env env key value) key ≡ value)
      × (get_env (set_env env key value) other ≡ get_env env other)
unfolding set_env
get_env-set_env env key value other k o d =
    (get_env-replace_entry env key value, get_env-replace_other env key value other k o d)

cut_key-key : (key value : Text) → IsKey key → cut_key (key_prefix key ++ value) ≡ key
cut_key-key [] value k = refl
cut_key-key (c ∷ key) value k = rw (k.0) (ap (λ rest. c ∷ rest) (cut_key-key key value k.1))

-- Overrides as keys with values.
abbrev pub entries : List (Text × Text) → List Text
entries [] = []
entries ((key, value) ∷ overrides) = (key_prefix key ++ value) ∷ entries overrides

-- The last value that the overrides give to a key, or else `old`.
unfoldable pub last_value : List (Text × Text) → Text → Text → Text
last_value [] key old = old
last_value ((name, value) ∷ overrides) key old =
    last_value overrides key (if text_eq name key then value else old)

merged_value :
    (base : List Text) (name value key : Text)
    → IsKey name
    → IsKey key
    → get_env (replace_entry base (key_prefix name) (key_prefix name ++ value)) key
      ≡ (if text_eq name key then value else get_env base key)
merged_value base name value key n k = elim (Bool-cases (text_eq name key)) [
  | inl e ↦ rw e (
      subst
        (λ x. get_env (replace_entry base (key_prefix name) (key_prefix name ++ value)) x ≡ value)
        (text_eq→eq name key e) (get_env-replace_entry base name value))
  | inr e ↦ rw e (get_env-replace_other base name value key n k e)
]

-- In a merged environment a variable has the last value that the overrides give it, and without one
-- the value that it had.
pub get_env-merge_env :
    (base : List Text) (overrides : List (Text × Text)) (key : Text)
    → IsKey key
    → All (λ override. IsKey override.0) overrides
    → get_env (merge_env base (entries overrides)) key ≡ last_value overrides key (get_env base key)
unfolding merge_env last_value
get_env-merge_env base [] key k a = refl
get_env-merge_env base ((name, value) ∷ overrides) key k a =
    let merged = replace_entry base (key_prefix name) (key_prefix name ++ value) in
    ap
      (λ k.
        get_env
          (merge_env (replace_entry base (key_prefix k) (key_prefix name ++ value))
            (entries overrides))
          key)
      (cut_key-key name value a.0)
    ∙ (get_env-merge_env merged overrides key k a.1
        ∙ ap (last_value overrides key) (merged_value base name value key a.0 k))
