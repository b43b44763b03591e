-- ===== src/EnvFile/Checks.antt =====
-- A test of the conditions under which an environment file holds a map.
use frp_cluster.Base.{
  ◌≡◌, Bool, true, not, ◌&&◌, ◌||◌, [], ◌∷◌, inl, inr, arith, ltb, ltb→lt, Bool-cases,
}
use frp_cluster.Text.{
  Text, str, text_eq, text_eq_iff, trim_space, has_prefix, contains, contains_any, contains-Lacks,
  utf8_length,
}
use frp_cluster.Dict.{Dict, get}
use frp_cluster.EnvFile.{unescape, special, max_line}
use frp_cluster.EnvFile.Quoting.{IsEnvValue}
use frp_cluster.EnvFile.RoundTrip.{IsEnvKey, IsEnvEntry, IsEnvMap, entry_line}

pub is_env_key : Text → Bool
is_env_key key =
    text_eq (trim_space key) key
    && not (text_eq key [])
    && not (has_prefix key (str "#"))
    && not (contains key b'=')
    && not (contains key b'\n')

pub is_env_value : Text → Bool
is_env_value value =
    not (contains value b'\n')
    && not (contains value b'\'')
    && text_eq (unescape value) value
    && (contains_any value special || text_eq (trim_space value) value)

is_env_entry : Text → Text → Bool
is_env_entry key value =
    is_env_key key && is_env_value value && ltb (utf8_length (entry_line key value)) max_line

unfoldable pub is_env_map : Dict Text → Bool
unfolding is_env_entry is_env_key is_env_value
is_env_map [] = true
is_env_map ((key, value) ∷ rest) = is_env_entry key value && is_env_map rest

is_env_key-IsEnvKey : (key : Text) → is_env_key key ≡ true → IsEnvKey key
unfolding is_env_key
is_env_key-IsEnvKey key h = record {
  trimmed = (text_eq_iff (trim_space key) key).0 (ground (arith, h));
  named = λ e. ground (arith, h, text_eq_iff key []);
  no_comment = ground (arith, h);
  no_separator = contains-Lacks b'=' key (ground (arith, h));
  one_line = contains-Lacks b'\n' key (ground (arith, h));
}

is_env_value-IsEnvValue : (value : Text) → is_env_value value ≡ true → IsEnvValue value
unfolding is_env_value
is_env_value-IsEnvValue value h = record {
  one_line = contains-Lacks b'\n' value (ground (arith, h));
  no_quote = contains-Lacks b'\'' value (ground (arith, h));
  no_escape = (text_eq_iff (unescape value) value).0 (ground (arith, h));
  edges = elim (Bool-cases (contains_any value special)) [
    | inl e ↦ inl e
    | inr e ↦ inr ((text_eq_iff (trim_space value) value).0 (ground (arith, h, e)))
  ];
}

is_env_entry-IsEnvEntry : (key value : Text) → is_env_entry key value ≡ true → IsEnvEntry key value
unfolding is_env_entry
is_env_entry-IsEnvEntry key value h = record {
  key_ok = is_env_key-IsEnvKey key (ground (arith, h));
  value_ok = is_env_value-IsEnvValue value (ground (arith, h));
  fits = ltb→lt _ _ (ground (arith, h));
}

-- What passes the test can be written and read back.
pub is_env_map-IsEnvMap : (values : Dict Text) → is_env_map values ≡ true → IsEnvMap values
unfolding is_env_map get
is_env_map-IsEnvMap [] h k v e = absurd (cc e)
is_env_map-IsEnvMap ((key, value) ∷ rest) h k v e = elim (Bool-cases (text_eq key k)) [
  | inl t ↦
      let same_key = (text_eq_iff key k).0 t in
      let same_value : value ≡ v = ground (arith, e, t) in
      rw (← same_key, ← same_value) (is_env_entry-IsEnvEntry key value (ground (arith, h)))
  | inr t ↦ is_env_map-IsEnvMap rest (ground (arith, h)) k v (ground (arith, e, t))
]
