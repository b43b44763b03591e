-- ===== src/EnvFile.antt =====
-- Environment files: ReadEnvFile, unquoteEnvValue, WriteEnvFile and shellEnvValue of
-- internal/control/envfile.go.
pub mod Quoting
pub mod RoundTrip
pub mod Checks
use frp_cluster.Base.{
  ℕ, suc, Bool, true, false, ◌&&◌, ◌||◌, Option, none, some, List, [], ◌∷◌, ◌++◌, ◌⊎◌, inl, inr,
  leb, ◌==◌, if◌then◌else◌,
}
use frp_cluster.Text.{
  Text, str, text_eq, text_lt, trim_space, has_prefix, contains_any, cut, replace_char,
  replace_pair, raw_lines, drop_cr, utf8_length,
}
use frp_cluster.Dict.{Dict, get, put}
use frp_cluster.Sort.{sort_by}

-- what opening the file gives
pub data EnvContent : Type 0 where
  env_missing env_unreadable : EnvContent
  env_content : Text → EnvContent

-- The errors that carry a line's number are `path:line: ...`.
pub data EnvError : Type 0 where
  not_exist open_fails line_too_long : EnvError
  expected_key_value empty_key : ℕ → EnvError
  create_env_dir write_env chmod_env replace_env : EnvError

unfoldable pub last_is : ℕ → Text → Bool
last_is q [] = false
last_is q (c ∷ []) = c == q
last_is q (c ∷ d ∷ cs) = last_is q (d ∷ cs)

-- `value[:len(value)-1]`
unfoldable pub without_last : Text → Text
without_last [] = []
without_last (c ∷ []) = []
without_last (c ∷ d ∷ cs) = c ∷ without_last (d ∷ cs)

-- one pair of quotes around the value
unfoldable pub strip_quotes : Text → Text
unfolding last_is without_last
strip_quotes [] = []
strip_quotes (c ∷ cs) =
    if (c == b'\'' && last_is b'\'' cs) || (c == b'"' && last_is b'"' cs)
    then without_last cs
    else c ∷ cs

-- the three replacements, in their order
unfoldable pub unescape : Text → Text
unescape value =
    replace_pair b'\\' b'\'' (b'\'' ∷ [])
      (replace_pair b'\\' b'"' (b'"' ∷ []) (replace_pair b'\\' b'n' (b'\n' ∷ []) value))

unfoldable pub unquote_env_value : Text → Text
unfolding strip_quotes unescape
unquote_env_value value = unescape (strip_quotes value)

-- what one trimmed line says
pub data EnvLine : Type 0 where
  nothing no_separator no_key : EnvLine
  assignment : Text → Text → EnvLine

unfoldable assign : Option (Text × Text) → EnvLine
unfolding unquote_env_value
assign none = no_separator
assign (some (key, value)) =
    let key = trim_space key in
    if text_eq key [] then no_key else assignment key (unquote_env_value (trim_space value))

unfoldable pub env_line : Text → EnvLine
unfolding assign
env_line line =
    if text_eq line [] || has_prefix line (str "#") then nothing else assign (cut b'=' line)

-- A scanner gives up on a line that does not fit its buffer of 64 KB with its newline.
abbrev pub max_line : ℕ
max_line = 65536

-- `n` lines were read before
unfoldable pub read_lines : List Text → ℕ → Dict Text → EnvError ⊎ Dict Text
unfolding env_line
read_lines [] n values = inr values
read_lines (raw ∷ lines) n values = elim (leb max_line (utf8_length raw)) [
  | true ↦ inl line_too_long
  | false ↦ elim (env_line (trim_space (drop_cr raw))) [
    | nothing ↦ read_lines lines (suc n) values
    | no_separator ↦ inl (expected_key_value (suc n))
    | no_key ↦ inl (empty_key (suc n))
    | assignment key value ↦ read_lines lines (suc n) (put key value values)
  ]
]

unfoldable pub read_env_file : EnvContent → EnvError ⊎ Dict Text
unfolding read_lines
read_env_file env_missing = inl not_exist
read_env_file env_unreadable = inl open_fails
read_env_file (env_content text) = read_lines (raw_lines text) 0 []

-- the characters for which a value is quoted
abbrev pub special : Text
special = str " \t\n'\"$`\\#"

unfoldable pub shell_env_value : Text → Text
shell_env_value value =
    if text_eq value []
    then str "''"
    else if contains_any value special
    then str "'" ++ replace_char b'\'' (str "'\\''") value ++ str "'"
    else value

unfoldable pub or_empty : Option Text → Text
or_empty none = []
or_empty (some value) = value

-- `values[key]`
unfoldable pub value_of : Text → Dict Text → Text
unfolding or_empty
value_of key values = or_empty (get key values)

unfoldable pub keys {ℓ} : {V : Type ℓ} → Dict V → List Text
keys [] = []
keys ((k, v) ∷ m) = k ∷ keys m

unfoldable pub env_lines : Dict Text → List Text → Text
unfolding shell_env_value value_of
env_lines values [] = []
env_lines values (key ∷ rest) =
    let others = env_lines values rest in
    if text_eq (trim_space key) []
    then others
    else (key ++ b'=' ∷ shell_env_value (value_of key values)) ++ b'\n' ∷ others

unfoldable pub env_text : Dict Text → Text
unfolding env_lines keys
env_text values = env_lines values (sort_by text_lt (keys values))

-- how the calls of the operating system go, at one write
pub data EnvSaving : Type 0 where
  env_saved env_mkdir_fails env_write_fails env_chmod_fails env_rename_fails : EnvSaving

-- the file and the temporary file beside it
pub record EnvDisk : Type 0 where
  pub file : EnvContent
  pub tmp : EnvContent

-- What a failed write leaves in the temporary file is not told: it is taken as unreadable.
unfoldable pub write_env_file : Dict Text → EnvSaving → EnvDisk → Option EnvError × EnvDisk
unfolding env_text
write_env_file values env_saved d =
    (none, record { file = env_content (env_text values); tmp = env_missing })
write_env_file values env_mkdir_fails d = (some create_env_dir, d)
write_env_file values env_write_fails d = (some write_env, record d { tmp = env_unreadable })
write_env_file values env_chmod_fails d =
    (some chmod_env, record d { tmp = env_content (env_text values) })
write_env_file values env_rename_fails d =
    (some replace_env, record d { tmp = env_content (env_text values) })
