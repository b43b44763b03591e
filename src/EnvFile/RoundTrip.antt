-- ===== src/EnvFile/RoundTrip.antt =====
-- Reading back what WriteEnvFile wrote.

use frp_cluster.Base.{
  ℕ, suc, ◌<◌, ◌≡◌, ◌≢◌, refl, ◌∙◌, true, false, none, some, inl, inr, List, [], ◌∷◌, ◌++◌, arith,
  All, All-append, leb, Option-cases, if◌then◌else◌,
}
use frp_cluster.Text.{
  Text, text_eq_iff, text_eq_refl, text_differs, text_in, text_lt, str, is_space, trim_space,
  trim_by-eq, StartsKept, EndsKept, has_prefix, cut-first, raw_lines, raw_lines-line, drop_cr,
  utf8_length, Lacks,
}
use frp_cluster.Dict.{Dict, get, put, get-put}
use frp_cluster.Sort.{sort_by}
use frp_cluster.Sort.Members.{All-sort_by, text_in-sort_by}
use frp_cluster.EnvFile.{
  EnvContent, env_content, EnvDisk, EnvSaving, env_saved, env_mkdir_fails, env_write_fails,
  env_chmod_fails, env_rename_fails, assignment, assign, env_line, max_line, read_lines,
  read_env_file, shell_env_value, or_empty, value_of, keys, env_lines, env_text, write_env_file,
}
use frp_cluster.EnvFile.Quoting.{
  IsEnvValue, Written, shell_env_value-Written, Written-ends, Written-trimmed, Written-one_line,
  unquote-Written, EndsKept-append, trimmed_edges, drop_cr-eq,
}

-- A key that the file can hold: one trimmed word without `=` that does not start a comment.
pub record IsEnvKey (key : Text) : Type 0 where
  pub trimmed : trim_space key ≡ key
  pub named : key ≢ []
  pub no_comment : has_prefix key (str "#") ≡ false
  pub no_separator : Lacks b'=' key
  pub one_line : Lacks b'\n' key

-- the line of one entry
abbrev pub entry_line : Text → Text → Text
entry_line key value = key ++ b'=' ∷ shell_env_value value

pub record IsEnvEntry (key value : Text) : Type 0 where
  pub key_ok : IsEnvKey key
  pub value_ok : IsEnvValue value
  pub fits : utf8_length (entry_line key value) < max_line

StartsKept-append : (s t : Text) → s ≢ [] → StartsKept is_space s → StartsKept is_space (s ++ t)
StartsKept-append [] t h k = absurd (h refl)
StartsKept-append (c ∷ cs) t h k = k

has_prefix-append :
    (s t : Text) → s ≢ [] → has_prefix s (str "#") ≡ false → has_prefix (s ++ t) (str "#") ≡ false
unfolding has_prefix str
has_prefix-append [] t h k = absurd (h refl)
has_prefix-append (c ∷ cs) t h k = ground arith

append-ne-nil : (s t : Text) → s ≢ [] → s ++ t ≢ []
append-ne-nil [] t h = absurd (h refl)
append-ne-nil (c ∷ cs) t h = cc

module _ {key value : Text} (entry : IsEnvEntry key value) where
  written : Written value (shell_env_value value)
  written = shell_env_value-Written value entry.value_ok

  line_ends : EndsKept is_space (entry_line key value)
  line_ends = EndsKept-append key (b'=' ∷ shell_env_value value) (cc) (
      EndsKept-append (b'=' ∷ []) (shell_env_value value) (Written-ends written).0
        (Written-ends written).1)

  line_trimmed : trim_space (entry_line key value) ≡ entry_line key value
  unfolding trim_space
  line_trimmed =
      trim_by-eq is_space (entry_line key value)
        (StartsKept-append key _ entry.key_ok.named (trimmed_edges key entry.key_ok.trimmed).0)
        line_ends

  line_one : Lacks b'\n' (entry_line key value)
  line_one =
      All-append _ key (b'=' ∷ shell_env_value value) entry.key_ok.one_line
        (refl, Written-one_line entry.value_ok.one_line written)

  -- the line says what it was written for
  env_line-entry : env_line (trim_space (drop_cr (entry_line key value))) ≡ assignment key value
  unfolding env_line assign
  env_line-entry =
      rw
        (
          drop_cr-eq (entry_line key value) line_ends,
          line_trimmed,
          text_differs (entry_line key value) [] (append-ne-nil key _ entry.key_ok.named),
          has_prefix-append key (b'=' ∷ shell_env_value value) entry.key_ok.named
              entry.key_ok.no_comment,
          cut-first b'=' key (shell_env_value value) entry.key_ok.no_separator,
          entry.key_ok.trimmed,
          text_differs key [] entry.key_ok.named,
          Written-trimmed written,
          unquote-Written entry.value_ok.no_escape written,
        )
        refl

-- the keys, each with its value, put one after another
put_all : Dict Text → List Text → Dict Text → Dict Text
put_all values [] acc = acc
put_all values (key ∷ rest) acc = put_all values rest (put key (value_of key values) acc)

read_lines-assignment :
    (raw : Text) (lines : List Text) (n : ℕ) (acc : Dict Text) (key value : Text)
    → utf8_length raw < max_line
    → env_line (trim_space (drop_cr raw)) ≡ assignment key value
    → read_lines (raw ∷ lines) n acc ≡ read_lines lines (suc n) (put key value acc)
unfolding read_lines
read_lines-assignment raw lines n acc key value h e =
    let short : leb max_line (utf8_length raw) ≡ false = ground arith in
    rw (read_lines, short, e) refl

read_lines-env_lines :
    (values : Dict Text) (ks : List Text) (n : ℕ) (acc : Dict Text)
    → All (λ key. IsEnvEntry key (value_of key values)) ks
    → read_lines (raw_lines (env_lines values ks)) n acc ≡ inr (put_all values ks acc)
unfolding read_lines env_lines put_all raw_lines
read_lines-env_lines values [] n acc h = refl
read_lines-env_lines values (key ∷ rest) n acc (entry, others) =
    let value = value_of key values in
    rw
      (
        entry.key_ok.trimmed,
        text_differs key [] entry.key_ok.named,
        raw_lines-line (entry_line key value) (env_lines values rest) (line_one entry),
      )
      (read_lines-assignment (entry_line key value) (raw_lines (env_lines values rest)) n acc key
          value entry.fits (env_line-entry entry)
        ∙ read_lines-env_lines values rest (suc n) (put key value acc) others)

get-put_all :
    (values : Dict Text) (ks : List Text) (acc : Dict Text) (k : Text)
    → get k (put_all values ks acc) ≡ (if text_in k ks then some (value_of k values) else get k acc)
unfolding put_all text_in
get-put_all values [] acc k = refl
get-put_all values (key ∷ rest) acc k = ground (
  arith,
  text_eq_iff key k,
  get-put_all values rest (put key (value_of key values) acc) k,
  get-put key k (value_of key values) acc,
)

get-text_in : (k : Text) (m : Dict Text) → get k m ≡ none → text_in k (keys m) ≡ false
unfolding text_in keys get
get-text_in k [] h = refl
get-text_in k ((j, v) ∷ m) h = ground (arith, get-text_in k m)

text_in-keys : (k : Text) (m : Dict Text) → text_in k (keys m) ≡ false → get k m ≡ none
unfolding text_in keys get
text_in-keys k [] h = refl
text_in-keys k ((j, v) ∷ m) h = ground (arith, text_in-keys k m)

-- What a file holds is found again: every entry of the map is one that a line can hold.
abbrev pub IsEnvMap : Dict Text → Type 0
IsEnvMap values = (k v : Text) → get k values ≡ some v → IsEnvEntry k v

entry_of_key :
    (values : Dict Text) (k : Text)
    → IsEnvMap values
    → text_in k (keys values) ≡ true
    → IsEnvEntry k (value_of k values)
unfolding value_of
entry_of_key values k h e = elim (Option-cases (get k values)) [
  | inl none_there ↦ absurd (cc (get-text_in k values none_there))
  | inr (v, there) ↦ rw there (h k v there)
]

entries_of_keys :
    (values : Dict Text)
    → IsEnvMap values
    → (ks : List Text) → All (λ k. text_in k (keys values) ≡ true) ks
    → All (λ key. IsEnvEntry key (value_of key values)) ks
entries_of_keys values h [] k = tt
entries_of_keys values h (key ∷ ks) k =
    (entry_of_key values key h k.0, entries_of_keys values h ks k.1)

text_in_more :
    (x : Text) (ks l : List Text)
    → All (λ k. text_in k ks ≡ true) l
    → All (λ k. text_in k (x ∷ ks) ≡ true) l
unfolding text_in
text_in_more x ks [] h = tt
text_in_more x ks (k ∷ l) h = (ground (arith, h.0), text_in_more x ks l h.1)

text_in_own : (ks : List Text) → All (λ k. text_in k ks ≡ true) ks
unfolding text_in
text_in_own [] = tt
text_in_own (k ∷ ks) = (rw (text_eq_refl k) refl, text_in_more k ks ks (text_in_own ks))

found_again :
    (values : Dict Text) (k : Text)
    → get k (put_all values (sort_by text_lt (keys values)) []) ≡ get k values
unfolding get value_of or_empty
found_again values k = ground (
  arith,
  get-put_all values (sort_by text_lt (keys values)) [] k,
  text_in-sort_by text_lt k (keys values),
  text_in-keys k values,
  get-text_in k values,
)

-- the content is read as these values, under the same keys, and no others
abbrev pub ReadsAs : EnvContent → Dict Text → Type 0
ReadsAs content values =
    (r : Dict Text) × (read_env_file content ≡ inr r) × ((k : Text) → get k r ≡ get k values)

env_text-ReadsAs :
    (values : Dict Text) → IsEnvMap values → ReadsAs (env_content (env_text values)) values
unfolding read_env_file env_text
env_text-ReadsAs values h =
    let sorted = sort_by text_lt (keys values) in
    (
      put_all values sorted [],
      read_lines-env_lines values sorted 0 [] (
          entries_of_keys values h sorted
            (All-sort_by text_lt _ (keys values) (text_in_own (keys values)))),
      found_again values,
    )

-- Writing a map and reading the file gives the map back, if each of its keys is a trimmed text
-- without `=` and newline that does not start with `#`, each value is one line without single
-- quotes and the three escapes, with no white space around it unless it is quoted, and each line
-- fits the reader's buffer. A write in any other way than with all its steps done returns an
-- error, and the file holds what it held.
pub write_env_file_lem :
    (values : Dict Text) (failing : EnvSaving) (d : EnvDisk)
    → IsEnvMap values
    → failing ≢ env_saved
    → ((write_env_file values env_saved d).0 ≡ none)
      × ReadsAs (write_env_file values env_saved d).1.file values
      × ((write_env_file values failing d).0 ≢ none)
      × ((write_env_file values failing d).1.file ≡ d.file)
unfolding write_env_file
write_env_file_lem values env_saved d h k = absurd (k refl)
write_env_file_lem values env_mkdir_fails d h k = (refl, env_text-ReadsAs values h, cc, refl)
write_env_file_lem values env_write_fails d h k = (refl, env_text-ReadsAs values h, cc, refl)
write_env_file_lem values env_chmod_fails d h k = (refl, env_text-ReadsAs values h, cc, refl)
write_env_file_lem values env_rename_fails d h k = (refl, env_text-ReadsAs values h, cc, refl)
