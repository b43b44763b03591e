-- ===== src/Config/Updates.antt =====
-- What a change of the configuration leaves.
use frp_cluster.Base.{
  ◌≡◌, ◌≢◌, refl, Bool, true, false, Option, none, some, List, [], ◌∷◌, ℤ, pos, inl, inr,
  Bool-cases, arith, int_eq,
}
use frp_cluster.Text.{text_differs, Text, str, text_eq, text_eq_iff, text_in, trim_space}
use frp_cluster.Ids.{normalize_control_url, merge_peer_urls, remove_peer_url}
use frp_cluster.Types.{ClusterConfig}
use frp_cluster.Requests.{ok, err, negative_score_gap}
use frp_cluster.Store.{Env, Store, default_config}
use frp_cluster.Store.Saving.{Saves, state-commit, result-commit}
use frp_cluster.Config.{
  ensure_config, or_on, or_text, or_int, ControlPlaneOptions, configured, with_config, with_state,
  configure_control_plane, ConfigUpdate, set_auto_migration, set_score_gap, set_entry_host,
  set_update_hook, is_negative_gap, update_config,
}

not_in-remove_peer_url :
    (urls : List Text) (removed : Text)
    → text_in (normalize_control_url removed) (remove_peer_url urls removed) ≡ false
unfolding remove_peer_url text_in
not_in-remove_peer_url [] removed = refl
not_in-remove_peer_url (v ∷ vs) removed = ground (
  arith,
  text_eq_iff (normalize_control_url v) (normalize_control_url removed),
  text_eq_iff (normalize_control_url removed) (normalize_control_url v),
  not_in-remove_peer_url vs removed,
)

configured-own :
    (opts : ControlPlaneOptions) (c : ClusterConfig)
    → normalize_control_url opts.public_url ≢ []
    → ((configured opts c).public_control_url ≡ normalize_control_url opts.public_url)
      × (text_in
            (normalize_control_url (normalize_control_url opts.public_url))
            (configured opts c).peer_urls
          ≡ false)
unfolding configured
configured-own opts c given = rw (text_differs (normalize_control_url opts.public_url) [] given) (
  refl,
  not_in-remove_peer_url (merge_peer_urls c.peer_urls opts.peer_urls)
      (normalize_control_url opts.public_url),
)

-- A control plane that is given its own public URL takes it, and that URL (normalised as the list
-- of peers normalises it) is then not among its peers, even if the options name it as one.
pub own_url_is_no_peer :
    (opts : ControlPlaneOptions) (env : Env) (s : Store)
    → normalize_control_url opts.public_url ≢ []
    → ((configure_control_plane opts env s).1.state.config.public_control_url
        ≡ normalize_control_url opts.public_url)
      × (text_in
            (normalize_control_url (normalize_control_url opts.public_url))
            (configure_control_plane opts env s).1.state.config.peer_urls
          ≡ false)
unfolding configure_control_plane with_config
own_url_is_no_peer opts env s given =
    rw (state-commit tt (with_config (configured opts s.state.config) s.state) env s)
      (configured-own opts s.state.config given)

-- a value of the update, or else the configuration's
abbrev pub chosen {ℓ} : {A : Type ℓ} → Option A → A → A
chosen none old = old
chosen (some new) old = new

abbrev pub chosen_text : Option Text → Text → Text
chosen_text none old = old
chosen_text (some new) old = trim_space new

abbrev pub chosen_switch : Option Bool → Option Bool → Option Bool
chosen_switch none old = old
chosen_switch (some new) old = some new

-- the configuration that an update asks for
abbrev pub updated_config : ConfigUpdate → ClusterConfig → ClusterConfig
updated_config update c = record c {
  auto_migration = chosen_switch update.auto_migration c.auto_migration;
  migration_score_gap = chosen update.migration_score_gap c.migration_score_gap;
  public_entry_host = chosen_text update.public_entry_host c.public_entry_host;
  dns_update_hook = chosen_text update.dns_update_hook c.dns_update_hook;
}

auto_set :
    (o : Option Bool) (c : ClusterConfig)
    → set_auto_migration o c ≡ record c { auto_migration = chosen_switch o c.auto_migration }
unfolding set_auto_migration
auto_set none c = refl
auto_set (some enabled) c = refl

gap_set :
    (o : Option ℤ) (c : ClusterConfig)
    → set_score_gap o c ≡ record c { migration_score_gap = chosen o c.migration_score_gap }
unfolding set_score_gap
gap_set none c = refl
gap_set (some gap) c = refl

host_set :
    (o : Option Text) (c : ClusterConfig)
    → set_entry_host o c ≡ record c { public_entry_host = chosen_text o c.public_entry_host }
unfolding set_entry_host
host_set none c = refl
host_set (some host) c = refl

hook_set :
    (o : Option Text) (c : ClusterConfig)
    → set_update_hook o c ≡ record c { dns_update_hook = chosen_text o c.dns_update_hook }
unfolding set_update_hook
hook_set none c = refl
hook_set (some hook) c = refl

all_set :
    (update : ConfigUpdate) (c : ClusterConfig)
    → set_update_hook update.dns_update_hook (
        set_entry_host update.public_entry_host
          (set_score_gap update.migration_score_gap (set_auto_migration update.auto_migration c)))
      ≡ updated_config update c
all_set update c = rw (auto_set, gap_set, host_set, hook_set) refl

-- An update whose score gap, if it gives one, is not negative changes the fields that it gives, to
-- the texts without outer spaces, and no other, and the caller is given the new configuration if
-- the state is saved. One with a negative gap is answered by an error; of its fields only the
-- automatic migration is taken over, in memory.
pub update_config_lem :
    (update : ConfigUpdate) (env : Env) (s : Store)
    → (is_negative_gap update.migration_score_gap ≡ false
        → ((update_config update env s).1.state
            ≡ with_config (updated_config update s.state.config) s.state)
          × (Saves (update_config update env s).1.state env s
              → (update_config update env s).0 ≡ ok (updated_config update s.state.config)))
      × (is_negative_gap update.migration_score_gap ≡ true
          → ((update_config update env s).0 ≡ err negative_score_gap)
            × ((update_config update env s).1
                ≡ with_state
                    (with_config
                      (record s.state.config {
                        auto_migration =
                            chosen_switch update.auto_migration s.state.config.auto_migration;
                      })
                      s.state)
                    s))
unfolding update_config
update_config_lem update env s = (
  λ fine.
      let config = updated_config update s.state.config in
      rw (fine, all_set, state-commit config (with_config config s.state) env s)
        (refl, λ saves. result-commit config (with_config config s.state) env s saves),
  λ negative. rw negative (refl, rw auto_set refl),
)

-- no field that the defaults fill is empty
pub record IsFilled (c : ClusterConfig) : Type 0 where
  pub name : text_eq c.name [] ≡ false
  pub port : int_eq c.dashboard_port (pos 0) ≡ false
  pub path : text_eq c.plugin_path [] ≡ false
  pub ops : text_eq c.plugin_ops [] ≡ false
  pub auto : c.auto_migration ≢ none
  pub gap : int_eq c.migration_score_gap (pos 0) ≡ false

text_filled :
    (value fallback : Text)
    → text_eq fallback [] ≡ false
    → text_eq (or_text value fallback) [] ≡ false
text_filled value fallback h = elim (Bool-cases (text_eq value [])) [
  | inl e ↦ rw e h
  | inr e ↦ rw e e
]

int_filled :
    (value fallback : ℤ)
    → int_eq fallback (pos 0) ≡ false
    → int_eq (or_int value fallback) (pos 0) ≡ false
int_filled value fallback h = elim (Bool-cases (int_eq value (pos 0))) [
  | inl e ↦ rw e h
  | inr e ↦ rw e e
]

switch_filled : (o : Option Bool) → or_on o ≢ none
unfolding or_on
switch_filled none e = absurd (cc e)
switch_filled (some enabled) e = absurd (cc e)

ensure-IsFilled : (c : ClusterConfig) → IsFilled (ensure_config c)
unfolding ensure_config default_config str text_eq int_eq
ensure-IsFilled c = record {
  name = text_filled c.name default_config.name refl;
  port = int_filled c.dashboard_port default_config.dashboard_port refl;
  path = text_filled c.plugin_path default_config.plugin_path refl;
  ops = text_filled c.plugin_ops default_config.plugin_ops refl;
  auto = switch_filled c.auto_migration;
  gap = int_filled c.migration_score_gap default_config.migration_score_gap refl;
}

switch_kept : (o : Option Bool) → o ≢ none → or_on o ≡ o
unfolding or_on
switch_kept none h = absurd (h refl)
switch_kept (some enabled) h = refl

complete_kept : (c : ClusterConfig) → IsFilled c → ensure_config c ≡ c
unfolding ensure_config
complete_kept c h =
    rw (h.name, h.port, h.path, h.ops, switch_kept c.auto_migration h.auto, h.gap) refl

-- The state that is loaded has a complete configuration, and completing it again changes nothing.
-- A score gap of 0, which an update may set, becomes 15 at the next start.
pub ensure_config_lem :
    (c : ClusterConfig)
    → IsFilled (ensure_config c)
      × (ensure_config (ensure_config c) ≡ ensure_config c)
      × ((ensure_config (record c { migration_score_gap = pos 0 })).migration_score_gap ≡ pos 15)
unfolding ensure_config default_config int_eq
ensure_config_lem c = (ensure-IsFilled c, complete_kept (ensure_config c) (ensure-IsFilled c), refl)
