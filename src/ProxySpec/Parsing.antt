-- ===== src/ProxySpec/Parsing.antt =====
-- ParseProxySpec against the form `name:type:localIP:localPort:remotePort`.
use frp_cluster.Base.{ℕ, ◌<◌, ◌≡◌, ◌≢◌, refl, some, [], ◌∷◌, ◌++◌, inr, ℤ, pos, arith, int_le}
use frp_cluster.Text.{
  Text, text_differs, to_lower, trim_space, Lacks, split, split-first, split_none, decimal,
  int_text, is_digit,
}
use frp_cluster.Text.Decimals.{atoi-decimal, decimal-IsDigits, IsDigits-Lacks}
use frp_cluster.Ids.{sanitize_id, is_id_rune}
use frp_cluster.Ids.Sanitize.{IsIdText, sanitize_id-IsIdText}
use frp_cluster.ProxySpec.{ProxySpec, check_parts, with_ports, port_of, of_parts, parse_proxy_spec}

-- a specification as it is written
abbrev pub spec_text : ProxySpec → Text
spec_text spec =
    spec.name
    ++ b':'
      ∷ (spec.type
          ++ b':'
            ∷ (spec.local_ip
                ++ b':' ∷ (int_text spec.local_port ++ b':' ∷ int_text spec.remote_port)))

-- a port that an `int` holds
abbrev pub IsPort : ℤ → Type 0
IsPort p = (n : ℕ) × (p ≡ pos n) × (0 < n) × (n < 9_223_372_036_854_775_808)

pub record IsSpec (spec : ProxySpec) : Type 0 where
  pub name_clean : sanitize_id spec.name ≡ spec.name
  pub name_given : spec.name ≢ []
  pub type_clean : trim_space (to_lower spec.type) ≡ spec.type
  pub type_given : spec.type ≢ []
  pub type_whole : Lacks b':' spec.type
  pub ip_clean : trim_space spec.local_ip ≡ spec.local_ip
  pub ip_given : spec.local_ip ≢ []
  pub ip_whole : Lacks b':' spec.local_ip
  pub local_port_ok : IsPort spec.local_port
  pub remote_port_ok : IsPort spec.remote_port

id_Lacks : (s : Text) → IsIdText s → Lacks b':' s
unfolding is_id_rune
id_Lacks [] h = tt
id_Lacks (c ∷ cs) h = (ground (arith, h.0), id_Lacks cs h.1)

clean_Lacks : (s : Text) → sanitize_id s ≡ s → Lacks b':' s
clean_Lacks s h = id_Lacks s (rw h at (sanitize_id-IsIdText s))

IsPort-Lacks : (p : ℤ) → IsPort p → Lacks b':' (int_text p)
unfolding int_text is_digit
IsPort-Lacks p (n, e, h, k) = rw e (IsDigits-Lacks b':' refl (decimal n) (decimal-IsDigits n))

port_of-IsPort : (p : ℤ) → IsPort p → port_of (int_text p) ≡ some p
unfolding int_text port_of int_le
port_of-IsPort p (n, e, h, k) = rw e (ground (arith, atoi-decimal n k, h))

split_spec :
    (spec : ProxySpec)
    → IsSpec spec
    → split b':' (spec_text spec)
      ≡ spec.name
        ∷ spec.type
        ∷ spec.local_ip
        ∷ int_text spec.local_port
        ∷ int_text spec.remote_port
        ∷ []
split_spec spec h =
    rw
      (
        split-first b':' spec.name _ (clean_Lacks spec.name h.name_clean),
        split-first b':' spec.type _ h.type_whole,
        split-first b':' spec.local_ip _ h.ip_whole,
        split-first b':' (int_text spec.local_port) _
            (IsPort-Lacks spec.local_port h.local_port_ok),
        split_none b':' (int_text spec.remote_port)
            (IsPort-Lacks spec.remote_port h.remote_port_ok),
      )
      refl

-- A proxy specification with a clean name, a clean type and a trimmed address, none of them empty
-- or with a colon, and with two positive ports that an `int` holds is read back from its print.
pub parse_proxy_spec-spec_text :
    (spec : ProxySpec) → IsSpec spec → parse_proxy_spec (spec_text spec) ≡ inr spec
unfolding parse_proxy_spec of_parts with_ports check_parts
parse_proxy_spec-spec_text spec h =
    rw
      (
        split_spec spec h,
        port_of-IsPort spec.local_port h.local_port_ok,
        port_of-IsPort spec.remote_port h.remote_port_ok,
        h.name_clean,
        h.type_clean,
        h.ip_clean,
        text_differs spec.name [] h.name_given,
        text_differs spec.type [] h.type_given,
        text_differs spec.local_ip [] h.ip_given,
      )
      refl
