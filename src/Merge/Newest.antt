-- ===== src/Merge/Newest.antt =====
-- The merge of clients and of proxies keeps the newest entry.
use mathlib.Core.Bool.{false≢true}
use frp_cluster.Base.{
  ℕ, ◌≡◌, ◌≢◌, ◌≤◌, ◌<◌, refl, ap, sym, ◌∙◌, subst, true, false, Option, none, some, [], ◌∷◌, inl,
  inr, Bool-cases, arith, ltb, ltb→lt, All,
}
use frp_cluster.Text.{text_differs, Text, text_eq, text_eq_iff, text_eq_refl}
use frp_cluster.Dict.{Dict, get, put, get-put}
use frp_cluster.Types.{Instant, Client, Proxy}
use frp_cluster.Merge.{
  is_newer_entry, merge_entry, merge_entries, named_client, named_proxy, merge_clients,
  merge_proxies,
}

not_before : (a b : ℕ) → ltb a b ≡ false → b ≤ a
not_before a b h = ground (arith, h)

given_id : (text : Text) → text_eq text [] ≡ false → text ≢ []
given_id text h = ground (arith, text_eq_iff text [])

module _ {V : Type 0} (id_of : V → Text) (updated : V → Instant) (named : Text → V → V) where
  -- an entry is found that was updated at `t` or later
  abbrev pub AtLeast : Instant → Option V → Type 0
  AtLeast t o = (r : V) × (o ≡ some r) × (t ≤ updated r)

  newer_lt :
      (v r : V) (o : Option V)
      → o ≡ some r
      → is_newer_entry id_of updated named v o ≡ true
      → updated r < updated v
  unfolding is_newer_entry
  newer_lt v r o e h =
      ltb→lt (updated r) (updated v)
        (subst (λ o. is_newer_entry id_of updated named v o ≡ true) e h)

  not_newer :
      (v r : V) (o : Option V)
      → o ≡ some r
      → updated v ≤ updated r
      → is_newer_entry id_of updated named v o ≡ false
  unfolding is_newer_entry
  not_newer v r o e h = rw e (ground (arith, h))

  put-AtLeast :
      (t : Instant) (k : Text) (v : V) (m : Dict V)
      → AtLeast t (get k m)
      → is_newer_entry id_of updated named v (get (id_of v) m) ≡ true
      → AtLeast t (get k (put (id_of v) v m))
  put-AtLeast t k v m (r, found, le) newer = elim (Bool-cases (text_eq (id_of v) k)) [
    | inl e ↦
        let here = ap (λ (j : Text). get j m) ((text_eq_iff (id_of v) k).0 e) ∙ found in
        (v, rw (get-put, e) refl, omega (arith, le, newer_lt v r (get (id_of v) m) here newer))
    | inr e ↦ (r, rw (get-put, e) found, le)
  ]

  -- an entry never gives way to an older one
  merge_entry-AtLeast :
      (t : Instant) (k key : Text) (o : Option V) (m : Dict V)
      → AtLeast t (get k m)
      → AtLeast t (get k (merge_entry id_of updated named key o m))
  unfolding merge_entry
  merge_entry-AtLeast t k key none m h = h
  merge_entry-AtLeast t k key (some remote) m h =
      let v = named key remote in
      elim (Bool-cases (text_eq (id_of v) [])) [
        | inl unnamed ↦ rw unnamed h
        | inr has_id ↦ elim (Bool-cases (is_newer_entry id_of updated named v (get (id_of v) m))) [
          | inl newer ↦ rw (has_id, newer) (put-AtLeast t k v m h newer)
          | inr old ↦ rw (has_id, old) h
        ]
      ]

  -- what was offered is there afterwards, or something newer
  abbrev pub Covered : Dict V → Text × Option V → Type 0
  Covered m (key, none) = Unit
  Covered m (key, some remote) =
      id_of (named key remote) ≢ []
      → AtLeast (updated (named key remote)) (get (id_of (named key remote)) m)

  offered-AtLeast :
      (v : V) (o : Option V) (m : Dict V)
      → get (id_of v) m ≡ o
      → is_newer_entry id_of updated named v (get (id_of v) m) ≡ false
      → AtLeast (updated v) (get (id_of v) m)
  unfolding is_newer_entry
  offered-AtLeast v none m e old = absurd (false≢true (sym (rw e at old)))
  offered-AtLeast v (some r) m e old = (r, e, not_before (updated r) (updated v) (rw e at old))

  merge_entry-Covered :
      (key : Text) (o : Option V) (m : Dict V)
      → Covered (merge_entry id_of updated named key o m) (key, o)
  unfolding merge_entry
  merge_entry-Covered key none m = tt
  merge_entry-Covered key (some remote) m = λ given.
      let v = named key remote in
      let has_id = text_differs (id_of v) [] given in
      elim (Bool-cases (is_newer_entry id_of updated named v (get (id_of v) m))) [
        | inl newer ↦ rw (has_id, newer) (v, rw (get-put, text_eq_refl (id_of v)) refl, omega arith)
        | inr old ↦ rw (has_id, old) (offered-AtLeast v (get (id_of v) m) m refl old)
      ]

  merge_entries-AtLeast :
      (t : Instant) (k : Text) (remote : Dict (Option V)) (m : Dict V)
      → AtLeast t (get k m)
      → AtLeast t (get k (merge_entries id_of updated named remote m))
  unfolding merge_entries
  merge_entries-AtLeast t k [] m h = h
  merge_entries-AtLeast t k ((key, o) ∷ rest) m h =
      merge_entries-AtLeast t k rest (merge_entry id_of updated named key o m)
        (merge_entry-AtLeast t k key o m h)

  Covered-merge :
      (e : Text × Option V) (remote : Dict (Option V)) (m : Dict V)
      → Covered m e
      → Covered (merge_entries id_of updated named remote m) e
  Covered-merge (key, none) remote m h = tt
  Covered-merge (key, some v) remote m h = λ given.
      merge_entries-AtLeast (updated (named key v)) (id_of (named key v)) remote m (h given)

  merge_entries-Covered :
      (remote : Dict (Option V)) (m : Dict V)
      → All (Covered (merge_entries id_of updated named remote m)) remote
  unfolding merge_entries
  merge_entries-Covered [] m = tt
  merge_entries-Covered ((key, o) ∷ rest) m =
      let next = merge_entry id_of updated named key o m in
      (
        Covered-merge (key, o) rest next (merge_entry-Covered key o m),
        merge_entries-Covered rest next,
      )

  settled_entry :
      (key : Text) (o : Option V) (m : Dict V)
      → Covered m (key, o)
      → merge_entry id_of updated named key o m ≡ m
  unfolding merge_entry
  settled_entry key none m h = refl
  settled_entry key (some remote) m h =
      let v = named key remote in
      elim (Bool-cases (text_eq (id_of v) [])) [
        | inl unnamed ↦ rw unnamed refl
        | inr has_id ↦
            let (r, found, le) = h (given_id (id_of v) has_id) in
            rw (has_id, not_newer v r (get (id_of v) m) found le) refl
      ]

  settled_entries :
      (remote : Dict (Option V)) (m : Dict V)
      → All (Covered m) remote
      → merge_entries id_of updated named remote m ≡ m
  unfolding merge_entries
  settled_entries [] m h = refl
  settled_entries ((key, o) ∷ rest) m h =
      ap (merge_entries id_of updated named rest) (settled_entry key o m h.0)
      ∙ settled_entries rest m h.1

  merge_entries_idem :
      (remote : Dict (Option V)) (m : Dict V)
      → merge_entries id_of updated named remote (merge_entries id_of updated named remote m)
        ≡ merge_entries id_of updated named remote m
  merge_entries_idem remote m =
      settled_entries remote (merge_entries id_of updated named remote m)
        (merge_entries-Covered remote m)

abbrev pub client_id : Client → Text
client_id c = c.id

abbrev pub client_updated : Client → Instant
client_updated c = c.updated_at

-- After a merge each client of the store, and each client that the peer sent and that has an
-- identifier (its own or its key's), is there at least as new as it was there: no entry gives way
-- to an older one. Merging the same clients again changes nothing, and the same holds of proxies.
pub merge_newest :
    (remote : Dict (Option Client)) (clients : Dict Client) (proxies : Dict (Option Proxy))
    (own : Dict Proxy)
    → ((k : Text) (c : Client)
        → get k clients ≡ some c
        → AtLeast client_id client_updated named_client c.updated_at
            (get k (merge_clients remote clients)))
      × All (Covered client_id client_updated named_client (merge_clients remote clients)) remote
      × (merge_clients remote (merge_clients remote clients) ≡ merge_clients remote clients)
      × (merge_proxies proxies (merge_proxies proxies own) ≡ merge_proxies proxies own)
unfolding merge_clients merge_proxies
merge_newest remote clients proxies own = (
  λ k c found.
      merge_entries-AtLeast client_id client_updated named_client c.updated_at k remote clients
        (c, found, omega arith),
  merge_entries-Covered client_id client_updated named_client remote clients,
  merge_entries_idem client_id client_updated named_client remote clients,
  merge_entries_idem (λ (p : Proxy). p.id) (λ (p : Proxy). p.updated_at) named_proxy proxies own,
)
