-- ===== src/Traffic/Totals.antt =====
-- What the totals of a traffic report add up to.
use frp_cluster.Base.{
  ℕ, ◌+◌, ◌<◌, ◌≤◌, ◌≡◌, refl, sym, ap, ◌∙◌, Option, none, some, List, [], ◌∷◌, ℤ, pos, pos_part,
  add64, inl, inr, Bool-cases, arith,
}
use frp_cluster.Text.{Text, text_eq}
use frp_cluster.Dict.{Dict, get, put, values}
use frp_cluster.Types.{Instant, TrafficCounters, TrafficSample, ServerNode}
use frp_cluster.Traffic.{normalize_traffic_counters}
use frp_cluster.Traffic.Series.{
  TrafficTotals, NodeTraffic, no_totals, totals_or_none, with_node, node_totals, add_to_totals,
  sample_totals, sum_totals,
}

add64_fits : (a b : ℕ) → a + b < 9_223_372_036_854_775_808 → add64 (pos a) (pos b) ≡ pos (a + b)
unfolding add64
add64_fits a b h = ground arith

-- the sum of one number of the samples
abbrev pub sum_of : (TrafficSample → ℤ) → List TrafficSample → ℕ
sum_of g [] = 0
sum_of g (s ∷ samples) = pos_part (g s) + sum_of g samples

-- none of these numbers is negative
abbrev pub AreGrowths : (TrafficSample → ℤ) → List TrafficSample → Type 0
AreGrowths g [] = Unit
AreGrowths g (s ∷ samples) = (g s ≡ pos (pos_part (g s))) × AreGrowths g samples

module _ (f : TrafficTotals → ℤ) (g : TrafficSample → ℤ) where
  -- one sum of the four of the totals, and the part of a sample that is added to it
  pub record IsSum : Type 0 where
    pub nothing : f no_totals ≡ pos 0
    pub sample : (s : TrafficSample) (t : TrafficTotals) → f (add_to_totals s t) ≡ add64 (f t) (g s)
    pub node :
        (t : TrafficTotals) (x y : ℤ)
        → f (record t { total_in_bytes = x; total_out_bytes = y }) ≡ f t
    pub entry :
        (acc t : TrafficTotals)
        → f (record {
          total_in_bytes = add64 acc.total_in_bytes t.total_in_bytes;
          total_out_bytes = add64 acc.total_out_bytes t.total_out_bytes;
          delta_in_bytes = add64 acc.delta_in_bytes t.delta_in_bytes;
          delta_out_bytes = add64 acc.delta_out_bytes t.delta_out_bytes;
        })
          ≡ add64 (f acc) (f t)

  -- the sum of the entries
  abbrev held : Dict NodeTraffic → ℕ
  held [] = 0
  held ((k, e) ∷ m) = pos_part (f e.totals) + held m

  -- no entry is negative
  abbrev AreCounted : Dict NodeTraffic → Type 0
  AreCounted [] = Unit
  AreCounted ((k, e) ∷ m) = (f e.totals ≡ pos (pos_part (f e.totals))) × AreCounted m

  abbrev part : Option NodeTraffic → ℤ
  part o = f (totals_or_none o)

  get-part :
      IsSum
      → (k : Text) (m : Dict NodeTraffic) → AreCounted m
      → (part (get k m) ≡ pos (pos_part (part (get k m)))) × (pos_part (part (get k m)) ≤ held m)
  unfolding get totals_or_none
  get-part law k [] h = rw law.nothing (refl, omega arith)
  get-part law k ((j, e) ∷ m) h = elim (Bool-cases (text_eq j k)) [
    | inl same ↦ rw same (h.0, omega arith)
    | inr other ↦
        let (counted, fits) = get-part law k m h.1 in rw other (counted, omega (arith, fits))
  ]

  put-held :
      IsSum
      → (k : Text) (e : NodeTraffic) (m : Dict NodeTraffic) → AreCounted m
      → f e.totals ≡ pos (pos_part (f e.totals))
      → AreCounted (put k e m)
        × (held (put k e m) + pos_part (part (get k m)) ≡ held m + pos_part (f e.totals))
  unfolding put get totals_or_none
  put-held law k e [] h new = ((new, tt), rw law.nothing (omega arith))
  put-held law k e ((j, w) ∷ m) h new = elim (Bool-cases (text_eq j k)) [
    | inl same ↦ rw same ((new, h.1), omega arith)
    | inr other ↦
        let (counted, sum) = put-held law k e m h.1 new in
        rw other ((h.0, counted), omega (arith, sum))
  ]

  with_node-held :
      IsSum
      → (k : Text) (o : Option TrafficCounters) (m : Dict NodeTraffic) → AreCounted m
      → AreCounted (with_node k o m) × (held (with_node k o m) ≡ held m)
  unfolding with_node
  with_node-held law k none m h = (h, refl)
  with_node-held law k (some t) m h =
      let same = law.node (totals_or_none (get k m)) t.total_in_bytes t.total_out_bytes in
      let old = get-part law k m h in
      let (counted, sum) =
        put-held law k _ m h (same ∙ old.0 ∙ ap (λ x. pos (pos_part x)) (sym same)) in
      (counted, omega (arith, sum, ap pos_part same))

  node_totals-held :
      IsSum
      → (nodes : List ServerNode) (now : Instant) (m : Dict NodeTraffic) → AreCounted m
      → AreCounted (node_totals nodes now m) × (held (node_totals nodes now m) ≡ held m)
  unfolding node_totals
  node_totals-held law [] now m h = (h, refl)
  node_totals-held law (node ∷ nodes) now m h =
      let one = with_node-held law node.id (normalize_traffic_counters node.traffic now) m h in
      let (counted, sum) = node_totals-held law nodes now _ one.0 in (counted, sum ∙ one.1)

  sample_totals-held :
      IsSum
      → (samples : List TrafficSample) (m : Dict NodeTraffic) → AreCounted m
      → AreGrowths g samples
      → held m + sum_of g samples < 9_223_372_036_854_775_808
      → AreCounted (sample_totals samples m)
        × (held (sample_totals samples m) ≡ held m + sum_of g samples)
  unfolding sample_totals
  sample_totals-held law [] m h k fits = (h, omega arith)
  sample_totals-held law (s ∷ samples) m h k fits =
      let old = get-part law s.node_id m h in
      let p = pos_part (part (get s.node_id m)) in
      let b = pos_part (g s) in
      let added : f (add_to_totals s (totals_or_none (get s.node_id m))) ≡ pos (p + b) =
        law.sample s (totals_or_none (get s.node_id m))
        ∙ ap (λ x. add64 x (g s)) old.0
        ∙ ap (add64 (pos p)) k.0
        ∙ add64_fits p b (omega (arith, old.1, fits)) in
      let e : NodeTraffic = record {
        node_id = s.node_id;
        totals = add_to_totals s (totals_or_none (get s.node_id m));
      } in
      let one = put-held law s.node_id e m h (added ∙ ap (λ x. pos (pos_part x)) (sym added)) in
      let sum : held (put s.node_id e m) ≡ held m + b = omega (arith, one.1, ap pos_part added) in
      let rest = sample_totals-held law samples _ one.0 k.1 (omega (arith, sum, fits)) in
      (rest.0, omega (arith, rest.1, sum))

  sum_totals-held :
      IsSum
      → (m : Dict NodeTraffic) (acc : TrafficTotals) (c : ℕ) → f acc ≡ pos c
      → AreCounted m
      → c + held m < 9_223_372_036_854_775_808
      → f (sum_totals (values m) acc) ≡ pos (c + held m)
  unfolding sum_totals values
  sum_totals-held law [] acc c is_c h fits = is_c ∙ ap pos (omega arith)
  sum_totals-held law ((k, e) ∷ m) acc c is_c h fits =
      let b = pos_part (f e.totals) in
      sum_totals-held law m _ (c + b)
        (law.entry acc e.totals
          ∙ ap (λ x. add64 x (f e.totals)) is_c
          ∙ ap (add64 (pos c)) h.0
          ∙ add64_fits c b (omega (arith, fits)))
        h.1 (omega (arith, fits))
      ∙ ap pos (omega arith)

  pub totals_of :
      IsSum
      → (samples : List TrafficSample) (nodes : List ServerNode) (now : Instant)
      → AreGrowths g samples
      → sum_of g samples < 9_223_372_036_854_775_808
      → f (sum_totals (values (sample_totals samples (node_totals nodes now []))) no_totals)
        ≡ pos (sum_of g samples)
  totals_of law samples nodes now h fits =
      let start = node_totals-held law nodes now [] tt in
      let done = sample_totals-held law samples _ start.0 h (omega (arith, start.1, fits)) in
      sum_totals-held law _ no_totals 0 law.nothing done.0 (omega (arith, done.1, start.1, fits))
      ∙ ap pos (omega (arith, done.1, start.1))

-- the deltas are sums
abbrev delta_in : TrafficTotals → ℤ
delta_in t = t.delta_in_bytes

abbrev delta_out : TrafficTotals → ℤ
delta_out t = t.delta_out_bytes

abbrev pub sample_in : TrafficSample → ℤ
sample_in s = s.delta_in_bytes

abbrev pub sample_out : TrafficSample → ℤ
sample_out s = s.delta_out_bytes
