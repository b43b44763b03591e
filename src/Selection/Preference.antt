-- ===== src/Selection/Preference.antt =====
-- The comparator of sortNodesByPreference is a strict weak order in which only nodes of one
-- identifier tie, so that the order in which a map hands out its nodes does not matter.
use frp_cluster.Base.{
  ◌≡◌, refl, sym, ◌∙◌, Bool, true, false, not, ℤ, pos, int_lt, int_eq, arith, [], ◌∷◌,
  if◌then◌else◌,
}
use frp_cluster.Sort.{IsWeakOrder, keyed, keyed-IsWeakOrder}
use frp_cluster.Text.{Text, text_lt}
use frp_cluster.Types.{ServerNode}
use frp_cluster.Selection.{prefers}

text_lt_asymm : (a b : Text) → text_lt a b ≡ true → text_lt b a ≡ false
unfolding text_lt
text_lt_asymm [] [] h = refl
text_lt_asymm [] (y ∷ ys) h = refl
text_lt_asymm (x ∷ xs) [] h = ground (arith, h)
text_lt_asymm (x ∷ xs) (y ∷ ys) h = ground (arith, text_lt_asymm xs ys)

text_lt_trans : (a b c : Text) → text_lt b a ≡ false → text_lt c b ≡ false → text_lt c a ≡ false
unfolding text_lt
text_lt_trans [] [] c h k = k
text_lt_trans [] (y ∷ ys) [] h k = refl
text_lt_trans [] (y ∷ ys) (z ∷ zs) h k = refl
text_lt_trans (x ∷ xs) [] c h k = ground (arith, h)
text_lt_trans (x ∷ xs) (y ∷ ys) [] h k = ground (arith, k)
text_lt_trans (x ∷ xs) (y ∷ ys) (z ∷ zs) h k = ground (arith, text_lt_trans xs ys zs)

pub text_lt-IsWeakOrder : IsWeakOrder text_lt
text_lt-IsWeakOrder = record { asymm = text_lt_asymm; trans = text_lt_trans }

-- neither is less than the other only where they are one text
pub text_lt_antisymm : (a b : Text) → text_lt a b ≡ false → text_lt b a ≡ false → a ≡ b
unfolding text_lt
text_lt_antisymm [] [] h k = refl
text_lt_antisymm [] (y ∷ ys) h k = ground arith
text_lt_antisymm (x ∷ xs) [] h k = ground arith
text_lt_antisymm (x ∷ xs) (y ∷ ys) h k = ground (arith, text_lt_antisymm xs ys)

int_lt_asymm : (a b : ℤ) → int_lt a b ≡ true → int_lt b a ≡ false
unfolding int_lt
int_lt_asymm a b h = ground arith

int_lt_trans : (a b c : ℤ) → int_lt b a ≡ false → int_lt c b ≡ false → int_lt c a ≡ false
unfolding int_lt
int_lt_trans a b c h k = ground arith

pub int_lt-IsWeakOrder : IsWeakOrder int_lt
int_lt-IsWeakOrder = record { asymm = int_lt_asymm; trans = int_lt_trans }

-- the opposite order
abbrev int_gt : ℤ → ℤ → Bool
int_gt a b = int_lt b a

int_gt-IsWeakOrder : IsWeakOrder int_gt
int_gt-IsWeakOrder = record {
  asymm = λ a b. int_lt_asymm b a;
  trans = λ a b c h k. int_lt_trans c b a k h;
}

-- latencies, an unknown one (0) last
latency_lt : ℤ → ℤ → Bool
latency_lt a b = if int_eq a (pos 0) then false else if int_eq b (pos 0) then true else int_lt a b

latency_lt_asymm : (a b : ℤ) → latency_lt a b ≡ true → latency_lt b a ≡ false
unfolding latency_lt int_lt int_eq
latency_lt_asymm a b h = ground arith

latency_lt_trans :
    (a b c : ℤ) → latency_lt b a ≡ false → latency_lt c b ≡ false → latency_lt c a ≡ false
unfolding latency_lt int_lt int_eq
latency_lt_trans a b c h k = ground arith

latency_lt-IsWeakOrder : IsWeakOrder latency_lt
latency_lt-IsWeakOrder = record { asymm = latency_lt_asymm; trans = latency_lt_trans }

-- a test for equal keys and then for order, as a comparison by key
int_step :
    (a b : ℤ) (rest : Bool)
    → (if not (int_eq a b) then int_lt a b else rest)
      ≡ (if int_lt a b then true else if int_lt b a then false else rest)
unfolding int_eq int_lt
int_step a b rest = ground arith

int_step_gt :
    (a b : ℤ) (rest : Bool)
    → (if not (int_eq a b) then int_lt b a else rest)
      ≡ (if int_lt b a then true else if int_lt a b then false else rest)
unfolding int_eq int_lt
int_step_gt a b rest = ground arith

latency_step :
    (a b : ℤ) (rest : Bool)
    → (if not (int_eq a b)
        then if int_eq a (pos 0) then false else if int_eq b (pos 0) then true else int_lt a b
        else rest)
      ≡ (if latency_lt a b then true else if latency_lt b a then false else rest)
unfolding int_eq int_lt latency_lt
latency_step a b rest = ground arith

-- the comparator, key by key
abbrev preference : ServerNode → ServerNode → Bool
preference =
    keyed int_gt (λ n. n.network.score)
      (keyed int_lt (λ n. n.client_count)
        (keyed int_lt (λ n. n.proxy_count)
          (keyed latency_lt (λ n. n.network.latency_ms)
            (keyed int_gt (λ n. n.network.bandwidth_bps) (λ a b. text_lt a.id b.id)))))

prefers-eq : (a b : ServerNode) → prefers a b ≡ preference a b
unfolding prefers
prefers-eq a b = rw (int_step_gt, int_step, int_step, latency_step, int_step_gt)

preference-IsWeakOrder : IsWeakOrder preference
preference-IsWeakOrder = keyed-IsWeakOrder _ int_gt-IsWeakOrder (
    keyed-IsWeakOrder _ int_lt-IsWeakOrder (
      keyed-IsWeakOrder _ int_lt-IsWeakOrder (
        keyed-IsWeakOrder _ latency_lt-IsWeakOrder (
          keyed-IsWeakOrder _ int_gt-IsWeakOrder (record {
            asymm = λ a b. text_lt_asymm a.id b.id;
            trans = λ a b c. text_lt_trans a.id b.id c.id;
          })))))

prefers_asymm : (a b : ServerNode) → prefers a b ≡ true → prefers b a ≡ false
prefers_asymm a b h = prefers-eq b a ∙ preference-IsWeakOrder.asymm a b (sym (prefers-eq a b) ∙ h)

prefers_trans :
    (a b c : ServerNode) → prefers b a ≡ false → prefers c b ≡ false → prefers c a ≡ false
prefers_trans a b c h k =
    prefers-eq c a
    ∙ preference-IsWeakOrder.trans a b c (sym (prefers-eq b a) ∙ h) (sym (prefers-eq c b) ∙ k)

preference_tie : (a b : ServerNode) → preference a b ≡ false → preference b a ≡ false → a.id ≡ b.id
preference_tie a b h k = ground (arith, text_lt_antisymm a.id b.id)

-- The comparator is a strict weak order, as `sort.Slice` demands, and of two nodes with different
-- identifiers it puts exactly one first.
pub prefers-IsWeakOrder :
    IsWeakOrder prefers
    × ((a b : ServerNode) → prefers a b ≡ false → prefers b a ≡ false → a.id ≡ b.id)
prefers-IsWeakOrder = (
  record { asymm = prefers_asymm; trans = prefers_trans },
  λ a b h k. preference_tie a b (sym (prefers-eq a b) ∙ h) (sym (prefers-eq b a) ∙ k),
)
