-- ===== src/Balance/Weights.antt =====
-- The choice by weight of src/base/net/streams/load_balance.cc: every item gets a share of the
-- numbers below the total that is as large as its weight.
use agent_link_coro.Prelude.{
  ℕ, suc, ◌+◌, ◌-◌, ◌*◌, ◌%◌, ◌^◌, ◌≤◌, ◌<◌, ◌≡◌, refl, ap, ◌∙◌, false, List, [], ◌∷◌, Option, some,
  arith, ltb, ◌==◌, length, get_elem?, take, All, inl, inr, Bool-cases, lt→ltb, ltb→lt, ltb→le,
  ne→==,
}
use native.Mathlib.Nat.{mod-lt, mod-eq_of_lt}
use agent_link_coro.Prelude.Words.{add64, add64_no_wrap, IsU64}
use agent_link_coro.Outcome.{ok, fault}
use agent_link_coro.Balance.{
  World, LoadBalance, weight_based, extend, valid_items, running_totals, init_nolock, choice,
  last_or, upper_bound, get_idx, get_by_weight,
}
use agent_link_coro.Balance.Scan.{get_elem_bound, scan_lem, Scanned}

abbrev pub weight_sum : World → List ℕ → ℕ
weight_sum w [] = 0
weight_sum w (p ∷ ps) = (w.item p).weight + weight_sum w ps

-- The weights are not negative.
abbrev pub AreWeights : World → List ℕ → Type 0
AreWeights w = All (λ p. (w.item p).weight < 2 ^ 31)

extend_lem : (v : ℕ) → v < 2 ^ 31 → extend v ≡ v
unfolding extend
extend_lem v h = rw (lt→ltb v (2 ^ 31) h) refl

weight_sum-le : (w : World) (ps : List ℕ) → AreWeights w ps → weight_sum w ps ≤ length ps * 2 ^ 31
weight_sum-le w [] h = omega arith
weight_sum-le w (p ∷ ps) (h, hs) = omega (arith, weight_sum-le w ps hs)

length-running_totals :
    (w : World) (t : ℕ) (ps : List ℕ) → length (running_totals w t ps) ≡ length ps
unfolding running_totals
length-running_totals w t [] = refl
length-running_totals w t (p ∷ ps) =
    ap suc (length-running_totals w (add64 t (extend (w.item p).weight)) ps)

step_lem :
    (w : World) (t p s : ℕ)
    → (w.item p).weight < 2 ^ 31
    → IsU64 (t + ((w.item p).weight + s))
    → add64 t (extend (w.item p).weight) ≡ t + (w.item p).weight
step_lem w t p s h small =
    rw (extend_lem (w.item p).weight h) (add64_no_wrap t (w.item p).weight (omega (arith, small)))

last-running_totals :
    (w : World) (t : ℕ) (ps : List ℕ)
    → AreWeights w ps
    → IsU64 (t + weight_sum w ps)
    → last_or t (running_totals w t ps) ≡ t + weight_sum w ps
unfolding running_totals
last-running_totals w t [] h small = omega arith
last-running_totals w t (p ∷ ps) (h, hs) small =
    rw (step_lem w t p (weight_sum w ps) h small)
      (last-running_totals w (t + (w.item p).weight) ps hs (omega (arith, small)) ∙ omega arith)

-- The item in whose share `dis` falls: the weights before it sum up to at most `dis`, and with its
-- own to more.
abbrev pub Chosen : World → List ℕ → ℕ → ℕ → Type 0
Chosen w items dis i =
    (p : ℕ) × (get_elem? items i ≡ some p)
    × (weight_sum w (take i items) ≤ dis)
    × (dis < weight_sum w (take i items) + (w.item p).weight)

upper_bound_share :
    (w : World) (t : ℕ) (ps : List ℕ) (d : ℕ)
    → AreWeights w ps
    → IsU64 (t + weight_sum w ps)
    → t ≤ d
    → d < t + weight_sum w ps
    → let i = upper_bound (running_totals w t ps) d in
      (p : ℕ) × (get_elem? ps i ≡ some p)
      × (t + weight_sum w (take i ps) ≤ d)
      × (d < t + (weight_sum w (take i ps) + (w.item p).weight))
unfolding running_totals upper_bound
upper_bound_share w t [] d h small le lt = absurd (omega arith)
upper_bound_share w t (p ∷ ps) d (h, hs) small le lt =
    let x = (w.item p).weight in
    rw (step_lem w t p (weight_sum w ps) h small) (elim (Bool-cases (ltb d (t + x))) [
      | inl e ↦ let below = ltb→lt d (t + x) e in rw e (p, refl, omega arith, omega (arith, below))
      | inr e ↦
          let above = ltb→le d (t + x) e in
          let (q, at, lo, hi) =
            upper_bound_share w (t + x) ps d hs (omega (arith, small)) above (omega (arith, lt)) in
          rw e (q, at, omega (arith, lo), omega (arith, hi))
    ])

module _ (w : World) (b : LoadBalance) (kind : b.kind ≡ weight_based)
    (weights : AreWeights w (valid_items w b.datas))
    (some_weight : 0 < weight_sum w (valid_items w b.datas))
    (few : length (valid_items w b.datas) < 2 ^ 31) where
  -- WeightLoadBalance::getIdx after initNolock, with fewer than 2 ^ 31 items of weights that are not
  -- negative and not all 0: the index of the item in whose share the number chosen, reduced modulo
  -- the sum of all weights, falls. So each item has as many of these numbers as its weight says.
  pub get_idx-Chosen :
      (v random : ℕ)
      → let items = valid_items w b.datas in
        (i : ℕ) × (get_idx (init_nolock w b) v random ≡ ok i)
        × Chosen w items (choice v random % weight_sum w items) i
  unfolding get_idx init_nolock
  get_idx-Chosen v random =
      let items = valid_items w b.datas in
      let most = weight_sum-le w items weights in
      let sum_small : IsU64 (0 + weight_sum w items) = omega (arith, most, few) in
      let last : last_or 0 (running_totals w 0 items) ≡ weight_sum w items =
        last-running_totals w 0 items weights sum_small ∙ omega arith in
      let d = choice v random % weight_sum w items in
      let (p, at, lo, hi) =
        upper_bound_share w 0 items d weights sum_small (omega arith)
          (omega (arith, mod-lt (choice v random) some_weight)) in
      let idx = upper_bound (running_totals w 0 items) d in
      let bound : idx < length items = get_elem_bound items idx p at in
      let nonempty : (length items == 0) ≡ false =
        ne→== (length items) 0 (λ e. omega (arith, bound)) in
      let total : (weight_sum w items == 0) ≡ false =
        ne→== (weight_sum w items) 0 (λ e. omega (arith, some_weight)) in
      let inside : (idx == length items) ≡ false =
        ne→== idx (length items) (λ e. omega (arith, bound)) in
      let fits : idx < 2 ^ 32 = omega (arith, bound, few) in
      rw (kind, last, length-running_totals w 0 items, nonempty, total, inside, mod-eq_of_lt fits)
        (idx, refl, (p, at, omega (arith, lo), omega (arith, hi)))

  -- WeightLoadBalance::get at any time after initNolock, with fewer than 2 ^ 31 items of weights that
  -- are not negative and not all 0, and with streams that have connected or closed in between as they
  -- may: it gives the first item that is now valid at the index in whose share of the weights the
  -- number falls or behind it, round the end, and none only where no item of the list that initNolock
  -- made is valid any more.
  pub get_by_weight_lem :
      (now : World) (v random : ℕ)
      → let items = valid_items w b.datas in
        (i : ℕ) × (o : Option ℕ) × (get_by_weight now (init_nolock w b) v random ≡ ok o)
        × Chosen w items (choice v random % weight_sum w items) i
        × Scanned now items i o
  unfolding get_by_weight init_nolock
  get_by_weight_lem now v random =
      let items = valid_items w b.datas in
      let (i, got, c) = get_idx-Chosen v random in
      let bound : i < length items = get_elem_bound items i c.0 c.1 in
      let (o, done, found) =
        scan_lem now items i bound (omega (arith, bound, few)) (length items) 0 (omega arith)
          (λ j p below. absurd (omega arith)) in
      let not_minus : (i == (2 ^ 32 - 1)) ≡ false =
        ne→== i (2 ^ 32 - 1) (λ e. omega (arith, bound, few)) in
      let small : i < 2 ^ 31 = omega (arith, bound, few) in
      rw (got, not_minus, extend_lem i small, kind, done) (i, o, refl, c, found)

-- Where there are items and the weights of all of them are 0, WeightLoadBalance::getIdx after
-- initNolock divides by 0.
pub get_idx_fault :
    (w : World) (b : LoadBalance) (v random : ℕ)
    → b.kind ≡ weight_based
    → 0 < length (valid_items w b.datas)
    → All (λ p. (w.item p).weight ≡ 0) (valid_items w b.datas)
    → get_idx (init_nolock w b) v random ≡ fault
unfolding get_idx init_nolock
get_idx_fault w b v random kind nonempty zeros =
    let items = valid_items w b.datas in
    let (are, sum) = zero_weights w items zeros in
    let total : last_or 0 (running_totals w 0 items) ≡ 0 =
      last-running_totals w 0 items are (omega (arith, sum)) ∙ omega (arith, sum) in
    let positive : (length items == 0) ≡ false =
      ne→== (length items) 0 (λ e. omega (arith, nonempty)) in
    rw (kind, total, length-running_totals w 0 items, positive) refl
  where
    zero_weights :
        (w : World) (ps : List ℕ)
        → All (λ p. (w.item p).weight ≡ 0) ps
        → AreWeights w ps × (weight_sum w ps ≡ 0)
    zero_weights w [] h = (tt, refl)
    zero_weights w (p ∷ ps) (h, hs) =
        let (are, sum) = zero_weights w ps hs in ((omega (arith, h), are), omega (arith, h, sum))
