-- ===== src/Balance/Examples.antt =====
-- Runs of the load balances of src/base/net/streams/load_balance.cc.
use agent_link_coro.Prelude.{
  ℕ, ◌%◌, ◌≡◌, refl, true, [], ◌∷◌, Option, none, some, arith, max, length, get_elem?, ◌<◌, ◌≤◌,
  ◌≢◌, ◌==◌, if◌then◌else◌,
}
use agent_link_coro.Prelude.Words.{add64}
use agent_link_coro.Outcome.{ok}
use agent_link_coro.Balance.{
  World, LoadBalance, round_robin, weight_based, find, valid_items, running_totals, extend,
  init_nolock, get_idx, upper_bound, scan, get_by_id, update, choice, get_in_turn, get_by_weight,
}
use agent_link_coro.Balance.Table.{
  find_last, first_some, has_key, handed_back, IsCurrent, update_lem,
}
use agent_link_coro.Balance.Stats.{HolderStats, HolderStatsSet, cleared, get_stats}
use agent_link_coro.Balance.Stats.Window.{get_stats_lem}
use agent_link_coro.Balance.Scan.{Scanned, get_in_turn_lem}
use agent_link_coro.Balance.Weights.{weight_sum, Chosen, get_by_weight_lem}

-- An item at address 11 whose stream is connected, and any other with a stream that is not.
abbrev net : World
net = record {
  item = λ p.
      if p == 11
      then record { id = 1; stream = some 5; weight = 3 }
      else record { id = 2; stream = some 6; weight = 0 };
  is_connected = λ s. s == 5;
}

abbrev by_weight : LoadBalance
by_weight = record { kind = weight_based; datas = (1, 11) ∷ (2, 12) ∷ []; items = []; weights = [] }

abbrev in_turn : LoadBalance
in_turn = record {
  kind = round_robin;
  datas = (1, 11) ∷ (2, 12) ∷ [];
  items = 12 ∷ 11 ∷ [];
  weights = [];
}

-- Both items connected, with weights 3 and 2, when initNolock runs; and later, when the second has
-- lost its stream.
abbrev before : World
before = record {
  item = λ p. record { id = p; stream = some p; weight = if p == 11 then 3 else 2 };
  is_connected = λ s. true;
}

abbrev later : World
later = record before { is_connected = λ s. s == 11 }

get_in_turn_lem_example :
    (o : Option ℕ) × (get_in_turn net in_turn 4 9 ≡ ok o)
    × Scanned net (12 ∷ 11 ∷ []) (choice 4 9 % 2) o
get_in_turn_lem_example = get_in_turn_lem net in_turn 4 9 (omega arith)

-- The number 4 falls in the share of the second item, and the search goes on to the first.
get_by_weight_moves_on : get_by_weight later (init_nolock before by_weight) 4 0 ≡ ok (some 11)
unfolding get_by_weight init_nolock valid_items running_totals extend get_idx upper_bound scan add64
get_by_weight_moves_on = refl

get_by_weight_lem_example :
    (i : ℕ) × (o : Option ℕ) × (get_by_weight later (init_nolock before by_weight) 4 0 ≡ ok o)
    × Chosen before
        (valid_items before by_weight.datas)
        (choice 4 0 % weight_sum before (valid_items before by_weight.datas))
        i
    × Scanned later (valid_items before by_weight.datas) i o
unfolding valid_items
get_by_weight_lem_example =
    get_by_weight_lem before by_weight refl (omega arith, (omega arith, tt)) (omega arith)
      (omega arith) later 4 0

update_lem_example :
    ((id : ℕ)
      → get_by_id (update net in_turn ((3, 12) ∷ []) ((1, 0) ∷ [])).0 id
        ≡ first_some
            (find_last id ((3, 12) ∷ []))
            (if has_key id ((1, 0) ∷ []) then none else get_by_id in_turn id))
    × ((id : ℕ)
        → find id (update net in_turn ((3, 12) ∷ []) ((1, 0) ∷ [])).1
          ≡ handed_back (find id ((1, 0) ∷ [])) (get_by_id in_turn id))
    × IsCurrent net (update net in_turn ((3, 12) ∷ []) ((1, 0) ∷ [])).0
update_lem_example = update_lem net in_turn ((3, 12) ∷ []) ((1, 0) ∷ [])

abbrev busy : HolderStats
busy = record { used_time = 40; total = 3; doing = 1; timeouts = 0; oks = 2; errs = 0 }

-- The counters of three seconds, last used in second 10.
abbrev three_seconds : HolderStatsSet
three_seconds = record { last_update_time = 10; stats = busy ∷ busy ∷ busy ∷ [] }

get_stats_lem_example :
    (s' : HolderStatsSet) × (get_stats three_seconds 12 ≡ ok (s', 12 % 3))
    × (s'.last_update_time ≡ max 10 12)
    × (length s'.stats ≡ 3)
    × ((t : ℕ) → 10 < t → t ≤ 12 → get_elem? s'.stats (t % 3) ≡ some cleared)
    × ((j : ℕ)
        → ((u : ℕ) → 10 < u → u ≤ 12 → u % 3 ≢ j)
        → get_elem? s'.stats j ≡ get_elem? (busy ∷ busy ∷ busy ∷ []) j)
get_stats_lem_example = get_stats_lem three_seconds 12 (omega arith) (omega arith)
