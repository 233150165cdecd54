-- ===== src/Balance/Stats.antt =====
-- The counters of src/base/net/streams/load_balance.cc: HolderStats, and HolderStatsSet, which keeps
-- one for each of the last seconds.
pub mod Window
use agent_link_coro.Prelude.{
  ℕ, zero, suc, ◌+◌, ◌%◌, ◌^◌, Bool, true, false, List, [], ◌∷◌, Option, none, some, ltb, leb, ◌==◌,
  if◌then◌else◌, length, replicate,
}
use agent_link_coro.Outcome.{Outcome, ok, fault}

-- class HolderStats
pub record HolderStats : Type 0 where
  pub used_time : ℕ
  pub total : ℕ
  pub doing : ℕ
  pub timeouts : ℕ
  pub oks : ℕ
  pub errs : ℕ

-- A new HolderStats, and what HolderStats::clear leaves.
abbrev pub cleared : HolderStats
cleared = record { used_time = 0; total = 0; doing = 0; timeouts = 0; oks = 0; errs = 0 }

abbrev add32 : ℕ → ℕ → ℕ
add32 a b = (a + b) % 2 ^ 32

-- HolderStats::add
unfoldable pub add_stats : HolderStats → HolderStats → HolderStats
add_stats a b = record {
  used_time = add32 a.used_time b.used_time;
  total = add32 a.total b.total;
  doing = add32 a.doing b.doing;
  timeouts = add32 a.timeouts b.timeouts;
  oks = add32 a.oks b.oks;
  errs = add32 a.errs b.errs;
}

-- class HolderStatsSet
pub record HolderStatsSet : Type 0 where
  pub last_update_time : ℕ
  pub stats : List HolderStats

-- HolderStatsSet::HolderStatsSet
unfoldable pub new_holder_stats_set : ℕ → HolderStatsSet
new_holder_stats_set size = record { last_update_time = 0; stats = replicate size cleared }

-- The loop of HolderStatsSet::getTotal, from `rt` on.
unfoldable pub get_total : HolderStats → List HolderStats → HolderStats
unfolding add_stats
get_total rt [] = rt
get_total rt (i ∷ rest) = get_total (add_stats rt i) rest

-- m_stats[i].clear()
abbrev pub clear_at : ℕ → List HolderStats → List HolderStats
clear_at i [] = []
clear_at zero (s ∷ rest) = cleared ∷ rest
clear_at (suc i) (s ∷ rest) = s ∷ clear_at i rest

-- The loop of HolderStatsSet::init with `left` rounds until i reaches the size.
unfoldable pub clear_loop : ℕ → ℕ → ℕ → List HolderStats → List HolderStats
clear_loop zero t now stats = stats
clear_loop (suc left) t now stats =
    let rest = clear_loop left ((t + 1) % 2 ^ 32) now (clear_at (t % length stats) stats) in
    if leb t now then rest else stats

-- HolderStatsSet::init
unfoldable pub init_stats : HolderStatsSet → ℕ → HolderStatsSet
unfolding clear_loop
init_stats s now =
    if ltb s.last_update_time now
    then record {
      last_update_time = now;
      stats = clear_loop (length s.stats) ((s.last_update_time + 1) % 2 ^ 32) now s.stats;
    }
    else s

-- HolderStatsSet::get: the set, and the index of the element that the reference is to. A remainder
-- by 0 is a fault.
unfoldable pub get_stats : HolderStatsSet → ℕ → Outcome (HolderStatsSet × ℕ)
unfolding init_stats
get_stats s now = if length s.stats == 0 then fault else ok (init_stats s now, now % length s.stats)
