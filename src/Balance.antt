-- ===== src/Balance.antt =====
-- src/base/net/streams/load_balance.h and load_balance.cc: the table of the items of a service, and
-- the choice of one of them in turn or by weight. A LoadBalanceItem::ptr is an address, since the
-- items are shared and change under the table; whether the socket of a stream is connected is an
-- argument, as rand() is.
pub mod Table
pub mod Scan
pub mod Weights
pub mod Stats
mod Examples
use agent_link_coro.Prelude.{
  ℕ, zero, suc, ◌+◌, ◌-◌, ◌%◌, ◌^◌, Bool, true, false, List, [], ◌∷◌, ◌++◌, Option, none, some, ltb,
  ◌==◌, if◌then◌else◌, length, get_elem?,
}
use agent_link_coro.Prelude.Words.{add64}
use agent_link_coro.Outcome.{Outcome, ok, fault, ◌>>=◌}

-- class LoadBalanceItem: m_id, m_stream, and m_weight as an int32_t bit pattern.
pub record Item : Type 0 where
  pub id : ℕ
  pub stream : Option ℕ
  pub weight : ℕ

-- The items by address, and which streams are connected.
pub record World : Type 0 where
  pub item : ℕ → Item
  pub is_connected : ℕ → Bool

abbrev pub stream_valid : World → Option ℕ → Bool
stream_valid w none = false
stream_valid w (some s) = w.is_connected s

-- LoadBalanceItem::isValid
abbrev pub is_valid : World → ℕ → Bool
is_valid w p = stream_valid w (w.item p).stream

-- RoundRobinLoadBalance and WeightLoadBalance, which differ in initNolock and get.
pub data Kind : Type 0 where
  round_robin weight_based : Kind

-- m_datas, in the order in which it is walked; m_items; m_weights as int64_t bit patterns.
pub record LoadBalance : Type 0 where
  pub kind : Kind
  pub datas : List (ℕ × ℕ)
  pub items : List ℕ
  pub weights : List ℕ

-- m_datas.find
unfoldable pub find : ℕ → List (ℕ × ℕ) → Option ℕ
find id [] = none
find id ((k, p) ∷ rest) = if k == id then some p else find id rest

-- m_datas[id] = p: a new key comes last.
unfoldable pub assign : ℕ → ℕ → List (ℕ × ℕ) → List (ℕ × ℕ)
assign id p [] = (id, p) ∷ []
assign id p ((k, q) ∷ rest) = if k == id then (k, p) ∷ rest else (k, q) ∷ assign id p rest

-- m_datas.erase
unfoldable pub erase : ℕ → List (ℕ × ℕ) → List (ℕ × ℕ)
erase id [] = []
erase id ((k, p) ∷ rest) = if k == id then erase id rest else (k, p) ∷ erase id rest

-- The first loop of initNolock: the items of the table that are valid.
unfoldable pub valid_items : World → List (ℕ × ℕ) → List ℕ
valid_items w [] = []
valid_items w ((k, p) ∷ rest) = if is_valid w p then p ∷ valid_items w rest else valid_items w rest

-- An int32_t converted to int64_t.
unfoldable pub extend : ℕ → ℕ
extend v = if ltb v (2 ^ 31) then v else v + 2 ^ 64 - 2 ^ 32

-- The second loop of WeightLoadBalance::initNolock: the running totals, from `total` on.
unfoldable pub running_totals : World → ℕ → List ℕ → List ℕ
unfolding extend
running_totals w total [] = []
running_totals w total (p ∷ ps) =
    let total' = add64 total (extend (w.item p).weight) in total' ∷ running_totals w total' ps

-- initNolock of either class
unfoldable pub init_nolock : World → LoadBalance → LoadBalance
unfolding valid_items running_totals
init_nolock w b =
    let items = valid_items w b.datas in
    elim b.kind [
      | round_robin ↦ record b { items = items }
      | weight_based ↦ record b { items = items; weights = running_totals w 0 items }
    ]

-- getById
abbrev pub get_by_id : LoadBalance → ℕ → Option ℕ
get_by_id b id = find id b.datas

-- add
unfoldable pub add : World → LoadBalance → ℕ → LoadBalance
unfolding assign init_nolock
add w b v = init_nolock w (record b { datas = assign (w.item v).id v b.datas })

-- del
unfoldable pub del : World → LoadBalance → ℕ → LoadBalance
unfolding erase init_nolock
del w b v = init_nolock w (record b { datas = erase (w.item v).id b.datas })

abbrev pub or_else : Option ℕ → ℕ → ℕ
or_else none q = q
or_else (some p) q = p

-- The first loop of update: the table without the keys of `dels`, and `dels` with the items found.
unfoldable pub take_out : List (ℕ × ℕ) → List (ℕ × ℕ) → List (ℕ × ℕ) × List (ℕ × ℕ)
unfolding find erase
take_out datas [] = (datas, [])
take_out datas ((k, q) ∷ dels) =
    let (datas', dels') = take_out (erase k datas) dels in
    (datas', (k, or_else (find k datas) q) ∷ dels')

-- The second loop of update.
unfoldable pub put_in : List (ℕ × ℕ) → List (ℕ × ℕ) → List (ℕ × ℕ)
unfolding assign
put_in datas [] = datas
put_in datas ((k, p) ∷ adds) = put_in (assign k p datas) adds

-- update: the load balance, and `dels` afterwards.
unfoldable pub update :
    World → LoadBalance → List (ℕ × ℕ) → List (ℕ × ℕ) → LoadBalance × List (ℕ × ℕ)
unfolding take_out put_in init_nolock
update w b adds dels =
    let (datas, dels') = take_out b.datas dels in
    (init_nolock w (record b { datas = put_in datas adds }), dels')

abbrev pub with_id : World → List ℕ → List (ℕ × ℕ)
with_id w [] = []
with_id w (p ∷ ps) = ((w.item p).id, p) ∷ with_id w ps

-- set
unfoldable pub set : World → LoadBalance → List ℕ → LoadBalance
unfolding put_in init_nolock
set w b vs = init_nolock w (record b { datas = put_in [] (with_id w vs) })

abbrev pub or_fault : Option ℕ → Outcome ℕ
or_fault none = fault
or_fault (some p) = ok p

-- m_items[i]; behind the end is a fault.
abbrev pub item_at : List ℕ → ℕ → Outcome ℕ
item_at items i = or_fault (get_elem? items i)

-- The loop of both get functions, with `left` rounds to go from round `i` on: the first valid item
-- from position `r` on, round the end.
unfoldable pub scan : World → List ℕ → ℕ → ℕ → ℕ → Outcome (Option ℕ)
scan w items r zero i = ok none
scan w items r (suc left) i =
    let later = scan w items r left (suc i) in
    item_at items (add64 r i % length items) >>= λ h. if is_valid w h then ok (some h) else later

-- `v == (uint64_t)-1 ? rand() : v`
abbrev pub choice : ℕ → ℕ → ℕ
choice v random = if v == 2 ^ 64 - 1 then random else v

-- RoundRobinLoadBalance::get
unfoldable pub get_in_turn : World → LoadBalance → ℕ → ℕ → Outcome (Option ℕ)
unfolding scan
get_in_turn w b v random =
    if length b.items == 0
    then ok none
    else scan w b.items (choice v random % length b.items % 2 ^ 32) (length b.items) 0

-- std::upper_bound on weights in order: the number of those up to `dis`.
unfoldable pub upper_bound : List ℕ → ℕ → ℕ
upper_bound [] dis = 0
upper_bound (x ∷ xs) dis = if ltb dis x then 0 else suc (upper_bound xs dis)

-- *m_weights.rbegin()
abbrev pub last_or : ℕ → List ℕ → ℕ
last_or d [] = d
last_or d (x ∷ xs) = last_or x xs

-- WeightLoadBalance::getIdx, as an int32_t bit pattern. The operands of `%` and of the comparison
-- are unsigned, since one of them is; a remainder by 0 and a failing _ASSERT are a fault.
unfoldable pub get_idx : LoadBalance → ℕ → ℕ → Outcome ℕ
unfolding upper_bound
get_idx b v random =
    let total = last_or 0 b.weights in
    let idx = upper_bound b.weights (choice v random % total) in
    if length b.weights == 0
    then ok (2 ^ 32 - 1)
    else if total == 0
    then fault
    else if idx == length b.weights
    then fault
    else ok (idx % 2 ^ 32)

-- WeightLoadBalance::get
unfoldable pub get_by_weight : World → LoadBalance → ℕ → ℕ → Outcome (Option ℕ)
unfolding get_idx scan extend
get_by_weight w b v random = do
  idx ← get_idx b v random
  if idx == 2 ^ 32 - 1 then ok none else scan w b.items (extend idx) (length b.items) 0
