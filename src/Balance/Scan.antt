-- ===== src/Balance/Scan.antt =====
-- The search of both get functions of src/base/net/streams/load_balance.cc, and the choice in turn.
use agent_link_coro.Prelude.{
  ℕ, zero, suc, ◌+◌, ◌-◌, ◌%◌, ◌^◌, ◌<◌, ◌≡◌, refl, sym, ap, ◌∙◌, true, false, List, [], ◌∷◌,
  Option, none, some, arith, ltb, ◌==◌, length, get_elem?, inl, inr, Bool-cases, ==_iff, leb,
  leb→le, leb→lt, ltb→lt, ltb→le,
}
use native.Mathlib.Nat.{mod-lt, mod-eq_of_lt}
use agent_link_coro.Prelude.Words.{add64_no_wrap, IsU64}
use agent_link_coro.Prelude.Blocks.{mod_of_block}
use agent_link_coro.Outcome.{ok}
use agent_link_coro.Balance.{or_fault, World, LoadBalance, is_valid, scan, choice, get_in_turn}

pub get_elem_some : (xs : List ℕ) (i : ℕ) → i < length xs → (p : ℕ) × (get_elem? xs i ≡ some p)
get_elem_some [] i h = absurd (omega arith)
get_elem_some (x ∷ xs) zero h = (x, refl)
get_elem_some (x ∷ xs) (suc i) h = get_elem_some xs i (omega arith)

pub get_elem_bound : (xs : List ℕ) (i p : ℕ) → get_elem? xs i ≡ some p → i < length xs
get_elem_bound [] i p h = cc
get_elem_bound (x ∷ xs) zero p h = omega arith
get_elem_bound (x ∷ xs) (suc i) p h = let b = get_elem_bound xs i p h in omega (arith, b)

-- What a search from position `r` on says: nothing, where no item is valid; else the first valid
-- item that comes at `r` or behind it, round the end.
abbrev pub Scanned : World → List ℕ → ℕ → Option ℕ → Type 0
Scanned w items r none = (q p : ℕ) → get_elem? items q ≡ some p → is_valid w p ≡ false
Scanned w items r (some h) =
    (is_valid w h ≡ true)
    × (k : ℕ) × (k < length items)
    × (get_elem? items ((r + k) % length items) ≡ some h)
    × ((j p : ℕ) → j < k → get_elem? items ((r + j) % length items) ≡ some p → is_valid w p ≡ false)

-- Every position is met, going round from `r`.
round_to : (n r q : ℕ) → r < n → q < n → (j : ℕ) × (j < n) × ((r + j) % n ≡ q)
round_to n r q hr hq = elim (Bool-cases (leb r q)) [
  | inl e ↦
      let le = leb→le r q e in
      let s : r + (q - r) ≡ q = omega arith in
      (
        q - r,
        omega arith,
        ap (λ z. z % n) s ∙ mod_of_block n 0 q (omega arith) (omega arith) ∙ omega arith,
      )
  | inr e ↦
      let lt = leb→lt r q e in
      let s : r + (q + n - r) ≡ q + n = omega arith in
      (
        q + n - r,
        omega arith,
        ap (λ z. z % n) s ∙ mod_of_block n 1 (q + n) (omega arith) (omega arith) ∙ omega arith,
      )
]

some-injective : {p q : ℕ} → ◌≡◌ {A = Option ℕ} (some p) (some q) → p ≡ q
some-injective e = cc

module _ (w : World) (items : List ℕ) (r : ℕ) (r_lt : r < length items)
    (small : IsU64 (r + length items)) where
  pub scan_lem :
      (left i : ℕ)
      → left + i ≡ length items
      → ((j p : ℕ)
          → j < i
          → get_elem? items ((r + j) % length items) ≡ some p
          → is_valid w p ≡ false)
      → (o : Option ℕ) × (scan w items r left i ≡ ok o) × Scanned w items r o
  unfolding scan
  scan_lem zero i h seen = (
    none,
    refl,
    λ q p e.
        let (j, lt, at) = round_to (length items) r q r_lt (get_elem_bound items q p e) in
        seen j p (omega arith) (ap (get_elem? items) at ∙ e),
  )
  scan_lem (suc left) i h seen =
      let n = length items in
      let no_wrap = add64_no_wrap r i (omega (arith, small)) in
      let (p, e) = get_elem_some items ((r + i) % n) (mod-lt (r + i) (omega arith)) in
      let found : or_fault (get_elem? items ((r + i) % n)) ≡ ok p = ap or_fault e in
      rw (no_wrap, found)
        (elim (Bool-cases (is_valid w p)) [
          | inl v ↦ rw v (some p, refl, (v, i, omega arith, e, seen))
          | inr v ↦ rw v (
              scan_lem left (suc i) (omega arith) (λ j q lt eq. elim (Bool-cases (ltb j i)) [
                | inl below ↦ seen j q (ltb→lt j i below) eq
                | inr above ↦
                    let same : j ≡ i = omega (arith, ltb→le j i above) in
                    let one : some q ≡ some p =
                      sym eq ∙ ap (λ z. get_elem? items ((r + z) % n)) same ∙ e in
                    ap (is_valid w) (some-injective one) ∙ v
              ]))
        ])

-- RoundRobinLoadBalance::get on fewer than 2 ^ 32 items: with no item it gives none, and else what
-- the search from the position chosen says: the first valid item there or behind it, round the end,
-- and none only where no item is valid.
pub get_in_turn_lem :
    (w : World) (b : LoadBalance) (v random : ℕ)
    → length b.items < 2 ^ 32
    → (o : Option ℕ) × (get_in_turn w b v random ≡ ok o)
      × Scanned w b.items (choice v random % length b.items) o
unfolding get_in_turn
get_in_turn_lem w b v random small = elim (Bool-cases (length b.items == 0)) [
  | inl e ↦ rw e (
    none,
    refl,
    λ q p at.
        absurd (omega (arith, get_elem_bound b.items q p at, (==_iff (length b.items) 0).0 e)),
  )
  | inr e ↦
      let pos : 0 < length b.items = ground arith in
      let r = choice v random % length b.items in
      let lt : r < length b.items = mod-lt (choice v random) pos in
      let fits : r < 2 ^ 32 = omega (arith, lt) in
      rw (e, mod-eq_of_lt fits)
        (scan_lem w b.items r lt (omega (arith, lt)) (length b.items) 0 (omega arith)
          (λ j p below. absurd (omega arith)))
]
