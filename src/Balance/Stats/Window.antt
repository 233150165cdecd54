-- ===== src/Balance/Stats/Window.antt =====
-- What HolderStatsSet of src/base/net/streams/load_balance.cc has of the past.
use agent_link_coro.Prelude.{
  ℕ, zero, suc, ◌+◌, ◌-◌, ◌%◌, ◌^◌, ◌≤◌, ◌<◌, ◌≡◌, ◌≢◌, refl, sym, ap, ◌∙◌, subst, false, List, [],
  ◌∷◌, some, arith, ltb, leb, ◌==◌, length, get_elem?, inl, inr, Bool-cases, leb→le, le→leb, ltb→lt,
  ltb→le, max, ne→==,
}
use native.Mathlib.Nat.{mod-lt, mod-le, mod-eq_of_lt, add-mod-mod}
use agent_link_coro.Outcome.{ok}
use agent_link_coro.Balance.Stats.{
  HolderStats, HolderStatsSet, cleared, clear_at, clear_loop, init_stats, get_stats,
}

length-clear_at : (i : ℕ) (xs : List HolderStats) → length (clear_at i xs) ≡ length xs
length-clear_at i [] = refl
length-clear_at zero (x ∷ xs) = refl
length-clear_at (suc i) (x ∷ xs) = ap suc (length-clear_at i xs)

clear_at_here :
    (i : ℕ) (xs : List HolderStats) → i < length xs → get_elem? (clear_at i xs) i ≡ some cleared
clear_at_here i [] h = absurd (omega arith)
clear_at_here zero (x ∷ xs) h = refl
clear_at_here (suc i) (x ∷ xs) h = clear_at_here i xs (omega arith)

clear_at_other :
    (i j : ℕ) (xs : List HolderStats) → i ≢ j → get_elem? (clear_at i xs) j ≡ get_elem? xs j
clear_at_other i j [] h = refl
clear_at_other zero zero (x ∷ xs) h = absurd (h refl)
clear_at_other zero (suc j) (x ∷ xs) h = refl
clear_at_other (suc i) zero (x ∷ xs) h = refl
clear_at_other (suc i) (suc j) (x ∷ xs) h = clear_at_other i j xs (λ e. h (ap suc e))

clear_at_keeps :
    (i j : ℕ) (xs : List HolderStats)
    → get_elem? xs j ≡ some cleared
    → get_elem? (clear_at i xs) j ≡ some cleared
clear_at_keeps i j [] h = h
clear_at_keeps zero zero (x ∷ xs) h = refl
clear_at_keeps zero (suc j) (x ∷ xs) h = h
clear_at_keeps (suc i) zero (x ∷ xs) h = h
clear_at_keeps (suc i) (suc j) (x ∷ xs) h = clear_at_keeps i j xs h

next_time : (t now : ℕ) → t ≤ now → now < 2 ^ 32 - 1 → (t + 1) % 2 ^ 32 ≡ t + 1
next_time t now h k = mod-eq_of_lt (omega arith)

module _ (now n : ℕ) (pos : 0 < n) (in_range : now < 2 ^ 32 - 1) where
  length-clear_loop :
      (left t : ℕ) (xs : List HolderStats) → length xs ≡ n → length (clear_loop left t now xs) ≡ n
  unfolding clear_loop
  length-clear_loop zero t xs h = h
  length-clear_loop (suc left) t xs h = elim (Bool-cases (leb t now)) [
    | inl e ↦ rw e (
        length-clear_loop left ((t + 1) % 2 ^ 32) (clear_at (t % length xs) xs)
          (length-clear_at (t % length xs) xs ∙ h))
    | inr e ↦ rw e h
  ]

  loop_keeps_cleared :
      (left t j : ℕ) (xs : List HolderStats)
      → get_elem? xs j ≡ some cleared
      → get_elem? (clear_loop left t now xs) j ≡ some cleared
  unfolding clear_loop
  loop_keeps_cleared zero t j xs h = h
  loop_keeps_cleared (suc left) t j xs h = elim (Bool-cases (leb t now)) [
    | inl e ↦ rw e (
        loop_keeps_cleared left ((t + 1) % 2 ^ 32) j (clear_at (t % length xs) xs)
          (clear_at_keeps (t % length xs) j xs h))
    | inr e ↦ rw e h
  ]

  loop_clears :
      (left t i : ℕ) (xs : List HolderStats)
      → length xs ≡ n
      → i < left
      → t + i ≤ now
      → get_elem? (clear_loop left t now xs) ((t + i) % n) ≡ some cleared
  unfolding clear_loop
  loop_clears zero t i xs h lt le = absurd (omega arith)
  loop_clears (suc left) t zero xs h lt le =
      let at : t % length xs ≡ (t + 0) % n = ap (λ m. t % m) h ∙ ap (λ m. m % n) (omega arith) in
      rw (le→leb t now (omega arith)) (
        loop_keeps_cleared left ((t + 1) % 2 ^ 32) ((t + 0) % n) (clear_at (t % length xs) xs) (
          subst (λ z. get_elem? (clear_at (t % length xs) xs) z ≡ some cleared) at
            (clear_at_here (t % length xs) xs (mod-lt t (omega (arith, h))))))
  loop_clears (suc left) t (suc i) xs h lt le =
      let at : (t + 1) + i ≡ t + suc i = omega arith in
      rw (le→leb t now (omega arith), next_time t now (omega arith) in_range)
        (subst
          (λ z.
            get_elem? (clear_loop left (t + 1) now (clear_at (t % length xs) xs)) (z % n)
            ≡ some cleared)
          at
          (loop_clears left (t + 1) i (clear_at (t % length xs) xs)
            (length-clear_at (t % length xs) xs ∙ h) (omega arith) (omega arith)))

  loop_leaves :
      (left t j : ℕ) (xs : List HolderStats)
      → length xs ≡ n
      → ((u : ℕ) → t ≤ u → u ≤ now → u % n ≢ j)
      → get_elem? (clear_loop left t now xs) j ≡ get_elem? xs j
  unfolding clear_loop
  loop_leaves zero t j xs h out = refl
  loop_leaves (suc left) t j xs h out = elim (Bool-cases (leb t now)) [
    | inl e ↦
        let le = leb→le t now e in
        rw (e, next_time t now le in_range)
          (loop_leaves left (t + 1) j (clear_at (t % length xs) xs)
              (length-clear_at (t % length xs) xs ∙ h) (λ u lo hi. out u (omega arith) hi)
            ∙ clear_at_other (t % length xs) j xs
                (λ q. out t (omega arith) le (sym (ap (λ m. t % m) h) ∙ q)))
    | inr e ↦ rw e refl
  ]

-- The same element of n, and at most n - 1 seconds after `first`.
within_round :
    (n first t : ℕ)
    → 0 < n
    → first ≤ t
    → (i : ℕ) × (i < n) × (first + i ≤ t) × ((first + i) % n ≡ t % n)
within_round n first t pos h =
    let d = t - first in
    let whole : first + d ≡ t = omega arith in
    (d % n, mod-lt d pos, omega (arith, mod-le d n), add-mod-mod first d n ∙ ap (λ z. z % n) whole)

-- HolderStatsSet::get on a set that is not empty, at a time below the last that an uint32_t has: it
-- gives the element of the time modulo the size; the elements of all seconds after the last update
-- up to the time are cleared, and every element of no such second is what it was; the last update is
-- the later of the two times.
pub get_stats_lem :
    (s : HolderStatsSet) (now : ℕ)
    → 0 < length s.stats
    → now < 2 ^ 32 - 1
    → let n = length s.stats in
      (s' : HolderStatsSet) × (get_stats s now ≡ ok (s', now % n))
      × (s'.last_update_time ≡ max s.last_update_time now)
      × (length s'.stats ≡ n)
      × ((t : ℕ) → s.last_update_time < t → t ≤ now → get_elem? s'.stats (t % n) ≡ some cleared)
      × ((j : ℕ)
          → ((u : ℕ) → s.last_update_time < u → u ≤ now → u % n ≢ j)
          → get_elem? s'.stats j ≡ get_elem? s.stats j)
unfolding get_stats init_stats
get_stats_lem s now pos small =
    let n = length s.stats in
    let last = s.last_update_time in
    let nonempty : (n == 0) ≡ false = ne→== n 0 (λ e. omega arith) in
    elim (Bool-cases (ltb last now)) [
      | inl e ↦
          let lt = ltb→lt last now e in
          rw (nonempty, e, next_time last now (omega (arith, lt)) small)
            (
              _,
              refl,
              omega (arith, lt),
              length-clear_loop now n pos small n (last + 1) s.stats refl,
              (λ t lo hi.
                  let (i, below, le, same) = within_round n (last + 1) t pos (omega arith) in
                  subst (λ z. get_elem? (clear_loop n (last + 1) now s.stats) z ≡ some cleared) same
                    (loop_clears now n pos small n (last + 1) i s.stats refl below
                      (omega (arith, le)))),
              λ j out.
                  loop_leaves now n pos small n (last + 1) j s.stats refl
                    (λ u lo hi. out u (omega arith) hi),
            )
      | inr e ↦
          let ge = ltb→le last now e in
          rw (nonempty, e)
            (
              s,
              refl,
              omega (arith, ge),
              refl,
              (λ t lo hi. absurd (omega (arith, ge))),
              λ j out. refl,
            )
    ]
