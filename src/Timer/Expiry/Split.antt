-- ===== src/Timer/Expiry/Split.antt =====
-- The part of the ordered set that listExpiredCb of src/base/coro/timer.cc takes off.
use agent_link_coro.Prelude.{
  ℕ, ◌≡◌, refl, sym, ap, Bool, true, false, not, ◌&&◌, ◌||◌, List, [], ◌∷◌, ◌++◌, arith, leb,
  if◌then◌else◌, inl, inr, All, Bool-cases, leb→lt, ltb→lt, lt→leb, append-nil,
}
use agent_link_coro.Timer.{split_due, all_or_due, first_later}
use agent_link_coro.Timer.Ordered.{Store, before}
use agent_link_coro.Timer.Ordered.Laws.{IsSorted, next-le, All-map}

-- The elements that pass a test, in order.
abbrev pub keep : (ℕ → Bool) → List ℕ → List ℕ
keep p [] = []
keep p (x ∷ xs) = if p x then x ∷ keep p xs else keep p xs

pub keep_none : (p : ℕ → Bool) (xs : List ℕ) → All (λ x. p x ≡ false) xs → keep p xs ≡ []
keep_none p [] h = refl
keep_none p (x ∷ xs) (h, hs) = rw h (keep_none p xs hs)

-- The two parts of the set that a test divides, where it passes on a front part.
pub record Divided (due : ℕ → Bool) (s : Store) (xs : List ℕ) (parts : List ℕ × List ℕ)
    : Type 0 where
  pub whole : xs ≡ parts.0 ++ parts.1
  pub front : parts.0 ≡ keep due xs
  pub taken : All (λ a. due a ≡ true) parts.0
  pub left : All (λ a. due a ≡ false) parts.1

abbrev at_most : Store → ℕ → ℕ → Bool
at_most s now a = leb (s a).next now

later-All :
    (s : Store) (now x : ℕ) (xs : List ℕ)
    → at_most s now x ≡ false
    → All (λ y. before s x y ≡ true) xs
    → All (λ y. at_most s now y ≡ false) xs
later-All s now x xs h =
    All-map (λ y. before s x y ≡ true) (λ y. at_most s now y ≡ false) xs
      (λ y b. lt→leb (s y).next now (omega (arith, leb→lt (s x).next now h, next-le s x y b)))

split_due-Divided :
    (s : Store) (now : ℕ) (xs : List ℕ)
    → IsSorted s xs
    → Divided (at_most s now) s xs (split_due s now xs)
unfolding split_due
split_due-Divided s now [] h = record { whole = refl; front = refl; taken = tt; left = tt }
split_due-Divided s now (x ∷ xs) (h, hs) =
    let ih = split_due-Divided s now xs hs in
    elim (Bool-cases (at_most s now x)) [
      | inl e ↦ rw e (record {
        whole = ap (◌∷◌ x) ih.whole;
        front = rw e (ap (◌∷◌ x) ih.front);
        taken = (e, ih.taken);
        left = ih.left;
      })
      | inr e ↦
          let later = later-All s now x xs e h in
          rw e (record {
            whole = refl;
            front = sym (keep_none (at_most s now) (x ∷ xs) (e, later));
            taken = tt;
            left = (e, later);
          })
    ]

All-always :
    (p : ℕ → Bool) (xs : List ℕ)
    → ((a : ℕ) → p a ≡ true)
    → All (λ a. p a ≡ true) xs × (keep p xs ≡ xs)
All-always p [] h = (tt, refl)
All-always p (x ∷ xs) h = let (ps, e) = All-always p xs h in ((h x, ps), rw (h x) (ap (◌∷◌ x) e))

pub all_or_due-Divided :
    (s : Store) (now : ℕ) (rollover : Bool) (xs : List ℕ)
    → IsSorted s xs
    → Divided (λ a. rollover || at_most s now a) s xs (all_or_due rollover s now xs)
all_or_due-Divided s now true xs h =
    let (ps, e) = All-always (λ _. true) xs (λ _. refl) in
    record { whole = sym (append-nil xs); front = sym e; taken = ps; left = tt }
all_or_due-Divided s now false xs h = split_due-Divided s now xs h

-- Where the clock has not been set back and the first timer is not due, none is.
pub first_later_none :
    (s : Store) (now : ℕ) (rollover : Bool) (xs : List ℕ)
    → IsSorted s xs
    → (not rollover && first_later s now xs) ≡ true
    → All (λ a. (rollover || at_most s now a) ≡ false) xs
first_later_none s now true xs h e = cc
first_later_none s now false [] h e = tt
first_later_none s now false (x ∷ xs) (h, hs) e =
    let late : at_most s now x ≡ false = lt→leb (s x).next now (ltb→lt now (s x).next e) in
    (late, later-All s now x xs late h)
