-- ===== src/Timer/Ordered/Laws.antt =====
-- The comparator of src/base/coro/timer.cc is a strict total order of addresses, and the set over it
-- stays ordered.
use agent_link_coro.Prelude.{
  ℕ, ◌≤◌, ◌≡◌, ◌≢◌, refl, sym, ap, ◌∙◌, subst, Bool, true, false, not, ◌&&◌, ◌||◌, List, [], ◌∷◌,
  some, arith, ◌==◌, inl, inr, All, Bool-cases, ==_iff, ne→==,
}
use mathlib.Core.Bool.{true≢false}
use agent_link_coro.Timer.Ordered.{Timer, Store, update, compare_timers, before, insert, find_erase}

module _ (s : Store) where
  pub before_trans : (a b c : ℕ) → before s a b ≡ true → before s b c ≡ true → before s a c ≡ true
  unfolding compare_timers
  before_trans a b c h k = ground arith

  pub before_asym : (a b : ℕ) → before s a b ≡ true → before s b a ≡ false
  unfolding compare_timers
  before_asym a b h = ground arith

  pub before_total : (a b : ℕ) → before s a b ≡ false → before s b a ≡ false → a ≡ b
  unfolding compare_timers
  before_total a b h k = ground arith

  pub before_irrefl : (a : ℕ) → before s a a ≡ false
  unfolding compare_timers
  before_irrefl a = ground arith

  pub next-le : (a b : ℕ) → before s a b ≡ true → (s a).next ≤ (s b).next
  unfolding compare_timers
  next-le a b h = ground arith

-- Each timer comes strictly before all behind it.
abbrev pub IsSorted : Store → List ℕ → Type 0
IsSorted s [] = Unit {0}
IsSorted s (x ∷ xs) = All (λ y. before s x y ≡ true) xs × IsSorted s xs

abbrev pub mem : ℕ → List ℕ → Bool
mem a [] = false
mem a (x ∷ xs) = (x == a) || mem a xs

pub All-mem : (P : ℕ → Type 0) (a : ℕ) (xs : List ℕ) → All P xs → mem a xs ≡ true → P a
All-mem P a [] h m = cc
All-mem P a (x ∷ xs) (h, hs) m = elim (Bool-cases (x == a)) [
  | inl e ↦ subst P ((==_iff x a).0 e) h
  | inr e ↦ All-mem P a xs hs (rw e at m)
]

pub All-of_mem : (P : ℕ → Type 0) (xs : List ℕ) → ((a : ℕ) → mem a xs ≡ true → P a) → All P xs
All-of_mem P [] h = tt
All-of_mem P (x ∷ xs) h = (
  h x (ap (λ t. t || mem x xs) ((==_iff x x).1 refl)),
  All-of_mem P xs (λ a m. h a (rw m (or_true (x == a)))),
)
  where
    or_true : (t : Bool) → (t || true) ≡ true
    or_true true = refl
    or_true false = refl

pub All-map : (P Q : ℕ → Type 0) (xs : List ℕ) → ((a : ℕ) → P a → Q a) → All P xs → All Q xs
All-map P Q [] f h = tt
All-map P Q (x ∷ xs) f (h, hs) = (f x h, All-map P Q xs f hs)

pub insert-All :
    (P : ℕ → Type 0) (s : Store) (a : ℕ) (xs : List ℕ) → P a → All P xs → All P (insert s a xs)
unfolding insert
insert-All P s a [] p h = (p, tt)
insert-All P s a (x ∷ xs) p (h, hs) = elim (Bool-cases (before s a x)) [
  | inl e ↦ rw e (p, (h, hs))
  | inr e ↦ rw e (elim (Bool-cases (before s x a)) [
    | inl f ↦ rw f (h, insert-All P s a xs p hs)
    | inr f ↦ rw f (h, hs)
  ])
]

pub insert-IsSorted : (s : Store) (a : ℕ) (xs : List ℕ) → IsSorted s xs → IsSorted s (insert s a xs)
unfolding insert
insert-IsSorted s a [] h = (tt, tt)
insert-IsSorted s a (x ∷ xs) (h, hs) = elim (Bool-cases (before s a x)) [
  | inl e ↦ rw e (
    (
      e,
      All-map (λ y. before s x y ≡ true) (λ y. before s a y ≡ true) xs (λ y. before_trans s a x y e)
          h,
    ),
    (h, hs),
  )
  | inr e ↦ rw e (elim (Bool-cases (before s x a)) [
    | inl f ↦ rw f (insert-All (λ y. before s x y ≡ true) s a xs f h, insert-IsSorted s a xs hs)
    | inr f ↦ rw f (h, hs)
  ])
]

pub mem-insert :
    (s : Store) (a b : ℕ) (xs : List ℕ) → mem b (insert s a xs) ≡ ((a == b) || mem b xs)
unfolding insert
mem-insert s a b [] = refl
mem-insert s a b (x ∷ xs) = elim (Bool-cases (before s a x)) [
  | inl e ↦ rw e
  | inr e ↦ rw e (elim (Bool-cases (before s x a)) [
    | inl f ↦ rw (f, mem-insert s a b xs) (or_swap (x == b) (a == b) (mem b xs))
    | inr f ↦ rw (f, before_total s a x e f) (or_twice (x == b) (mem b xs))
  ])
]
  where
    or_swap : (p q r : Bool) → (p || (q || r)) ≡ (q || (p || r))
    or_swap true true r = refl
    or_swap true false r = refl
    or_swap false q r = refl

    or_twice : (p r : Bool) → (p || r) ≡ (p || (p || r))
    or_twice true r = refl
    or_twice false r = refl

-- What the search for a timer that is in the set finds and leaves.
pub record Erased (s : Store) (a : ℕ) (xs : List ℕ) : Type 1 where
  pub rest : List ℕ
  pub found : find_erase s a xs ≡ some rest
  pub sorted : IsSorted s rest
  pub keeps : (P : ℕ → Type 0) → All P xs → All P rest
  pub members : (b : ℕ) → mem b rest ≡ (not (a == b) && mem b xs)

pub not_mem-before :
    (s : Store) (a : ℕ) (xs : List ℕ) → All (λ y. before s a y ≡ true) xs → mem a xs ≡ false
not_mem-before s a xs h = elim (Bool-cases (mem a xs)) [
  | inl m ↦
      absurd (true≢false (sym (All-mem (λ y. before s a y ≡ true) a xs h m) ∙ before_irrefl s a))
  | inr m ↦ m
]

pub find_erase-Erased :
    (s : Store) (a : ℕ) (xs : List ℕ) → IsSorted s xs → mem a xs ≡ true → Erased s a xs
unfolding find_erase
find_erase-Erased s a [] h m = cc
find_erase-Erased s a (x ∷ xs) (h, hs) m = elim (Bool-cases (before s x a)) [
  | inl e ↦
      let ne : x ≢ a =
        λ q. true≢false (sym e ∙ ap (λ z. before s x z) (sym q) ∙ before_irrefl s x) in
      let ih = find_erase-Erased s a xs hs (rw (ne→== x a ne) at m) in
      record {
        rest = x ∷ ih.rest;
        found = rw (e, ih.found);
        sorted = (ih.keeps (λ y. before s x y ≡ true) h, ih.sorted);
        keeps = λ P p. (p.0, ih.keeps P p.1);
        members = λ b. rw (ih.members b) (outside x a b (mem b xs) ne);
      }
  | inr e ↦ elim (Bool-cases (before s a x)) [
    | inl f ↦
        let none_there = not_mem-before s a (x ∷ xs) (
          f,
          All-map (λ y. before s x y ≡ true) (λ y. before s a y ≡ true) xs
              (λ y. before_trans s a x y f) h,
        ) in
        absurd (true≢false (sym m ∙ none_there))
    | inr f ↦
        let same = before_total s x a e f in
        record {
          rest = xs;
          found = rw (e, f);
          sorted = hs;
          keeps = λ P p. p.1;
          members = λ b.
              inside x a b (mem b xs) same
                (λ q. subst (λ z. mem z xs ≡ false) q (not_mem-before s x xs h));
        }
  ]
]
  where
    outside :
        (x a b : ℕ) (t : Bool)
        → x ≢ a
        → ((x == b) || (not (a == b) && t)) ≡ (not (a == b) && ((x == b) || t))
    outside x a b t ne = ground arith

    inside :
        (x a b : ℕ) (t : Bool) → x ≡ a → (x ≡ b → t ≡ false) → t ≡ (not (a == b) && ((x == b) || t))
    inside x a b t same absent = ground arith

-- The order of a set depends on nothing but the due times of its timers.
pub IsSorted-agree :
    (s s' : Store) (xs : List ℕ)
    → All (λ y. (s' y).next ≡ (s y).next) xs
    → IsSorted s xs
    → IsSorted s' xs
unfolding compare_timers
IsSorted-agree s s' [] h k = tt
IsSorted-agree s s' (x ∷ xs) (h, hs) (k, ks) = (agree xs hs k, IsSorted-agree s s' xs hs ks)
  where
    same : (y : ℕ) → (s' y).next ≡ (s y).next → before s x y ≡ true → before s' x y ≡ true
    same y e b = rw (h, e) b

    agree :
        (ys : List ℕ)
        → All (λ y. (s' y).next ≡ (s y).next) ys
        → All (λ y. before s x y ≡ true) ys
        → All (λ y. before s' x y ≡ true) ys
    agree [] p q = tt
    agree (y ∷ ys) (p, ps) (q, qs) = (same y p q, agree ys ps qs)

pub update_other : (s : Store) (a b : ℕ) (t : Timer) → a ≢ b → update s a t b ≡ s b
update_other s a b t ne = rw (ne→== b a (λ e. ne (sym e)))

pub update_self : (s : Store) (a : ℕ) (t : Timer) → update s a t a ≡ t
update_self s a t = rw ((==_iff a a).1 refl)

-- A timer that is not in the set may change at will.
pub IsSorted-update :
    (s : Store) (a : ℕ) (t : Timer) (xs : List ℕ)
    → mem a xs ≡ false
    → IsSorted s xs
    → IsSorted (update s a t) xs
IsSorted-update s a t xs out = IsSorted-agree s (update s a t) xs (
    All-of_mem (λ y. (update s a t y).next ≡ (s y).next) xs
      (λ y m.
        ap (λ z. z.next)
          (update_other s a y t (λ e. true≢false (sym m ∙ ap (λ z. mem z xs) (sym e) ∙ out)))))
