-- ===== src/Timer/Expiry/Fire.antt =====
-- The loop of listExpiredCb of src/base/coro/timer.cc over the timers that it took off.
use agent_link_coro.Prelude.{
  ℕ, ◌≡◌, ◌≢◌, refl, sym, ap, ◌∙◌, subst, Bool, true, false, ◌&&◌, ◌||◌, List, [], ◌∷◌, Option, map,
  ◌==◌, if◌then◌else◌, ==_iff, ne→==,
}
use mathlib.Core.Bool.{true≢false}
use agent_link_coro.Timer.{fire, fired}
use agent_link_coro.Timer.Ordered.{Timer, Store, update, insert}
use agent_link_coro.Timer.Ordered.Laws.{
  IsSorted, mem, insert-IsSorted, mem-insert, IsSorted-update, update_self, update_other,
  not_mem-before,
}

pub record Fired (now : ℕ) (s : Store) (timers expired : List ℕ)
    (result : Store × List ℕ × List (Option ℕ)) : Type 0 where
  pub callbacks : result.2 ≡ map (λ a. (s a).cb) expired
  pub sorted : IsSorted result.0 result.1
  pub members : (b : ℕ) → mem b result.1 ≡ (mem b timers || (mem b expired && (s b).recurring))
  pub objects : (b : ℕ) → result.0 b ≡ (if mem b expired then fired now (s b) else s b)

or_true : (t : Bool) → (t || true) ≡ true
or_true true = refl
or_true false = refl

or_false : (t : Bool) → (t || false) ≡ t
or_false true = refl
or_false false = refl

map_agree :
    (f g : ℕ → Option ℕ) (xs : List ℕ)
    → ((a : ℕ) → mem a xs ≡ true → f a ≡ g a)
    → map f xs ≡ map g xs
map_agree f g [] h = refl
map_agree f g (x ∷ xs) h =
    let here : f x ≡ g x = h x (ap (λ t. t || mem x xs) ((==_iff x x).1 refl)) in
    rw (here, map_agree f g xs (λ a m. h a (rw m (or_true (x == a)))))

insert_if-IsSorted :
    (r : Bool) (s : Store) (a : ℕ) (xs : List ℕ)
    → IsSorted s xs
    → IsSorted s (if r then insert s a xs else xs)
insert_if-IsSorted true s a xs h = insert-IsSorted s a xs h
insert_if-IsSorted false s a xs h = h

mem-insert_if :
    (r : Bool) (s : Store) (a b : ℕ) (xs : List ℕ)
    → mem b (if r then insert s a xs else xs) ≡ (mem b xs || ((a == b) && r))
mem-insert_if true s a b xs = mem-insert s a b xs ∙ swap (a == b) (mem b xs)
  where
    swap : (p q : Bool) → (p || q) ≡ (q || (p && true))
    swap true true = refl
    swap true false = refl
    swap false true = refl
    swap false false = refl
mem-insert_if false s a b xs = drop_false (a == b) (mem b xs)
  where
    drop_false : (p q : Bool) → q ≡ (q || (p && false))
    drop_false true true = refl
    drop_false true false = refl
    drop_false false true = refl
    drop_false false false = refl

not_mem-ne : (a b : ℕ) (xs : List ℕ) → mem a xs ≡ false → mem b xs ≡ true → a ≢ b
not_mem-ne a b xs out here e = true≢false (sym here ∙ ap (λ z. mem z xs) (sym e) ∙ out)

join :
    (held here later r changed old : Bool)
    → (here ≡ true → (later ≡ false) × (old ≡ r))
    → (here ≡ false → changed ≡ old)
    → ((held || (here && r)) || (later && changed)) ≡ (held || ((here || later) && old))
join true here later r changed old h k = refl
join false true later r changed old h k = rw ((h refl).0, (h refl).1) (or_false r)
join false false later r changed old h k = rw (k refl)

pick :
    (now : ℕ) (here later : Bool) (changed old : Timer)
    → (here ≡ true → (later ≡ false) × (changed ≡ fired now old))
    → (here ≡ false → changed ≡ old)
    → (if later then fired now changed else changed)
      ≡ (if here || later then fired now old else old)
pick now true later changed old h k = rw ((h refl).0, (h refl).1)
pick now false later changed old h k = ap (λ z. if later then fired now z else z) (k refl)

-- The loop gives the callbacks in order, and puts each timer that recurs back into the set, with
-- the set ordered again.
pub fire-Fired :
    (now : ℕ) (expired : List ℕ) (s : Store) (timers : List ℕ)
    → IsSorted s timers
    → IsSorted s expired
    → ((b : ℕ) → mem b expired ≡ true → mem b timers ≡ false)
    → Fired now s timers expired (fire now s timers expired)
unfolding fire
fire-Fired now [] s timers ht he apart = record {
  callbacks = refl;
  sorted = ht;
  members = λ b. sym (or_false (mem b timers));
  objects = λ b. refl;
}
fire-Fired now (a ∷ rest) s timers ht (ha, he) apart =
    let t = fired now (s a) in
    let s1 = update s a t in
    let r = (s a).recurring in
    let timers1 = if r then insert s1 a timers else timers in
    let here : mem a timers ≡ false = apart a (ap (λ q. q || mem a rest) ((==_iff a a).1 refl)) in
    let again : mem a rest ≡ false = not_mem-before s a rest ha in
    let members1 = λ (b : ℕ). mem-insert_if r s1 a b timers in
    let apart1 : (b : ℕ) → mem b rest ≡ true → mem b timers1 ≡ false = λ b m.
      let out = apart b (ap (λ q. (a == b) || q) m ∙ or_true (a == b)) in
      members1 b
      ∙ ap (λ q. q || ((a == b) && r)) out
      ∙ ap (λ q. q && r) (ne→== a b (not_mem-ne a b rest again m)) in
    let at_a : (b : ℕ)
        → (a == b) ≡ true
        → (mem b rest ≡ false) × ((s b).recurring ≡ r) × (s1 b ≡ fired now (s b)) =
      λ b e.
        let q = (==_iff a b).0 e in
        (
          subst (λ z. mem z rest ≡ false) q again,
          subst (λ z. (s z).recurring ≡ r) q refl,
          subst (λ z. s1 z ≡ fired now (s z)) q (update_self s a t),
        ) in
    let off_a : (b : ℕ) → (a == b) ≡ false → s1 b ≡ s b =
      λ b e. update_other s a b t (λ q. true≢false (sym ((==_iff a b).1 q) ∙ e)) in
    let ih =
      fire-Fired now rest s1 timers1
        (insert_if-IsSorted r s1 a timers (IsSorted-update s a t timers here ht))
        (IsSorted-update s a t rest again he) apart1 in
    record {
      callbacks = ap (◌∷◌ (s a).cb) (
          ih.callbacks
          ∙ map_agree (λ z. (s1 z).cb) (λ z. (s z).cb) rest
              (λ b m. ap (λ z. (z).cb) (update_other s a b t (not_mem-ne a b rest again m))));
      sorted = ih.sorted;
      members = λ b.
          ih.members b
          ∙ ap (λ q. q || (mem b rest && (s1 b).recurring)) (members1 b)
          ∙ join (mem b timers) (a == b) (mem b rest) r (s1 b).recurring (s b).recurring
              (λ e. ((at_a b e).0, (at_a b e).1)) (λ e. ap (λ z. (z).recurring) (off_a b e));
      objects = λ b.
          ih.objects b
          ∙ pick now (a == b) (mem b rest) (s1 b) (s b) (λ e. ((at_a b e).0, (at_a b e).2))
              (off_a b);
    }
