-- ===== src/Balance/Table.antt =====
-- The table of src/base/net/streams/load_balance.cc: what a search finds after each call, and which
-- items can be chosen.
use agent_link_coro.Prelude.{
  ℕ, ◌≡◌, refl, sym, ap, ◌∙◌, Bool, true, false, ◌&&◌, ◌||◌, List, [], ◌∷◌, Option, none, some,
  ◌==◌, if◌then◌else◌, inl, inr, Bool-cases, ==_iff, ne→==,
}
use mathlib.Core.Bool.{true≢false}
use agent_link_coro.Balance.{
  World, LoadBalance, Kind, round_robin, weight_based, is_valid, find, assign, erase, valid_items,
  init_nolock, get_by_id, add, del, or_else, take_out, put_in, update, with_id, set,
}

abbrev pub lists : ℕ → List ℕ → Bool
lists p [] = false
lists p (q ∷ qs) = (q == p) || lists p qs

-- Whether an item is in the table, under any key.
abbrev pub holds : ℕ → List (ℕ × ℕ) → Bool
holds p [] = false
holds p ((k, q) ∷ rest) = (q == p) || holds p rest

abbrev pub has_key : ℕ → List (ℕ × ℕ) → Bool
has_key id [] = false
has_key id ((k, q) ∷ rest) = (k == id) || has_key id rest

abbrev pub first_some : Option ℕ → Option ℕ → Option ℕ
first_some (some a) b = some a
first_some none b = b

-- What the last entry of a list for a key says; in a map it is the only one.
abbrev pub find_last : ℕ → List (ℕ × ℕ) → Option ℕ
find_last id [] = none
find_last id ((k, p) ∷ rest) = first_some (find_last id rest) (if k == id then some p else none)

find-assign :
    (j id p : ℕ) (d : List (ℕ × ℕ))
    → find j (assign id p d) ≡ (if id == j then some p else find j d)
unfolding find assign
find-assign j id p [] = refl
find-assign j id p ((k, q) ∷ rest) = elim (Bool-cases (k == id)) [
  | inl e ↦
      rw (e, (==_iff k id).0 e)
        (elim (Bool-cases (id == j)) [ inl f ↦ rw f refl | inr f ↦ rw f refl ])
  | inr e ↦ rw e (elim (Bool-cases (k == j)) [
    | inl f ↦
        let apart : (id == j) ≡ false =
          ne→== id j (λ q. true≢false (sym ((==_iff k id).1 ((==_iff k j).0 f ∙ sym q)) ∙ e)) in
        rw (f, apart) refl
    | inr f ↦ rw f (find-assign j id p rest)
  ])
]

find-erase :
    (j id : ℕ) (d : List (ℕ × ℕ)) → find j (erase id d) ≡ (if id == j then none else find j d)
unfolding find erase
find-erase j id [] = elim (Bool-cases (id == j)) [ inl f ↦ rw f refl | inr f ↦ rw f refl ]
find-erase j id ((k, q) ∷ rest) = elim (Bool-cases (k == id)) [
  | inl e ↦
      rw (e, (==_iff k id).0 e)
        (elim (Bool-cases (id == j)) [
          | inl f ↦ rw (f) (find-erase j id rest ∙ ap (λ t. if t then none else find j rest) f)
          | inr f ↦ rw (f) (find-erase j id rest ∙ ap (λ t. if t then none else find j rest) f)
        ])
  | inr e ↦ rw e (elim (Bool-cases (k == j)) [
    | inl f ↦
        let apart : (id == j) ≡ false =
          ne→== id j (λ q. true≢false (sym ((==_iff k id).1 ((==_iff k j).0 f ∙ sym q)) ∙ e)) in
        rw (f, apart) refl
    | inr f ↦ rw f (find-erase j id rest)
  ])
]

find-put_in :
    (j : ℕ) (adds d : List (ℕ × ℕ))
    → find j (put_in d adds) ≡ first_some (find_last j adds) (find j d)
unfolding put_in
find-put_in j [] d = refl
find-put_in j ((k, p) ∷ adds) d =
    find-put_in j adds (assign k p d)
    ∙ ap (first_some (find_last j adds)) (find-assign j k p d)
    ∙ joined (find_last j adds) (k == j)
  where
    joined :
        (o : Option ℕ) (t : Bool)
        → first_some o (if t then some p else find j d)
          ≡ first_some (first_some o (if t then some p else none)) (find j d)
    joined (some a) t = refl
    joined none true = refl
    joined none false = refl

find-take_out :
    (j : ℕ) (dels d : List (ℕ × ℕ))
    → find j (take_out d dels).0 ≡ (if has_key j dels then none else find j d)
unfolding take_out
find-take_out j [] d = refl
find-take_out j ((k, q) ∷ dels) d =
    find-take_out j dels (erase k d)
    ∙ ap (λ z. if has_key j dels then none else z) (find-erase j k d)
    ∙ joined (has_key j dels) (k == j)
  where
    joined :
        (s t : Bool)
        → (if s then none else (if t then none else find j d)) ≡ (if t || s then none else find j d)
    joined true true = refl
    joined true false = refl
    joined false true = refl
    joined false false = refl

-- What update hands back for a key: the item that was found, or else what stood there.
abbrev pub handed_back : Option ℕ → Option ℕ → Option ℕ
handed_back none found = none
handed_back (some q) found = some (or_else found q)

find-taken :
    (j : ℕ) (dels d : List (ℕ × ℕ))
    → find j (take_out d dels).1 ≡ handed_back (find j dels) (find j d)
unfolding take_out find
find-taken j [] d = refl
find-taken j ((k, q) ∷ dels) d = elim (Bool-cases (k == j)) [
  | inl e ↦ rw e (ap (λ z. some (or_else z q)) (ap (λ z. find z d) ((==_iff k j).0 e)))
  | inr e ↦ rw e (
      find-taken j dels (erase k d)
      ∙ ap (handed_back (find j dels))
          (find-erase j k d ∙ ap (λ t. if t then none else find j d) e))
]

lists-valid_items :
    (w : World) (p : ℕ) (d : List (ℕ × ℕ)) → lists p (valid_items w d) ≡ (is_valid w p && holds p d)
unfolding valid_items
lists-valid_items w p [] = sym (and_false (is_valid w p))
  where
    and_false : (t : Bool) → (t && false) ≡ false
    and_false true = refl
    and_false false = refl
lists-valid_items w p ((k, q) ∷ rest) = elim (Bool-cases (is_valid w q)) [
  | inl v ↦
      rw (v, lists-valid_items w p rest)
        (elim (Bool-cases (q == p)) [
          | inl e ↦ rw e (sym (ap (λ t. t && true) (sym (ap (is_valid w) ((==_iff q p).0 e)) ∙ v)))
          | inr e ↦ rw e refl
        ])
  | inr v ↦
      rw (v, lists-valid_items w p rest)
        (elim (Bool-cases (q == p)) [
          | inl e ↦
              let dead : is_valid w p ≡ false = sym (ap (is_valid w) ((==_iff q p).0 e)) ∙ v in
              rw (e, dead) refl
          | inr e ↦ rw e refl
        ])
]

-- The items that can be chosen are the valid ones of the table.
abbrev pub IsCurrent : World → LoadBalance → Type 0
IsCurrent w b = (p : ℕ) → lists p b.items ≡ (is_valid w p && holds p b.datas)

init_nolock-IsCurrent :
    (w : World) (b : LoadBalance)
    → IsCurrent w (init_nolock w b) × ((init_nolock w b).datas ≡ b.datas)
unfolding init_nolock
init_nolock-IsCurrent w b = by_kind b.kind refl
  where
    by_kind :
        (k : Kind)
        → b.kind ≡ k
        → IsCurrent w (init_nolock w b) × ((init_nolock w b).datas ≡ b.datas)
    by_kind round_robin e = rw e ((λ p. lists-valid_items w p b.datas), refl)
    by_kind weight_based e = rw e ((λ p. lists-valid_items w p b.datas), refl)

-- After update, a key finds what `adds` has for it, and else what it found before unless it stands in
-- `dels`; `dels` holds for each of its keys the item that was found, or else what stood there; and
-- the items that can be chosen are the valid ones of the table.
pub update_lem :
    (w : World) (b : LoadBalance) (adds dels : List (ℕ × ℕ))
    → let r = update w b adds dels in
      ((id : ℕ)
        → get_by_id r.0 id
          ≡ first_some (find_last id adds) (if has_key id dels then none else get_by_id b id))
      × ((id : ℕ) → find id r.1 ≡ handed_back (find id dels) (get_by_id b id))
      × IsCurrent w r.0
unfolding update
update_lem w b adds dels =
    let d = put_in (take_out b.datas dels).0 adds in
    let (current, same) = init_nolock-IsCurrent w (record b { datas = d }) in
    (
      (λ id.
          ap (find id) same
          ∙ find-put_in id adds (take_out b.datas dels).0
          ∙ ap (first_some (find_last id adds)) (find-take_out id dels b.datas)),
      (λ id. find-taken id dels b.datas),
      current,
    )

-- After add the id of the new item finds it, after del the id of the item finds nothing, and every
-- other id finds what it found before; the items that can be chosen are the valid ones of the table.
pub add_del_lem :
    (w : World) (b : LoadBalance) (v : ℕ)
    → ((id : ℕ)
        → get_by_id (add w b v) id ≡ (if (w.item v).id == id then some v else get_by_id b id))
      × IsCurrent w (add w b v)
      × ((id : ℕ)
          → get_by_id (del w b v) id ≡ (if (w.item v).id == id then none else get_by_id b id))
      × IsCurrent w (del w b v)
unfolding add del
add_del_lem w b v =
    let k = (w.item v).id in
    let (added, same) = init_nolock-IsCurrent w (record b { datas = assign k v b.datas }) in
    let (deleted, same') = init_nolock-IsCurrent w (record b { datas = erase k b.datas }) in
    (
      (λ id. ap (find id) same ∙ find-assign id k v b.datas),
      added,
      (λ id. ap (find id) same' ∙ find-erase id k b.datas),
      deleted,
    )

-- After set an id finds the last of the items given that has it, and nothing where none has it; the
-- items that can be chosen are the valid ones of the table.
pub set_lem :
    (w : World) (b : LoadBalance) (vs : List ℕ)
    → ((id : ℕ) → get_by_id (set w b vs) id ≡ find_last id (with_id w vs))
      × IsCurrent w (set w b vs)
unfolding set find
set_lem w b vs =
    let (current, same) = init_nolock-IsCurrent w (record b { datas = put_in [] (with_id w vs) }) in
    (
      (λ id.
          ap (find id) same
          ∙ find-put_in id (with_id w vs) []
          ∙ first_some_none (find_last id (with_id w vs))),
      current,
    )
  where
    first_some_none : (o : Option ℕ) → first_some o none ≡ o
    first_some_none (some a) = refl
    first_some_none none = refl
