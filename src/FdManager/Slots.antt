-- ===== src/FdManager/Slots.antt =====
-- The vector of contexts of src/base/coro/fd_manager.cc as a table from descriptors.
use agent_link_coro.Prelude.{
  ℕ, zero, suc, ◌-◌, ◌≤◌, ◌<◌, ◌≡◌, ◌≢◌, refl, ap, ◌∙◌, List, [], ◌∷◌, ◌++◌, Option, none, arith,
  length, replicate, take_all, length-append, length-replicate,
}
use agent_link_coro.FdManager.{slot, put_slot, resize}

pub slot_beyond : (cs : List (Option ℕ)) (i : ℕ) → length cs ≤ i → slot cs i ≡ none
slot_beyond [] i h = refl
slot_beyond (c ∷ cs) zero h = absurd (omega arith)
slot_beyond (c ∷ cs) (suc i) h = slot_beyond cs i (omega arith)

pub slot-put_slot :
    (cs : List (Option ℕ)) (i : ℕ) (v : Option ℕ) → i < length cs → slot (put_slot cs i v) i ≡ v
slot-put_slot [] i v h = absurd (omega arith)
slot-put_slot (c ∷ cs) zero v h = refl
slot-put_slot (c ∷ cs) (suc i) v h = slot-put_slot cs i v (omega arith)

pub slot-put_slot_other :
    (cs : List (Option ℕ)) (i j : ℕ) (v : Option ℕ) → i ≢ j → slot (put_slot cs i v) j ≡ slot cs j
slot-put_slot_other [] i j v h = refl
slot-put_slot_other (c ∷ cs) zero zero v h = absurd (h refl)
slot-put_slot_other (c ∷ cs) zero (suc j) v h = refl
slot-put_slot_other (c ∷ cs) (suc i) zero v h = refl
slot-put_slot_other (c ∷ cs) (suc i) (suc j) v h = slot-put_slot_other cs i j v (λ e. h (ap suc e))

pub length-put_slot :
    (cs : List (Option ℕ)) (i : ℕ) (v : Option ℕ) → length (put_slot cs i v) ≡ length cs
length-put_slot [] i v = refl
length-put_slot (c ∷ cs) zero v = refl
length-put_slot (c ∷ cs) (suc i) v = ap suc (length-put_slot cs i v)

slot-nones : (k j : ℕ) → slot (replicate k none) j ≡ none
slot-nones zero j = refl
slot-nones (suc k) zero = refl
slot-nones (suc k) (suc j) = slot-nones k j

slot-append : (cs : List (Option ℕ)) (k j : ℕ) → slot (cs ++ replicate k none) j ≡ slot cs j
slot-append [] k j = slot-nones k j
slot-append (c ∷ cs) k zero = refl
slot-append (c ∷ cs) k (suc j) = slot-append cs k j

pub slot-resize :
    (cs : List (Option ℕ)) (n j : ℕ) → length cs ≤ n → slot (resize cs n) j ≡ slot cs j
slot-resize cs n j h = rw (take_all n cs h) (slot-append cs (n - length cs) j)

pub length-resize : (cs : List (Option ℕ)) (n : ℕ) → length cs ≤ n → length (resize cs n) ≡ n
length-resize cs n h =
    let nothing : Option ℕ = none in
    rw (take_all n cs h) (
      length-append cs (replicate (n - length cs) nothing)
      ∙ omega (arith, length-replicate (n - length cs) nothing))
