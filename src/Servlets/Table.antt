-- ===== src/Servlets/Table.antt =====
-- The tables of src/base/net/http/servlet.cc: what erase, assign and a new last entry change.
use agent_link_coro.Prelude.{
  ◌≡◌, refl, sym, ap, ◌∙◌, Bool, true, false, List, [], ◌∷◌, ◌++◌, Option, none, some, ◌==◌, ==_iff,
  if◌then◌else◌, inl, inr, Bool-cases,
}
use agent_link_coro.Servlets.{String, same, Creator, find, assign, erase, find_match, or_else}

pub same_refl : (x : String) → same x x ≡ true
unfolding same
same_refl [] = refl
same_refl (x ∷ xs) = rw ((==_iff x x).1 refl) (same_refl xs)

pub same→≡ : (x y : String) → same x y ≡ true → x ≡ y
unfolding same
same→≡ [] [] h = refl
same→≡ [] (y ∷ ys) h = absurd (lie h)
  where
    lie : false ≡ true → ⊥
    lie e = cc
same→≡ (x ∷ xs) [] h = absurd (lie h)
  where
    lie : false ≡ true → ⊥
    lie e = cc
same→≡ (x ∷ xs) (y ∷ ys) h = elim (Bool-cases (x == y)) [
  | inl e ↦
      both ((==_iff x y).0 e) (same→≡ xs ys (sym (ap (λ t. if t then same xs ys else false) e) ∙ h))
  | inr e ↦ absurd (lie (sym (ap (λ t. if t then same xs ys else false) e) ∙ h))
]
  where
    both : x ≡ y → xs ≡ ys → ◌≡◌ {A = String} (x ∷ xs) (y ∷ ys)
    both p q = cc

    lie : false ≡ true → ⊥
    lie e = cc

pub same_sym : (x y : String) → same x y ≡ same y x
same_sym x y = elim (Bool-cases (same x y)) [
  | inl e ↦ e ∙ sym (ap (same y) (same→≡ x y e) ∙ same_refl y)
  | inr e ↦ elim (Bool-cases (same y x)) [
    | inl q ↦ ap (same x) (same→≡ y x q) ∙ same_refl x ∙ sym q
    | inr q ↦ e ∙ sym q
  ]
]

-- No two entries have one name.
abbrev pub AreDistinct : List (String × Creator) → Type 0
AreDistinct [] = Unit
AreDistinct ((name, creator) ∷ rest) = (find name rest ≡ none) × AreDistinct rest

-- The entries with another name than `uri`, in order.
unfoldable pub without : String → List (String × Creator) → List (String × Creator)
without uri [] = []
without uri ((name, creator) ∷ rest) =
    if same name uri then without uri rest else (name, creator) ∷ without uri rest

without_absent :
    (uri : String) (table : List (String × Creator))
    → find uri table ≡ none
    → without uri table ≡ table
unfolding without find
without_absent uri [] h = refl
without_absent uri ((name, creator) ∷ rest) h = elim (Bool-cases (same name uri)) [
  | inl e ↦ absurd (lie (sym h ∙ ap (λ t. if t then some creator else find uri rest) e))
  | inr e ↦ rw e (
      ap (λ z. (name, creator) ∷ z)
        (without_absent uri rest (sym (ap (λ t. if t then some creator else find uri rest) e) ∙ h)))
]
  where
    lie : ◌≡◌ {A = Option Creator} none (some creator) → ⊥
    lie e = cc

pub erase-without :
    (uri : String) (table : List (String × Creator))
    → AreDistinct table
    → erase uri table ≡ without uri table
unfolding erase without
erase-without uri [] d = refl
erase-without uri ((name, creator) ∷ rest) (fresh, d) = elim (Bool-cases (same name uri)) [
  | inl e ↦
      rw e (sym (without_absent uri rest (ap (λ n. find n rest) (sym (same→≡ name uri e)) ∙ fresh)))
  | inr e ↦ rw e (ap (λ z. (name, creator) ∷ z) (erase-without uri rest d))
]

-- A name that is `uri`, and one that is not.
other_name :
    (name uri other : String)
    → same name uri ≡ true
    → same other uri ≡ false
    → same name other ≡ false
other_name name uri other e h = elim (Bool-cases (same name other)) [
  | inl q ↦ absurd (lie (sym h ∙ ap (λ z. same z uri) (sym (same→≡ name other q)) ∙ e))
  | inr q ↦ q
]
  where
    lie : false ≡ true → ⊥
    lie e = cc

pub find-without :
    (uri other : String) (table : List (String × Creator))
    → find other (without uri table) ≡ (if same other uri then none else find other table)
unfolding without find
find-without uri other [] = elim (Bool-cases (same other uri)) [
  | inl q ↦ rw q refl
  | inr q ↦ rw q refl
]
find-without uri other ((name, creator) ∷ rest) = elim (Bool-cases (same name uri)) [
  | inl e ↦ elim (Bool-cases (same other uri)) [
    | inl q ↦
        rw (e, q) (find-without uri other rest ∙ ap (λ t. if t then none else find other rest) q)
    | inr q ↦
        rw (e, q, other_name name uri other e q)
          (find-without uri other rest ∙ ap (λ t. if t then none else find other rest) q)
  ]
  | inr e ↦ elim (Bool-cases (same other uri)) [
    | inl q ↦
        rw (e, q, ap (same name) (same→≡ other uri q) ∙ e)
          (find-without uri other rest ∙ ap (λ t. if t then none else find other rest) q)
    | inr q ↦
        rw (e, q)
          (ap (λ z. if same name other then some creator else z)
            (find-without uri other rest ∙ ap (λ t. if t then none else find other rest) q))
  ]
]

pub find-append :
    (other uri : String) (creator : Creator) (table : List (String × Creator))
    → find other (table ++ (uri, creator) ∷ [])
      ≡ or_else (find other table) (if same uri other then some creator else none)
unfolding find
find-append other uri creator [] = refl
find-append other uri creator ((name, c) ∷ rest) = elim (Bool-cases (same name other)) [
  | inl e ↦ rw e refl
  | inr e ↦ rw e (find-append other uri creator rest)
]

pub find_match-append :
    (fnmatch : String → String → Bool) (path uri : String) (creator : Creator)
    (table : List (String × Creator))
    → find_match fnmatch path (table ++ (uri, creator) ∷ [])
      ≡ or_else (find_match fnmatch path table) (if fnmatch uri path then some creator else none)
unfolding find_match
find_match-append fnmatch path uri creator [] = refl
find_match-append fnmatch path uri creator ((name, c) ∷ rest) =
    elim (Bool-cases (fnmatch name path)) [
      | inl e ↦ rw e refl
      | inr e ↦ rw e (find_match-append fnmatch path uri creator rest)
    ]

pub without-AreDistinct :
    (uri : String) (table : List (String × Creator))
    → AreDistinct table
    → AreDistinct (without uri table)
unfolding without
without-AreDistinct uri [] d = tt
without-AreDistinct uri ((name, creator) ∷ rest) (fresh, d) = elim (Bool-cases (same name uri)) [
  | inl e ↦ rw e (without-AreDistinct uri rest d)
  | inr e ↦ rw e (
    find-without uri name rest ∙ ap (λ t. if t then none else find name rest) e ∙ fresh,
    without-AreDistinct uri rest d,
  )
]

-- A new last entry.
pub append-AreDistinct :
    (uri : String) (creator : Creator) (table : List (String × Creator))
    → find uri table ≡ none
    → AreDistinct table
    → AreDistinct (table ++ (uri, creator) ∷ [])
unfolding find
append-AreDistinct uri creator [] absent d = (refl, tt)
append-AreDistinct uri creator ((name, c) ∷ rest) absent (fresh, d) =
    elim (Bool-cases (same name uri)) [
      | inl e ↦ absurd (lie (sym absent ∙ ap (λ t. if t then some c else find uri rest) e))
      | inr e ↦ (
        find-append name uri creator rest
            ∙ ap (λ o. or_else o (if same uri name then some creator else none)) fresh
            ∙ ap (λ t. if t then some creator else none) (same_sym uri name ∙ e),
        append-AreDistinct uri creator rest
            (sym (ap (λ t. if t then some c else find uri rest) e) ∙ absent) d,
      )
    ]
  where
    lie : ◌≡◌ {A = Option Creator} none (some c) → ⊥
    lie e = cc

pub find-assign :
    (uri other : String) (creator : Creator) (table : List (String × Creator))
    → find other (assign uri creator table)
      ≡ (if same uri other then some creator else find other table)
unfolding find assign
find-assign uri other creator [] = refl
find-assign uri other creator ((name, c) ∷ rest) = elim (Bool-cases (same name uri)) [
  | inl e ↦ elim (Bool-cases (same uri other)) [
    | inl q ↦ rw (e, q, ap (λ z. same z other) (same→≡ name uri e) ∙ q) refl
    | inr q ↦ rw (e, q, ap (λ z. same z other) (same→≡ name uri e) ∙ q) refl
  ]
  | inr e ↦ elim (Bool-cases (same name other)) [
    | inl q ↦ rw (e, q, apart e q) refl
    | inr q ↦ rw (e, q) (find-assign uri other creator rest)
  ]
]
  where
    apart : same name uri ≡ false → same name other ≡ true → same uri other ≡ false
    apart e q = elim (Bool-cases (same uri other)) [
      | inl r ↦ absurd (no (sym e ∙ ap (same name) (same→≡ uri other r) ∙ q))
      | inr r ↦ r
    ]
      where
        no : false ≡ true → ⊥
        no e = cc
