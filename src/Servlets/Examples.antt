-- ===== src/Servlets/Examples.antt =====
-- Runs of ServletDispatch of src/base/net/http/servlet.cc.
use agent_link_coro.Prelude.{
  ℕ, ◌+◌, ◌≡◌, refl, Bool, false, [], ◌∷◌, none, some, ◌==◌, if◌then◌else◌,
}
use agent_link_coro.Servlets.{
  String, same, hold, create, ServletDispatch, find, find_match, or_else, or_default, add_servlet,
  add_glob_servlet_creator, get_servlet, get_glob_servlet, get_matched_servlet,
}
use agent_link_coro.Servlets.Table.{AreDistinct, without}
use agent_link_coro.Servlets.Dispatch.{add_glob_servlet_creator_lem, add_servlet_lem}

-- An fnmatch for which a pattern that begins with * matches every path, and no other pattern any.
abbrev stars : String → String → Bool
stars [] path = false
stars (c ∷ cs) path = c == 42

abbrev made : ℕ → ℕ
made type = type + 100

-- Servlet 7 for the path /a, and a creator of type 1 for every path.
abbrev table : ServletDispatch
table = record {
  datas = (47 ∷ 97 ∷ [], hold 7) ∷ [];
  globs = (42 ∷ [], create 1) ∷ [];
  default = 0;
}

matched_exactly : get_matched_servlet stars made table (47 ∷ 97 ∷ []) ≡ 7
unfolding get_matched_servlet find same
matched_exactly = refl

matched_by_pattern : get_matched_servlet stars made table (47 ∷ 98 ∷ []) ≡ 101
unfolding get_matched_servlet find same find_match
matched_by_pattern = refl

add_glob_servlet_creator_lem_example :
    let d' = add_glob_servlet_creator table (42 ∷ []) (hold 9) in
    AreDistinct d'.globs
    × ((other : String)
        → get_glob_servlet made d' other
          ≡ (if same (42 ∷ []) other then some 9 else get_glob_servlet made table other))
    × ((path : String)
        → get_matched_servlet stars made d' path
          ≡ or_default made 0 (
              or_else (find path table.datas) (
                or_else
                  (find_match stars path (without (42 ∷ []) table.globs))
                  (if stars (42 ∷ []) path then some (hold 9) else none))))
unfolding find
add_glob_servlet_creator_lem_example =
    add_glob_servlet_creator_lem stars made table (42 ∷ []) (hold 9) (refl, tt)

add_servlet_lem_example :
    let d' = add_servlet table (47 ∷ 98 ∷ []) 8 in
    (get_matched_servlet stars made d' (47 ∷ 98 ∷ []) ≡ 8)
    × ((other : String)
        → get_servlet made d' other
          ≡ (if same (47 ∷ 98 ∷ []) other then some 8 else get_servlet made table other))
add_servlet_lem_example = add_servlet_lem stars made table (47 ∷ 98 ∷ []) 8
