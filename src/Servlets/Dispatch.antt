-- ===== src/Servlets/Dispatch.antt =====
-- Which servlet answers, after the calls of src/base/net/http/servlet.cc that change the tables.
use agent_link_coro.Prelude.{
  ℕ, ◌≡◌, refl, sym, ap, subst, ◌∙◌, Bool, true, false, [], ◌∷◌, ◌++◌, Option, none, some,
  if◌then◌else◌,
}
use agent_link_coro.Servlets.{
  String, same, Creator, hold, get_servlet_of, ServletDispatch, find, find_match, or_else, get_of,
  or_default, add_servlet, add_glob_servlet_creator, del_glob_servlet, get_servlet,
  get_glob_servlet, get_matched_servlet,
}
use agent_link_coro.Servlets.Table.{
  same_refl, same_sym, AreDistinct, without, erase-without, find-without, find-append,
  find_match-append, without-AreDistinct, append-AreDistinct, find-assign,
}

-- After addGlobServletCreator on a table of patterns without doubles, there are still none. The pattern has
-- the new servlet, and every other pattern what it had. For a path, the servlet of that very path comes
-- first, then the first other pattern that matches, in the order in which the patterns were added, then
-- the new one, and then the default.
pub add_glob_servlet_creator_lem :
    (fnmatch : String → String → Bool) (make : ℕ → ℕ) (d : ServletDispatch) (uri : String)
    (creator : Creator)
    → AreDistinct d.globs
    → let d' = add_glob_servlet_creator d uri creator in
      AreDistinct d'.globs
      × ((other : String)
          → get_glob_servlet make d' other ≡ (
              if same uri other
              then some (get_servlet_of make creator)
              else get_glob_servlet make d other))
      × ((path : String)
          → get_matched_servlet fnmatch make d' path
            ≡ or_default make d.default (
                or_else (find path d.datas) (
                  or_else
                    (find_match fnmatch path (without uri d.globs))
                    (if fnmatch uri path then some creator else none))))
unfolding add_glob_servlet_creator get_glob_servlet get_matched_servlet
add_glob_servlet_creator_lem fnmatch make d uri creator distinct =
    let e = erase-without uri d.globs distinct in
    let absent : find uri (without uri d.globs) ≡ none =
      find-without uri uri d.globs
      ∙ ap (λ t. if t then none else find uri d.globs) (same_refl uri) in
    (
      subst (λ g. AreDistinct (g ++ (uri, creator) ∷ [])) (sym e)
          (append-AreDistinct uri creator (without uri d.globs) absent
            (without-AreDistinct uri d.globs distinct)),
      λ other.
          ap (λ g. get_of make (find other (g ++ (uri, creator) ∷ []))) e
          ∙ ap (get_of make) (
              find-append other uri creator (without uri d.globs)
              ∙ ap (λ o. or_else o (if same uri other then some creator else none))
                  (find-without uri other d.globs))
          ∙ ap
              (λ b. get_of make (
                or_else (if b then none else find other d.globs)
                  (if same uri other then some creator else none)))
              (same_sym other uri)
          ∙ by (same uri other) (find other d.globs),
      λ path.
          ap
            (λ g.
              or_default make d.default
                (or_else (find path d.datas) (find_match fnmatch path (g ++ (uri, creator) ∷ []))))
            e
          ∙ ap (λ o. or_default make d.default (or_else (find path d.datas) o))
              (find_match-append fnmatch path uri creator (without uri d.globs)),
    )
  where
    by :
        (b : Bool) (o : Option Creator)
        → get_of make (or_else (if b then none else o) (if b then some creator else none))
          ≡ (if b then some (get_servlet_of make creator) else get_of make o)
    by true o = refl
    by false none = refl
    by false (some c) = refl

-- After addServlet the path has the servlet, whatever patterns match it, and every other path what it had
-- in the table of paths.
pub add_servlet_lem :
    (fnmatch : String → String → Bool) (make : ℕ → ℕ) (d : ServletDispatch) (uri : String)
    (servlet : ℕ)
    → let d' = add_servlet d uri servlet in
      (get_matched_servlet fnmatch make d' uri ≡ servlet)
      × ((other : String)
          → get_servlet make d' other
            ≡ (if same uri other then some servlet else get_servlet make d other))
unfolding add_servlet get_servlet get_matched_servlet
add_servlet_lem fnmatch make d uri servlet = (
  ap (λ o. or_default make d.default (or_else o (find_match fnmatch uri d.globs)))
      (find-assign uri uri (hold servlet) d.datas
        ∙ ap (λ t. if t then some (hold servlet) else find uri d.datas) (same_refl uri)),
  λ other.
      ap (get_of make) (find-assign uri other (hold servlet) d.datas)
      ∙ by (same uri other) (find other d.datas),
)
  where
    by :
        (b : Bool) (o : Option Creator)
        → get_of make (if b then some (hold servlet) else o)
          ≡ (if b then some servlet else get_of make o)
    by true o = refl
    by false o = refl

-- After delGlobServlet on a table without doubles the pattern is gone, and every other pattern has what it
-- had.
pub del_glob_servlet_lem :
    (make : ℕ → ℕ) (d : ServletDispatch) (uri : String)
    → AreDistinct d.globs
    → let d' = del_glob_servlet d uri in
      AreDistinct d'.globs
      × ((other : String)
          → get_glob_servlet make d' other
            ≡ (if same other uri then none else get_glob_servlet make d other))
unfolding del_glob_servlet get_glob_servlet
del_glob_servlet_lem make d uri distinct =
    let e = erase-without uri d.globs distinct in
    (
      subst AreDistinct (sym e) (without-AreDistinct uri d.globs distinct),
      λ other.
          ap (λ g. get_of make (find other g)) e
          ∙ ap (get_of make) (find-without uri other d.globs)
          ∙ by (same other uri) (find other d.globs),
    )
  where
    by :
        (b : Bool) (o : Option Creator)
        → get_of make (if b then none else o) ≡ (if b then none else get_of make o)
    by true o = refl
    by false o = refl
