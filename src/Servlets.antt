-- ===== src/Servlets.antt =====
-- ServletDispatch of src/base/net/http/servlet.h and servlet.cc: which servlet answers for a path. A string
-- is a list of character codes and a servlet an address. m_datas, an unordered_map, is the list of its
-- entries; fnmatch of the C library is an argument that says whether a pattern matches a path.
pub mod Table
pub mod Dispatch
mod Examples
use agent_link_coro.Prelude.{
  ℕ, Bool, true, false, not, ◌&&◌, List, [], ◌∷◌, ◌++◌, Option, none, some, ◌==◌, if◌then◌else◌,
}

abbrev pub String : Type 0
String = List ℕ

-- `==` of strings.
unfoldable pub same : String → String → Bool
same [] [] = true
same [] (y ∷ ys) = false
same (x ∷ xs) [] = false
same (x ∷ xs) (y ∷ ys) = if x == y then same xs ys else false

-- IServletCreator: HoldServletCreator with its servlet, and ServletCreator, which makes one of a type.
pub data Creator : Type 0 where
  hold : (servlet : ℕ) → Creator
  create : (type : ℕ) → Creator

-- What `get` of a creator gives: `make` is what a new servlet of a type is.
abbrev pub get_servlet_of : (ℕ → ℕ) → Creator → ℕ
get_servlet_of make (hold servlet) = servlet
get_servlet_of make (create type) = make type

pub record ServletDispatch : Type 0 where
  pub datas : List (String × Creator)
  pub globs : List (String × Creator)
  pub default : ℕ

-- ServletDispatch::ServletDispatch
unfoldable pub new_servlet_dispatch : ℕ → ServletDispatch
new_servlet_dispatch not_found = record { datas = []; globs = []; default = not_found }

-- `find`, and the loops that look for a name.
unfoldable pub find : String → List (String × Creator) → Option Creator
unfolding same
find uri [] = none
find uri ((name, creator) ∷ rest) = if same name uri then some creator else find uri rest

-- `m_datas[uri] = creator`
unfoldable pub assign : String → Creator → List (String × Creator) → List (String × Creator)
unfolding same
assign uri creator [] = (uri, creator) ∷ []
assign uri creator ((name, old) ∷ rest) =
    if same name uri then (name, creator) ∷ rest else (name, old) ∷ assign uri creator rest

-- `erase`, and the loops that erase the first entry of a name.
unfoldable pub erase : String → List (String × Creator) → List (String × Creator)
unfolding same
erase uri [] = []
erase uri ((name, creator) ∷ rest) =
    if same name uri then rest else (name, creator) ∷ erase uri rest

-- addServletCreator, addServlet
unfoldable pub add_servlet_creator : ServletDispatch → String → Creator → ServletDispatch
unfolding assign
add_servlet_creator d uri creator = record d { datas = assign uri creator d.datas }

unfoldable pub add_servlet : ServletDispatch → String → ℕ → ServletDispatch
unfolding assign
add_servlet d uri servlet = record d { datas = assign uri (hold servlet) d.datas }

-- addGlobServletCreator, addGlobServlet
unfoldable pub add_glob_servlet_creator : ServletDispatch → String → Creator → ServletDispatch
unfolding erase
add_glob_servlet_creator d uri creator = record d {
  globs = erase uri d.globs ++ (uri, creator) ∷ [];
}

unfoldable pub add_glob_servlet : ServletDispatch → String → ℕ → ServletDispatch
unfolding erase
add_glob_servlet d uri servlet = record d { globs = erase uri d.globs ++ (uri, hold servlet) ∷ [] }

-- delServlet, delGlobServlet
unfoldable pub del_servlet : ServletDispatch → String → ServletDispatch
unfolding erase
del_servlet d uri = record d { datas = erase uri d.datas }

unfoldable pub del_glob_servlet : ServletDispatch → String → ServletDispatch
unfolding erase
del_glob_servlet d uri = record d { globs = erase uri d.globs }

abbrev pub get_of : (ℕ → ℕ) → Option Creator → Option ℕ
get_of make none = none
get_of make (some creator) = some (get_servlet_of make creator)

-- getServlet, getGlobServlet
unfoldable pub get_servlet : (ℕ → ℕ) → ServletDispatch → String → Option ℕ
unfolding find
get_servlet make d uri = get_of make (find uri d.datas)

unfoldable pub get_glob_servlet : (ℕ → ℕ) → ServletDispatch → String → Option ℕ
unfolding find
get_glob_servlet make d uri = get_of make (find uri d.globs)

-- The loop of getMatchedServlet over m_globs.
unfoldable pub find_match :
    (String → String → Bool) → String → List (String × Creator) → Option Creator
find_match fnmatch path [] = none
find_match fnmatch path ((pattern, creator) ∷ rest) =
    if fnmatch pattern path then some creator else find_match fnmatch path rest

abbrev pub or_else : Option Creator → Option Creator → Option Creator
or_else none other = other
or_else (some creator) other = some creator

abbrev pub or_default : (ℕ → ℕ) → ℕ → Option Creator → ℕ
or_default make default none = default
or_default make default (some creator) = get_servlet_of make creator

-- getMatchedServlet
unfoldable pub get_matched_servlet :
    (String → String → Bool) → (ℕ → ℕ) → ServletDispatch → String → ℕ
unfolding find find_match
get_matched_servlet fnmatch make d path =
    or_default make d.default (or_else (find path d.datas) (find_match fnmatch path d.globs))
