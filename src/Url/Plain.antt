-- ===== src/Url/Plain.antt =====
-- UrlEncode of src/base/util.cc without the string that is only made when it is needed.
use agent_link_coro.Prelude.{
  ℕ, ◌≡◌, refl, sym, ap, ◌∙◌, Bool, true, false, not, List, [], ◌∷◌, ◌++◌, append-nil, append_assoc,
  Option, none, some, if◌then◌else◌,
}
use agent_link_coro.Url.{is_unreserved, escaped, started, kept, encode_loop, url_encode}

-- Each character by itself.
unfoldable pub encode_each : Bool → List ℕ → List ℕ
unfolding is_unreserved escaped
encode_each plus [] = []
encode_each plus (c ∷ cs) =
    (if is_unreserved c then c ∷ [] else escaped plus c) ++ encode_each plus cs

pub started-kept :
    (seen : List ℕ) (c : ℕ) (ss : Option (List ℕ))
    → started (seen ++ c ∷ []) (kept c ss) ≡ started seen ss ++ c ∷ []
started-kept seen c none = refl
started-kept seen c (some out) = refl

pub started-nil :
    (seen : List ℕ) (ss : Option (List ℕ)) → started (seen ++ []) ss ≡ started seen ss ++ []
started-nil seen none = refl
started-nil seen (some out) = sym (append-nil out)

encode_loop_lem :
    (plus : Bool) (seen : List ℕ) (ss : Option (List ℕ)) (cs : List ℕ)
    → started (seen ++ cs) (encode_loop plus seen ss cs) ≡ started seen ss ++ encode_each plus cs
unfolding encode_loop encode_each
encode_loop_lem plus seen ss [] = started-nil seen ss
encode_loop_lem plus seen ss (c ∷ cs) =
    let next =
      if not (is_unreserved c) then some (started seen ss ++ escaped plus c) else kept c ss in
    let out = if is_unreserved c then c ∷ [] else escaped plus c in
    ap (λ z. started z (encode_loop plus (seen ++ c ∷ []) next cs))
      (sym (append_assoc seen (c ∷ []) cs))
    ∙ encode_loop_lem plus (seen ++ c ∷ []) next cs
    ∙ ap (λ z. z ++ encode_each plus cs) (by (is_unreserved c))
    ∙ append_assoc (started seen ss) out (encode_each plus cs)
  where
    by :
        (b : Bool)
        → started
            (seen ++ c ∷ [])
            (if not b then some (started seen ss ++ escaped plus c) else kept c ss)
          ≡ started seen ss ++ (if b then c ∷ [] else escaped plus c)
    by true = started-kept seen c ss
    by false = refl

-- UrlEncode writes each unreserved character as it is and escapes every other one, whether or not it had
-- to make a string of its own.
pub url_encode_lem : (plus : Bool) (str : List ℕ) → url_encode plus str ≡ encode_each plus str
unfolding url_encode
url_encode_lem plus str = encode_loop_lem plus [] none str
