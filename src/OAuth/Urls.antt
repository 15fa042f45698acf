-- ===== src/OAuth/Urls.antt =====
-- Which URLs the patterns of an application allow.
use x_server.Prelude.{
  ◌≡◌, refl, ap, ◌∙◌, inl, inr, ◌⊎◌, ◌↔◌, true, Bool-cases, Option-cases, some, List, [], ◌∷◌, ◌++◌,
  ==_iff, arith, Any,
}
use x_server.Text.{
  Bytes, codes, strcmp_eq, strcmp_eq_iff, starts_with, starts_with_append, starts_with_rest,
}
use x_server.OAuth.{
  ApiAuthConfig, allows_all, allows_one, star_prefix, matches_pattern, is_url_allowed,
}

-- A URL is equal to a pattern, or the pattern is a prefix of it with a `*`.
abbrev pub Matches : Bytes → Bytes → Type 0
Matches url pattern =
    (url ≡ pattern)
    ⊎ ((p : Bytes) × (rest : Bytes) × (pattern ≡ p ++ b'*' ∷ []) × (url ≡ p ++ rest))

star_prefix_whole : (s : Bytes) {p : Bytes} → star_prefix s ≡ some p → s ≡ p ++ b'*' ∷ []
unfolding star_prefix
star_prefix_whole [] e = absurd cc
star_prefix_whole (c ∷ []) e = ground (arith, ==_iff c b'*')
star_prefix_whole (c ∷ d ∷ s) {p} e = elim (Option-cases (star_prefix (d ∷ s))) [
  | inl n ↦ absurd (ground (arith, n))
  | inr (q, n) ↦
      let same : p ≡ c ∷ q = ground (arith, n) in
      rw same (ap (λ t. c ∷ t) (star_prefix_whole (d ∷ s) n))
]

star_prefix_star : (p : Bytes) → star_prefix (p ++ b'*' ∷ []) ≡ some p
unfolding star_prefix
star_prefix_star [] = refl
star_prefix_star (c ∷ []) = refl
star_prefix_star (c ∷ d ∷ p) = rw (star_prefix_star (d ∷ p)) refl

matched : (url pattern : Bytes) → matches_pattern url pattern ≡ true → Matches url pattern
unfolding matches_pattern
matched url pattern h = elim (Option-cases (star_prefix pattern)) [
  | inl n ↦ inl ((strcmp_eq_iff url pattern).0 (ground (arith, n)))
  | inr (p, n) ↦
      let (rest, e) = starts_with_rest url p (ground (arith, n)) in
      inr (p, rest, star_prefix_whole pattern n, e)
]

matches : (url pattern : Bytes) → Matches url pattern → matches_pattern url pattern ≡ true
unfolding matches_pattern
matches url pattern (inl e) = elim (Option-cases (star_prefix pattern)) [
  | inl n ↦ ground (arith, n, (strcmp_eq_iff url pattern).1 e)
  | inr (p, n) ↦
      let same : url ≡ p ++ b'*' ∷ [] = e ∙ star_prefix_whole pattern n in
      ground (arith, n, ap (λ u. starts_with u p) same ∙ starts_with_append p (b'*' ∷ []))
]
matches url pattern (inr (p, rest, e, same)) =
    rw (e, matches_pattern, star_prefix_star p, same) (starts_with_append p rest)

allows_one-Any : (ps : List Bytes) (url : Bytes) → (allows_one ps url ≡ true) ↔ Any (Matches url) ps
unfolding allows_one
allows_one-Any [] url = ((λ e. absurd cc), λ e. absurd e)
allows_one-Any (p ∷ ps) url = (
  (λ e. elim (Bool-cases (matches_pattern url p)) [
    | inl h ↦ inl (matched url p h)
    | inr h ↦ inr ((allows_one-Any ps url).0 (ground (arith, h)))
  ]),
  λ a. elim a [
    | inl m ↦ ground (arith, matches url p m)
    | inr m ↦ ground (arith, (allows_one-Any ps url).1 m)
  ],
)

allows_all-Any : (ps : List Bytes) (url : Bytes) → allows_all ps ≡ true → Any (Matches url) ps
unfolding allows_all
allows_all-Any [] url e = absurd cc
allows_all-Any (p ∷ ps) url e = elim (Bool-cases (strcmp_eq p (codes "*"))) [
  | inl h ↦ inl (inr ([], url, (strcmp_eq_iff p (codes "*")).0 h, refl))
  | inr h ↦ inr (allows_all-Any ps url (ground (arith, h)))
]

-- is_url_allowed accepts a URL exactly if one of the patterns is the URL itself, or ends in a `*`
-- behind a prefix of the URL.
pub is_url_allowed-Any :
    (config : ApiAuthConfig) (url : Bytes)
    → (is_url_allowed config url ≡ true) ↔ Any (Matches url) config.allowed_urls
unfolding is_url_allowed
is_url_allowed-Any config url = (
  (λ e. elim (Bool-cases (allows_all config.allowed_urls)) [
    | inl h ↦ allows_all-Any config.allowed_urls url h
    | inr h ↦ (allows_one-Any config.allowed_urls url).0 (ground (arith, h))
  ]),
  λ a. ground (arith, (allows_one-Any config.allowed_urls url).1 a),
)
