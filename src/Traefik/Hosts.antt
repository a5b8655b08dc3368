-- ===== src/Traefik/Hosts.antt =====
-- traefik.ts: the hostnames of a routing.
use yeah.Base.{
  ℕ, suc, or_else, is_some, true, false, ◌&&◌, ◌||◌, not, Option, some, List, [], ◌∷◌, ◌++◌, Text,
  codes, equal, equal_iff, equal_refl, includes, length, length-append, select, ◌≡◌, refl, sym, ap,
  Bool-cases, Bool, none, ◌+◌, ◌∙◌, ◌⊎◌, if◌then◌else◌, starts_with, inl, inr, arith,
}
use yeah.Traefik.{
  WwwRedirect, no_redirect, www_to_root, root_to_www, distinct_from, is_redirected, strip_www,
  canonical_of, redirect_of, compute_routing,
}

includes-distinct_from :
    (seen xs : List Text) (t : Text)
    → includes (distinct_from seen xs) t ≡ includes xs t && not (includes seen t)
includes-distinct_from seen [] t = refl
includes-distinct_from seen (x ∷ rest) t =
    let added = includes-distinct_from (x ∷ seen) rest t in
    let skipped = includes-distinct_from seen rest t in
    elim (Bool-cases (includes seen x)) [
      | inl there ↦ rw there (elim (Bool-cases (equal x t)) [
        | inl same ↦
            (let known = rw ((equal_iff x t).0 same) at there in
              rw (skipped, same, known) (ground arith))
        | inr other ↦ rw (other, skipped) refl
      ])
      | inr new ↦ rw new (elim (Bool-cases (equal x t)) [
        | inl same ↦ (let known = rw ((equal_iff x t).0 same) at new in rw (same, known) refl)
        | inr other ↦ rw (other, added, other) refl
      ])
    ]

includes-select :
    (from : Option Text) (xs : List Text) (t : Text)
    → includes (select (λ e. not (is_redirected from e)) xs) t
      ≡ includes xs t && not (is_redirected from t)
includes-select from [] t = refl
includes-select from (x ∷ rest) t =
    let later = includes-select from rest t in
    elim (Bool-cases (equal x t)) [
      | inl same ↦
          (let e = (equal_iff x t).0 same in
            elim (Bool-cases (is_redirected from x)) [
              | inl gone ↦ (let known = rw e at gone in rw (gone, later, known) (ground arith))
              | inr kept ↦ (let known = rw e at kept in rw (kept, same, known) refl)
            ])
      | inr other ↦ elim (Bool-cases (is_redirected from x)) [
        | inl gone ↦ rw (gone, later, other) refl
        | inr kept ↦ rw (kept, other, later) refl
      ]
    ]

compute_routing_lem :
    (primary : Text) (extras : List Text) (mode : WwwRedirect) (host : Text)
    → includes (compute_routing primary extras mode).hosts host
      ≡ equal (canonical_of primary mode) host
        || (includes extras host && not (is_redirected (redirect_of primary mode) host))
unfolding compute_routing
compute_routing_lem primary extras mode host =
    let unique =
      includes-distinct_from (canonical_of primary mode ∷ [])
        (select (λ e. not (is_redirected (redirect_of primary mode) e)) extras) host in
    let kept = includes-select (redirect_of primary mode) extras host in
    rw (unique, kept) (ground arith)

-- A prefix of its own makes a text another one.
longer : (a b : Text) (n : ℕ) → length a ≡ suc n → equal (a ++ b) b ≡ false
longer a b n len = elim (Bool-cases (equal (a ++ b) b)) [
  | inl same ↦
      (let e = ap length ((equal_iff (a ++ b) b).0 same) in
        let sum = length-append a b in absurd (omega arith))
  | inr other ↦ other
]

equal_sym : (a b : Text) → equal a b ≡ false → equal b a ≡ false
equal_sym a b other = elim (Bool-cases (equal b a)) [
  | inl same ↦
      (let e = (equal_iff b a).0 same in
        let known = rw e at other in
        let clash = rw (equal_refl a) at known in absurd (ground arith))
  | inr new ↦ new
]

separated :
    (primary : Text) (mode : WwwRedirect) (from : Text)
    → or_else (redirect_of primary mode) [] ≡ from
    → redirect_of primary mode ≡ some from
    → (equal (canonical_of primary mode) from ≡ false)
      × (is_redirected (redirect_of primary mode) from ≡ true)
separated primary no_redirect from e found = (let clash = ap is_some found in absurd (ground arith))
separated primary www_to_root from e found = rw (sym e) (
  equal_sym (codes "www." ++ strip_www primary) (strip_www primary)
      (longer (codes "www.") (strip_www primary) 3 refl),
  equal_refl (codes "www." ++ strip_www primary),
)
separated primary root_to_www from e found =
    rw (sym e) (longer (codes "www.") (strip_www primary) 3 refl, equal_refl (strip_www primary))

-- How often a text is in a list.
abbrev pub times : Text → List Text → ℕ
times t [] = 0
times t (x ∷ rest) = let later = times t rest in if equal x t then later + 1 else later

-- 1 for true.
abbrev pub once : Bool → ℕ
once true = 1
once false = 0

times-distinct_from :
    (seen xs : List Text) (t : Text)
    → times t (distinct_from seen xs) ≡ once (includes xs t && not (includes seen t))
times-distinct_from seen [] t = refl
times-distinct_from seen (x ∷ rest) t =
    let added = times-distinct_from (x ∷ seen) rest t in
    let skipped = times-distinct_from seen rest t in
    elim (Bool-cases (includes seen x)) [
      | inl there ↦ rw there (elim (Bool-cases (equal x t)) [
        | inl same ↦
            (let known = rw ((equal_iff x t).0 same) at there in
              rw (skipped, same, known) (ground arith))
        | inr other ↦ rw (other, skipped) refl
      ])
      | inr new ↦ rw new (elim (Bool-cases (equal x t)) [
        | inl same ↦
            (let known = rw ((equal_iff x t).0 same) at new in
              rw (same, added, same, known) (ground arith))
        | inr other ↦ rw (other, added, other) refl
      ])
    ]

times-hosts :
    (primary : Text) (extras : List Text) (mode : WwwRedirect) (host : Text)
    → times host (compute_routing primary extras mode).hosts
      ≡ once (
          equal (canonical_of primary mode) host
          || (includes extras host && not (is_redirected (redirect_of primary mode) host)))
unfolding compute_routing
times-hosts primary extras mode host =
    times-distinct_from []
      (canonical_of primary mode
        ∷ select (λ e. not (is_redirected (redirect_of primary mode) e)) extras)
      host
    ∙ rw (includes-select (redirect_of primary mode) extras host) (ground arith)

abbrev pub www : Text → Text
www root = codes "www." ++ root

strip_www-root :
    (root primary : Text)
    → starts_with (codes "www.") root ≡ false
    → (primary ≡ root) ⊎ (primary ≡ www root)
    → strip_www primary ≡ root
unfolding strip_www starts_with
strip_www-root root primary h (inl e) = rw (e, h)
strip_www-root root primary h (inr e) = rw e

-- A domain without "www." in front, given as it is or with "www.": with the redirect to the root, the
-- application answers on the domain and on the extra hostnames but the one with "www.", which redirects; with
-- the redirect to "www.", on the one with "www." and on the extra hostnames but the domain, which redirects;
-- without a redirect, on the hostname given and on all extra ones, and none redirects. Each of these
-- hostnames is listed once, and no other one is.
pub compute_routing_hosts :
    (root primary : Text) (extras : List Text) (host : Text)
    → starts_with (codes "www.") root ≡ false
    → (primary ≡ root) ⊎ (primary ≡ www root)
    → (times host (compute_routing primary extras www_to_root).hosts
        ≡ once (equal root host || (includes extras host && not (equal (www root) host))))
      × (times host (compute_routing primary extras root_to_www).hosts
          ≡ once (equal (www root) host || (includes extras host && not (equal root host))))
      × (times host (compute_routing primary extras no_redirect).hosts
          ≡ once (equal primary host || includes extras host))
      × ((compute_routing primary extras www_to_root).redirect_from ≡ some (www root))
      × ((compute_routing primary extras root_to_www).redirect_from ≡ some root)
      × ((compute_routing primary extras no_redirect).redirect_from ≡ none)
unfolding compute_routing
compute_routing_hosts root primary extras host h given =
    let e = strip_www-root root primary h given in
    (
      rw (times-hosts primary extras www_to_root host, e) refl,
      rw (times-hosts primary extras root_to_www host, e) refl,
      rw (times-hosts primary extras no_redirect host) (ground arith),
      rw e refl,
      rw e refl,
      refl,
    )

-- The hostname that redirects to the canonical one is never among those that the application answers on.
pub compute_routing-separates :
    (primary : Text) (extras : List Text) (mode : WwwRedirect) (from : Text)
    → (compute_routing primary extras mode).redirect_from ≡ some from
    → includes (compute_routing primary extras mode).hosts from ≡ false
unfolding compute_routing
compute_routing-separates primary extras mode from found =
    let apart = separated primary mode from (ap (λ o. or_else o []) found) found in
    rw (compute_routing_lem primary extras mode from, apart.0, apart.1) (ground arith)
