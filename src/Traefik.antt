-- ===== src/Traefik.antt =====
-- packages/shared/src/traefik.ts: which hostnames an application answers on, and the labels and the
-- file that tell the proxy so.
pub mod Files
pub mod Hosts
mod Tests
use yeah.Base.{
  ℕ, Bool, true, false, ◌&&◌, ◌||◌, not, Option, none, some, List, [], ◌∷◌, ◌++◌, Text, codes,
  equal, includes, starts_with, drop, select, if◌then◌else◌,
}

pub data WwwRedirect : Type 0 where
  no_redirect www_to_root root_to_www : WwwRedirect

-- `redirect_from` is the hostname that only redirects to the canonical one.
pub record Routing : Type 0 where
  pub hosts : List Text
  pub canonical : Text
  pub redirect_from : Option Text

-- `[...new Set(list)]`: the first of each.
abbrev pub distinct_from : List Text → List Text → List Text
distinct_from seen [] = []
distinct_from seen (x ∷ rest) =
    let added = distinct_from (x ∷ seen) rest in
    let skipped = distinct_from seen rest in if includes seen x then skipped else x ∷ added

abbrev pub is_redirected : Option Text → Text → Bool
is_redirected none host = false
is_redirected (some from) host = equal from host

-- `domain.replace(/^www\./, "")`
unfoldable pub strip_www : Text → Text
strip_www domain = if starts_with (codes "www.") domain then drop 4 domain else domain

abbrev pub canonical_of : Text → WwwRedirect → Text
canonical_of primary no_redirect = primary
canonical_of primary www_to_root = strip_www primary
canonical_of primary root_to_www = codes "www." ++ strip_www primary

abbrev pub redirect_of : Text → WwwRedirect → Option Text
redirect_of primary no_redirect = none
redirect_of primary www_to_root = some (codes "www." ++ strip_www primary)
redirect_of primary root_to_www = some (strip_www primary)

unfoldable pub compute_routing : Text → List Text → WwwRedirect → Routing
compute_routing primary extras redirect = record {
  hosts = distinct_from [] (
      canonical_of primary redirect
      ∷ select (λ e. not (is_redirected (redirect_of primary redirect) e)) extras);
  canonical = canonical_of primary redirect;
  redirect_from = redirect_of primary redirect;
}
