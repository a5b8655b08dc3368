-- ===== src/Traefik/Tests.antt =====
-- Routings and the proxy's files, and the theorems at concrete inputs.
use yeah.Base.{
  List, inl, some, true, false, none, [], ◌∷◌, Text, codes, contains, equal, includes, join,
  starts_with, to_text, digits_from, ◌≡◌, refl,
}
use yeah.Traefik.{no_redirect, root_to_www, www_to_root, compute_routing, strip_www}
use yeah.Traefik.Files.{traefik_dynamic_config, htpasswd_hash, DynamicConfigOptions}
use yeah.Traefik.Hosts.{times, compute_routing_hosts, compute_routing-separates}

abbrev extra_hosts : List Text
extra_hosts = codes "b.dev" ∷ codes "www.a.dev" ∷ codes "b.dev" ∷ []

to_root :
    (compute_routing (codes "a.dev") extra_hosts www_to_root).hosts
    ≡ codes "a.dev" ∷ codes "b.dev" ∷ []
unfolding compute_routing strip_www starts_with equal
to_root = refl

abbrev plain : DynamicConfigOptions
plain = record { backend_url = none; basic_auth = none }

redirects :
    contains (codes "        regex: \"^https?://www\\.a\\.dev/(.*)\"") (
      traefik_dynamic_config
        (codes "web")
        (compute_routing (codes "a.dev") extra_hosts www_to_root)
        80
        plain)
    ≡ true
unfolding traefik_dynamic_config compute_routing strip_www contains starts_with join to_text
    digits_from equal
redirects = refl

hash : htpasswd_hash (codes "$2b$12$x") ≡ codes "$2y$12$x"
unfolding htpasswd_hash starts_with
hash = refl

compute_routing_hosts_example :
    (times (codes "b.dev") (compute_routing (codes "a.dev") extra_hosts www_to_root).hosts ≡ 1)
    × (times (codes "b.dev") (compute_routing (codes "a.dev") extra_hosts root_to_www).hosts ≡ 1)
    × (times (codes "b.dev") (compute_routing (codes "a.dev") extra_hosts no_redirect).hosts ≡ 1)
    × ((compute_routing (codes "a.dev") extra_hosts www_to_root).redirect_from
        ≡ some (codes "www.a.dev"))
    × ((compute_routing (codes "a.dev") extra_hosts root_to_www).redirect_from
        ≡ some (codes "a.dev"))
    × ((compute_routing (codes "a.dev") extra_hosts no_redirect).redirect_from ≡ none)
unfolding equal starts_with
compute_routing_hosts_example =
    compute_routing_hosts (codes "a.dev") (codes "a.dev") extra_hosts (codes "b.dev") refl
      (inl refl)

compute_routing-separates_example :
    includes (compute_routing (codes "a.dev") extra_hosts www_to_root).hosts (codes "www.a.dev")
    ≡ false
unfolding compute_routing strip_www starts_with
compute_routing-separates_example =
    compute_routing-separates (codes "a.dev") extra_hosts www_to_root (codes "www.a.dev") refl
