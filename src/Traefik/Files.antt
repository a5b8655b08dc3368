-- ===== src/Traefik/Files.antt =====
-- traefik.ts: the labels of a container, and the file of the proxy's file provider.
use yeah.Base.{
  ℕ, Bool, false, ◌&&◌, Option, none, some, List, [], ◌∷◌, ◌++◌, map, Text, codes, join, to_text,
  one_of, drop, starts_with, if◌then◌else◌,
}
use yeah.Traefik.{Routing}

abbrev pub is_special : ℕ → Bool
is_special c = one_of (codes ".*+?^${}()|[]\\") c

-- `regexEscape`
abbrev pub regex_escape : Text → Text
regex_escape [] = []
regex_escape (c ∷ s) =
    let rest = regex_escape s in if is_special c then b'\\' ∷ c ∷ rest else c ∷ rest

abbrev pub host_term : Text → Text
host_term host = codes "Host(`" ++ host ++ codes "`)"

abbrev pub rule_of : Routing → Text
rule_of routing = join (codes " || ") (map host_term routing.hosts)

abbrev pub redirect_labels : Text → Text → Option Text → List Text
redirect_labels name canonical none = []
redirect_labels name canonical (some from) =
    let r = name ++ codes "-redir" in
    (codes "traefik.http.routers." ++ r ++ codes ".rule=" ++ host_term from)
    ∷ (codes "traefik.http.routers." ++ r ++ codes ".entrypoints=websecure")
    ∷ (codes "traefik.http.routers." ++ r ++ codes ".tls.certresolver=letsencrypt")
    ∷ (codes "traefik.http.routers." ++ r ++ codes ".service=" ++ name)
    ∷ (codes "traefik.http.routers." ++ r ++ codes ".middlewares=" ++ r)
    ∷ (codes "traefik.http.middlewares."
        ++ r
        ++ codes ".redirectregex.regex=^https?://"
        ++ regex_escape from
        ++ codes "/(.*)")
    ∷ (codes "traefik.http.middlewares."
        ++ r
        ++ codes ".redirectregex.replacement=https://"
        ++ canonical
        ++ codes "/${1}")
    ∷ (codes "traefik.http.middlewares." ++ r ++ codes ".redirectregex.permanent=true")
    ∷ []

unfoldable pub traefik_labels : Text → Routing → ℕ → List Text
traefik_labels name routing port =
    codes "traefik.enable=true"
    ∷ codes "traefik.docker.network=yeah-proxy-net"
    ∷ (codes "traefik.http.routers." ++ name ++ codes ".rule=" ++ rule_of routing)
    ∷ (codes "traefik.http.routers." ++ name ++ codes ".entrypoints=websecure")
    ∷ (codes "traefik.http.routers." ++ name ++ codes ".tls.certresolver=letsencrypt")
    ∷ (codes "traefik.http.services." ++ name ++ codes ".loadbalancer.server.port=" ++ to_text port)
    ∷ redirect_labels name routing.canonical routing.redirect_from

pub record BasicAuth : Type 0 where
  pub user : Text
  pub hash : Text

pub record DynamicConfigOptions : Type 0 where
  pub backend_url : Option Text
  pub basic_auth : Option BasicAuth

abbrev pub is_bcrypt : Text → Bool
is_bcrypt (d ∷ two ∷ v ∷ e ∷ rest) =
    starts_with (codes "$2") (d ∷ two ∷ []) && one_of (codes "abx") v && one_of (codes "$") e
is_bcrypt _ = false

-- `hash.replace(/^\$2[abx]\$/, "$2y$")`, in which `$2` and `$` have no group to stand for.
unfoldable pub htpasswd_hash : Text → Text
htpasswd_hash hash = if is_bcrypt hash then codes "$2y$" ++ drop 4 hash else hash

abbrev pub auth_router : Text → Option BasicAuth → List Text
auth_router name none = []
auth_router name (some auth) =
    codes "      middlewares:" ∷ (codes "        - " ++ name ++ codes "-auth") ∷ []

abbrev pub redirect_router : Text → Option Text → List Text
redirect_router name none = []
redirect_router name (some from) =
    let r = name ++ codes "-redir" in
    (codes "    " ++ r ++ codes ":")
    ∷ (codes "      rule: \"" ++ host_term from ++ codes "\"")
    ∷ codes "      entryPoints:"
    ∷ codes "        - websecure"
    ∷ codes "      tls:"
    ∷ codes "        certResolver: letsencrypt"
    ∷ (codes "      service: " ++ name)
    ∷ codes "      middlewares:"
    ∷ (codes "        - " ++ r)
    ∷ codes "      priority: 1000"
    ∷ []

abbrev pub url_of : Text → ℕ → Option Text → Text
url_of name port none = codes "http://" ++ name ++ codes ":" ++ to_text port
url_of name port (some url) = url

abbrev pub auth_middleware : Text → Option BasicAuth → List Text
auth_middleware name none = []
auth_middleware name (some auth) =
    (codes "    " ++ name ++ codes "-auth:")
    ∷ codes "      basicAuth:"
    ∷ codes "        removeHeader: true"
    ∷ codes "        users:"
    ∷ (codes "          - \"" ++ auth.user ++ codes ":" ++ htpasswd_hash auth.hash ++ codes "\"")
    ∷ []

abbrev pub redirect_middleware : Text → Text → Option Text → List Text
redirect_middleware name canonical none = []
redirect_middleware name canonical (some from) =
    (codes "    " ++ name ++ codes "-redir:")
    ∷ codes "      redirectRegex:"
    ∷ (codes "        regex: \"^https?://" ++ regex_escape from ++ codes "/(.*)\"")
    ∷ (codes "        replacement: \"https://" ++ canonical ++ codes "/${1}\"")
    ∷ codes "        permanent: true"
    ∷ []

abbrev pub middleware_lines : List Text → List Text
middleware_lines [] = []
middleware_lines (line ∷ rest) = codes "  middlewares:" ∷ line ∷ rest

abbrev pub config_lines : Text → Routing → ℕ → DynamicConfigOptions → List Text
config_lines name routing port options =
    (codes "http:"
      ∷ codes "  routers:"
      ∷ (codes "    " ++ name ++ codes ":")
      ∷ (codes "      rule: \"" ++ rule_of routing ++ codes "\"")
      ∷ codes "      entryPoints:"
      ∷ codes "        - websecure"
      ∷ codes "      tls:"
      ∷ codes "        certResolver: letsencrypt"
      ∷ (codes "      service: " ++ name)
      ∷ [])
    ++ auth_router name options.basic_auth
    ++ (codes "      priority: 1000" ∷ [])
    ++ redirect_router name routing.redirect_from
    ++ (codes "  services:"
        ∷ (codes "    " ++ name ++ codes ":")
        ∷ codes "      loadBalancer:"
        ∷ codes "        servers:"
        ∷ (codes "          - url: \"" ++ url_of name port options.backend_url ++ codes "\"")
        ∷ [])
    ++ middleware_lines (
        auth_middleware name options.basic_auth
        ++ redirect_middleware name routing.canonical routing.redirect_from)

unfoldable pub traefik_dynamic_config : Text → Routing → ℕ → DynamicConfigOptions → Text
traefik_dynamic_config name routing port options =
    join (codes "\n") (config_lines name routing port options) ++ codes "\n"
