-- ===== src/Config/Upstream/Kinds.antt =====
-- internal/config/config.go against internal/vpngate/upstream.go: the upstream proxy of the
-- environment is of a kind that the client knows.
use conduitvpn.Config.Upstream.{
  candidates, parse_proxy_value, or_next, parse_upstream_proxy, first_proxy, of_url, type_of_scheme,
  or_else, of_host_port, checked, Url,
}
use conduitvpn.Base.{
  choice, ◌≡◌, refl, sym, ap, ◌∙◌, subst, ◌≢◌, ◌⊎◌, inl, inr, Bool, not, Option, none, some, List,
  [], ◌∷◌, if◌then◌else◌, All, Str, codes, is_empty, str_eq, trim_space, contains, one_of,
  split_host_port,
}
use conduitvpn.Config.{UpstreamProxy, Env}
use conduitvpn.Vpngate.Client.{Route, direct, through_http, through_socks5, proxy_auth, new_client}

abbrev IsKind : Str → Type 0
IsKind k = (k ≡ codes "http") ⊎ (k ≡ codes "socks5")

abbrev Forces : Str → Type 0
Forces f = (f ≡ []) ⊎ IsKind f

abbrev HasKind : Option UpstreamProxy → Type 0
HasKind none = Unit
HasKind (some p) = IsKind p.kind

IsKind-or_else : (f k : Str) → Forces f → IsKind k → IsKind (or_else f k)
IsKind-or_else f k (inl e) h = rw e h
IsKind-or_else f k (inr (inl e)) h = rw e (inl refl)
IsKind-or_else f k (inr (inr e)) h = rw e (inr refl)

IsKind-type_of_scheme : (s : Str) → IsKind (type_of_scheme s)
unfolding type_of_scheme
IsKind-type_of_scheme s =
    choice IsKind (one_of (codes "socks" ∷ codes "socks5" ∷ codes "socks5h" ∷ []) s) (inr refl)
      (inl refl)

kind-checked :
    (typ host port user pass : Str) → IsKind typ → HasKind (checked typ host port user pass)
kind-checked typ host port user pass h = choice HasKind (is_empty host) tt h

kind-of_url : (f : Str) (u : Option Url) → Forces f → HasKind (of_url f u)
unfolding of_url
kind-of_url f none h = tt
kind-of_url f (some u) h = choice HasKind (is_empty u.hostname) tt (
    kind-checked (or_else f (type_of_scheme u.scheme)) u.hostname u.url_port u.username u.password
      (IsKind-or_else f (type_of_scheme u.scheme) h (IsKind-type_of_scheme u.scheme)))

kind-of_host_port :
    (f val : Str) (hp : Option (Str × Str)) → Forces f → HasKind (of_host_port f val hp)
kind-of_host_port f val (some (host, port)) h =
    kind-checked (or_else f (codes "http")) host port [] []
      (IsKind-or_else f (codes "http") h (inl refl))
kind-of_host_port f val none h =
    choice HasKind (not (contains val (codes ":")))
      (kind-checked (or_else f (codes "http")) val [] [] []
        (IsKind-or_else f (codes "http") h (inl refl)))
      tt

module _ (url_parse : Str → Option Url) where
  kind-parse_proxy_value : (val f : Str) → Forces f → HasKind (parse_proxy_value url_parse val f)
  unfolding parse_proxy_value
  kind-parse_proxy_value val f h =
      choice HasKind (contains val (codes "://")) (kind-of_url f (url_parse val) h)
        (kind-of_host_port f val (split_host_port val) h)

  kind-or_next :
      (getenv : Env) (p rest : Option UpstreamProxy)
      → HasKind p
      → HasKind rest
      → HasKind (or_next url_parse getenv p rest)
  kind-or_next getenv none rest h hr = hr
  kind-or_next getenv (some p) rest h hr =
      choice (λ (q : UpstreamProxy). IsKind q.kind) (is_empty p.user) h h

  kind-first_proxy :
      (getenv : Env) (cands : List (Str × Str))
      → All (λ c. Forces c.1) cands
      → HasKind (first_proxy url_parse getenv cands)
  unfolding first_proxy
  kind-first_proxy getenv [] h = tt
  kind-first_proxy getenv ((env, f) ∷ cands) h =
      choice HasKind (is_empty (trim_space (getenv env))) (kind-first_proxy getenv cands h.1) (
        kind-or_next getenv (parse_proxy_value url_parse (trim_space (getenv env)) f)
          (first_proxy url_parse getenv cands)
          (kind-parse_proxy_value (trim_space (getenv env)) f h.0)
          (kind-first_proxy getenv cands h.1))

  kind-parse_upstream_proxy : (getenv : Env) → HasKind (parse_upstream_proxy url_parse getenv)
  unfolding parse_upstream_proxy
  kind-parse_upstream_proxy getenv =
      kind-first_proxy getenv (candidates url_parse)
        (inr (inr refl), (inr (inl refl), (inl refl, (inl refl, (inl refl, (inl refl, tt))))))

-- What the client is set up for, by the two tests of the kind.
by_kind : UpstreamProxy → Bool → Bool → Route
by_kind u http socks =
    if http
    then through_http u.addr (if is_empty u.user then none else some (proxy_auth u.user u.pass))
    else if socks
    then through_socks5 u.addr u.user u.pass
    else direct

new_client-by_kind :
    (p : UpstreamProxy)
    → new_client (some p)
      ≡ by_kind p (str_eq p.kind (codes "http")) (str_eq p.kind (codes "socks5"))
unfolding new_client by_kind
new_client-by_kind p = refl

proxied : (p : UpstreamProxy) → IsKind p.kind → new_client (some p) ≢ direct
unfolding by_kind str_eq
proxied p (inl e) h = through-direct (
    sym (
      new_client-by_kind p
      ∙ ap (λ k. by_kind p (str_eq k (codes "http")) (str_eq k (codes "socks5"))) e)
    ∙ h)
  where
    through-direct : {a : Str} {o : Option Str} → through_http a o ≢ direct
    through-direct e = cc
proxied p (inr e) h = through-direct (
    sym (
      new_client-by_kind p
      ∙ ap (λ k. by_kind p (str_eq k (codes "http")) (str_eq k (codes "socks5"))) e)
    ∙ h)
  where
    through-direct : {a u v : Str} → through_socks5 a u v ≢ direct
    through-direct e = cc

-- When the environment gives an upstream proxy, the client of the node list goes through it: it is
-- never set up to connect directly.
pub new_client-parse_upstream_proxy :
    (url_parse : Str → Option Url) (getenv : Env) (p : UpstreamProxy)
    → parse_upstream_proxy url_parse getenv ≡ some p
    → new_client (some p) ≢ direct
new_client-parse_upstream_proxy url_parse getenv p h =
    proxied p (subst HasKind h (kind-parse_upstream_proxy url_parse getenv))
