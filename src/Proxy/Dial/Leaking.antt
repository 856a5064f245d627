-- ===== src/Proxy/Dial/Leaking.antt =====
-- What a dial asks net's own resolver, outside the tunnel.
use conduitvpn.Base.{
  ◌≡◌, refl, ◌≢◌, inl, inr, false, Option, none, some, List, [], ◌∷◌, Option-cases, Elem,
  Elem-append_left, Str, parse_ip, to4, split_host_port, ℕ,
}
use conduitvpn.Egress.{
  Controller, Binding, network, Effect, host_lookup, Transport, transport_name, Outside, is_numeric,
  named, dial_by, dial_context, dns_server, ask_each, lookup_ip,
}
use conduitvpn.Proxy.Dial.{dial_first, dial_answer, dial_resolved, normalize_target, dial}

module _ (w : Outside) (c : Controller) (dns : Str) where
  dial_first-kept :
      (e : Effect) (port : Str) (es : List Effect) (ips : List (List ℕ))
      → Elem e es
      → Elem e (dial_first w c port es ips).0
  unfolding dial_first
  dial_first-kept e port es [] k = k
  dial_first-kept e port es (ip ∷ ips) k = elim (Option-cases (to4 ip)) [
    | inl f ↦ rw (dial_first, f) (dial_first-kept e port es ips k)
    | inr (v4, f) ↦ rw (dial_first, f) (Elem-append_left e es _ k)
  ]

  dial_answer-kept :
      (e : Effect) (port : Str) (es : List Effect) (o : Option (List (List ℕ)))
      → Elem e es
      → Elem e (dial_answer w c port (es, o)).0
  unfolding dial_answer
  dial_answer-kept e port es none k = k
  dial_answer-kept e port es (some ips) k = dial_first-kept e port es ips k

  module _ (server server_port : Str)
      (at_ : split_host_port (dns_server dns) ≡ some (server, server_port))
      (name : is_numeric server ≡ false) where
    asks_host :
        (network : Str) (b : Binding)
        → Elem
            (host_lookup server)
            (dial_by w network (dns_server dns) b (some (server, server_port))).0
    unfolding dial_by
    asks_host network b = rw name (inl refl)

    ask_each-host :
        (ts : List Transport)
        → ts ≢ []
        → Elem (host_lookup server) (ask_each w c (dns_server dns) ts).0
    unfolding dial_context
    ask_each-host [] n = absurd (n refl)
    ask_each-host (t ∷ ts) n =
        Elem-append_left (host_lookup server)
          (dial_context w c (transport_name t) (named (dns_server dns))).0
          (ask_each w c (dns_server dns) ts).0 (rw at_ (asks_host _ _))

    lookup_ip-host :
        (host : Str)
        → w.hosts host ≡ none
        → w.asks host ≢ []
        → Elem (host_lookup server) (lookup_ip w c dns host).0
    unfolding lookup_ip
    lookup_ip-host host f n = rw f (ask_each-host (w.asks host) n)

    -- Where DNS_SERVER is given by name, a target by name that the hosts file does not have, and for
    -- which the DNS server would be asked, makes the proxy ask the host's own resolver for that server,
    -- outside the tunnel and whether or not the controller is ready.
    pub dial-host_lookup :
        (target host port : Str)
        → split_host_port (normalize_target target) ≡ some (host, port)
        → parse_ip host ≡ none
        → w.hosts host ≡ none
        → w.asks host ≢ []
        → Elem (host_lookup server) (dial w (some c) dns target).0
    unfolding dial dial_resolved
    dial-host_lookup target host port e p f n =
        rw (e, p)
          (dial_answer-kept _ port (lookup_ip w c dns host).0 (lookup_ip w c dns host).1
            (lookup_ip-host host f n))
