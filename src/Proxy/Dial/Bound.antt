-- ===== src/Proxy/Dial/Bound.antt =====
-- Where the connections of the proxy go, and what a dial sends out.
use conduitvpn.Base.{
  ◌≡◌, refl, ap, ◌≢◌, ◌⊎◌, inl, inr, true, false, not, Option, none, some, List, [], ◌∷◌, ◌++◌,
  if◌then◌else◌, Bool-cases, Option-cases, All, Elem, Elem-append_right, Str, codes, str_eq,
  parse_ip, to4, split_host_port, join_host_port, ip_string, choice, choice_of, ℕ,
}
use conduitvpn.Egress.{
  Controller, EgressError, Binding, unbound, marked, bound, refused, Platform, bind_socket,
  host_mode, control, network, Dialled, connected, Effect, host_lookup, attempt, Transport, udp,
  tcp, transport_name, Outside, is_numeric, try_each, tie_each, by_ip, dial_by, dial_context,
  dns_server, ask_each, asked_for, lookup_ip,
}
use conduitvpn.Proxy.Dial.{
  Outcome, dialled, then_dial, dial_first, dial_answer, dial_host, dial_parts, dial_resolved,
  normalize_target, dial,
}

-- A socket of host mode: the controller was ready, the socket is tied to the tunnel as its platform
-- does it, and the network is IPv4.
abbrev pub IsTunnelled : Platform → Controller → Binding → Str → Type 0
IsTunnelled platform c b name =
    (c.ready ≡ true)
    × (b ≡ bind_socket platform c.device)
    × ((name ≡ codes "tcp4") ⊎ (name ≡ codes "udp4"))

-- The host of an address, and it is not numeric.
abbrev pub NamesHost : Option (Str × Str) → Str → Type 0
NamesHost none h = ⊥
NamesHost (some (host, port)) h = (h ≡ host) × (is_numeric host ≡ false)

-- The address of the DNS server is numeric.
abbrev pub HasNumber : Option (Str × Str) → Type 0
HasNumber none = ⊥
HasNumber (some (host, port)) = is_numeric host ≡ true

All-append : {A : Type 0} (P : A → Type 0) (xs ys : List A) → All P xs → All P ys → All P (xs ++ ys)
All-append P [] ys h k = k
All-append P (x ∷ xs) ys h k = (h.0, All-append P xs ys h.1 k)

-- What may be sent out: sockets of the tunnel, and questions of net's own resolver for the host of
-- DNS_SERVER, where that is a name.
abbrev pub IsAllowed : Outside → Controller → Str → Effect → Type 0
IsAllowed w c dns (attempt b name a) = IsTunnelled w.platform c b name
IsAllowed w c dns (host_lookup h) = NamesHost (split_host_port (dns_server dns)) h

module _ (w : Outside) (c : Controller) (dns : Str) (h : host_mode c ≡ true) where
  abbrev Allowed : List Effect → Type 0
  Allowed = All (IsAllowed w c dns)

  -- A connection was attempted, to one of these addresses.
  abbrev IsGood : List Str → List Effect × Dialled → Type 0
  IsGood addresses (es, d) =
      Allowed es
      × ((b : Binding) (name a : Str)
          → d ≡ connected b name a
          → Elem (attempt b name a) es × Elem a addresses)

  control-tied :
      (b : Binding)
      → control w.platform c ≡ b
      → ((c.ready ≡ true) × (b ≡ bind_socket w.platform c.device))
        ⊎ (b ≡ refused EgressError.tunnel_not_ready)
  unfolding control
  control-tied b e = elim (Bool-cases c.ready) [
    | inl y ↦ inl (y, let f : bind_socket w.platform c.device ≡ b = rw (h, y) at e in cc)
    | inr n ↦ inr (let f : refused EgressError.tunnel_not_ready ≡ b = rw (h, n) at e in cc)
  ]

  abbrev IsIpv4 : Str → Type 0
  IsIpv4 name = (name ≡ codes "tcp4") ⊎ (name ≡ codes "udp4")

  network-IsIpv4 : (t : Transport) → IsIpv4 (network c (transport_name t))
  unfolding network str_eq
  network-IsIpv4 tcp = inl (ap (λ b. if not b then codes "tcp" else codes "tcp4") h)
  network-IsIpv4 udp = inr (ap (λ b. if not b then codes "udp" else codes "udp4") h)

  try_each-IsGood :
      (name : Str) (b : Binding) (addresses : List Str)
      → IsTunnelled w.platform c b name
      → IsGood addresses (try_each w name b addresses)
  try_each-IsGood name b [] t = (tt, λ b' n a e. absurd cc)
  try_each-IsGood name b (a ∷ addresses) t =
      let (sent, made) = try_each-IsGood name b addresses t in
      choice (IsGood (a ∷ addresses)) (w.connects b a) ((t, tt), λ b' n a' e. (inl (cc), inl (cc)))
        ((t, sent), λ b' n a' e. (inr (made b' n a' e).0, inr (made b' n a' e).1))

  tied_by :
      (name : Str) (b : Binding) (addresses : List Str)
      → control w.platform c ≡ b
      → IsIpv4 name
      → ((e : EgressError) → b ≢ refused e)
      → IsGood addresses (try_each w name b addresses)
  tied_by name b addresses e v n = elim (control-tied b e) [
    | inl t ↦ try_each-IsGood name b addresses (t.0, t.1, v)
    | inr r ↦ absurd (n EgressError.tunnel_not_ready r)
  ]

  tie_each-IsGood :
      (name : Str) (b : Binding) (addresses : List Str)
      → control w.platform c ≡ b
      → IsIpv4 name
      → IsGood addresses (tie_each w name b addresses)
  tie_each-IsGood name (refused x) addresses e v = (tt, λ b' n a q. absurd cc)
  tie_each-IsGood name unbound addresses e v = tied_by name unbound addresses e v (λ x q. cc)
  tie_each-IsGood name (marked k) addresses e v = tied_by name (marked k) addresses e v (λ x q. cc)
  tie_each-IsGood name (bound d) addresses e v = tied_by name (bound d) addresses e v (λ x q. cc)

  ip-IsGood :
      (ip : List ℕ) (port : Str)
      → IsGood
          (join_host_port (ip_string ip) port ∷ [])
          (dial_context w c (codes "tcp") (by_ip ip port))
  unfolding dial_context
  ip-IsGood ip port = tie_each-IsGood _ (control w.platform c) _ refl (network-IsIpv4 tcp)

  server-Allowed :
      (name : Str) (o : Option (Str × Str))
      → split_host_port (dns_server dns) ≡ o
      → IsIpv4 name
      → Allowed (dial_by w name (dns_server dns) (control w.platform c) o).0
  unfolding dial_by
  server-Allowed name none e v = tt
  server-Allowed name (some (host, port)) e v =
      choice_of (λ (r : List Effect × Dialled). Allowed r.0) (is_numeric host)
        (λ y. (tie_each-IsGood name (control w.platform c) _ refl v).0)
        (λ n. (rw e (refl, n), (tie_each-IsGood name (control w.platform c) _ refl v).0))

  ask_each-Allowed : (ts : List Transport) → Allowed (ask_each w c (dns_server dns) ts).0
  unfolding dial_context
  ask_each-Allowed [] = tt
  ask_each-Allowed (t ∷ ts) =
      All-append (IsAllowed w c dns) _ _ (server-Allowed _ _ refl (network-IsIpv4 t))
        (ask_each-Allowed ts)

  lookup_ip-Allowed : (host : Str) → Allowed (lookup_ip w c dns host).0
  unfolding lookup_ip
  lookup_ip-Allowed host = by_file (w.hosts host)
    where
      by_file : (o : Option (List (List ℕ))) → Allowed (asked_for w c dns host o).0
      by_file (some ips) = tt
      by_file none = ask_each-Allowed (w.asks host)

  -- All that is sent out is allowed, and a connection is one that was attempted, to an IP.
  abbrev Goes : List Effect × Outcome → Type 0
  Goes (es, o) =
      Allowed es
      × ((b : Binding) (name address : Str)
          → o ≡ dialled (connected b name address)
          → Elem (attempt b name address) es
            × (ip : List ℕ) × (port : Str) × (address ≡ join_host_port (ip_string ip) port))

  then_dial-Goes :
      (es : List Effect) (ip : List ℕ) (port : Str)
      → Allowed es
      → Goes (then_dial es (dial_context w c (codes "tcp") (by_ip ip port)))
  then_dial-Goes es ip port k =
      let (sent, made) = ip-IsGood ip port in
      let r = dial_context w c (codes "tcp") (by_ip ip port) in
      (
        All-append (IsAllowed w c dns) es r.0 k sent,
        λ b name a e.
            let (there, one) = made b name a (cc) in
            (Elem-append_right _ es r.0 there, ip, port, only a _ one),
      )
    where
      only : (a x : Str) → Elem a (x ∷ []) → a ≡ x
      only a x (inl e) = e
      only a x (inr e) = absurd e

  dial_first-Goes :
      (port : Str) (es : List Effect) (ips : List (List ℕ))
      → Allowed es
      → Goes (dial_first w c port es ips)
  unfolding dial_first
  dial_first-Goes port es [] k = (k, λ b name a e. absurd cc)
  dial_first-Goes port es (ip ∷ ips) k = elim (Option-cases (to4 ip)) [
    | inl e ↦ rw (dial_first, e) (dial_first-Goes port es ips k)
    | inr (v4, e) ↦ rw (dial_first, e) (then_dial-Goes es v4 port k)
  ]

  dial_answer-Goes :
      (port : Str) (es : List Effect) (o : Option (List (List ℕ)))
      → Allowed es
      → Goes (dial_answer w c port (es, o))
  unfolding dial_answer
  dial_answer-Goes port es none k = (k, λ b name a e. absurd cc)
  dial_answer-Goes port es (some ips) k = dial_first-Goes port es ips k

  dial_host-Goes : (host port : Str) (o : Option (List ℕ)) → Goes (dial_host w c dns host port o)
  unfolding dial_host
  dial_host-Goes host port (some ip) = then_dial-Goes [] ip port tt
  dial_host-Goes host port none =
      dial_answer-Goes port (lookup_ip w c dns host).0 (lookup_ip w c dns host).1
        (lookup_ip-Allowed host)

  dial_parts-Goes : (o : Option (Str × Str)) → Goes (dial_parts w c dns o)
  unfolding dial_parts
  dial_parts-Goes none = (tt, λ b name a e. absurd cc)
  dial_parts-Goes (some (host, port)) = dial_host-Goes host port (parse_ip host)

  nothing_sent :
      (es : List Effect)
      → HasNumber (split_host_port (dns_server dns))
      → c.ready ≡ false
      → Allowed es
      → es ≡ []
  nothing_sent [] n r k = refl
  nothing_sent (attempt b name a ∷ es) n r k = absurd (cc (r, k.0.0))
  nothing_sent (host_lookup s ∷ es) n r k = absurd (clash (split_host_port (dns_server dns)) n k.0)
    where
      clash : (o : Option (Str × Str)) → HasNumber o → NamesHost o s → ⊥
      clash none p q = p
      clash (some (host, port)) p q = cc (p, q.1)

  -- In host mode, whatever target a client asks for: every socket by which the proxy tries to connect,
  -- to the target or to the DNS server, is tied to the tunnel of the ready controller and is IPv4; the
  -- host's own resolver is asked for nothing but a DNS_SERVER that is given by name; a connection is
  -- one of these sockets, and leads to the text of an IP with a port. While the controller is not
  -- ready and DNS_SERVER is numeric, nothing is sent out.
  pub dial-IsTunnelled :
      (target : Str)
      → All (IsAllowed w c dns) (dial w (some c) dns target).0
        × ((b : Binding) (name address : Str)
            → (dial w (some c) dns target).1 ≡ dialled (connected b name address)
            → Elem (attempt b name address) (dial w (some c) dns target).0
              × (ip : List ℕ) × (port : Str) × (address ≡ join_host_port (ip_string ip) port))
        × (HasNumber (split_host_port (dns_server dns))
            → c.ready ≡ false
            → (dial w (some c) dns target).0 ≡ [])
  unfolding dial dial_resolved
  dial-IsTunnelled target =
      let goes = dial_parts-Goes (split_host_port (normalize_target target)) in
      (goes.0, goes.1, λ n r. nothing_sent _ n r goes.0)
