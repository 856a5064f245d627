-- ===== src/Vpngate/Socks5/RoundTrip.antt =====
-- The SOCKS5 client of internal/vpngate/upstream.go against the SOCKS5 server of internal/proxy/socks5.go:
-- each reads what the other writes.
use mathlib.Core.List.{append_assoc}
use conduitvpn.Base.{
  parse_ip-length, ℕ, ◌%◌, ◌≤◌, ◌<◌, ◌≡◌, refl, sym, ap, ◌∙◌, ◌⊎◌, inl, inr, Bool, true, false, not,
  ◌&&◌, ◌||◌, Option, none, some, List, [], ◌∷◌, ◌++◌, arith, ltb, if◌then◌else◌, is_some,
  Bool-cases, length, length-drop, Str, is_empty, str_eq_refl, pos, atoi, sprint, parse_ip, to4,
  read_full, reading, byte_at, put_uint16, split_host_port, join_host_port, ip_string,
  reading-append, uint16-put_uint16,
}
use conduitvpn.Proxy.{Server, Session, ended}
use conduitvpn.Proxy.Socks5.{
  socks_reply, Address, address, cut_short, read_socks_addr, on_address, connect, read_target,
  serve_request, check_login, socks_auth, handle_socks5,
}
use conduitvpn.Vpngate.Socks5.{
  address_bytes, host_bytes, connect_request, greeting, login, read_reply, with_target, client_auth,
  choose_method, socks5_connect,
}

-- How the server spells a host: addresses in their canonical form.
abbrev pub shown_bytes : Option (List ℕ) → List ℕ → Str
shown_bytes (some v4) bytes = ip_string v4
shown_bytes none bytes = ip_string bytes

abbrev pub shown_by : Str → Option (List ℕ) → Str
shown_by host none = host
shown_by host (some bytes) = shown_bytes (to4 bytes) bytes

abbrev pub shown : Str → Str
shown host = shown_by host (parse_ip host)

small : (n : ℕ) → n ≤ 255 → n % 256 ≡ n
small n h = omega arith

to4-length : (bytes v4 : List ℕ) → to4 bytes ≡ some v4 → length v4 ≡ 4
unfolding to4
to4-length bytes v4 e = ground (arith, length-drop 12 bytes)

module _ (dial : Str → Bool) (reachable : Bool) where
  -- The server's last word after a dial that succeeds.
  abbrev accepted : List ℕ → Str → Session
  accepted sent target = record {
    sent = sent ++ socks_reply 0;
    dialled = some target;
    relayed = reachable;
  }

  connect-accepted :
      (sent : List ℕ) (host : Str) (n : ℕ)
      → n < 65536
      → dial (join_host_port host (sprint n)) ≡ true
      → read_target dial reachable sent host (put_uint16 n)
        ≡ accepted sent (join_host_port host (sprint n))
  unfolding read_full
  connect-accepted sent host n p d =
      ap (λ k. connect dial reachable sent (join_host_port host (sprint k))) (uint16-put_uint16 n p)
      ∙ rw d refl

  -- What the server does once the address is read.
  onward : List ℕ → Address → Session
  onward sent a =
      on_address a (ended (sent ++ socks_reply 8))
        (λ h more. read_target dial reachable sent h more)

  request-served :
      (sent : List ℕ) (host : Str) (o : Option (List ℕ)) (n : ℕ)
      → parse_ip host ≡ o
      → n < 65536
      → length host ≤ 255
      → dial (join_host_port (shown_by host o) (sprint n)) ≡ true
      → serve_request dial reachable sent (5 ∷ 1 ∷ 0 ∷ host_bytes host o ++ put_uint16 n)
        ≡ accepted sent (join_host_port (shown_by host o) (sprint n))
  unfolding serve_request read_socks_addr read_full onward
  request-served sent host none n e p l d =
      ap (onward sent) (
        reading-append (length host % 256) host (put_uint16 n) cut_short (λ b more. address b more)
          (small (length host) l))
      ∙ connect-accepted sent host n p d
  request-served sent host (some bytes) n e p l d = ip_served (to4 bytes) refl d
    where
      ip_served :
          (v : Option (List ℕ))
          → to4 bytes ≡ v
          → dial (join_host_port (shown_bytes v bytes) (sprint n)) ≡ true
          → serve_request dial reachable sent (5 ∷ 1 ∷ 0 ∷ address_bytes v bytes ++ put_uint16 n)
            ≡ accepted sent (join_host_port (shown_bytes v bytes) (sprint n))
      ip_served none f h =
          ap (onward sent) (
            reading-append 16 bytes (put_uint16 n) cut_short (λ b more. address (ip_string b) more)
              (sym (parse_ip-length host bytes e)))
          ∙ connect-accepted sent (ip_string bytes) n p h
      ip_served (some v4) f h =
          ap (onward sent) (
            reading-append 4 v4 (put_uint16 n) cut_short (λ b more. address (ip_string b) more)
              (sym (to4-length bytes v4 f)))
          ∙ connect-accepted sent (ip_string v4) n p h

  login-served :
      (s : Server) (sent more : List ℕ) (next : List ℕ → List ℕ → Session)
      → length s.user ≤ 255
      → length s.pass ≤ 255
      → socks_auth dial reachable s sent (login s.user s.pass ++ more) next
        ≡ next (sent ++ 1 ∷ 0 ∷ []) more
  unfolding socks_auth read_full
  login-served s sent more next u p =
      let checked = λ (name after_name : List ℕ).
        reading 1 after_name (ended sent) (λ plen after_plen.
          reading (byte_at 0 plen) after_plen (ended sent) (λ password after_pass.
            check_login dial reachable s sent name password after_pass next)) in
      ap (λ z. reading (length s.user % 256) z (ended sent) checked)
        (append_assoc s.user ((length s.pass % 256) ∷ s.pass) more)
      ∙ reading-append (length s.user % 256) s.user ((length s.pass % 256) ∷ s.pass ++ more)
          (ended sent) checked (small (length s.user) u)
      ∙ reading-append (length s.pass % 256) s.pass more (ended sent)
          (λ password after_pass. check_login dial reachable s sent s.user password after_pass next)
          (small (length s.pass) p)
      ∙ rw (str_eq_refl s.user, str_eq_refl s.pass) refl

-- The client's name and password serve at the server: it asks for none, or for these.
abbrev pub AreKnown : Server → Str → Str → Type 0
AreKnown s user pass =
    (s.auth_on ≡ false)
    ⊎ ((s.auth_on ≡ true)
        × (user ≡ s.user)
        × (pass ≡ s.pass)
        × (is_empty s.user ≡ false)
        × (length s.user ≤ 255)
        × (length s.pass ≤ 255))

-- What the client says before its request, and what the server answers to that.
abbrev pub said : Bool → Str → Str → List ℕ
said auth user pass = if auth then greeting user ++ login user pass else greeting user

abbrev pub answered : Bool → List ℕ
answered auth = if auth then 5 ∷ 2 ∷ 1 ∷ 0 ∷ [] else 5 ∷ 0 ∷ []

module _ (dial : Str → Bool) (reachable : Bool) (host : Str) (n : ℕ) (p : n < 65536)
    (l : length host ≤ 255) (d : dial (join_host_port (shown host) (sprint n)) ≡ true) where
  served_login :
      (s : Server)
      → s.auth_on ≡ true
      → is_empty s.user ≡ false
      → length s.user ≤ 255
      → length s.pass ≤ 255
      → handle_socks5 dial reachable s (said true s.user s.pass ++ connect_request host (pos n))
        ≡ accepted dial reachable (5 ∷ 2 ∷ 1 ∷ 0 ∷ []) (join_host_port (shown host) (sprint n))
  unfolding handle_socks5 read_full
  served_login s on some_user u v =
      let request = connect_request host (pos n) in
      rw some_user (
        ap
          (λ b.
            if b
            then socks_auth dial reachable s (5 ∷ 2 ∷ []) (login s.user s.pass ++ request)
                (serve_request dial reachable)
            else serve_request dial reachable (5 ∷ 0 ∷ []) (login s.user s.pass ++ request))
          on
        ∙ login-served dial reachable s (5 ∷ 2 ∷ []) request (serve_request dial reachable) u v
        ∙ request-served dial reachable (5 ∷ 2 ∷ 1 ∷ 0 ∷ []) host (parse_ip host) n refl p l d)

  served :
      (s : Server) (user pass : Str)
      → AreKnown s user pass
      → handle_socks5 dial reachable s (said s.auth_on user pass ++ connect_request host (pos n))
        ≡ accepted dial reachable (answered s.auth_on) (join_host_port (shown host) (sprint n))
  unfolding handle_socks5 read_full
  served s user pass (inl off) = elim (Bool-cases (is_empty user)) [
    | inl y ↦
        rw (off, y) (request-served dial reachable (5 ∷ 0 ∷ []) host (parse_ip host) n refl p l d)
    | inr f ↦
        rw (off, f) (request-served dial reachable (5 ∷ 0 ∷ []) host (parse_ip host) n refl p l d)
  ]
  served s user pass (inr (on, e, f, some_user, u, v)) =
      let request = connect_request host (pos n) in
      let target = join_host_port (shown host) (sprint n) in
      ap (λ b. handle_socks5 dial reachable s (said b user pass ++ request)) on
      ∙ ap (λ z. handle_socks5 dial reachable s (said true z pass ++ request)) e
      ∙ ap (λ z. handle_socks5 dial reachable s (said true s.user z ++ request)) f
      ∙ served_login s on some_user u v
      ∙ ap (λ b. accepted dial reachable (answered b) target) (sym on)

-- The reply to a connection that was made, read to its end.
reply-read : (up : ℕ → Bool) (out : List ℕ) → read_reply up out (socks_reply 0) ≡ (out, none)
unfolding read_reply read_full
reply-read up out = refl

-- The client after the method is settled.
with_target-sent :
    (up : ℕ → Bool) (target host port : Str) (n : ℕ) (out : List ℕ)
    → ((k : ℕ) → up k ≡ true)
    → split_host_port target ≡ some (host, port)
    → atoi port ≡ some (pos n)
    → length host ≤ 255
    → with_target up (split_host_port target) out (socks_reply 0)
      ≡ (out ++ connect_request host (pos n), none)
unfolding with_target parse_ip
with_target-sent up target host port n out w e f l =
    let short : (not (is_some (parse_ip host)) && ltb 255 (length host)) ≡ false =
      ground (arith, l) in
    rw (e, f, short, w 2) (reply-read up (out ++ connect_request host (pos n)))

heard :
    (s : Server) (up : ℕ → Bool) (target user pass host port : Str) (n : ℕ)
    → AreKnown s user pass
    → ((k : ℕ) → up k ≡ true)
    → split_host_port target ≡ some (host, port)
    → atoi port ≡ some (pos n)
    → length host ≤ 255
    → socks5_connect up target user pass (answered s.auth_on ++ socks_reply 0)
      ≡ (said s.auth_on user pass ++ connect_request host (pos n), none)
unfolding socks5_connect choose_method client_auth read_full
heard s up target user pass host port n (inl off) w e f l =
    rw (off, w 0) (with_target-sent up target host port n (greeting user) w e f l)
heard s up target user pass host port n (inr (on, same_user, same_pass, some_user, u, v)) w e f l =
    let named : is_empty user ≡ false = ap is_empty same_user ∙ some_user in
    let short : (ltb 255 (length user) || ltb 255 (length pass)) ≡ false =
      ground (arith, u, v, ap length same_user, ap length same_pass) in
    rw (on, w 0, w 1, named, short)
      (with_target-sent up target host port n (5 ∷ 2 ∷ 0 ∷ 2 ∷ [] ++ login user pass) w e f l)

-- A name and a password of at most 255 bytes that the server knows, a target with a port, and writes
-- and a dial that succeed: the client and the server understand one another. The server, given what
-- the client writes, dials the client's host at its port, and answers; given that answer, the client
-- writes exactly this and reports success. An address as host is dialled in its canonical spelling.
pub socks5_connect-handle_socks5 :
    (up : ℕ → Bool) (dial : Str → Bool) (reachable : Bool) (s : Server)
    (target user pass host port : Str) (n : ℕ)
    → AreKnown s user pass
    → ((k : ℕ) → up k ≡ true)
    → split_host_port target ≡ some (host, port)
    → atoi port ≡ some (pos n)
    → n < 65536
    → length host ≤ 255
    → dial (join_host_port (shown host) (sprint n)) ≡ true
    → (written : List ℕ) × (reply : List ℕ) × (handle_socks5 dial reachable s written ≡ record {
      sent = reply;
      dialled = some (join_host_port (shown host) (sprint n));
      relayed = reachable;
    })
      × (socks5_connect up target user pass reply ≡ (written, none))
socks5_connect-handle_socks5 up dial reachable s target user pass host port n known w e f p l d = (
  said s.auth_on user pass ++ connect_request host (pos n),
  answered s.auth_on ++ socks_reply 0,
  served dial reachable host n p l d s user pass known,
  heard s up target user pass host port n known w e f l,
)
