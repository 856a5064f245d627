-- ===== src/Proxy/Socks5.antt =====
-- internal/proxy/socks5.go: the server side of SOCKS5. `dial` tells for a target whether the
-- connection through the tunnel succeeds; `reachable` whether the last reply reaches the client.
pub mod Auth
use conduitvpn.Base.{
  ℕ, zero, suc, ◌+◌, ◌-◌, ◌*◌, ◌/◌, ◌%◌, ◌^◌, ◌≤◌, ◌<◌, ◌≡◌, refl, sym, ap, ◌∙◌, subst, ◌≢◌, ◌↔◌,
  ◌⊎◌, inl, inr, Bool, true, false, not, ◌&&◌, ◌||◌, Option, none, some, List, [], ◌∷◌, ◌++◌, map,
  arith, ltb, leb, ◌==◌, if◌then◌else◌, is_some, ==_iff, Bool-cases, Option-cases, length,
  get_elem?, set, take, drop, any, keep, All, Elem, length-append, length-drop, length-take,
  length-set, All-Elem, Elem-append_left, Elem-append_last, Str, codes, is_empty, str_eq,
  str_eq_iff, str_eq_refl, trim_space, trim, to_upper, to_lower, has_prefix, trim_prefix, contains,
  split, fields, join, one_of, one_of_sound, one_of_complete, to_upper_idem, Dict, lookup, insert,
  delete, keys, lookup-insert, lookup-delete, ℤ, pos, negsuc, ltb_ℤ, leb_ℤ, add_ℕ, sort_stable,
  IsSorted, atoi, sprint, parse_ip, to4, is_loopback, read_full, reading, on_read, byte_at,
  put_uint16, uint16, read_full-append, has_byte, split_host_port, join_host_port, ip_string,
  cut_first, cut_last, atoi_or_zero,
}
use conduitvpn.Proxy.{Server, Session, ended}

-- `socksReply(code, nil)`.
abbrev pub socks_reply : ℕ → List ℕ
socks_reply code = 5 ∷ code ∷ 0 ∷ 1 ∷ 0 ∷ 0 ∷ 0 ∷ 0 ∷ 0 ∷ 0 ∷ []

-- The host and the rest of the input, the end of the input, or an unknown type of address.
pub data Address : Type 0 where
  address : Str → List ℕ → Address
  cut_short unknown_type : Address

unfoldable pub read_socks_addr : ℕ → List ℕ → Address
unfolding read_full ip_string
read_socks_addr atyp input =
    if atyp == 1
    then reading 4 input cut_short (λ b rest. address (ip_string b) rest)
    else if atyp == 3
    then reading 1 input cut_short
        (λ l rest. reading (byte_at 0 l) rest cut_short (λ b more. address b more))
    else if atyp == 4
    then reading 16 input cut_short (λ b rest. address (ip_string b) rest)
    else unknown_type

abbrev pub on_address : Address → Session → (Str → List ℕ → Session) → Session
on_address (address host rest) failed next = next host rest
on_address cut_short failed next = failed
on_address unknown_type failed next = failed

module _ (dial : Str → Bool) (reachable : Bool) where
  abbrev pub connect : List ℕ → Str → Session
  connect sent target =
      if not (dial target)
      then record { sent = sent ++ socks_reply 5; dialled = some target; relayed = false }
      else record { sent = sent ++ socks_reply 0; dialled = some target; relayed = reachable }

  abbrev pub read_target : List ℕ → Str → List ℕ → Session
  read_target sent host input =
      reading 2 input (ended sent)
        (λ p rest. connect sent (join_host_port host (sprint (uint16 p))))

  -- The request: any failure to read the address is answered as an unknown type.
  unfoldable pub serve_request : List ℕ → List ℕ → Session
  unfolding read_full read_socks_addr
  serve_request sent input = reading 4 input (ended sent) (λ req rest.
      if not (byte_at 0 req == 5) || not (byte_at 1 req == 1)
      then ended (sent ++ socks_reply 7)
      else on_address (read_socks_addr (byte_at 3 req) rest) (ended (sent ++ socks_reply 8))
          (λ host more. read_target sent host more))

  -- socksAuth, with what follows a success as `next`.
  abbrev pub check_login :
      Server → List ℕ → List ℕ → List ℕ → List ℕ → (List ℕ → List ℕ → Session) → Session
  check_login s sent name password rest next =
      if str_eq name s.user && str_eq password s.pass
      then next (sent ++ 1 ∷ 0 ∷ []) rest
      else ended (sent ++ 1 ∷ 1 ∷ [])

  unfoldable pub socks_auth : Server → List ℕ → List ℕ → (List ℕ → List ℕ → Session) → Session
  unfolding read_full
  socks_auth s sent input next = reading 2 input (ended sent) (λ head rest.
      if not (byte_at 0 head == 1)
      then ended (sent ++ 1 ∷ 1 ∷ [])
      else reading (byte_at 1 head) rest (ended sent) (λ name after_name.
        reading 1 after_name (ended sent) (λ plen after_plen.
          reading (byte_at 0 plen) after_plen (ended sent)
            (λ password after_pass. check_login s sent name password after_pass next))))

  unfoldable pub handle_socks5 : Server → List ℕ → Session
  unfolding read_full socks_auth serve_request
  handle_socks5 s input = reading 2 input (ended []) (λ head rest.
      if not (byte_at 0 head == 5)
      then ended []
      else reading (byte_at 1 head) rest (ended []) (λ methods more.
        if s.auth_on
        then (if any (λ m. m == 2) methods
            then socks_auth s (5 ∷ 2 ∷ []) more serve_request
            else ended (5 ∷ 255 ∷ []))
        else serve_request (5 ∷ 0 ∷ []) more))
