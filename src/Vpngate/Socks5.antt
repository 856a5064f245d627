-- ===== src/Vpngate/Socks5.antt =====
-- socks5Connect of internal/vpngate/upstream.go: the client side of SOCKS5. `input` is what the proxy
-- sends, and `up k` tells whether the k-th write succeeds.
pub mod RoundTrip
use conduitvpn.Base.{
  ℕ, zero, suc, ◌+◌, ◌-◌, ◌*◌, ◌/◌, ◌%◌, ◌^◌, ◌≤◌, ◌<◌, ◌≡◌, refl, sym, ap, ◌∙◌, subst, ◌≢◌, ◌↔◌,
  ◌⊎◌, inl, inr, Bool, true, false, not, ◌&&◌, ◌||◌, Option, none, some, List, [], ◌∷◌, ◌++◌, map,
  arith, ltb, leb, ◌==◌, if◌then◌else◌, is_some, ==_iff, Bool-cases, Option-cases, length,
  get_elem?, set, take, drop, any, keep, All, Elem, length-append, length-drop, length-take,
  length-set, All-Elem, Elem-append_left, Elem-append_last, Str, codes, is_empty, str_eq,
  str_eq_iff, str_eq_refl, trim_space, trim, to_upper, to_lower, has_prefix, trim_prefix, contains,
  split, fields, join, one_of, one_of_sound, one_of_complete, to_upper_idem, Dict, lookup, insert,
  delete, keys, lookup-insert, lookup-delete, ℤ, pos, negsuc, ltb_ℤ, leb_ℤ, add_ℕ, sort_stable,
  IsSorted, atoi, sprint, parse_ip, to4, is_loopback, read_full, reading, on_read, byte_at,
  put_uint16, uint16, read_full-append, has_byte, split_host_port, join_host_port, ip_string,
  cut_first, cut_last, atoi_or_zero,
}

pub data ClientError : Type 0 where
  write_failed cut_off bad_version requires_auth no_method too_long auth_rejected : ClientError
  bad_target bad_port bad_reply_type : ClientError
  unexpected_method connect_failed : ℕ → ClientError

-- The bytes written, and the error if there is one.
abbrev pub Exchange : Type 0
Exchange = List ℕ × Option ClientError

-- `byte(port>>8), byte(port)` of a signed number.
abbrev pub port_bytes : ℤ → List ℕ
port_bytes (pos n) = put_uint16 n
port_bytes (negsuc n) = (255 - n / 256 % 256) ∷ (255 - n % 256) ∷ []

abbrev pub address_bytes : Option (List ℕ) → List ℕ → List ℕ
address_bytes (some v4) bytes = 1 ∷ v4
address_bytes none bytes = 4 ∷ bytes

abbrev pub host_bytes : Str → Option (List ℕ) → List ℕ
host_bytes host (some bytes) = address_bytes (to4 bytes) bytes
host_bytes host none = 3 ∷ (length host % 256) ∷ host

abbrev pub connect_request : Str → ℤ → List ℕ
connect_request host port = 5 ∷ 1 ∷ 0 ∷ host_bytes host (parse_ip host) ++ port_bytes port

abbrev pub greeting : Str → List ℕ
greeting user = if not (is_empty user) then 5 ∷ 2 ∷ 0 ∷ 2 ∷ [] else 5 ∷ 1 ∷ 0 ∷ []

abbrev pub login : Str → Str → List ℕ
login user pass = 1 ∷ (length user % 256) ∷ user ++ (length pass % 256) ∷ pass

module _ (up : ℕ → Bool) where
  -- The end of the reply: the port of the bound address.
  abbrev pub read_port : List ℕ → List ℕ → Exchange
  read_port out input = reading 2 input (out, some cut_off) (λ port rest. (out, none))

  unfoldable pub read_reply : List ℕ → List ℕ → Exchange
  unfolding read_full
  read_reply out input =
      reading 4 input (out, some cut_off)
        (λ head rest.
          if not (byte_at 1 head == 0)
          then (out, some (connect_failed (byte_at 1 head)))
          else if byte_at 3 head == 1
          then reading 4 rest (out, some cut_off) (λ b more. read_port out more)
          else if byte_at 3 head == 4
          then reading 16 rest (out, some cut_off) (λ b more. read_port out more)
          else if byte_at 3 head == 3
          then reading 1 rest (out, some cut_off)
              (λ l more.
                reading (byte_at 0 l) more (out, some cut_off) (λ b after. read_port out after))
          else (out, some bad_reply_type))

  abbrev pub send_request : Str → ℤ → List ℕ → List ℕ → Exchange
  unfolding read_reply
  send_request host port out input =
      if not (is_some (parse_ip host)) && ltb 255 (length host)
      then (out, some too_long)
      else if not (up 2)
      then (out, some write_failed)
      else read_reply (out ++ connect_request host port) input

  abbrev pub with_port : Str → Option ℤ → List ℕ → List ℕ → Exchange
  unfolding read_reply
  with_port host none out input = (out, some bad_port)
  with_port host (some port) out input = send_request host port out input

  abbrev pub with_target : Option (Str × Str) → List ℕ → List ℕ → Exchange
  unfolding read_reply
  with_target none out input = (out, some bad_target)
  with_target (some (host, port)) out input = with_port host (atoi port) out input

  -- socks5ClientAuth, with what follows a success as `next`.
  unfoldable pub client_auth : Str → Str → List ℕ → List ℕ → (List ℕ → List ℕ → Exchange) → Exchange
  unfolding read_full
  client_auth user pass out input next =
      if ltb 255 (length user) || ltb 255 (length pass)
      then (out, some too_long)
      else if not (up 1)
      then (out, some write_failed)
      else reading 2 input (out ++ login user pass, some cut_off)
          (λ resp rest.
            if not (byte_at 1 resp == 0)
            then (out ++ login user pass, some auth_rejected)
            else next (out ++ login user pass) rest)

  unfoldable pub choose_method : Str → Str → Str → ℕ → List ℕ → List ℕ → Exchange
  unfolding client_auth read_reply split_host_port parse_ip atoi
  choose_method target user pass method out input =
      if method == 0
      then with_target (split_host_port target) out input
      else if method == 2
      then (if is_empty user
          then (out, some requires_auth)
          else client_auth user pass out input (with_target (split_host_port target)))
      else if method == 255
      then (out, some no_method)
      else (out, some (unexpected_method method))

  unfoldable pub socks5_connect : Str → Str → Str → List ℕ → Exchange
  unfolding read_full choose_method
  socks5_connect target user pass input =
      if not (up 0)
      then ([], some write_failed)
      else reading 2 input (greeting user, some cut_off)
          (λ resp rest.
            if not (byte_at 0 resp == 5)
            then (greeting user, some bad_version)
            else choose_method target user pass (byte_at 1 resp) (greeting user) rest)
