-- ===== src/Proxy/Dial.antt =====
-- dial, dialResolved and normalizeTarget of internal/proxy/http.go, and the resolver of
-- internal/proxy/dns.go and internal/egress/egress.go: every connection of a client, and every DNS
-- query for it, goes through the egress controller. A dial returns what it sends out, in order, and
-- what comes of it.
pub mod Bound
pub mod Leaking
use conduitvpn.Base.{
  ℕ, zero, suc, ◌+◌, ◌-◌, ◌*◌, ◌/◌, ◌%◌, ◌^◌, ◌≤◌, ◌<◌, ◌≡◌, refl, sym, ap, ◌∙◌, subst, ◌≢◌, ◌↔◌,
  ◌⊎◌, inl, inr, Bool, true, false, not, ◌&&◌, ◌||◌, Option, none, some, List, [], ◌∷◌, ◌++◌, map,
  arith, ltb, leb, ◌==◌, if◌then◌else◌, is_some, ==_iff, Bool-cases, Option-cases, length,
  get_elem?, set, take, drop, any, keep, All, Elem, length-append, length-drop, length-take,
  length-set, All-Elem, Elem-append_left, Elem-append_last, Str, codes, is_empty, str_eq,
  str_eq_iff, str_eq_refl, trim_space, trim, to_upper, to_lower, has_prefix, trim_prefix, contains,
  split, fields, join, one_of, one_of_sound, one_of_complete, to_upper_idem, Dict, lookup, insert,
  delete, keys, lookup-insert, lookup-delete, ℤ, pos, negsuc, ltb_ℤ, leb_ℤ, add_ℕ, sort_stable,
  IsSorted, atoi, sprint, parse_ip, to4, is_loopback, read_full, reading, on_read, byte_at,
  put_uint16, uint16, read_full-append, has_byte, split_host_port, join_host_port, ip_string,
  cut_first, cut_last, atoi_or_zero,
}
use conduitvpn.Egress.{Controller, Outside, Effect, Dialled, by_ip, dial_context, lookup_ip}

-- What stands behind the first `://`.
unfoldable pub after_scheme : Str → Option Str
unfolding has_prefix
after_scheme [] = none
after_scheme (c ∷ s) =
    let rest = after_scheme s in
    if has_prefix (c ∷ s) (codes "://") then some (drop 3 (c ∷ s)) else rest

abbrev pub get_or : Str → Option Str → Str
get_or s none = s
get_or s (some t) = t

unfoldable pub normalize_target : Str → Str
unfolding after_scheme split_host_port
normalize_target target =
    let t = get_or target (after_scheme target) in
    if is_some (split_host_port t) then t else join_host_port t (codes "80")

pub data Outcome : Type 0 where
  dialled : Dialled → Outcome
  not_configured bad_target lookup_failed no_ipv4 : Outcome

-- A dial through the controller, behind what was sent out before.
abbrev pub then_dial : List Effect → List Effect × Dialled → List Effect × Outcome
then_dial es (fs, d) = (es ++ fs, dialled d)

module _ (w : Outside) where
  -- The first address of the answer that is an IPv4 address.
  abbrev pub dial_first : Controller → Str → List Effect → List (List ℕ) → List Effect × Outcome
  unfolding dial_context to4
  dial_first c port es [] = (es, no_ipv4)
  dial_first c port es (ip ∷ ips) =
      let rest = dial_first c port es ips in
      elim (to4 ip) [
        | some v4 ↦ then_dial es (dial_context w c (codes "tcp") (by_ip v4 port))
        | none ↦ rest
      ]

  abbrev pub dial_answer :
      Controller → Str → List Effect × Option (List (List ℕ)) → List Effect × Outcome
  unfolding dial_context to4
  dial_answer c port (es, none) = (es, lookup_failed)
  dial_answer c port (es, some ips) = dial_first c port es ips

  abbrev pub dial_host : Controller → Str → Str → Str → Option (List ℕ) → List Effect × Outcome
  unfolding dial_context to4 lookup_ip
  dial_host c dns host port (some ip) =
      then_dial [] (dial_context w c (codes "tcp") (by_ip ip port))
  dial_host c dns host port none = dial_answer c port (lookup_ip w c dns host)

  abbrev pub dial_parts : Controller → Str → Option (Str × Str) → List Effect × Outcome
  unfolding dial_context to4 lookup_ip parse_ip
  dial_parts c dns none = ([], bad_target)
  dial_parts c dns (some (host, port)) = dial_host c dns host port (parse_ip host)

  unfoldable pub dial_resolved : Controller → Str → Str → List Effect × Outcome
  unfolding dial_context to4 lookup_ip parse_ip split_host_port
  dial_resolved c dns target = dial_parts c dns (split_host_port target)

  abbrev pub dial : Option Controller → Str → Str → List Effect × Outcome
  unfolding dial_resolved normalize_target
  dial none dns target = ([], not_configured)
  dial (some c) dns target = dial_resolved c dns (normalize_target target)
