-- ===== src/Vpngate/Profile/Decides.antt =====
-- The check of one directive accepts all that its grammar allows, so it decides the grammar.
use conduitvpn.Base.{
  ℕ, ◌≡◌, refl, ◌↔◌, Bool, true, some, List, arith, Str, codes, str_eq, str_eq_refl, one_of,
  one_of_complete, All-Elem, Elem, ◌||◌,
}
use conduitvpn.Vpngate.Profile.{
  ok, is_bounded_int, is_positive_int, validate_directive, case_of, no_arg_names, tun_names,
  token_names, count_names, flag_case, tun_case, token_case, count_case, proto_names, lzo_names,
  compress_names, key_directions, tls_versions,
}
use conduitvpn.Vpngate.Profile.Grammar.{
  IsAllowed, IsIntBetween, is_bounded_int_iff, validate_directive_sound, flag, tun_device, protocol,
  remote, remote_by, retry_forever, retry_count, server_cert, token, lzo, lzo_mode, compression,
  direction, version, verbosity, counted,
}

module _ (name : Str) where
  flag-case_of : Elem name no_arg_names → case_of name ≡ some flag_case
  unfolding case_of one_of str_eq
  flag-case_of =
      All-Elem (λ w. case_of w ≡ some flag_case) no_arg_names
        (refl, (refl, (refl, (refl, (refl, (refl, (refl, tt)))))))

  tun-case_of : Elem name tun_names → case_of name ≡ some tun_case
  unfolding case_of one_of str_eq
  tun-case_of = All-Elem (λ w. case_of w ≡ some tun_case) tun_names (refl, (refl, tt))

  token-case_of : Elem name token_names → case_of name ≡ some token_case
  unfolding case_of one_of str_eq
  token-case_of =
      All-Elem (λ w. case_of w ≡ some token_case) token_names
        (refl, (refl, (refl, (refl, (refl, (refl, tt))))))

  count-case_of : Elem name count_names → case_of name ≡ some count_case
  unfolding case_of one_of str_eq
  count-case_of =
      All-Elem (λ w. case_of w ≡ some count_case) count_names
        (refl, (refl, (refl, (refl, (refl, (refl, tt))))))

bounded_int : (lo hi : ℕ) (s : Str) → IsIntBetween lo hi s → is_bounded_int s lo hi ≡ true
bounded_int lo hi s = (is_bounded_int_iff s lo hi).1

or_right : (a b : Bool) → b ≡ true → (a || b) ≡ true
or_right a b h = ground arith

validate_directive_complete :
    (ip name : Str) (args : List Str) (seen : Bool)
    → IsAllowed ip name args
    → (s : Bool) × (validate_directive name args ip seen ≡ ok s)
unfolding validate_directive one_of str_eq is_positive_int
validate_directive_complete ip name args seen (flag n q) = (seen, rw (flag-case_of name n, q))
validate_directive_complete ip name args seen (tun_device n q) = (seen, rw (tun-case_of name n, q))
validate_directive_complete ip name args seen (protocol n p e q) =
    (seen, rw (n, q, one_of_complete proto_names p e))
validate_directive_complete ip name args seen (remote n g port i q) =
    (true, rw (n, q, str_eq_refl ip, g, bounded_int 1 65535 port i))
validate_directive_complete ip name args seen (remote_by n g port p i e q) = (
  true,
  rw (n, q, str_eq_refl ip, g, bounded_int 1 65535 port i, one_of_complete proto_names p e),
)
validate_directive_complete ip name args seen (retry_forever n q) = (seen, rw (n, q))
validate_directive_complete ip name args seen (retry_count n s i q) =
    (seen, rw (n, q, or_right (str_eq (codes "infinite") s) _ (bounded_int 1 2147483647 s i)))
validate_directive_complete ip name args seen (server_cert n q) = (seen, rw (n, q))
validate_directive_complete ip name args seen (token n s t q) =
    (seen, rw (token-case_of name n, q, t))
validate_directive_complete ip name args seen (lzo n q) = (seen, rw (n, q))
validate_directive_complete ip name args seen (lzo_mode n s e q) =
    (seen, rw (n, q, one_of_complete lzo_names s e))
validate_directive_complete ip name args seen (compression n s e q) =
    (seen, rw (n, q, one_of_complete compress_names s e))
validate_directive_complete ip name args seen (direction n s e q) =
    (seen, rw (n, q, one_of_complete key_directions s e))
validate_directive_complete ip name args seen (version n s e q) =
    (seen, rw (n, q, one_of_complete tls_versions s e))
validate_directive_complete ip name args seen (verbosity n s i q) =
    (seen, rw (n, q, bounded_int 0 6 s i))
validate_directive_complete ip name args seen (counted n s i q) =
    (seen, rw (count-case_of name n, q, bounded_int 1 2147483647 s i))

-- The check accepts a directive exactly when the grammar allows it, for every name, all arguments
-- and either value of the flag `remoteSeen`.
pub validate_directive_iff :
    (ip name : Str) (args : List Str) (seen : Bool)
    → ((s : Bool) × (validate_directive name args ip seen ≡ ok s)) ↔ IsAllowed ip name args
validate_directive_iff ip name args seen = (
  λ r. validate_directive_sound ip name args seen r.1,
  validate_directive_complete ip name args seen,
)
