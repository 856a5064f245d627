-- ===== src/Vpngate/Profile/Grammar.antt =====
-- The directives that the profile check of internal/vpngate/parse.go means to allow, as a grammar
-- of its own, and that the check decides it.
use conduitvpn.Base.{
  false, inl, inr, Bool-cases, sym, ℕ, ◌≤◌, ◌≡◌, refl, ◌↔◌, Bool, true, ◌||◌, some, List, [], ◌∷◌,
  arith, Str, codes, str_eq, str_eq_iff, one_of, one_of_sound, Elem, ℤ, pos, Option, none, atoi,
}
use conduitvpn.Vpngate.Profile.{
  when, ProfileError, ok, is_public_ipv4, is_bounded_int, bounded, is_positive_int, is_safe_token,
  no_arg_names, proto_names, tun_names, key_directions, tls_versions, Case, flag_case, tun_case,
  proto_case, remote_case_of, retry_case, cert_case, token_case, lzo_case, compress_case,
  direction_case, version_case, verb_case, count_case, case_of, check_case, run_case, token_names,
  count_names, lzo_names, compress_names, single, remote_case, validate_directive,
}

-- A text that stands for a number between two bounds.
abbrev pub IsIntBetween : ℕ → ℕ → Str → Type 0
IsIntBetween lo hi s = (n : ℕ) × (atoi s ≡ some (pos n)) × (lo ≤ n) × (n ≤ hi)

-- The directive `name args` may stand in a profile for the node at `ip`.
pub data IsAllowed (ip name : Str) (args : List Str) : Type 0 where
  flag : Elem name no_arg_names → args ≡ [] → IsAllowed ip name args
  tun_device : Elem name tun_names → args ≡ codes "tun" ∷ [] → IsAllowed ip name args
  protocol :
      name ≡ codes "proto" → (p : Str) → Elem p proto_names → args ≡ p ∷ [] → IsAllowed ip name args
  remote :
      name ≡ codes "remote"
      → is_public_ipv4 ip ≡ true
      → (port : Str) → IsIntBetween 1 65535 port
      → args ≡ ip ∷ port ∷ []
      → IsAllowed ip name args
  remote_by :
      name ≡ codes "remote"
      → is_public_ipv4 ip ≡ true
      → (port p : Str) → IsIntBetween 1 65535 port
      → Elem p proto_names
      → args ≡ ip ∷ port ∷ p ∷ []
      → IsAllowed ip name args
  retry_forever :
      name ≡ codes "resolv-retry" → args ≡ codes "infinite" ∷ [] → IsAllowed ip name args
  retry_count :
      name ≡ codes "resolv-retry"
      → (s : Str) → IsIntBetween 1 2147483647 s
      → args ≡ s ∷ []
      → IsAllowed ip name args
  server_cert : name ≡ codes "remote-cert-tls" → args ≡ codes "server" ∷ [] → IsAllowed ip name args
  token :
      Elem name token_names
      → (s : Str) → is_safe_token s ≡ true
      → args ≡ s ∷ []
      → IsAllowed ip name args
  lzo : name ≡ codes "comp-lzo" → args ≡ [] → IsAllowed ip name args
  lzo_mode :
      name ≡ codes "comp-lzo"
      → (s : Str) → Elem s lzo_names
      → args ≡ s ∷ []
      → IsAllowed ip name args
  compression :
      name ≡ codes "compress"
      → (s : Str) → Elem s compress_names
      → args ≡ s ∷ []
      → IsAllowed ip name args
  direction :
      name ≡ codes "key-direction"
      → (s : Str) → Elem s key_directions
      → args ≡ s ∷ []
      → IsAllowed ip name args
  version :
      name ≡ codes "tls-version-min"
      → (s : Str) → Elem s tls_versions
      → args ≡ s ∷ []
      → IsAllowed ip name args
  verbosity :
      name ≡ codes "verb" → (s : Str) → IsIntBetween 0 6 s → args ≡ s ∷ [] → IsAllowed ip name args
  counted :
      Elem name count_names
      → (s : Str) → IsIntBetween 1 2147483647 s
      → args ≡ s ∷ []
      → IsAllowed ip name args

bounded_sound :
    (lo hi : ℕ) (o : Option ℤ)
    → bounded lo hi o ≡ true
    → (n : ℕ) × (o ≡ some (pos n)) × (lo ≤ n) × (n ≤ hi)
bounded_sound lo hi none h = cc
bounded_sound lo hi (some (pos n)) h = (n, refl, ground arith, ground arith)
bounded_sound lo hi (some (ℤ.negsuc n)) h = ground arith

pub is_bounded_int_iff :
    (s : Str) (lo hi : ℕ) → (is_bounded_int s lo hi ≡ true) ↔ IsIntBetween lo hi s
unfolding is_bounded_int
is_bounded_int_iff s lo hi =
    (bounded_sound lo hi (atoi s), λ r. rw (r.1) (ground (arith, r.2, r.3)))

-- How a test on the arguments that passes shows them.
single_sound :
    (p : Str → Bool) (args : List Str)
    → single p args ≡ true
    → (a : Str) × (args ≡ a ∷ []) × (p a ≡ true)
single_sound p [] h = cc
single_sound p (a ∷ []) h = (a, refl, h)
single_sound p (a ∷ b ∷ r) h = cc

single-one_of :
    (ws args : List Str) → single (one_of ws) args ≡ true → (a : Str) × Elem a ws × (args ≡ a ∷ [])
single-one_of ws args h =
    let r = single_sound (one_of ws) args h in (r.0, one_of_sound ws r.0 r.2, r.1)

single-str_eq : (w : Str) (args : List Str) → single (str_eq w) args ≡ true → args ≡ w ∷ []
single-str_eq w args h =
    let r = single_sound (str_eq w) args h in ground (arith, r.1, (str_eq_iff w r.0).0 r.2)

single-is_bounded_int :
    (lo hi : ℕ) (args : List Str)
    → single (λ a. is_bounded_int a lo hi) args ≡ true
    → (a : Str) × IsIntBetween lo hi a × (args ≡ a ∷ [])
single-is_bounded_int lo hi args h =
    let r = single_sound (λ a. is_bounded_int a lo hi) args h in
    (r.0, (is_bounded_int_iff r.0 lo hi).0 r.2, r.1)

when_sound : (t seen : Bool) (e : ProfileError) {s : Bool} → when t seen e ≡ ok s → t ≡ true
when_sound true seen e h = refl
when_sound false seen e h = cc

-- The names that lead to a case.
abbrev pub Named : Case → Str → Type 0
Named flag_case name = one_of no_arg_names name ≡ true
Named tun_case name = one_of tun_names name ≡ true
Named proto_case name = str_eq (codes "proto") name ≡ true
Named remote_case_of name = str_eq (codes "remote") name ≡ true
Named retry_case name = str_eq (codes "resolv-retry") name ≡ true
Named cert_case name = str_eq (codes "remote-cert-tls") name ≡ true
Named token_case name = one_of token_names name ≡ true
Named lzo_case name = str_eq (codes "comp-lzo") name ≡ true
Named compress_case name = str_eq (codes "compress") name ≡ true
Named direction_case name = str_eq (codes "key-direction") name ≡ true
Named version_case name = str_eq (codes "tls-version-min") name ≡ true
Named verb_case name = str_eq (codes "verb") name ≡ true
Named count_case name = one_of count_names name ≡ true

pub case_of-Named : (c : Case) (name : Str) → case_of name ≡ some c → Named c name
unfolding case_of
case_of-Named flag_case name h = ground arith
case_of-Named _ name h = ground arith

module _ (ip name : Str) where
  is : (w : Str) → str_eq w name ≡ true → name ≡ w
  is w h = sym ((str_eq_iff w name).0 h)

  remote_sound :
      (args : List Str) {s : Bool}
      → name ≡ codes "remote"
      → remote_case args ip ≡ ok s
      → IsAllowed ip name args
  unfolding remote_case
  remote_sound [] n h = cc
  remote_sound (a ∷ []) n h = cc
  remote_sound (a ∷ b ∷ []) n h =
      remote n (ground (arith, str_eq_iff a ip)) b ((is_bounded_int_iff b 1 65535).0 (ground arith))
        (ground (arith, str_eq_iff a ip))
  remote_sound (a ∷ b ∷ c ∷ []) n h =
      remote_by n (ground (arith, str_eq_iff a ip)) b c
        ((is_bounded_int_iff b 1 65535).0 (ground arith))
        (one_of_sound proto_names c (ground arith)) (ground (arith, str_eq_iff a ip))
  remote_sound (a ∷ b ∷ c ∷ d ∷ r) n h = cc

  retry_sound :
      {args : List Str}
      → name ≡ codes "resolv-retry"
      → (a : Str) → args ≡ a ∷ []
      → (str_eq (codes "infinite") a || is_positive_int a) ≡ true
      → IsAllowed ip name args
  unfolding is_positive_int
  retry_sound n a q t = elim (Bool-cases (str_eq (codes "infinite") a)) [
    | inl e ↦ retry_forever n (ground (arith, (str_eq_iff (codes "infinite") a).0 e))
    | inr e ↦ retry_count n a ((is_bounded_int_iff a 1 2147483647).0 (ground arith)) q
  ]

  check_case_sound :
      (c : Case) (args : List Str) (seen : Bool) {s : Bool}
      → Named c name
      → check_case c name args ip seen ≡ ok s
      → IsAllowed ip name args
  unfolding check_case is_positive_int
  check_case_sound flag_case [] seen n h = flag (one_of_sound no_arg_names name n) refl
  check_case_sound flag_case (a ∷ args) seen n h = cc
  check_case_sound tun_case args seen n h =
      tun_device (one_of_sound tun_names name n)
        (single-str_eq (codes "tun") args (when_sound _ seen _ h))
  check_case_sound proto_case args seen n h =
      let (p, e, q) = single-one_of proto_names args (when_sound _ seen _ h) in
      protocol (is (codes "proto") n) p e q
  check_case_sound remote_case_of args seen n h = remote_sound args (is (codes "remote") n) h
  check_case_sound retry_case args seen n h =
      let (a, q, t) =
        single_sound (λ a. str_eq (codes "infinite") a || is_positive_int a) args
          (when_sound _ seen _ h) in
      retry_sound (is (codes "resolv-retry") n) a q t
  check_case_sound cert_case args seen n h =
      server_cert (is (codes "remote-cert-tls") n)
        (single-str_eq (codes "server") args (when_sound _ seen _ h))
  check_case_sound token_case args seen n h =
      let (a, q, t) = single_sound is_safe_token args (when_sound _ seen _ h) in
      token (one_of_sound token_names name n) a t q
  check_case_sound lzo_case [] seen n h = lzo (is (codes "comp-lzo") n) refl
  check_case_sound lzo_case (a ∷ args) seen n h =
      let (p, e, q) = single-one_of lzo_names (a ∷ args) (when_sound _ seen _ h) in
      lzo_mode (is (codes "comp-lzo") n) p e q
  check_case_sound compress_case args seen n h =
      let (p, e, q) = single-one_of compress_names args (when_sound _ seen _ h) in
      compression (is (codes "compress") n) p e q
  check_case_sound direction_case args seen n h =
      let (p, e, q) = single-one_of key_directions args (when_sound _ seen _ h) in
      direction (is (codes "key-direction") n) p e q
  check_case_sound version_case args seen n h =
      let (p, e, q) = single-one_of tls_versions args (when_sound _ seen _ h) in
      version (is (codes "tls-version-min") n) p e q
  check_case_sound verb_case args seen n h =
      let (a, i, q) = single-is_bounded_int 0 6 args (when_sound _ seen _ h) in
      verbosity (is (codes "verb") n) a i q
  check_case_sound count_case args seen n h =
      let (a, i, q) = single-is_bounded_int 1 2147483647 args (when_sound _ seen _ h) in
      counted (one_of_sound count_names name n) a i q

  run_case_sound :
      (o : Option Case)
      → case_of name ≡ o
      → (args : List Str) (seen : Bool) {s : Bool} → run_case o name args ip seen ≡ ok s
      → IsAllowed ip name args
  run_case_sound none e args seen h = cc
  run_case_sound (some c) e args seen h = check_case_sound c args seen (case_of-Named c name e) h

-- A directive that the check accepts is in the grammar.
pub validate_directive_sound :
    (ip name : Str) (args : List Str) (seen : Bool) {s : Bool}
    → validate_directive name args ip seen ≡ ok s
    → IsAllowed ip name args
unfolding validate_directive
validate_directive_sound ip name args seen h =
    run_case_sound ip name (case_of name) refl args seen h
