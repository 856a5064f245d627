-- ===== src/Config/Safety.antt =====
-- What a configuration that passes `Validate` of internal/config/config.go guarantees.
use conduitvpn.Base.{
  ℕ, zero, suc, ◌≤◌, ◌≡◌, refl, ◌≢◌, ◌↔◌, ◌⊎◌, inl, inr, Bool, true, false, not, ◌&&◌, ◌||◌, none,
  List, [], ◌∷◌, arith, ltb, rune_count, rune_count-le, All, Str, codes, is_empty, str_eq,
  str_eq_iff, ℤ, pos, negsuc, ltb_ℤ,
}
use conduitvpn.Config.{
  differ, first_error, guards, Config, ConfigError, validate, is_loopback_bind, valid_port, is_zero,
}

-- A port of TCP or UDP, 1 to 65535.
abbrev pub IsPort : ℤ → Type 0
IsPort port = (n : ℕ) × (port ≡ pos n) × (1 ≤ n) × (n ≤ 65535)

-- The conditions under which the services may start.
pub record IsSafe (c : Config) : Type 0 where
  pub mode_chosen :
      (c.demo ≡ true) ⊎ (c.network_mode ≡ codes "container") ⊎ (c.network_mode ≡ codes "host")
  pub no_hy2_in_host : c.network_mode ≡ codes "host" → c.hy2_port ≡ pos 0
  pub ui_port_valid : IsPort c.ui_port
  pub proxy_port_valid : IsPort c.local_proxy_port
  pub hy2_port_valid : (c.hy2_port ≡ pos 0) ⊎ IsPort c.hy2_port
  pub tls_paired : (c.ui_tls_cert ≡ []) ↔ (c.ui_tls_key ≡ [])
  pub proxy_guarded :
      is_loopback_bind c.local_proxy_host ≡ false
      → (c.proxy_user ≢ []) × (16 ≤ rune_count c.proxy_pass)
  pub hy2_guarded : c.hy2_port ≢ pos 0 → 16 ≤ rune_count c.hy2_password
  pub conns_bounded : (n : ℕ) × (c.proxy_max_conns ≡ pos n) × (1 ≤ n) × (n ≤ 4096)

-- No guard holds.
abbrev AllFalse : List (Bool × ConfigError) → Type 0
AllFalse = All (λ g. g.0 ≡ false)

first_error-none : (gs : List (Bool × ConfigError)) → first_error gs ≡ none → AllFalse gs
unfolding first_error
first_error-none [] h = tt
first_error-none ((true, e) ∷ gs) h = cc
first_error-none ((false, e) ∷ gs) h = (refl, first_error-none gs h)

AllFalse-first_error : (gs : List (Bool × ConfigError)) → AllFalse gs → first_error gs ≡ none
unfolding first_error
AllFalse-first_error [] h = refl
AllFalse-first_error ((g, e) ∷ gs) h = rw (h.0) (AllFalse-first_error gs h.1)

valid_port-IsPort : (port : ℤ) → valid_port port false ≡ true → IsPort port
unfolding valid_port
valid_port-IsPort (pos n) h = (n, refl, ground arith, ground arith)
valid_port-IsPort (negsuc n) h = ground arith

valid_port_or_zero : (port : ℤ) → valid_port port true ≡ true → (port ≡ pos 0) ⊎ IsPort port
unfolding valid_port
valid_port_or_zero (pos zero) h = inl refl
valid_port_or_zero (pos (suc n)) h = inr (suc n, refl, ground arith, ground arith)
valid_port_or_zero (negsuc n) h = ground arith

IsPort-valid_port : (port : ℤ) (z : Bool) → IsPort port → valid_port port z ≡ true
unfolding valid_port
IsPort-valid_port port z (n, e, lo, hi) = rw e (ground arith)

zero_or_port : (port : ℤ) → (port ≡ pos 0) ⊎ IsPort port → valid_port port true ≡ true
unfolding valid_port
zero_or_port port (inl e) = rw e refl
zero_or_port port (inr p) = IsPort-valid_port port true p

mode_iff :
    (demo : Bool) (mode : Str)
    → ((not demo && (not (str_eq mode (codes "container")) && not (str_eq mode (codes "host"))))
        ≡ false)
      ↔ ((demo ≡ true) ⊎ (mode ≡ codes "container") ⊎ (mode ≡ codes "host"))
mode_iff demo mode =
    ground (arith, str_eq_iff mode (codes "container"), str_eq_iff mode (codes "host"))

host_iff :
    (mode : Str) (port : ℤ)
    → ((str_eq mode (codes "host") && not (is_zero port)) ≡ false)
      ↔ (mode ≡ codes "host" → port ≡ pos 0)
host_iff mode (pos zero) = (λ h e. refl, λ h. ground arith)
host_iff mode (pos (suc n)) = (
  λ h e. absurd (ground (arith, (str_eq_iff mode (codes "host")).1 e)),
  λ h. ground (arith, str_eq_iff mode (codes "host"), h),
)
host_iff mode (negsuc n) = (
  λ h e. absurd (ground (arith, (str_eq_iff mode (codes "host")).1 e)),
  λ h. ground (arith, str_eq_iff mode (codes "host"), h),
)

paired_iff : (a b : Str) → (differ (is_empty a) (is_empty b) ≡ false) ↔ ((a ≡ []) ↔ (b ≡ []))
paired_iff [] [] = (λ h. (λ e. refl, λ e. refl), λ h. refl)
paired_iff [] (c ∷ b) = (λ h. cc, λ h. absurd (cc (h.0 refl)))
paired_iff (c ∷ a) [] = (λ h. cc, λ h. absurd (cc (h.1 refl)))
paired_iff (c ∷ a) (d ∷ b) = (λ h. (λ e. absurd (cc), λ e. absurd (cc)), λ h. refl)

guarded_iff :
    (loopback : Bool) (user pass : Str)
    → (((not loopback && (is_empty user || is_empty pass)) ≡ false)
        × ((not loopback && ltb (rune_count pass) 16) ≡ false))
      ↔ (loopback ≡ false → (user ≢ []) × (16 ≤ rune_count pass))
guarded_iff true user pass = (λ h e. absurd (cc), λ h. (refl, refl))
guarded_iff false [] pass = (λ h e. absurd (ground arith), λ h. absurd ((h refl).0 refl))
guarded_iff false (c ∷ user) [] =
    (λ h e. absurd (ground arith), λ h. absurd (omega (arith, (h refl).1, rune_count-le [])))
guarded_iff false (c ∷ user) (d ∷ pass) =
    (λ h e. (λ q. cc, ground arith), λ h. (refl, ground (arith, (h refl).1)))

hy2_iff :
    (port : ℤ) (pass : Str)
    → ((not (is_zero port) && ltb (rune_count pass) 16) ≡ false)
      ↔ (port ≢ pos 0 → 16 ≤ rune_count pass)
hy2_iff (pos zero) pass = (λ h e. absurd (e refl), λ h. refl)
hy2_iff (pos (suc n)) pass = (λ h e. ground arith, λ h. ground (arith, h (λ e. cc)))
hy2_iff (negsuc n) pass = (λ h e. ground arith, λ h. ground (arith, h (λ e. cc)))

conns_iff :
    (conns : ℤ)
    → ((ltb_ℤ conns (pos 1) || ltb_ℤ (pos 4096) conns) ≡ false)
      ↔ ((n : ℕ) × (conns ≡ pos n) × (1 ≤ n) × (n ≤ 4096))
conns_iff (pos n) = (
  λ h. (n, refl, ground arith, ground arith),
  λ r. let e : n ≡ r.0 = cc (r.1) in ground (arith, e, r.2, r.3),
)
conns_iff (negsuc n) = (λ h. ground arith, λ r. absurd (cc (r.1)))

not_iff : (b : Bool) → (not b ≡ false) ↔ (b ≡ true)
not_iff b = ground arith

-- For a LOCAL_PROXY_HOST in ASCII: `Validate` passes exactly the safe configurations: the network mode is chosen or it is a demo,
-- hysteria2 is off in host mode and has a long password elsewhere, the ports are valid, the TLS
-- files come in pairs, a proxy that is not bound to loopback has a user and a password of at least
-- 16 characters in UTF-8, and the number of connections lies between 1 and 4096.
pub validate_iff : (c : Config) → (validate c ≡ none) ↔ IsSafe c
unfolding validate guards
validate_iff c =
    (λ h. sound (first_error-none (guards c) h), λ s. AllFalse-first_error (guards c) (complete s))
  where
    sound : AllFalse (guards c) → IsSafe c
    sound (mode, (host, (ui, (proxy, (hy2, (tls, (auth, (long, (pass, (conns, _)))))))))) = record {
      mode_chosen = (mode_iff c.demo c.network_mode).0 mode;
      no_hy2_in_host = (host_iff c.network_mode c.hy2_port).0 host;
      ui_port_valid = valid_port-IsPort c.ui_port ((not_iff _).0 ui);
      proxy_port_valid = valid_port-IsPort c.local_proxy_port ((not_iff _).0 proxy);
      hy2_port_valid = valid_port_or_zero c.hy2_port ((not_iff _).0 hy2);
      tls_paired = (paired_iff c.ui_tls_cert c.ui_tls_key).0 tls;
      proxy_guarded = (guarded_iff _ c.proxy_user c.proxy_pass).0 (auth, long);
      hy2_guarded = (hy2_iff c.hy2_port c.hy2_password).0 pass;
      conns_bounded = (conns_iff c.proxy_max_conns).0 conns;
    }

    complete : IsSafe c → AllFalse (guards c)
    complete s =
        let guarded = (guarded_iff _ c.proxy_user c.proxy_pass).1 s.proxy_guarded in
        (
          (mode_iff c.demo c.network_mode).1 s.mode_chosen,
          (
            (host_iff c.network_mode c.hy2_port).1 s.no_hy2_in_host,
            (
              (not_iff _).1 (IsPort-valid_port c.ui_port false s.ui_port_valid),
              (
                (not_iff _).1 (IsPort-valid_port c.local_proxy_port false s.proxy_port_valid),
                (
                  (not_iff _).1 (zero_or_port c.hy2_port s.hy2_port_valid),
                  (
                    (paired_iff c.ui_tls_cert c.ui_tls_key).1 s.tls_paired,
                    (
                      guarded.0,
                      (
                        guarded.1,
                        (
                          (hy2_iff c.hy2_port c.hy2_password).1 s.hy2_guarded,
                          ((conns_iff c.proxy_max_conns).1 s.conns_bounded, tt),
                        ),
                      ),
                    ),
                  ),
                ),
              ),
            ),
          ),
        )
