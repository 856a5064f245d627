-- ===== src/Manager/Trial.antt =====
-- verifyBlacklistedNode and prepareProbeFiles of internal/manager/manager.go: one blacklisted node is
-- tried through a tunnel of its own. What the calls answer is a record `Trial`; what they do to the
-- files, the process and the routes is a list of actions, in their order.
pub mod Tidy
pub mod Examples
use conduitvpn.Base.{
  ℕ, zero, suc, ◌+◌, ◌-◌, ◌*◌, ◌/◌, ◌%◌, ◌^◌, ◌≤◌, ◌<◌, ◌≡◌, refl, sym, ap, ◌∙◌, subst, ◌≢◌, ◌↔◌,
  ◌⊎◌, inl, inr, Bool, true, false, not, ◌&&◌, ◌||◌, Option, none, some, List, [], ◌∷◌, ◌++◌, map,
  arith, ltb, leb, ◌==◌, if◌then◌else◌, is_some, ==_iff, Bool-cases, Option-cases, length,
  get_elem?, set, take, drop, any, keep, All, Elem, length-append, length-drop, length-take,
  length-set, All-Elem, Elem-append_left, Elem-append_last, Str, codes, is_empty, str_eq,
  str_eq_iff, str_eq_refl, trim_space, trim, to_upper, to_lower, has_prefix, trim_prefix, contains,
  split, fields, join, one_of, one_of_sound, one_of_complete, to_upper_idem, Dict, lookup, insert,
  delete, keys, lookup-insert, lookup-delete, ℤ, pos, negsuc, ltb_ℤ, leb_ℤ, add_ℕ, sort_stable,
  IsSorted, atoi, sprint, parse_ip, to4, is_loopback, read_full, reading, on_read, byte_at,
  put_uint16, uint16, read_full-append, has_byte, split_host_port, join_host_port, ip_string,
  cut_first, cut_last, atoi_or_zero, choice, choice_of, cut_first-append, cut_last-append,
}
use conduitvpn.Config.{Config}
use conduitvpn.Node.{Node}
use conduitvpn.Vpngate.Profile.{Checked, ok, err, ProfileError, validate_profile}

-- A name for each of the two files, or none where it cannot be made; whether it is written whole; the
-- errors of Start, of the handshake and of NewDeviceProber; whether the pauses end by themselves; the
-- device; the results of the probes.
pub record Trial : Type 0 where
  pub directory_made : Bool
  pub config_file : Option Str
  pub config_written : Bool
  pub auth_file : Option Str
  pub auth_written : Bool
  pub start_error : Option Str
  pub handshake_error : Option Str
  pub settled : Bool
  pub device : Str
  pub prober_error : Option Str
  pub probe : ℕ → Option Str
  pub slept : ℕ → Bool

pub data Action : Type 0 where
  make_file remove_file : Str → Action
  -- openvpn on a configuration, with --route-nopull.
  launch : Str → Action
  end_process : Action
  open_route close_route : Str → Action

pub data TrialError : Type 0 where
  unsafe_profile : ProfileError → TrialError
  no_directory no_file no_device trial_canceled : TrialError
  not_started no_handshake no_prober unhealthy : Str → TrialError

abbrev pub Tried : Type 0
Tried = Option TrialError × List Action

-- What follows a probe: a success ends the loop, and so does a pause that is cut short.
abbrev pub after_check : Bool → Option Str → (Str → Option TrialError) → Option TrialError
after_check cut none next = none
after_check cut (some e) next = if cut then some trial_canceled else next e

-- The loop over the probes, with `n` of them left.
unfoldable pub check : Trial → ℕ → ℕ → Str → Option TrialError
check t zero i last = some (unhealthy last)
check t (suc n) i last =
    after_check (ltb 0 n && not (t.slept i)) (t.probe i) (λ e. check t n (suc i) e)

abbrev pub trial_tries : ℤ → ℕ
trial_tries (pos zero) = 1
trial_tries (pos (suc n)) = suc n
trial_tries (negsuc n) = 1

abbrev pub with_prober : Config → Trial → Option Str → Tried
unfolding check
with_prober c t (some e) = (some (no_prober e), [])
with_prober c t none = (
  check t (trial_tries c.initial_probe_tries) 0 [],
  open_route t.device ∷ close_route t.device ∷ [],
)

abbrev pub after_connected : Config → Trial → Option Str → Tried
unfolding check
after_connected c t (some e) = (some (no_handshake e), [])
after_connected c t none =
    if not t.settled
    then (some trial_canceled, [])
    else if is_empty t.device
    then (some no_device, [])
    else with_prober c t t.prober_error

-- The tunnel is stopped on every way out after Start.
abbrev pub then_stopped : Str → Tried → Tried
then_stopped text (e, acts) = (e, launch text ∷ (acts ++ (end_process ∷ [])))

abbrev pub with_tunnel : Config → Trial → Str → Option Str → Tried
unfolding check
with_tunnel c t text (some e) = (some (not_started e), [])
with_tunnel c t text none = then_stopped text (after_connected c t t.handshake_error)

-- The deferred cleanup.
abbrev pub cleaned : Str → Str → Tried → Tried
cleaned cfg auth (e, acts) =
    (e, make_file cfg ∷ make_file auth ∷ (acts ++ (remove_file cfg ∷ remove_file auth ∷ [])))

abbrev pub with_auth_file : Config → Trial → Str → Str → Option Str → Tried
unfolding check
with_auth_file c t text cfg none = (some no_file, make_file cfg ∷ remove_file cfg ∷ [])
with_auth_file c t text cfg (some auth) =
    if not t.auth_written
    then (some no_file, make_file cfg ∷ make_file auth ∷ remove_file cfg ∷ remove_file auth ∷ [])
    else cleaned cfg auth (with_tunnel c t text t.start_error)

abbrev pub with_config_file : Config → Trial → Str → Option Str → Tried
unfolding check
with_config_file c t text none = (some no_file, [])
with_config_file c t text (some cfg) =
    if not t.config_written
    then (some no_file, make_file cfg ∷ remove_file cfg ∷ [])
    else with_auth_file c t text cfg t.auth_file

abbrev pub with_profile : Config → Trial → Checked Str → Tried
unfolding check
with_profile c t (err e) = (some (unsafe_profile e), [])
with_profile c t (ok text) =
    if not t.directory_made
    then (some no_directory, [])
    else with_config_file c t text t.config_file

unfoldable pub verify_blacklisted_node : Config → Node → Trial → Tried
unfolding check validate_profile
verify_blacklisted_node c n t = with_profile c t (validate_profile n.config_text n.ip)
