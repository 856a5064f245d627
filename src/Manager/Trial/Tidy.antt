-- ===== src/Manager/Trial/Tidy.antt =====
-- What is left behind by a trial of a blacklisted node.
use conduitvpn.Base.{
  ℕ, zero, suc, ◌≡◌, refl, sym, subst, ◌⊎◌, inl, inr, Bool, not, ◌&&◌, Option, none, some, List, [],
  ◌∷◌, ◌++◌, ltb, Str, is_empty, choice,
}
use conduitvpn.Config.{Config}
use conduitvpn.Node.{Node}
use conduitvpn.Vpngate.Profile.{Checked, ok, err, validate_profile}
use conduitvpn.Manager.Trial.{
  after_check, then_stopped, cleaned, TrialError, Tried, trial_tries, verify_blacklisted_node,
  check, with_config_file, Trial, Action, with_profile, after_connected, with_auth_file,
  with_prober, with_tunnel, make_file, remove_file, launch, end_process, open_route, close_route,
  no_device, trial_canceled, no_handshake, no_prober,
}

-- What is done while the two files exist: openvpn is stopped after it was started on `text`, and a
-- route is closed after it was opened, before that.
pub data IsStopped (text : Str) : List Action → Type 0 where
  not_launched : IsStopped text []
  launched : IsStopped text (launch text ∷ end_process ∷ [])
  probed :
      {d : Str} → IsStopped text (launch text ∷ open_route d ∷ close_route d ∷ end_process ∷ [])

-- What is done for a node: each file that is made is removed at the end, and openvpn is started on
-- nothing but what the check of the profile let pass.
pub data IsTidy (n : Node) : List Action → Type 0 where
  no_files : IsTidy n []
  one_file : {f : Str} → IsTidy n (make_file f ∷ remove_file f ∷ [])
  two_files :
      {f g text : Str} {acts : List Action}
      → validate_profile n.config_text n.ip ≡ ok text
      → IsStopped text acts
      → IsTidy n (make_file f ∷ make_file g ∷ (acts ++ (remove_file f ∷ remove_file g ∷ [])))

-- A node passes by a probe alone.
abbrev pub IsProved : Trial → Option TrialError → Type 0
IsProved t e = e ≡ none → (i : ℕ) × (t.probe i ≡ none)

after_check-IsProved :
    (t : Trial) (cut : Bool) (i : ℕ) (o : Option Str) (next : Str → Option TrialError)
    → t.probe i ≡ o
    → ((e : Str) → IsProved t (next e))
    → IsProved t (after_check cut o next)
after_check-IsProved t cut i none next q h = λ e. (i, q)
after_check-IsProved t cut i (some x) next q h = choice (IsProved t) cut (λ e. absurd cc) (h x)

check-IsProved : (t : Trial) (n i : ℕ) (last : Str) → IsProved t (check t n i last)
unfolding check
check-IsProved t zero i last = λ e. absurd cc
check-IsProved t (suc n) i last =
    after_check-IsProved t (ltb 0 n && not (t.slept i)) i (t.probe i) (λ e. check t n (suc i) e)
      refl (λ e. check-IsProved t n (suc i) e)

-- The part behind Start, before the process is stopped.
abbrev IsRouted : Trial → Tried → Type 0
IsRouted t (e, acts) =
    ((acts ≡ []) ⊎ ((d : Str) × (acts ≡ open_route d ∷ close_route d ∷ []))) × IsProved t e

failed_early : (t : Trial) (x : TrialError) → IsRouted t (some x, [])
failed_early t x = (inl refl, λ e. absurd cc)

with_prober-IsRouted : (c : Config) (t : Trial) (o : Option Str) → IsRouted t (with_prober c t o)
unfolding with_prober
with_prober-IsRouted c t (some x) = failed_early t (no_prober x)
with_prober-IsRouted c t none =
    (inr (t.device, refl), check-IsProved t (trial_tries c.initial_probe_tries) 0 [])

after_connected-IsRouted :
    (c : Config) (t : Trial) (o : Option Str) → IsRouted t (after_connected c t o)
unfolding after_connected
after_connected-IsRouted c t (some x) = failed_early t (no_handshake x)
after_connected-IsRouted c t none =
    choice (IsRouted t) (not t.settled) (failed_early t trial_canceled) (
      choice (IsRouted t) (is_empty t.device) (failed_early t no_device)
        (with_prober-IsRouted c t t.prober_error))

abbrev IsEnded : Str → Trial → Tried → Type 0
IsEnded text t (e, acts) = IsStopped text acts × IsProved t e

then_stopped-IsEnded :
    (text : Str) (t : Trial) (r : Tried) → IsRouted t r → IsEnded text t (then_stopped text r)
then_stopped-IsEnded text t (e, acts) (inl q, p) =
    (subst (λ a. IsStopped text (launch text ∷ (a ++ (end_process ∷ [])))) (sym q) launched, p)
then_stopped-IsEnded text t (e, acts) (inr (d, q), p) =
    (subst (λ a. IsStopped text (launch text ∷ (a ++ (end_process ∷ [])))) (sym q) probed, p)

with_tunnel-IsEnded :
    (c : Config) (t : Trial) (text : Str) (o : Option Str) → IsEnded text t (with_tunnel c t text o)
unfolding with_tunnel
with_tunnel-IsEnded c t text (some x) = (not_launched, λ e. absurd cc)
with_tunnel-IsEnded c t text none =
    then_stopped-IsEnded text t (after_connected c t t.handshake_error)
      (after_connected-IsRouted c t t.handshake_error)

abbrev pub IsTried : Node → Trial → Tried → Type 0
IsTried n t (e, acts) = IsTidy n acts × IsProved t e

cleaned-IsTried :
    (n : Node) (t : Trial) (text cfg auth : Str) (r : Tried)
    → validate_profile n.config_text n.ip ≡ ok text
    → IsEnded text t r
    → IsTried n t (cleaned cfg auth r)
cleaned-IsTried n t text cfg auth (e, acts) v (h, p) = (two_files v h, p)

with_auth_file-IsTried :
    (c : Config) (n : Node) (t : Trial) (text cfg : Str) (o : Option Str)
    → validate_profile n.config_text n.ip ≡ ok text
    → IsTried n t (with_auth_file c t text cfg o)
unfolding with_auth_file
with_auth_file-IsTried c n t text cfg none v = (one_file, λ e. absurd cc)
with_auth_file-IsTried c n t text cfg (some auth) v =
    choice (IsTried n t) (not t.auth_written) (two_files v not_launched, λ e. absurd cc)
      (cleaned-IsTried n t text cfg auth (with_tunnel c t text t.start_error) v
        (with_tunnel-IsEnded c t text t.start_error))

with_config_file-IsTried :
    (c : Config) (n : Node) (t : Trial) (text : Str) (o : Option Str)
    → validate_profile n.config_text n.ip ≡ ok text
    → IsTried n t (with_config_file c t text o)
unfolding with_config_file
with_config_file-IsTried c n t text none v = (no_files, λ e. absurd cc)
with_config_file-IsTried c n t text (some cfg) v =
    choice (IsTried n t) (not t.config_written) (one_file, λ e. absurd cc)
      (with_auth_file-IsTried c n t text cfg t.auth_file v)

with_profile-IsTried :
    (c : Config) (n : Node) (t : Trial) (p : Checked Str)
    → validate_profile n.config_text n.ip ≡ p
    → IsTried n t (with_profile c t p)
unfolding with_profile
with_profile-IsTried c n t (err x) v = (no_files, λ e. absurd cc)
with_profile-IsTried c n t (ok text) v =
    choice (IsTried n t) (not t.directory_made) (no_files, λ e. absurd cc)
      (with_config_file-IsTried c n t text t.config_file v)

-- Whatever fails while a blacklisted node is tried: every file that was made is removed at the end,
-- openvpn is started on nothing but what the check of the profile let pass for this node's address, and
-- is stopped before the files are removed, and a route that was opened is closed before that; the node
-- passes only if one of its probes succeeded.
pub verify_blacklisted_node-IsTried :
    (c : Config) (n : Node) (t : Trial) → IsTried n t (verify_blacklisted_node c n t)
unfolding verify_blacklisted_node
verify_blacklisted_node-IsTried c n t =
    with_profile-IsTried c n t (validate_profile n.config_text n.ip) refl
