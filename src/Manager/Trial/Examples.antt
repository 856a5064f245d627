-- ===== src/Manager/Trial/Examples.antt =====
-- A trial whose second probe succeeds, and the theorem at it.
use conduitvpn.Manager.Trial.{Trial, check, verify_blacklisted_node}
use conduitvpn.Base.{◌≡◌, refl, true, none, some, [], ◌==◌, if◌then◌else◌, codes}
use conduitvpn.Config.{load}
use conduitvpn.Config.Examples.{host_env}
use conduitvpn.Manager.Examples.{tokyo}
use conduitvpn.Manager.Trial.Tidy.{IsTried, verify_blacklisted_node-IsTried}

abbrev trial : Trial
trial = record {
  directory_made = true;
  config_file = some (codes "a.ovpn");
  config_written = true;
  auth_file = some (codes "a.auth");
  auth_written = true;
  start_error = none;
  handshake_error = none;
  settled = true;
  device = codes "tun1";
  prober_error = none;
  probe = λ i. if i == 0 then some (codes "timeout") else none;
  slept = λ i. true;
}

second_probe : check trial 3 0 [] ≡ none
unfolding check
second_probe = refl

verify_blacklisted_node-IsTried_example :
    IsTried tokyo trial (verify_blacklisted_node (load host_env none) tokyo trial)
verify_blacklisted_node-IsTried_example =
    verify_blacklisted_node-IsTried (load host_env none) tokyo trial
