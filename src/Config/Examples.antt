-- ===== src/Config/Examples.antt =====
-- A configuration from the environment, one that passes and one that is refused.
use conduitvpn.Base.{◌≡◌, refl, ◌↔◌, none, some, [], if◌then◌else◌, codes, str_eq, contains}
use conduitvpn.Config.{Env, load, validate, proxy_without_auth}
use conduitvpn.Config.Safety.{IsSafe, validate_iff}

abbrev pub host_env : Env
host_env key =
    if str_eq key (codes "NETWORK_MODE")
    then codes "host"
    else if str_eq key (codes "LOCAL_PROXY_MAX_CONNECTIONS")
    then codes "64"
    else []

abbrev open_env : Env
open_env key = if str_eq key (codes "LOCAL_PROXY_HOST") then codes "0.0.0.0" else host_env key

host_config_passes : validate (load host_env none) ≡ none
unfolding validate load str_eq contains
host_config_passes = refl

open_proxy_refused : validate (load open_env none) ≡ some proxy_without_auth
unfolding validate load str_eq contains
open_proxy_refused = refl

validate_iff_example : (validate (load host_env none) ≡ none) ↔ IsSafe (load host_env none)
validate_iff_example = validate_iff (load host_env none)
