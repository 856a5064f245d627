-- ===== src/Webui/Api.antt =====
-- The API handlers of internal/webui/webui.go, on the supervisor and the stored documents: what they
-- answer, before it is written as JSON.
use conduitvpn.Base.{
  ℕ, zero, suc, Bool, not, ◌||◌, Option, none, some, List, [], if◌then◌else◌, Str, codes, is_empty,
  str_eq, Dict, ℤ, pos, negsuc, atoi,
}
use conduitvpn.Node.{Node}
use conduitvpn.Manager.{Manager, BlacklistEntry, BlacklistTestStatus, RouteError, set_route_config}
use conduitvpn.Manager.Start.{Snapshot, snapshot}
use conduitvpn.Manager.Verification.{
  start_blacklist_test, Restored, restored, not_restored, test_in_progress, save_failed,
  restore_available_blacklist,
}

pub data ApiReply : Type 0 where
  done accepted : ApiReply
  api_error : ℕ → Str → ApiReply
  -- The snapshot, the port of the proxy and that of the web interface.
  state_reply : Snapshot → ℤ → ℤ → ApiReply
  route_reply : Str → Str → Str → ApiReply
  nodes_reply : List Node → ApiReply
  blacklist_reply : Dict BlacklistEntry → ApiReply
  status_reply : BlacklistTestStatus → ApiReply
  restored_reply : ℕ → ApiReply

unfoldable pub sanitize_node : Option Node → Option Node
sanitize_node none = none
sanitize_node (some n) = some (record n { config_text = [] })

abbrev pub sanitized : Snapshot → Snapshot
unfolding sanitize_node
sanitized s = record s { current_node = sanitize_node s.current_node }

unfoldable pub api_state : Manager → ApiReply
unfolding sanitized
api_state m = state_reply (sanitized (snapshot m)) m.cfg.local_proxy_port m.cfg.ui_port

-- The event of the stream of logs that carries the state.
pub data Sent : Type 0 where
  sent_state : Snapshot → Sent

unfoldable pub stream_state : Manager → Sent
unfolding sanitized
stream_state m = sent_state (sanitized (snapshot m))

abbrev pub bad_method : ApiReply
bad_method = api_error 405 (codes "method_not_allowed")

abbrev pub after_route : Option RouteError × Manager → ApiReply × Manager
after_route (some e, m) = (api_error 400 (codes "route_invalid"), m)
after_route (none, m) = (done, m)

abbrev pub put_route :
    Option (Str × Str × Str) → Bool → Option (List Node) → Manager → ApiReply × Manager
unfolding set_route_config
put_route none saved nodes m = (api_error 400 (codes "invalid_json"), m)
put_route (some (mode, country, node)) saved nodes m =
    after_route (set_route_config mode country node saved nodes m)

-- `body` is the decoded body, or none where it does not decode.
unfoldable pub api_route :
    Str → Option (Str × Str × Str) → Bool → Option (List Node) → Manager → ApiReply × Manager
unfolding str_eq put_route
api_route method body saved nodes m =
    if str_eq method (codes "GET")
    then (route_reply m.route.mode m.route.country m.route.node, m)
    else if str_eq method (codes "PUT") || str_eq method (codes "POST")
    then put_route body saved nodes m
    else (bad_method, m)

unfoldable pub api_nodes : Option (List Node) → ApiReply
api_nodes none = nodes_reply []
api_nodes (some nodes) = nodes_reply nodes

unfoldable pub api_blacklist : Option (Dict BlacklistEntry) → ApiReply
api_blacklist none = blacklist_reply []
api_blacklist (some bl) = blacklist_reply bl

abbrev pub positive_or : ℕ → Option ℤ → ℕ
positive_or n (some (pos zero)) = n
positive_or n (some (pos (suc k))) = suc k
positive_or n (some (negsuc k)) = n
positive_or n none = n

-- `v` is the parameter n of the query.
unfoldable pub logs_count : Str → ℕ
unfolding atoi
logs_count v = if is_empty v then 200 else positive_or 200 (atoi v)

unfoldable pub api_update_nodes : Str → ApiReply
unfolding str_eq
api_update_nodes method = if not (str_eq method (codes "POST")) then bad_method else accepted

abbrev pub after_test : Manager → Option (List Str) × Manager → ApiReply × Manager
after_test m (none, s) = (api_error 409 (codes "blacklist_test_running"), s)
after_test m (some hosts, s) = (accepted, s)

unfoldable pub api_test_blacklist : Str → Str → Manager → ApiReply × Manager
unfolding str_eq start_blacklist_test
api_test_blacklist method now m =
    if str_eq method (codes "GET")
    then (status_reply m.blacklist_test, m)
    else if str_eq method (codes "POST")
    then after_test m (start_blacklist_test now m)
    else (bad_method, m)

abbrev pub after_restore : Restored × Manager → ApiReply × Manager
after_restore (restored n, m) = (restored_reply n, m)
after_restore (not_restored test_in_progress, m) =
    (api_error 409 (codes "blacklist_test_running"), m)
after_restore (not_restored save_failed, m) = (api_error 500 (codes "internal_error"), m)

unfoldable pub api_restore_available_blacklist : Str → Bool → Manager → ApiReply × Manager
unfolding str_eq restore_available_blacklist
api_restore_available_blacklist method saved m =
    if not (str_eq method (codes "POST"))
    then (bad_method, m)
    else after_restore (restore_available_blacklist saved m)
