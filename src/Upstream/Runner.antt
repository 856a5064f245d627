-- ===== src/Upstream/Runner.antt =====
-- internal/upstream/singbox.go: the supervisor of the sing-box process. What the operating system
-- answers comes in as lists: one entry for each time that a loop asks.
use conduitvpn.Base.{
  ℕ, suc, ◌≤◌, ◌≡◌, refl, Bool, true, false, not, ◌&&◌, ◌||◌, Option, none, some, List, [], ◌∷◌,
  arith, ltb, if◌then◌else◌, Str, ℤ,
}

-- The process, while `proc` is set: running, or over and not yet reaped.
pub record Runner : Type 0 where
  pub cfg_path : Str
  pub port : ℤ
  pub udp : Bool
  pub cancelled : Bool
  pub spawns : ℕ
  pub alive : Bool
  pub watched : Bool

pub data RunnerError : Type 0 where
  check_failed spawn_failed runner_canceled not_ready : RunnerError

-- The start of a process: whether it fails.
unfoldable pub spawn : Bool → Runner → Option RunnerError × Runner
spawn fails r =
    if fails
    then (some spawn_failed, r)
    else (none, record r { spawns = suc r.spawns; alive = true })

-- One turn of waitReady before its deadline: whether the listener answers, and whether the context
-- ends during the pause.
pub record Poll : Type 0 where
  pub answers : Bool
  pub ends : Bool

-- ProcessState is set by Wait alone, which nothing calls before the process is watched.
abbrev pub is_ready : Runner → Poll → Bool
is_ready r p = if r.udp then ltb 0 r.spawns && not r.watched else p.answers

unfoldable pub wait_ready : Runner → List Poll → Option RunnerError
wait_ready r [] = some not_ready
wait_ready r (p ∷ polls) =
    let rest = wait_ready r polls in
    if is_ready r p then none else if p.ends then some runner_canceled else rest

-- Stop: the context ends, and the process is killed and reaped.
unfoldable pub stop : Runner → Runner
stop r = record r { cancelled = true; alive = false }

abbrev pub on_ready : Runner → Option RunnerError → Option RunnerError × Runner
unfolding stop
on_ready r (some e) = (some e, stop r)
on_ready r none = (none, record r { watched = true })

abbrev pub on_spawn : List Poll → Option RunnerError × Runner → Option RunnerError × Runner
unfolding on_ready wait_ready
on_spawn polls (some e, r) = (some e, r)
on_spawn polls (none, r) = on_ready r (wait_ready r polls)

-- StartRunner and StartRunnerUDP: the check of the configuration, the process, and the wait for it.
unfoldable pub start_runner : Bool → Str → ℤ → Bool → Bool → List Poll → Option RunnerError × Runner
unfolding on_spawn spawn
start_runner udp cfg_path port check_fails spawn_fails polls =
    let r : Runner = record {
      cfg_path = cfg_path;
      port = port;
      udp = udp;
      cancelled = false;
      spawns = 0;
      alive = false;
      watched = false;
    } in
    if check_fails then (some check_failed, r) else on_spawn polls (spawn spawn_fails r)

-- One exit of the process: whether the context has ended then, whether it ends during the pause, and
-- whether the new process fails to start.
pub record Exit : Type 0 where
  pub over : Bool
  pub over_in_pause : Bool
  pub spawn_fails : Bool

abbrev pub on_respawn : Option RunnerError × Runner → (Runner → Runner) → Runner
on_respawn (some e, r) next = r
on_respawn (none, r) next = next r

-- The loop of watch, over the exits of the process.
unfoldable pub watch : List Exit → Runner → Runner
unfolding spawn
watch [] r = r
watch (x ∷ exits) r =
    let gone = record r { alive = false } in
    if x.over || x.over_in_pause
    then gone
    else on_respawn (spawn x.spawn_fails gone) (λ s. watch exits s)

-- A process that answers no TCP port is ready at the first turn, whatever became of it.
udp_ready :
    (r : Runner) (p : Poll) (polls : List Poll)
    → r.udp ≡ true
    → 1 ≤ r.spawns
    → r.watched ≡ false
    → wait_ready r (p ∷ polls) ≡ none
unfolding wait_ready
udp_ready r p polls u s w = let f : ltb 0 r.spawns ≡ true = ground (arith, s) in rw (u, f, w) refl
