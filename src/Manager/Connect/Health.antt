-- ===== src/Manager/Connect/Health.antt =====
-- The failed probes that the monitor counts.
use conduitvpn.Base.{
  ℕ, zero, suc, ◌+◌, ◌≤◌, ◌≡◌, refl, sym, ap, ◌∙◌, Bool, true, false, ◌&&◌, ◌||◌, Option, none,
  some, List, [], ◌∷◌, map, arith, if◌then◌else◌, is_some, Str, pos, leb_ℤ,
}
use conduitvpn.Node.{Node}
use conduitvpn.Manager.{connected, health_degraded, Manager, set_state, probe_tick}
use conduitvpn.Manager.Connect.{End, watching, lost, watch, monitor}

-- The results start with `k` failures.
abbrev pub starts_failing : ℕ → List (Option Str) → Bool
starts_failing zero ps = true
starts_failing (suc k) [] = false
starts_failing (suc k) (p ∷ ps) = is_some p && starts_failing k ps

-- Somewhere `k` results in a row are failures.
abbrev pub has_run : ℕ → List (Option Str) → Bool
has_run k [] = starts_failing k []
has_run k (p ∷ ps) = starts_failing k (p ∷ ps) || has_run k ps

starts_failing-less :
    (j k : ℕ) (ps : List (Option Str))
    → j ≤ k
    → starts_failing k ps ≡ true
    → starts_failing j ps ≡ true
starts_failing-less zero k ps le e = refl
starts_failing-less (suc j) zero ps le e = ground (arith, le)
starts_failing-less (suc j) (suc k) [] le e = e
starts_failing-less (suc j) (suc k) (none ∷ ps) le e = e
starts_failing-less (suc j) (suc k) (some x ∷ ps) le e =
    starts_failing-less j k ps (omega (arith, le)) e

has_run-starts : (k : ℕ) (ps : List (Option Str)) → starts_failing k ps ≡ true → has_run k ps ≡ true
has_run-starts k [] e = e
has_run-starts k (p ∷ ps) e = rw e refl

or_right : (a b : Bool) → (a ≡ true → b ≡ true) → (a || b) ≡ b
or_right true b h = sym (h refl)
or_right false b h = refl

or_left : (a b c : Bool) → (b ≡ true → a ≡ true) → (a || (b || c)) ≡ (a || c)
or_left true b c h = refl
or_left false true c h = let e : false ≡ true = h refl in absurd cc
or_left false false c h = refl

abbrev verdict : Bool → End
verdict b = if b then lost health_degraded else watching

watch-verdict :
    (n : Node) (ps : List (Option Str)) (k f j : ℕ) (m : Manager)
    → k ≡ f + j
    → m.cfg.health_max_fails ≡ pos (suc k)
    → (watch n (map probe_tick ps) f m).0
      ≡ verdict (starts_failing (suc j) ps || has_run (suc k) ps)
unfolding watch
watch-verdict n [] k f j m s e = refl
watch-verdict n (none ∷ ps) k f j m s e =
    watch-verdict n ps k 0 k m (omega arith) e
    ∙ ap verdict
        (or_right (starts_failing (suc k) ps) (has_run (suc k) ps) (has_run-starts (suc k) ps))
watch-verdict n (some x ∷ ps) k f zero m s e =
    let b : leb_ℤ (pos (suc k)) (pos (suc f)) ≡ true = ground (arith, s) in
    let t : leb_ℤ m.cfg.health_max_fails (pos (suc f)) ≡ true =
      ap (λ l. leb_ℤ l (pos (suc f))) e ∙ b in
    rw t refl
watch-verdict n (some x ∷ ps) k f (suc j) m s e =
    let b : leb_ℤ (pos (suc k)) (pos (suc f)) ≡ false = ground (arith, s) in
    let t : leb_ℤ m.cfg.health_max_fails (pos (suc f)) ≡ false =
      ap (λ l. leb_ℤ l (pos (suc f))) e ∙ b in
    rw t (
      watch-verdict n ps k (suc f) j m (omega (arith, s)) e
      ∙ ap verdict (
          sym (
            or_left (starts_failing (suc j) ps) (starts_failing k ps) (has_run (suc k) ps)
              (starts_failing-less (suc j) k ps (omega (arith, s))))))

-- Over the results of its probes alone, the monitor gives the node up exactly when HealthMaxFails of
-- them failed in a row, and watches on otherwise, for every positive HealthMaxFails.
pub monitor-has_run :
    (n : Node) (ps : List (Option Str)) (k : ℕ) (m : Manager)
    → m.cfg.health_max_fails ≡ pos (suc k)
    → (monitor n (map probe_tick ps) m).0
      ≡ (if has_run (suc k) ps then lost health_degraded else watching)
unfolding monitor
monitor-has_run n ps k m e =
    watch-verdict n ps k 0 k (set_state connected n.host_name m) (omega arith) e
    ∙ ap verdict
        (or_right (starts_failing (suc k) ps) (has_run (suc k) ps) (has_run-starts (suc k) ps))
