-- ===== src/Logx/Examples.antt =====
-- The log at concrete calls.
use conduitvpn.Base.{ℕ, ◌≡◌, refl, List, [], ◌∷◌}
use conduitvpn.Logx.{Log, emit, recent}
use conduitvpn.Logx.Ring.{last, emit_all, emit_all-ring}

abbrev quiet : Log ℕ
quiet = record { level = 1; ring = []; subs = [] }

abbrev calls : List (ℕ × ℕ)
calls = (0, 7) ∷ (1, 8) ∷ (3, 9) ∷ []

emit_all-ring_example :
    ((emit_all calls quiet).ring ≡ 8 ∷ 9 ∷ [])
    × (recent 1 (emit_all calls quiet) ≡ last 1 (emit_all calls quiet).ring)
unfolding emit
emit_all-ring_example = emit_all-ring calls 1 quiet refl
