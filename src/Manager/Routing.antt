-- ===== src/Manager/Routing.antt =====
-- The route mode: what SetRouteConfig accepts, and which candidates a mode selects.
use conduitvpn.Base.{
  choice, ◌≤◌, ◌≡◌, refl, ◌≢◌, ◌↔◌, ◌⊎◌, inl, inr, Bool, true, false, ◌&&◌, ◌||◌, Option, none,
  some, List, [], ◌∷◌, arith, if◌then◌else◌, Bool-cases, length, All, Elem, Str, codes, is_empty,
  str_eq, str_eq_iff,
}
use conduitvpn.Node.{Node}
use conduitvpn.Manager.{
  Route, Manager, is_fixed_node, set_route_config, is_mode, tidy, first_named, select_candidates,
  show_first, update_demo_current, show_demo,
}

-- A route that can be set.
abbrev pub IsRoute : Route → Type 0
IsRoute r =
    (r.mode ≡ codes "auto")
    ⊎ ((r.mode ≡ codes "country") × (is_empty r.country ≡ false))
    ⊎ ((r.mode ≡ codes "fixed") × (is_empty r.node ≡ false))

accepted_by :
    (r : Route)
    → IsRoute r
    → (is_mode r.mode ≡ true)
      × ((str_eq r.mode (codes "country") && is_empty r.country) ≡ false)
      × ((str_eq r.mode (codes "fixed") && is_empty r.node) ≡ false)
unfolding str_eq
accepted_by r (inl e) = (rw e refl, rw e refl, rw e refl)
accepted_by r (inr (inl (e, c))) = (rw e refl, rw (e, c) refl, rw e refl)
accepted_by r (inr (inr (e, c))) = (rw e refl, rw e refl, rw (e, c) refl)

IsRoute-tests :
    (r : Route)
    → is_mode r.mode ≡ true
    → (str_eq r.mode (codes "country") && is_empty r.country) ≡ false
    → (str_eq r.mode (codes "fixed") && is_empty r.node) ≡ false
    → IsRoute r
IsRoute-tests r a b c = elim (Bool-cases (str_eq r.mode (codes "auto"))) [
  | inl y ↦ inl ((str_eq_iff r.mode (codes "auto")).0 y)
  | inr f ↦ elim (Bool-cases (str_eq r.mode (codes "country"))) [
    | inl y ↦ inr (inl ((str_eq_iff r.mode (codes "country")).0 y, ground (arith, b, y)))
    | inr g ↦
        let y : str_eq r.mode (codes "fixed") ≡ true = ground (arith, a, f, g) in
        inr (inr ((str_eq_iff r.mode (codes "fixed")).0 y, ground (arith, c, y)))
  ]
]

show_first-route :
    (nodes : List Node) (m : Manager)
    → ((show_first nodes m).route ≡ m.route) × ((show_first nodes m).stored_route ≡ m.stored_route)
show_first-route [] m = (refl, refl)
show_first-route (n ∷ ns) m = (refl, refl)

show_demo-route :
    (nodes : Option (List Node)) (m : Manager)
    → ((show_demo nodes m).route ≡ m.route) × ((show_demo nodes m).stored_route ≡ m.stored_route)
unfolding update_demo_current
show_demo-route none m = (refl, refl)
show_demo-route (some nodes) m =
    choice (λ (t : Manager). (t.route ≡ m.route) × (t.stored_route ≡ m.stored_route)) m.demo
      (show_first-route (select_candidates m nodes) m) (refl, refl)

-- For texts in ASCII: SetRouteConfig accepts exactly the mode auto, the mode country with a country and the mode fixed
-- with a node, read after trimming and folding of case. A call that it rejects changes nothing; one
-- that it accepts sets the route, wakes the supervisor and, if the file can be written, saves it.
pub set_route_config_lem :
    (mode country node : Str) (saved : Bool) (nodes : Option (List Node)) (m : Manager)
    → ((set_route_config mode country node saved nodes m).0 ≡ none
        ↔ IsRoute (tidy mode country node))
      × ((set_route_config mode country node saved nodes m).0 ≢ none
          → (set_route_config mode country node saved nodes m).1 ≡ m)
      × ((set_route_config mode country node saved nodes m).0 ≡ none
          → ((set_route_config mode country node saved nodes m).1.route ≡ tidy mode country node)
            × ((set_route_config mode country node saved nodes m).1.mode_ch ≡ true)
            × ((set_route_config mode country node saved nodes m).1.stored_route
                ≡ (if saved then some (tidy mode country node) else m.stored_route)))
unfolding set_route_config
set_route_config_lem mode country node saved nodes m =
    let r = tidy mode country node in
    elim (Bool-cases (is_mode r.mode)) [
      | inr f ↦
          rw f (
            (λ e. absurd cc, λ i. absurd (cc (f, (accepted_by r i).0))),
            λ ne. refl,
            λ e. absurd cc,
          )
      | inl a ↦ elim (Bool-cases (str_eq r.mode (codes "country") && is_empty r.country)) [
        | inl y ↦
            rw (a, y)
              (
                (λ e. absurd cc, λ i. absurd (cc (y, (accepted_by r i).1))),
                λ ne. refl,
                λ e. absurd cc,
              )
        | inr b ↦ elim (Bool-cases (str_eq r.mode (codes "fixed") && is_empty r.node)) [
          | inl y ↦
              rw (a, b, y)
                (
                  (λ e. absurd cc, λ i. absurd (cc (y, (accepted_by r i).2))),
                  λ ne. refl,
                  λ e. absurd cc,
                )
          | inr c ↦
              let shown =
                show_demo-route nodes (record m {
                  route = r;
                  stored_route = if saved then some r else m.stored_route;
                }) in
              rw (a, b, c)
                (
                  (λ e. IsRoute-tests r a b c, λ i. refl),
                  λ ne. absurd (ne refl),
                  λ e. (shown.0, refl, shown.1),
                )
        ]
      ]
    ]

named : Str → Node → Bool
named fixed n = str_eq n.host_name fixed || str_eq n.ip fixed

All-weaken :
    {A : Type 0} (P Q : A → Type 0) (xs : List A) → ((x : A) → P x → Q x) → All P xs → All Q xs
All-weaken P Q [] f h = tt
All-weaken P Q (x ∷ xs) f h = (f x h.0, All-weaken P Q xs f h.1)

first_named-named :
    (fixed : Str) (nodes : List Node)
    → (length (first_named fixed nodes) ≤ 1)
      × All (λ n. Elem n nodes × (named fixed n ≡ true)) (first_named fixed nodes)
      × (first_named fixed nodes ≡ [] → All (λ n. named fixed n ≡ false) nodes)
unfolding first_named named
first_named-named fixed [] = (omega arith, tt, λ e. tt)
first_named-named fixed (n ∷ ns) =
    let (short, chosen, rest) = first_named-named fixed ns in
    elim (Bool-cases (named fixed n)) [
      | inl y ↦ rw y (omega arith, ((inl refl, y), tt), λ e. absurd cc)
      | inr f ↦ rw f (
        short,
        All-weaken _ _ (first_named fixed ns) (λ k p. (inr p.0, p.1)) chosen,
        λ e. (refl, rest e),
      )
    ]

-- In the fixed mode with a node, at most one candidate is selected; it is one of the given nodes and
-- it is the locked node, which connectLoop never skips for being blacklisted; and nothing is selected
-- only where no given node is the locked one.
pub select_candidates-fixed :
    (m : Manager) (nodes : List Node)
    → m.route.mode ≡ codes "fixed"
    → is_empty m.route.node ≡ false
    → (length (select_candidates m nodes) ≤ 1)
      × All (λ n. Elem n nodes × (is_fixed_node m n ≡ true)) (select_candidates m nodes)
      × (select_candidates m nodes ≡ [] → All (λ n. is_fixed_node m n ≡ false) nodes)
unfolding select_candidates is_fixed_node str_eq named
select_candidates-fixed m nodes e f = rw (e, f) (first_named-named m.route.node nodes)
