-- ===== src/Manager/Connect/Calls.antt =====
-- What the calls of the web interface during connectLoop leave alone: the configuration, the started
-- processes, and the blacklist but for what a restore takes off it.
use conduitvpn.Base.{
  choice, ◌≡◌, refl, ◌∙◌, ◌⊎◌, inl, inr, Bool, true, not, ◌&&◌, Option, none, some, List, [], ◌∷◌,
  ◌++◌, if◌then◌else◌, Bool-cases, Str, codes, is_empty, str_eq, is_some, Option-cases, sym, ap,
  ◌==◌, str_eq_iff, Elem, Elem-append_left, Elem-append_right, Dict, lookup,
}
use conduitvpn.Node.{Node}
use conduitvpn.Manager.{
  RouteError, tidy, is_mode, show_demo, show_first, update_demo_current, select_candidates, Manager,
  set_route_config, Call, route_call, restore_call, test_call, BlacklistEntry, BlacklistTestResult,
}
use conduitvpn.Manager.Connect.{make_call, make_calls}
use conduitvpn.Manager.Verification.{
  has_passed, passed_hosts, restore_hosts, Restored, restore_available_blacklist,
}
use conduitvpn.Manager.Verification.Restoring.{passed_in, restore_hosts-lookup}

-- A host keeps its entry, or a restore has taken it off.
abbrev pub Stays : Str → Manager → Manager → Type 0
Stays h m t =
    (lookup h t.blacklist ≡ lookup h m.blacklist)
    ⊎ ((lookup h t.blacklist ≡ none) × Elem h t.released)

pub record Kept (m t : Manager) : Type 0 where
  pub cfg_kept : t.cfg ≡ m.cfg
  pub blacklist_kept : (h : Str) → Stays h m t
  pub released_kept : (h : Str) → Elem h m.released → Elem h t.released
  pub launched_kept : t.launched ≡ m.launched

pub Kept-refl : (m : Manager) → Kept m m
Kept-refl m = record {
  cfg_kept = refl;
  blacklist_kept = λ h. inl refl;
  released_kept = λ h e. e;
  launched_kept = refl;
}

Stays-trans :
    (h : Str) (a b c : Manager)
    → Stays h a b
    → Stays h b c
    → (Elem h b.released → Elem h c.released)
    → Stays h a c
Stays-trans h a b c (inl p) (inl q) k = inl (q ∙ p)
Stays-trans h a b c (inr p) (inl q) k = inr (q ∙ p.0, k p.1)
Stays-trans h a b c p (inr q) k = inr q

pub Kept-trans : {a b c : Manager} → Kept a b → Kept b c → Kept a c
Kept-trans {a} {b} {c} p q = record {
  cfg_kept = q.cfg_kept ∙ p.cfg_kept;
  blacklist_kept =
      λ h. Stays-trans h a b c (p.blacklist_kept h) (q.blacklist_kept h) (q.released_kept h);
  released_kept = λ h e. q.released_kept h (p.released_kept h e);
  launched_kept = q.launched_kept ∙ p.launched_kept;
}

pub Kept-same :
    {m t : Manager}
    → t.cfg ≡ m.cfg
    → t.blacklist ≡ m.blacklist
    → t.released ≡ m.released
    → t.launched ≡ m.launched
    → Kept m t
Kept-same p q r u = record {
  cfg_kept = p;
  blacklist_kept = λ h. inl (ap (lookup h) q);
  released_kept = λ h e. rw r e;
  launched_kept = u;
}

show_first-Kept : (nodes : List Node) (m : Manager) → Kept m (show_first nodes m)
show_first-Kept [] m = Kept-same refl refl refl refl
show_first-Kept (n ∷ ns) m = Kept-same refl refl refl refl

show_demo-Kept : (nodes : Option (List Node)) (m : Manager) → Kept m (show_demo nodes m)
unfolding update_demo_current
show_demo-Kept none m = Kept-refl m
show_demo-Kept (some nodes) m =
    choice (Kept m) m.demo (show_first-Kept (select_candidates m nodes) m) (Kept-refl m)

set_route_config-Kept :
    (mode country node : Str) (saved : Bool) (nodes : Option (List Node)) (m : Manager)
    → Kept m (set_route_config mode country node saved nodes m).1
unfolding set_route_config
set_route_config-Kept mode country node saved nodes m =
    let r = tidy mode country node in
    let keeps = λ (v : Option RouteError × Manager). Kept m v.1 in
    choice keeps (not (is_mode r.mode)) (Kept-refl m) (
      choice keeps (str_eq r.mode (codes "country") && is_empty r.country) (Kept-refl m) (
        choice keeps (str_eq r.mode (codes "fixed") && is_empty r.node) (Kept-refl m) (
          Kept-trans (Kept-same {m = m} refl refl refl refl) (
            Kept-trans
              (show_demo-Kept nodes
                (record m { route = r; stored_route = if saved then some r else m.stored_route }))
              (Kept-same refl refl refl refl)))))

keep-passed :
    (h : Str) (rs : List BlacklistTestResult) (blacklist : Dict BlacklistEntry)
    → is_some (lookup h blacklist) ≡ true
    → passed_in h rs ≡ true
    → Elem h (passed_hosts rs blacklist)
keep-passed h [] blacklist on e = absurd cc
keep-passed h (r ∷ rs) blacklist on e = elim (Bool-cases (has_passed r)) [
  | inl y ↦ elim (Bool-cases (str_eq r.host h)) [
    | inl s ↦
        let same : r.host ≡ h = (str_eq_iff r.host h).0 s in
        let there : is_some (lookup r.host blacklist) ≡ true = rw same on in
        rw (y, there) (inl (sym same))
    | inr f ↦
        let later = keep-passed h rs blacklist on (rw (y, f) at e) in
        rw y (choice (Elem h) (is_some (lookup r.host blacklist)) (inr later) later)
  ]
  | inr f ↦ rw f (keep-passed h rs blacklist on (rw f at e))
]

restored-Kept :
    (m : Manager) (u : Dict BlacklistEntry)
    → ((h : Str)
        → lookup h u
          ≡ (if passed_in h m.blacklist_test.results then none else lookup h m.blacklist))
    → Kept m (record m {
      blacklist = u;
      stored_blacklist = u;
      released = passed_hosts m.blacklist_test.results m.blacklist ++ m.released;
    })
restored-Kept m u e =
    let rs = m.blacklist_test.results in
    record {
      cfg_kept = refl;
      blacklist_kept = λ h. elim (Bool-cases (passed_in h rs)) [
        | inl y ↦ elim (Option-cases (lookup h m.blacklist)) [
          | inl off ↦ inl (e h ∙ rw (y, off) refl)
          | inr (entry, on) ↦ inr (
            e h ∙ rw y refl,
            Elem-append_left h (passed_hosts rs m.blacklist) m.released
                (keep-passed h rs m.blacklist (rw on refl) y),
          )
        ]
        | inr f ↦ inl (e h ∙ rw f refl)
      ];
      released_kept = λ h r. Elem-append_right h (passed_hosts rs m.blacklist) m.released r;
      launched_kept = refl;
    }

restore-Kept : (saved : Bool) (m : Manager) → Kept m (restore_available_blacklist saved m).1
unfolding restore_available_blacklist
restore-Kept saved m =
    let u = restore_hosts m.blacklist_test.results (m.blacklist, 0) in
    let keeps = λ (v : Restored × Manager). Kept m v.1 in
    choice keeps m.blacklist_test.running (Kept-refl m) (
      choice keeps (u.1 == 0) (Kept-refl m) (
        choice keeps (not saved) (Kept-refl m) (
          restored-Kept m u.0
            (λ h. restore_hosts-lookup h m.blacklist_test.results m.blacklist 0))))

pub make_call-Kept : (call : Call) (m : Manager) → Kept m (make_call call m)
unfolding make_call
make_call-Kept (route_call mode country node saved nodes) m =
    set_route_config-Kept mode country node saved nodes m
make_call-Kept (restore_call saved) m = restore-Kept saved m
make_call-Kept (test_call status) m = Kept-same refl refl refl refl

pub make_calls-Kept : (calls : List Call) (m : Manager) → Kept m (make_calls calls m)
unfolding make_calls
make_calls-Kept [] m = Kept-refl m
make_calls-Kept (c ∷ cs) m = Kept-trans (make_call-Kept c m) (make_calls-Kept cs (make_call c m))
