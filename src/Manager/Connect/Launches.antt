-- ===== src/Manager/Connect/Launches.antt =====
-- The openvpn processes that connectLoop starts.
use conduitvpn.Base.{
  ℕ, suc, ◌≡◌, refl, inl, inr, Bool, List, [], ◌∷◌, ◌++◌, All, Elem, Str, codes, str_eq,
}
use conduitvpn.Node.{Node}
use conduitvpn.Vpngate.Profile.{ok, validate_profile}
use conduitvpn.Manager.{Launch, Manager, mark_blacklisted, Attempt}
use conduitvpn.Manager.Connect.{make_calls, connect_loop}
use conduitvpn.Manager.Connect.Calls.{make_calls-Kept}
use conduitvpn.Manager.Connect.Kept.{Ran, try_node-all}

-- The process was started for one of the nodes, and its configuration is what the check of that
-- node's profile returned.
abbrev pub IsChecked : List Node → Launch → Type 0
IsChecked nodes l =
    (n : Node) × Elem n nodes
    × (l.host ≡ n.host_name)
    × (validate_profile n.config_text n.ip ≡ ok l.config)

All-append :
    {A : Type 0} (P : A → Type 0) (xs : List A) (x : A) → All P xs → P x → All P (xs ++ x ∷ [])
All-append P [] x h p = (p, tt)
All-append P (y ∷ ys) x h p = (h.0, All-append P ys x h.1 p)

All-weaken :
    {A : Type 0} (P Q : A → Type 0) (xs : List A) → ((x : A) → P x → Q x) → All P xs → All Q xs
All-weaken P Q [] f h = tt
All-weaken P Q (x ∷ xs) f h = (f x h.0, All-weaken P Q xs f h.1)

Ran-launched :
    (P : Launch → Type 0) (n : Node) (m t : Manager)
    → ((text : Str)
        → validate_profile n.config_text n.ip ≡ ok text
        → P (record {
          host = n.host_name;
          config = text;
          no_pull = str_eq m.cfg.network_mode (codes "host");
        }))
    → All P m.launched
    → Ran n m t
    → All P t.launched
Ran-launched P n m t f h (inl k) = rw k.launched_kept h
Ran-launched P n m t f h (inr (text, e, k)) =
    rw k.launched_kept (All-append P m.launched _ h (f text e))

launched-All :
    (P : Launch → Type 0) (nodes : List Node) (world : ℕ → Attempt) (i : ℕ) (m : Manager)
    → ((n : Node)
        → Elem n nodes
        → (text : Str) (b : Bool) → validate_profile n.config_text n.ip ≡ ok text
        → P (record { host = n.host_name; config = text; no_pull = b }))
    → All P m.launched
    → All P (connect_loop world i nodes m).1.launched
unfolding connect_loop mark_blacklisted
launched-All P [] world i m f h = h
launched-All P (n ∷ ns) world i m f h =
    let m' = make_calls (world i).calls_before m in
    let h' : All P m'.launched = rw ((make_calls-Kept (world i).calls_before m).launched_kept) h in
    let kept = λ (t : Manager) (r : Ran n m' t).
      Ran-launched P n m' t (λ text e. f n (inl refl) text _ e) h' r in
    let later = λ (k : Node) (e : Elem k ns). f k (inr e) in
    try_node-all (λ o. All P o.1.launched) n (world i) (connect_loop world (suc i) ns) m'
      (λ o t ne r. kept t r) (λ reason t r. launched-All P ns world (suc i) _ later (kept t r))
      (λ y. launched-All P ns world (suc i) m' later h')

-- Every openvpn process that connectLoop starts runs on a configuration that ValidateOpenVPNProfile
-- returned for a candidate and that candidate's address, whatever the outside does meanwhile.
pub connect_loop-IsChecked :
    (world : ℕ → Attempt) (nodes : List Node) (m : Manager)
    → m.launched ≡ []
    → All (IsChecked nodes) (connect_loop world 0 nodes m).1.launched
connect_loop-IsChecked world nodes m e =
    launched-All (IsChecked nodes) nodes world 0 m (λ n h text b v. (n, h, refl, v)) (rw e tt)
