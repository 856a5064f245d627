-- ===== src/Manager/Verification/Restoring.antt =====
-- What RestoreAvailableBlacklist takes off the blacklist.
use conduitvpn.Base.{
  ℕ, suc, ◌≤◌, ◌≡◌, refl, sym, ap, ◌∙◌, ◌⊎◌, inl, inr, Bool, true, false, ◌&&◌, ◌||◌, none, List,
  [], ◌∷◌, arith, ◌==◌, if◌then◌else◌, is_some, ==_iff, Bool-cases, Option-cases, Str, str_eq,
  str_eq_iff, Dict, lookup, delete, lookup-delete,
}
use conduitvpn.Manager.{BlacklistEntry, Manager, BlacklistTestResult}
use conduitvpn.Manager.Verification.{
  has_passed, restore_host, restore_hosts, restore_available_blacklist,
}

-- A result of the last job says that the host passed.
abbrev pub passed_in : Str → List BlacklistTestResult → Bool
passed_in h [] = false
passed_in h (r ∷ rs) = (has_passed r && str_eq r.host h) || passed_in h rs

restore_host-lookup :
    (h : Str) (r : BlacklistTestResult) (u : Dict BlacklistEntry) (k : ℕ)
    → lookup h (restore_host r (u, k)).0
      ≡ (if has_passed r && str_eq r.host h then none else lookup h u)
restore_host-lookup h r u k = elim (Bool-cases (has_passed r)) [
  | inr f ↦ rw f refl
  | inl y ↦ elim (Option-cases (lookup r.host u)) [
    | inr (x, e) ↦ rw (y, e, lookup-delete r.host h u) refl
    | inl e ↦ elim (Bool-cases (str_eq r.host h)) [
      | inr g ↦ rw (y, e, g) refl
      | inl g ↦ rw (y, e, g) (rw⁻¹ ((str_eq_iff r.host h).0 g) e)
    ]
  ]
]

pub restore_hosts-lookup :
    (h : Str) (rs : List BlacklistTestResult) (u : Dict BlacklistEntry) (k : ℕ)
    → lookup h (restore_hosts rs (u, k)).0 ≡ (if passed_in h rs then none else lookup h u)
unfolding restore_hosts
restore_hosts-lookup h [] u k = refl
restore_hosts-lookup h (r ∷ rs) u k =
    restore_hosts-lookup h rs (restore_host r (u, k)).0 (restore_host r (u, k)).1
    ∙ rw (restore_host-lookup h r u k) (ground arith)

restore_host-count :
    (r : BlacklistTestResult) (u : Dict BlacklistEntry) (k : ℕ) → k ≤ (restore_host r (u, k)).1
restore_host-count r u k = ground arith

restore_hosts-count :
    (rs : List BlacklistTestResult) (u : Dict BlacklistEntry) (k : ℕ)
    → k ≤ (restore_hosts rs (u, k)).1
unfolding restore_hosts
restore_hosts-count [] u k = omega arith
restore_hosts-count (r ∷ rs) u k = omega (
  arith,
  restore_host-count r u k,
  restore_hosts-count rs (restore_host r (u, k)).0 (restore_host r (u, k)).1,
)

restore_hosts-none :
    (rs : List BlacklistTestResult) (u : Dict BlacklistEntry) (k : ℕ)
    → (restore_hosts rs (u, k)).1 ≡ k
    → (restore_hosts rs (u, k)).0 ≡ u
unfolding restore_hosts
restore_hosts-none [] u k e = refl
restore_hosts-none (r ∷ rs) u k e = elim (Bool-cases (has_passed r && is_some (lookup r.host u))) [
  | inl y ↦
      let more : (restore_hosts rs (delete r.host u, suc k)).1 ≡ k = rw (restore_hosts, y) at e in
      absurd (omega (arith, more, restore_hosts-count rs (delete r.host u) (suc k)))
  | inr f ↦
      let same : (restore_hosts rs (u, k)).1 ≡ k = rw (restore_hosts, f) at e in
      rw (restore_hosts, f) (restore_hosts-none rs u k same)
]

-- Without a running job, and if the file can be written, RestoreAvailableBlacklist takes exactly the
-- hosts off the blacklist that passed in the last job: every other host keeps its entry, or stays
-- off. The file then holds the new blacklist, unless nothing changed.
pub restore_available_blacklist_lem :
    (m : Manager)
    → m.blacklist_test.running ≡ false
    → ((h : Str)
        → lookup h (restore_available_blacklist true m).1.blacklist
          ≡ (if passed_in h m.blacklist_test.results then none else lookup h m.blacklist))
      × (((restore_available_blacklist true m).1 ≡ m)
          ⊎ ((restore_available_blacklist true m).1.stored_blacklist
              ≡ (restore_available_blacklist true m).1.blacklist))
unfolding restore_available_blacklist
restore_available_blacklist_lem m e =
    let rs = m.blacklist_test.results in
    let u = restore_hosts rs (m.blacklist, 0) in
    elim (Bool-cases (u.1 == 0)) [
      | inl y ↦
          let same : u.1 ≡ 0 = (==_iff u.1 0).0 y in
          rw (e, y)
            (
              (λ h.
                  ap (lookup h) (sym (restore_hosts-none rs m.blacklist 0 same))
                  ∙ restore_hosts-lookup h rs m.blacklist 0),
              inl refl,
            )
      | inr f ↦ rw (e, f) ((λ h. restore_hosts-lookup h rs m.blacklist 0), inr refl)
    ]
