-- ===== src/Manager/Verification/Results.antt =====
-- What the verification job reports.
use mathlib.Core.List.{Perm}
use conduitvpn.Base.{
  ℕ, suc, ◌+◌, ◌≡◌, refl, sym, ap, ◌∙◌, subst, Bool, true, false, Option, none, some, List, [], ◌∷◌,
  ◌++◌, map, arith, leb, if◌then◌else◌, length, set, length-append, Str, Dict, lookup, keys,
  IsSorted, sort_stable-perm, length-sort_stable,
}
use conduitvpn.Node.{Node}
use conduitvpn.Manager.{
  Manager, test_running, test_passed, test_failed, test_skipped, BlacklistTestResult,
  BlacklistTestStatus,
}
use conduitvpn.Manager.Verification.{
  text_less, waiting, judged, hosts_of, start_blacklist_test, set_blacklist_test_result, result_of,
  test_hosts, finish, run_blacklist_test,
}
use conduitvpn.Manager.Verification.Ordering.{text_less-IsSorted}

set-append :
    {A : Type 0} (xs ys : List A) (x v : A) (i : ℕ)
    → length xs ≡ i
    → set (xs ++ x ∷ ys) i v ≡ xs ++ v ∷ ys
set-append [] ys x v i e = rw⁻¹ e refl
set-append (y ∷ xs) ys x v i e = rw⁻¹ e (ap (λ t. y ∷ t) (set-append xs ys x v (length xs) refl))

append_assoc : {A : Type 0} (xs ys : List A) (x : A) → (xs ++ x ∷ []) ++ ys ≡ xs ++ x ∷ ys
append_assoc [] ys x = refl
append_assoc (y ∷ xs) ys x = ap (λ t. y ∷ t) (append_assoc xs ys x)

-- The manager with other results and another count.
abbrev with_results : List BlacklistTestResult → ℕ → Manager → Manager
with_results rs c m = record m {
  blacklist_test = record m.blacklist_test { results = rs; completed = c };
}

set_result-lem :
    (xs ys : List BlacklistTestResult) (x r : BlacklistTestResult) (done : Bool) (i : ℕ)
    (m : Manager)
    → m.blacklist_test.results ≡ xs ++ x ∷ ys
    → length xs ≡ i
    → set_blacklist_test_result i r done m
      ≡ with_results
          (xs ++ r ∷ ys)
          (if done then suc m.blacklist_test.completed else m.blacklist_test.completed)
          m
unfolding set_blacklist_test_result
set_result-lem xs ys x r done i m e l =
    let room : leb (length m.blacklist_test.results) i ≡ false =
      ap (λ z. leb (length z) i) e ∙ ground (arith, l, length-append xs (x ∷ ys)) in
    rw room (
      ap
        (λ z.
          with_results z
            (if done then suc m.blacklist_test.completed else m.blacklist_test.completed) m)
        (ap (λ z. set z i r) e ∙ set-append xs ys x r i l))

-- The manager with a job whose results wait.
abbrev begun_with : Str → Manager → Manager
begun_with t m = record m {
  blacklist_test = record {
    running = true;
    started_at = t;
    finished_at = [];
    total = length (hosts_of m);
    completed = 0;
    results = map waiting (hosts_of m);
  };
}

module _ (verify : ℕ → Node → Option Str) (now : ℕ → Str) (by_host : Dict Node) where
  -- The report on each host, by its position.
  abbrev pub reports : List Str → ℕ → List BlacklistTestResult
  reports [] i = []
  reports (h ∷ hs) i = result_of (verify i) (now i) h (lookup h by_host) ∷ reports hs (suc i)

  test_hosts-lem :
      (hosts : List Str) (i : ℕ) (xs : List BlacklistTestResult) (m : Manager)
      → m.blacklist_test.results ≡ xs ++ map waiting hosts
      → length xs ≡ i
      → m.blacklist_test.completed ≡ i
      → test_hosts verify now by_host hosts i m
        ≡ with_results (xs ++ reports hosts i) (i + length hosts) m
  unfolding test_hosts
  test_hosts-lem [] i xs m e l c =
      ap (λ z. with_results z m.blacklist_test.completed m) e
      ∙ ap (λ z. with_results (xs ++ []) z m)
          (let same : m.blacklist_test.completed ≡ i + 0 = omega (arith, c) in same)
  test_hosts-lem (h ∷ hs) i xs m e l c =
      let r = result_of (verify i) (now i) h (lookup h by_host) in
      let busy = record (waiting h) { status = test_running } in
      let once = set_result-lem xs (map waiting hs) (waiting h) busy false i m e l in
      let twice =
        set_result-lem xs (map waiting hs) busy r true i
          (with_results (xs ++ busy ∷ map waiting hs) m.blacklist_test.completed m) refl l in
      let m2 = with_results (xs ++ r ∷ map waiting hs) (suc m.blacklist_test.completed) m in
      ap (test_hosts verify now by_host hs (suc i))
        (ap (set_blacklist_test_result i r true) once ∙ twice)
      ∙ test_hosts-lem hs (suc i) (xs ++ r ∷ []) m2 (sym (append_assoc xs (map waiting hs) r))
          (omega (arith, length-append xs (r ∷ []), l)) (ap suc c)
      ∙ ap (λ z. with_results z (suc i + length hs) m) (append_assoc xs (reports hs (suc i)) r)
      ∙ ap (λ z. with_results (xs ++ r ∷ reports hs (suc i)) z m)
          (let same : suc i + length hs ≡ i + suc (length hs) = omega arith in same)

  finished_as :
      (t : Str) (m : Manager)
      → m.blacklist_test.running ≡ false
      → (run_blacklist_test verify now by_host
          (hosts_of m)
          (start_blacklist_test t m).1).blacklist_test
        ≡ record {
          running = false;
          started_at = t;
          finished_at = now (length (hosts_of m));
          total = length (hosts_of m);
          completed = length (hosts_of m);
          results = reports (hosts_of m) 0;
        }
  unfolding run_blacklist_test start_blacklist_test
  finished_as t m e =
      let begun = begun_with t m in
      let begin : Bool → Option (List Str) × Manager =
        λ b. if b then (none, m) else (some (hosts_of m), begun) in
      ap (λ b. (run_blacklist_test verify now by_host (hosts_of m) (begin b).1).blacklist_test) e
      ∙ ap (λ z. (finish (now (length (hosts_of m))) z).blacklist_test)
          (test_hosts-lem (hosts_of m) 0 [] begun refl refl refl)
      ∙ ap
          (λ z. record (with_results (reports (hosts_of m) 0) z begun).blacklist_test {
            running = false;
            finished_at = now (length (hosts_of m));
          })
          (let same : 0 + length (hosts_of m) ≡ length (hosts_of m) = omega arith in same)

  -- What the report at the i-th position says of its host.
  pub record IsReport (i : ℕ) (r : BlacklistTestResult) : Type 0 where
    pub unknown : lookup r.host by_host ≡ none → r.status ≡ test_skipped
    pub passes :
        (n : Node) → lookup r.host by_host ≡ some n → verify i n ≡ none → r.status ≡ test_passed
    pub fails :
        (n : Node) (e : Str)
        → lookup r.host by_host ≡ some n
        → verify i n ≡ some e
        → (r.status ≡ test_failed) × (r.error ≡ e)
    pub timed : r.tested_at ≡ now i

  abbrev pub AreReports : ℕ → List BlacklistTestResult → Type 0
  AreReports i [] = Unit
  AreReports i (r ∷ rs) = IsReport i r × AreReports (suc i) rs

  -- What a job over these hosts, started at `t`, has found out at its end.
  pub record IsFinished (t : Str) (hosts : List Str) (s : BlacklistTestStatus) : Type 0 where
    -- It is over, and counts every host.
    pub over : s.running ≡ false
    pub started : s.started_at ≡ t
    pub finished : s.finished_at ≡ now (length hosts)
    pub total : s.total ≡ length hosts
    pub completed : s.completed ≡ length hosts
    -- There is one report for each host, in the order of the hosts' names.
    pub same_hosts : Perm (map (λ (r : BlacklistTestResult). r.host) s.results) hosts
    pub sorted : IsSorted text_less (map (λ (r : BlacklistTestResult). r.host) s.results)
    -- Each says what became of its host.
    pub reported : AreReports 0 s.results

  judged-IsReport :
      (i : ℕ) (h : Str) (n : Node) (o : Option Str)
      → lookup h by_host ≡ some n
      → verify i n ≡ o
      → IsReport i (judged h (now i) o)
  judged-IsReport i h n none e f = record {
    unknown = λ q. absurd (cc (e, q));
    passes = λ k p v. refl;
    fails = λ k x p v. absurd (differs k x p v);
    timed = refl;
  }
    where
      differs : (k : Node) (x : Str) → lookup h by_host ≡ some k → verify i k ≡ some x → ⊥
      differs k x p v = let same : n ≡ k = cc (e, p) in cc (f, v, same)
  judged-IsReport i h n (some y) e f = record {
    unknown = λ q. absurd (cc (e, q));
    passes = λ k p v. absurd (differs k p v);
    fails = λ k x p v.
        let same : n ≡ k = cc (e, p) in let again : y ≡ x = cc (f, v, same) in (refl, again);
    timed = refl;
  }
    where
      differs : (k : Node) → lookup h by_host ≡ some k → verify i k ≡ none → ⊥
      differs k p v = let same : n ≡ k = cc (e, p) in cc (f, v, same)

  result_of-IsReport :
      (i : ℕ) (h : Str) (o : Option Node)
      → lookup h by_host ≡ o
      → IsReport i (result_of (verify i) (now i) h o)
  result_of-IsReport i h none e = record {
    unknown = λ q. refl;
    passes = λ k p v. absurd (cc (e, p));
    fails = λ k x p v. absurd (cc (e, p));
    timed = refl;
  }
  result_of-IsReport i h (some n) e = judged-IsReport i h n (verify i n) e refl

  reports-AreReports : (hosts : List Str) (i : ℕ) → AreReports i (reports hosts i)
  reports-AreReports [] i = tt
  reports-AreReports (h ∷ hs) i =
      (result_of-IsReport i h (lookup h by_host) refl, reports-AreReports hs (suc i))

  host-result_of : (i : ℕ) (h : Str) (o : Option Node) → (result_of (verify i) (now i) h o).host ≡ h
  host-result_of i h none = refl
  host-result_of i h (some n) = judged_host (verify i n)
    where
      judged_host : (o : Option Str) → (judged h (now i) o).host ≡ h
      judged_host none = refl
      judged_host (some e) = refl

  hosts-reports :
      (hosts : List Str) (i : ℕ)
      → map (λ (r : BlacklistTestResult). r.host) (reports hosts i) ≡ hosts
  hosts-reports [] i = refl
  hosts-reports (h ∷ hs) i = cc (host-result_of i h (lookup h by_host), hosts-reports hs (suc i))

  -- A job that is started while none runs is over after it has gone through the hosts. It then has one
  -- report for each host of the blacklist at its start, in the order of their names: a host whose
  -- node is not known is skipped, else it passes if the verification returns no error and fails with
  -- its error otherwise, at the time of that test. As many hosts are completed as there are.
  pub run_blacklist_test-IsFinished :
      (t : Str) (m : Manager)
      → m.blacklist_test.running ≡ false
      → IsFinished t
          (keys m.blacklist)
          (run_blacklist_test verify now by_host
            (hosts_of m)
            (start_blacklist_test t m).1).blacklist_test
  run_blacklist_test-IsFinished t m e =
      let hosts = hosts_of m in
      let perm : Perm hosts (keys m.blacklist) = sort_stable-perm text_less (keys m.blacklist) in
      let size : length hosts ≡ length (keys m.blacklist) = length-sort_stable text_less _ in
      subst (IsFinished t (keys m.blacklist)) (sym (finished_as t m e)) (record {
        over = refl;
        started = refl;
        finished = ap now size;
        total = size;
        completed = size;
        same_hosts = rw (hosts-reports hosts 0) perm;
        sorted = rw (hosts-reports hosts 0) (text_less-IsSorted (keys m.blacklist));
        reported = reports-AreReports hosts 0;
      })
