-- ===== src/State/Files/Atomic.antt =====
-- A reader of a state file never sees half a document, whichever call of writeJSON fails and
-- wherever the process stops.
use conduitvpn.Base.{
  ◌≡◌, refl, ◌∙◌, ◌⊎◌, inl, inr, Bool, true, false, not, ◌&&◌, ◌||◌, none, some, [], ◌∷◌, arith,
  Bool-cases, All, Str, str_eq, str_eq_refl, str_eq_iff, lookup, insert, delete, lookup-insert,
  lookup-delete,
}
use conduitvpn.State.Files.{
  Content, partial, whole, Files, Syscall, syscalls, Job, Run, succeed, failed, creates, advance,
  run_calls, clean_up, write_json, marshal, mkdir, chmod_dir, create_temp, chmod_temp, write, close,
  rename, chmod_file, remove,
}

module _ {V : Type 0} (j : Job V) (fs : Files V) (distinct : str_eq j.tmp j.path ≡ false) where
  -- The document at `path` is the old one or the new one, whole.
  abbrev pub OldOrNew : Files V → Type 0
  OldOrNew s = (lookup j.path s ≡ lookup j.path fs) ⊎ (lookup j.path s ≡ some (whole j.v))

  -- What holds after each call: every state so far shows the old or the new document, other files
  -- are as they were, and the temporary file is untouched until its removal is registered.
  record Keeps (r : Run V) : Type 0 where
    shown : All OldOrNew r.states
    shown_last : OldOrNew r.last
    others :
        (k : Str) → str_eq j.path k ≡ false → str_eq j.tmp k ≡ false → lookup k r.last ≡ lookup k fs
    temp_kept : r.deferred ≡ false → lookup j.tmp r.last ≡ lookup j.tmp fs

  Keeps-same :
      (r : Run V) (d ok : Bool)
      → Keeps r
      → (r.deferred ≡ true → d ≡ true)
      → Keeps (record r { states = r.last ∷ r.states; deferred = d; ok = ok })
  Keeps-same r d ok h m = record {
    shown = (h.shown_last, h.shown);
    shown_last = h.shown_last;
    others = h.others;
    temp_kept = λ e. h.temp_kept (ground arith);
  }

  Keeps-temp :
      (r : Run V) (c : Content V) (d ok : Bool)
      → Keeps r
      → d ≡ true
      → Keeps (record {
        states = insert j.tmp c r.last ∷ r.states;
        last = insert j.tmp c r.last;
        deferred = d;
        ok = ok;
      })
  Keeps-temp r c d ok h e = record {
    shown = (seen, h.shown);
    shown_last = seen;
    others = λ k p t. ground (arith, lookup-insert j.tmp k c r.last, h.others k p t);
    temp_kept = λ q. cc;
  }
    where
      seen : OldOrNew (insert j.tmp c r.last)
      seen = ground (arith, lookup-insert j.tmp j.path c r.last, h.shown_last)

  abbrev moved : Files V → Files V
  moved s = insert j.path (whole j.v) (delete j.tmp s)

  Keeps-move :
      (r : Run V) (d ok : Bool)
      → Keeps r
      → d ≡ true
      → Keeps
          (record { states = moved r.last ∷ r.states; last = moved r.last; deferred = d; ok = ok })
  Keeps-move r d ok h e = record {
    shown = (seen, h.shown);
    shown_last = seen;
    others = λ k p t. ground (
      arith,
      lookup-insert j.path k (whole j.v) (delete j.tmp r.last),
      lookup-delete j.tmp k r.last,
      h.others k p t,
    );
    temp_kept = λ q. cc;
  }
    where
      seen : OldOrNew (insert j.path (whole j.v) (delete j.tmp r.last))
      seen = inr (simp (lookup-insert, str_eq_refl))

  -- What is known before a call, and after it, as long as no call has failed.
  abbrev Open : Run V → Type 0
  Open r = r.deferred ≡ true

  abbrev Written : Run V → Type 0
  Written r = (r.deferred ≡ true) × (lookup j.tmp r.last ≡ some (whole j.v))

  abbrev Moved : Run V → Type 0
  Moved r = (lookup j.path r.last ≡ some (whole j.v)) × (lookup j.tmp r.last ≡ none)

  abbrev Before : Syscall → Run V → Type 0
  Before chmod_temp r = Open r
  Before write r = Open r
  Before close r = Written r
  Before rename r = Written r
  Before chmod_file r = Moved r
  Before _ r = Unit

  abbrev After : Syscall → Run V → Type 0
  After create_temp r = Open r
  After chmod_temp r = Open r
  After write r = Written r
  After close r = Written r
  After rename r = Moved r
  After chmod_file r = Moved r
  After _ r = Unit

  Stage : (Run V → Type 0) → Run V → Type 0
  Stage P r = Keeps r × (r.ok ≡ true → P r)

  moved-Moved :
      (s : Files V) → (lookup j.path (moved s) ≡ some (whole j.v)) × (lookup j.tmp (moved s) ≡ none)
  moved-Moved s = (
    simp (lookup-insert, str_eq_refl),
    ground (
      arith,
      lookup-insert j.path j.tmp (whole j.v) (delete j.tmp s),
      lookup-delete j.tmp j.tmp s,
      str_eq_refl j.tmp,
      str_eq_iff j.tmp j.path,
      str_eq_iff j.path j.tmp,
      distinct,
    ),
  )

  keep_same :
      (r : Run V) (ok : Bool) → Keeps r → Keeps (record r { states = r.last ∷ r.states; ok = ok })
  keep_same r ok h = Keeps-same r r.deferred ok h (λ e. e)

  failed-Keeps :
      (c : Syscall) (r : Run V)
      → Keeps r
      → Before c r
      → Keeps
          (record r { states = failed j c r.last ∷ r.states; last = failed j c r.last; ok = false })
  unfolding failed
  failed-Keeps write r h b = Keeps-temp r partial r.deferred false h b
  failed-Keeps _ r h b = keep_same r false h

  succeed-Keeps :
      (c : Syscall) (r : Run V)
      → Keeps r
      → Before c r
      → let r' = record r {
        states = succeed j c r.last ∷ r.states;
        last = succeed j c r.last;
        deferred = r.deferred || creates c;
        ok = true;
      } in
        Keeps r' × After c r'
  unfolding succeed
  succeed-Keeps create_temp r h b = (Keeps-temp r partial _ _ h (ground arith), ground arith)
  succeed-Keeps chmod_temp r h b = (Keeps-same r _ _ h (λ e. ground arith), ground arith)
  succeed-Keeps write r h b = (
    Keeps-temp r (whole j.v) _ _ h (ground arith),
    (ground arith, simp (lookup-insert, str_eq_refl)),
  )
  succeed-Keeps close r h b = (Keeps-same r _ _ h (λ e. ground arith), (ground arith, b.1))
  succeed-Keeps rename r h b = rw (b.1) (Keeps-move r _ _ h (ground arith), moved-Moved r.last)
  succeed-Keeps chmod_file r h b = (Keeps-same r _ _ h (λ e. ground arith), b)
  succeed-Keeps _ r h b = (Keeps-same r _ _ h (λ e. ground arith), tt)

  advance-Stage :
      (faults : Syscall → Bool) (c : Syscall) (r : Run V)
      → Stage (Before c) r
      → Stage (After c) (advance j faults c r)
  unfolding Stage
  advance-Stage faults c r (h, b) = elim (Bool-cases r.ok) [
    | inl o ↦ elim (Bool-cases (faults c)) [
      | inl f ↦ rw (o, f) (failed-Keeps c r h (b o), λ e. absurd (cc))
      | inr f ↦ rw (o, f) ((succeed-Keeps c r h (b o)).0, λ e. (succeed-Keeps c r h (b o)).1)
    ]
    | inr o ↦ rw o (
      record {
        shown = h.shown;
        shown_last = h.shown_last;
        others = h.others;
        temp_kept = h.temp_kept;
      },
      λ e. absurd (cc),
    )
  ]

  run_calls-Stage :
      (faults : Syscall → Bool)
      → Stage Moved (
          run_calls j faults syscalls
            (record { states = []; last = fs; deferred = false; ok = true }))
  unfolding run_calls Stage
  run_calls-Stage faults =
      let next = advance-Stage faults in
      next chmod_file _ (
        next rename _ (
          next close _ (
            next write _ (
              next chmod_temp _ (
                next create_temp _
                  (next chmod_dir _ (next mkdir _ (next marshal _ (begin, λ e. tt)))))))))
    where
      begin : Keeps (record { states = []; last = fs; deferred = false; ok = true })
      begin = record {
        shown = tt;
        shown_last = inl refl;
        others = λ k p t. refl;
        temp_kept = λ e. refl;
      }

  deleted : (s : Files V) → OldOrNew s → OldOrNew (delete j.tmp s)
  deleted s h = ground (arith, lookup-delete j.tmp j.path s, h)

  -- What a write promises of the files that it leaves.
  pub record Promise (faults : Syscall → Bool) (r : Run V) : Type 0 where
    -- Every state on the way shows the old document or the new one.
    pub never_half : All OldOrNew r.states
    pub last_whole : OldOrNew r.last
    -- Success means that the new document is in place.
    pub in_place : r.ok ≡ true → lookup j.path r.last ≡ some (whole j.v)
    -- The temporary file is gone if the write succeeds or can be cleaned up after.
    pub temp_gone :
        lookup j.tmp fs ≡ none
        → (r.ok ≡ true) ⊎ (faults remove ≡ false)
        → lookup j.tmp r.last ≡ none
    -- No other file has changed.
    pub others :
        (k : Str) → str_eq j.path k ≡ false → str_eq j.tmp k ≡ false → lookup k r.last ≡ lookup k fs

  clean_up-Promise :
      (faults : Syscall → Bool) (r : Run V) → Stage Moved r → Promise faults (clean_up j faults r)
  unfolding Stage
  clean_up-Promise faults r (h, m) = elim (Bool-cases (r.deferred && not (faults remove))) [
    | inl d ↦ rw d (record {
      never_half = (deleted r.last h.shown_last, h.shown);
      last_whole = deleted r.last h.shown_last;
      in_place = λ e. ground (arith, lookup-delete j.tmp j.path r.last, m e);
      temp_gone = λ e o. simp (lookup-delete, str_eq_refl);
      others = λ k p t. ground (arith, lookup-delete j.tmp k r.last, h.others k p t);
    })
    | inr d ↦ rw d (record {
      never_half = h.shown;
      last_whole = h.shown_last;
      in_place = λ e. (m e).0;
      temp_gone = λ e o. elim o [ inl done ↦ (m done).1 | inr f ↦ h.temp_kept (ground arith) ∙ e ];
      others = h.others;
    })
  ]

  -- For every choice of failing calls, the removal of the temporary file among them: each state of
  -- the files on the way, where the process may stop, shows at the path the old document or the whole
  -- new one; a write that succeeds leaves the new one; a temporary file that was not there before
  -- does not stay, unless both the write and its removal fail; no other file changes.
  pub write_json-Promise : (faults : Syscall → Bool) → Promise faults (write_json j faults fs)
  unfolding write_json
  write_json-Promise faults = clean_up-Promise faults _ (run_calls-Stage faults)
