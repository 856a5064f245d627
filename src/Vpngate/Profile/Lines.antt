-- ===== src/Vpngate/Profile/Lines.antt =====
-- What the accepted text of a profile consists of, line by line.
use conduitvpn.Base.{
  subst, ◌≡◌, refl, sym, ◌≢◌, ◌⊎◌, inl, inr, Bool, true, false, List, [], ◌∷◌, ◌++◌, arith, Str,
  codes, is_empty, str_eq, str_eq_iff, trim_space, has_prefix, join, fields, one_of, one_of_sound,
  Elem, Elem-append_left, Elem-append_last, Bool-cases, ◌||◌, Option, none, some,
}
use conduitvpn.Vpngate.Profile.{
  ProfileError, ProfileError, Checked, ok, err, Scan, start, emit, with_seen, block_name,
  block_names, inside_block, outside_block, block_line, directive_line, scan_line, scan_lines,
  finish, check_lines, validate_directive, Case, case_of, run_case, check_case, remote_case_of,
}
use conduitvpn.Vpngate.Profile.Grammar.{IsAllowed, validate_directive_sound, case_of-Named}

abbrev pub open_tag : Str → Str
open_tag b = codes "<" ++ (b ++ codes ">")

abbrev pub close_tag : Str → Str
close_tag b = codes "</" ++ (b ++ codes ">")

abbrev pub directive_text : Str → List Str → Str
directive_text name args = join (codes " ") (name ∷ args)

-- Lines that a profile for the node at `ip` may have, and the inline block open behind them
-- (empty for none): directives of the grammar, and the five inline blocks with any body. With no
-- block open a line is a directive or opens a block.
pub data Accepted (ip : Str) : List Str → Str → Type 0 where
  begin : Accepted ip [] []
  directive :
      {prev out : List Str} (name : Str) (args : List Str)
      → Accepted ip prev []
      → IsAllowed ip name args
      → out ≡ prev ++ directive_text name args ∷ []
      → Accepted ip out []
  opened :
      {prev out : List Str} (b : Str)
      → Accepted ip prev []
      → Elem b block_names
      → out ≡ prev ++ open_tag b ∷ []
      → Accepted ip out b
  body :
      {prev out : List Str} {b : Str} (line : Str)
      → Accepted ip prev b
      → is_empty b ≡ false
      → trim_space line ≢ close_tag b
      → out ≡ prev ++ line ∷ []
      → Accepted ip out b
  closed :
      {prev out : List Str} {b : Str}
      → Accepted ip prev b
      → is_empty b ≡ false
      → out ≡ prev ++ close_tag b ∷ []
      → Accepted ip out []

-- Some line is a `remote` directive of the grammar, which names `ip`.
abbrev pub HasRemote : Str → List Str → Type 0
HasRemote ip out =
    (args : List Str) × IsAllowed ip (codes "remote") args
    × Elem (directive_text (codes "remote") args) out

record IsGood (ip : Str) (s : Scan) : Type 0 where
  accepted : Accepted ip s.out s.block
  remote_there : s.remote_seen ≡ true → HasRemote ip s.out

HasRemote-emit :
    (ip : Str) (s : Scan) (line : Str) → HasRemote ip s.out → HasRemote ip (emit s line).out
HasRemote-emit ip s line (args, a, e) = (args, a, Elem-append_left _ s.out (line ∷ []) e)

-- Only `remote` changes the flag.
check_case-seen :
    (c : Case) (name : Str) (args : List Str) (ip : Str) (seen : Bool) {r : Bool}
    → check_case c name args ip seen ≡ ok r
    → (c ≡ remote_case_of) ⊎ (r ≡ seen)
unfolding check_case
check_case-seen remote_case_of name args ip seen h = inl refl
check_case-seen Case.flag_case name [] ip seen h = inr (cc)
check_case-seen Case.flag_case name (a ∷ args) ip seen h = cc
check_case-seen _ name args ip seen h = inr (ground arith)

run_case-seen :
    (o : Option Case) (name : Str) (args : List Str) (ip : Str) (seen : Bool) {r : Bool}
    → case_of name ≡ o
    → run_case o name args ip seen ≡ ok r
    → (name ≡ codes "remote") ⊎ (r ≡ seen)
run_case-seen none name args ip seen e h = cc
run_case-seen (some c) name args ip seen e h = elim (check_case-seen c name args ip seen h) [
  | inl q ↦
      inl (sym ((str_eq_iff (codes "remote") name).0 (case_of-Named remote_case_of name (cc))))
  | inr q ↦ inr q
]

validate_directive-seen :
    (ip name : Str) (args : List Str) (seen : Bool) {r : Bool}
    → validate_directive name args ip seen ≡ ok r
    → (name ≡ codes "remote") ⊎ (r ≡ seen)
unfolding validate_directive
validate_directive-seen ip name args seen h = run_case-seen (case_of name) name args ip seen refl h

ok_injective : {A : Type 0} {x y : A} → Checked.ok x ≡ ok y → x ≡ y
ok_injective h = cc

with_seen-IsGood :
    (ip name : Str) (args : List Str) (s : Scan)
    → s.block ≡ []
    → (c : Checked Bool) → validate_directive name args ip s.remote_seen ≡ c
    → IsGood ip s
    → {t : Scan} → with_seen s (directive_text name args) c ≡ ok t
    → IsGood ip t
with_seen-IsGood ip name args s block (err x) e g h = cc
with_seen-IsGood ip name args s block (ok seen) e g h = subst (IsGood ip) (ok_injective h) (record {
  accepted = rw block (directive name args (rw block at g.accepted) allowed refl);
  remote_there = λ q. elim (validate_directive-seen ip name args s.remote_seen e) [
    | inl r ↦ (args, rw (← r) allowed, rw (← r) (Elem-append_last s.out _))
    | inr r ↦ HasRemote-emit ip s (directive_text name args) (g.remote_there (cc))
  ];
})
  where
    allowed : IsAllowed ip name args
    allowed = validate_directive_sound ip name args s.remote_seen e

directive_line-IsGood :
    (ip : Str) (ws : List Str) (s : Scan)
    → s.block ≡ []
    → IsGood ip s
    → {t : Scan} → directive_line ip ws s ≡ ok t
    → IsGood ip t
unfolding directive_line
directive_line-IsGood ip [] s block g h = subst (IsGood ip) (ok_injective h) g
directive_line-IsGood ip (name ∷ args) s block g h =
    with_seen-IsGood ip name args s block _ refl g h

block_line-IsGood :
    (ip line : Str) (s : Scan)
    → s.block ≡ []
    → IsGood ip s
    → {t : Scan} → block_line line s ≡ ok t
    → IsGood ip t
unfolding block_line
block_line-IsGood ip line s block g {t} h = subst (IsGood ip) whole.0 (record {
  accepted =
      opened (block_name line) (rw block at g.accepted)
        (one_of_sound block_names (block_name line) whole.2) (rw (← whole.1) refl);
  remote_there = λ q. HasRemote-emit ip s line (g.remote_there q);
})
  where
    whole :
        (record (emit s line) { block = block_name line } ≡ t)
        × (line ≡ open_tag (block_name line))
        × (one_of block_names (block_name line) ≡ true)
    whole = ground (arith, str_eq_iff line (open_tag (block_name line)))

outside_block-IsGood :
    (ip line : Str) (s : Scan)
    → s.block ≡ []
    → IsGood ip s
    → {t : Scan} → outside_block ip line s ≡ ok t
    → IsGood ip t
unfolding outside_block
outside_block-IsGood ip line s block g h =
    elim (Bool-cases
      (is_empty line || has_prefix line (codes "#") || has_prefix line (codes ";"))) [
        | inl e ↦ subst (IsGood ip) (ok_injective (rw e at h)) g
        | inr e ↦ elim (Bool-cases (has_prefix line (codes "<"))) [
          | inl f ↦ block_line-IsGood ip line s block g (rw (e, f) at h)
          | inr f ↦ directive_line-IsGood ip (fields line) s block g (rw (e, f) at h)
        ]
      ]

inside_block-IsGood :
    (ip raw : Str) (s : Scan)
    → is_empty s.block ≡ false
    → IsGood ip s
    → {t : Scan} → inside_block raw (trim_space raw) s ≡ ok t
    → IsGood ip t
unfolding inside_block
inside_block-IsGood ip raw s o g h =
    elim (Bool-cases (str_eq (trim_space raw) (close_tag s.block))) [
      | inl e ↦ subst (IsGood ip) (ok_injective (rw e at h)) (record {
        accepted = closed g.accepted o (rw ((str_eq_iff _ _).0 e) refl);
        remote_there = λ q. HasRemote-emit ip s (trim_space raw) (g.remote_there q);
      })
      | inr e ↦ elim (Bool-cases (is_empty (trim_space raw))) [
        | inl f ↦ subst (IsGood ip) (ok_injective (rw (e, f) at h)) g
        | inr f ↦ subst (IsGood ip) (ok_injective (rw (e, f) at h)) (record {
          accepted = body raw g.accepted o (λ q. cc ((str_eq_iff _ _).1 q)) refl;
          remote_there = λ q. HasRemote-emit ip s raw (g.remote_there q);
        })
      ]
    ]

is_empty_sound : (b : Str) → is_empty b ≡ true → b ≡ []
is_empty_sound [] h = refl
is_empty_sound (c ∷ b) h = cc

scan_line-IsGood :
    (ip raw : Str) (s : Scan) → IsGood ip s → {t : Scan} → scan_line ip raw s ≡ ok t → IsGood ip t
unfolding scan_line
scan_line-IsGood ip raw s g h = elim (Bool-cases (is_empty s.block)) [
  | inl e ↦ outside_block-IsGood ip (trim_space raw) s (is_empty_sound s.block e) g (rw e at h)
  | inr e ↦ inside_block-IsGood ip raw s e g (rw e at h)
]

Checked-cases :
    {A : Type 0} (c : Checked A) → ((a : A) × (c ≡ ok a)) ⊎ ((x : ProfileError) × (c ≡ err x))
Checked-cases (ok a) = inl (a, refl)
Checked-cases (err x) = inr (x, refl)

scan_lines-IsGood :
    (ip : Str) (lines : List Str) (s : Scan)
    → IsGood ip s
    → {t : Scan} → scan_lines ip lines s ≡ ok t
    → IsGood ip t
unfolding scan_lines
scan_lines-IsGood ip [] s g h = subst (IsGood ip) (ok_injective h) g
scan_lines-IsGood ip (raw ∷ rest) s g h = elim (Checked-cases (scan_line ip raw s)) [
  | inl (s', e) ↦
      scan_lines-IsGood ip rest s' (scan_line-IsGood ip raw s g e) (rw (e, scan_lines) at h)
  | inr (x, e) ↦ absurd (cc (rw (e, scan_lines) at h))
]

start-IsGood : (ip : Str) → IsGood ip start
start-IsGood ip = record { accepted = begin; remote_there = λ q. cc }

finish-IsGood :
    (ip : Str) (s : Scan) (out : List Str)
    → IsGood ip s
    → finish (ok s) ≡ ok out
    → Accepted ip out [] × HasRemote ip out
finish-IsGood ip s out g h = elim (Bool-cases (is_empty s.block)) [
  | inl e ↦ elim (Bool-cases s.remote_seen) [
    | inl f ↦
        let same : s.out ≡ out = ok_injective (rw (e, f) at h) in
        (
          subst (λ o. Accepted ip o []) same (rw (is_empty_sound s.block e) at g.accepted),
          subst (HasRemote ip) same (g.remote_there f),
        )
    | inr f ↦ absurd (cc (rw (e, f) at h))
  ]
  | inr e ↦ absurd (cc (rw e at h))
]

-- The lines that pass are directives of the grammar and closed inline blocks, and one of them is a
-- `remote` directive.
pub check_lines-Accepted :
    (ip : Str) (lines : List Str) {out : List Str}
    → check_lines ip lines ≡ ok out
    → Accepted ip out [] × HasRemote ip out
unfolding check_lines
check_lines-Accepted ip lines {out} h = elim (Checked-cases (scan_lines ip lines start)) [
  | inl (s, e) ↦
      finish-IsGood ip s out (scan_lines-IsGood ip lines start (start-IsGood ip) e) (rw e at h)
  | inr (x, e) ↦ absurd (cc (rw e at h))
]
