-- ===== src/Verifier/Feed/Report.antt =====
-- What a VERIFIED feed is (`verify` of verifier/pyverifier/verify.py).
use treasury_intent_controll.Base.{
  contains, ℕ, suc, Bool, true, false, String, List, [], ◌∷◌, ◌++◌, Option, none, some, eqb,
  eqb_iff, ◌≡◌, refl, ◌≢◌, ◌↔◌, ◌⊎◌, inl, inr, if◌then◌else◌, Bool-cases, ap, subst, sym,
}
use treasury_intent_controll.Json.Text.{Bytes}
use treasury_intent_controll.Verifier.{
  Failure, refuted, unverifiable, Finding, Verdict, verified, found, Record, verify_intent,
  sort_records,
}
use treasury_intent_controll.Verifier.Sound.{IsSound, verify_intent-verified_iff}
use treasury_intent_controll.Verifier.Feed.{
  Loaded, unparseable, empty_line, loaded_line, with_shape, shape_ok, is_empty, add_line, read_line,
  parse_lines, split_lines, rstrip, Parsed, find_seq_gap, duplicate_finding, takes_key,
  find_duplicates, empty_finding, Groups, group_records, worse, worst_finding, worse_verdict,
  worst_verdict, parse_feed, verify_groups, feed_findings, report, verify,
}

-- The global sequence numbers count up from `i`, in file order.
abbrev pub InSequence : ℕ → List Record → Type 0
InSequence i [] = Unit
InSequence i (r ∷ recs) = (r.seq ≡ i) × InSequence (suc i) recs

-- No ACHIEVED record takes a key that stands in `seen` or that an earlier one took.
abbrev pub KeysOnce : List String → List Record → Type 0
KeysOnce seen [] = Unit
KeysOnce seen (r ∷ recs) =
    ((takes_key r ≡ false) × KeysOnce seen recs)
    ⊎ ((takes_key r ≡ true)
        × ((contains seen r.idempotency_key ≡ false) × KeysOnce (r.idempotency_key ∷ seen) recs))

-- Each intent's records are a sound history.
abbrev pub AllSound : (Bytes → String) → Groups → Type 0
AllSound sha256 [] = Unit
AllSound sha256 ((id, recs) ∷ groups) =
    IsSound sha256 id (sort_records recs) × AllSound sha256 groups

empty_append :
    {A B : Type 0} (l m : List Finding) → (l ≡ []) ↔ A → (m ≡ []) ↔ B → ((l ++ m) ≡ []) ↔ (A × B)
empty_append [] m h k = (λ e. (h.0 refl, k.0 e), λ p. k.1 p.1)
empty_append (f ∷ l) m h k = (λ e. cc e, λ p. absurd (not_empty (h.1 p.0)))
  where
    not_empty : ◌≡◌ {A = List Finding} (f ∷ l) [] → ⊥
    not_empty e = cc e

find_seq_gap_iff : (i : ℕ) (recs : List Record) → (find_seq_gap i recs ≡ []) ↔ InSequence i recs
unfolding find_seq_gap
find_seq_gap_iff i [] = (λ e. tt, λ e. refl)
find_seq_gap_iff i (r ∷ recs) =
    let next = find_seq_gap_iff (suc i) recs in
    elim (Bool-cases (eqb r.seq i)) [
      | inl b ↦ rw b (λ e. ((eqb_iff r.seq i).0 b, next.0 e), λ p. next.1 p.1)
      | inr b ↦ rw b (λ e. cc e, λ p. absurd (differs b ((eqb_iff r.seq i).1 p.0)))
    ]
  where
    differs : {b : Bool} → b ≡ false → b ≡ true → ⊥
    differs h k = cc

find_duplicates_iff :
    (seen : List String) (recs : List Record)
    → (find_duplicates seen recs ≡ []) ↔ KeysOnce seen recs
unfolding find_duplicates
find_duplicates_iff seen [] = (λ e. tt, λ e. refl)
find_duplicates_iff seen (r ∷ recs) =
    by_tests (takes_key r) (contains seen r.idempotency_key)
      (find_duplicates_iff (r.idempotency_key ∷ seen) recs) (find_duplicates_iff seen recs)
  where
    by_tests :
        {A B : Type 0} (t c : Bool) {taken skipped : List Finding}
        → (taken ≡ []) ↔ A
        → (skipped ≡ []) ↔ B
        → ((if t then duplicate_finding c r.idempotency_key taken else skipped) ≡ [])
          ↔ (((t ≡ false) × B) ⊎ ((t ≡ true) × ((c ≡ false) × A)))
    by_tests false c h k =
        (λ e. inl (refl, k.0 e), λ s. elim s [ inl p ↦ k.1 p.1 | inr p ↦ cc p.0 ])
    by_tests true true h k = (λ e. cc e, λ s. elim s [ inl p ↦ cc p.0 | inr p ↦ cc p.1.0 ])
    by_tests true false h k =
        (λ e. inr (refl, (refl, h.0 e)), λ s. elim s [ inl p ↦ cc p.0 | inr p ↦ h.1 p.1.1 ])

empty_finding_iff : (recs : List Record) → (empty_finding recs ≡ []) ↔ (recs ≢ [])
empty_finding_iff [] = (λ e. cc e, λ n. absurd (n refl))
empty_finding_iff (r ∷ recs) = (λ e q. cc q, λ n. refl)

-- Once a failure stands, one stands at the end.
worse_stays : (o : Option Failure) (f : Failure) → worse o f ≢ none
unfolding worse
worse_stays none refuted e = cc e
worse_stays none unverifiable e = cc e
worse_stays (some refuted) refuted e = cc e
worse_stays (some refuted) unverifiable e = cc e
worse_stays (some unverifiable) refuted e = cc e
worse_stays (some unverifiable) unverifiable e = cc e

worst_finding_iff :
    (o : Option Failure) (feed : List Finding)
    → (worst_finding o feed ≡ none) ↔ ((o ≡ none) × (feed ≡ []))
unfolding worst_finding
worst_finding_iff o [] = (λ e. (e, refl), λ p. p.0)
worst_finding_iff o (f ∷ feed) =
    (λ e. absurd (worse_stays o f.0 ((worst_finding_iff (worse o f.0) feed).0 e).0), λ p. cc p.1)

module _ (loads : Bytes → Option Loaded) (sha256 : Bytes → String) where
  worst_verdict_iff :
      (o : Option Failure) (groups : Groups)
      → (worst_verdict o (verify_groups loads sha256 groups) ≡ none)
        ↔ ((o ≡ none) × AllSound sha256 groups)
  unfolding worst_verdict verify_groups
  worst_verdict_iff o [] = (λ e. (e, tt), λ p. p.0)
  worst_verdict_iff o ((id, recs) ∷ groups) =
      by_verdict (verify_intent sha256 id recs) (verify_intent-verified_iff sha256 id recs)
        (λ q. worst_verdict_iff q groups)
    where
      by_verdict :
          {P : Type 0} (v : Verdict)
          → (v ≡ verified) ↔ P
          → ((q : Option Failure)
              → (worst_verdict q (verify_groups loads sha256 groups) ≡ none)
                ↔ ((q ≡ none) × AllSound sha256 groups))
          → (worst_verdict (worse_verdict o v) (verify_groups loads sha256 groups) ≡ none)
            ↔ ((o ≡ none) × (P × AllSound sha256 groups))
      by_verdict verified h rest =
          (λ e. (((rest o).0 e).0, (h.0 refl, ((rest o).0 e).1)), λ p. (rest o).1 (p.0, p.1.1))
      by_verdict (found f) h rest =
          (λ e. absurd (worse_stays o f.0 ((rest (worse o f.0)).0 e).0), λ p. cc (h.1 p.1.0))

  -- A line that is neither blank nor torn holds a record: it decodes to a value of the right shape.
  pub record HoldsRecord (line : Bytes) (r : Record) : Type 0 where
    pub value : Loaded
    pub not_blank : is_empty (rstrip line) ≡ false
    pub decodes : loads (rstrip line) ≡ some value
    pub shape : shape_ok value ≡ some r

  -- The records that the lines hold, in order: a blank line holds none, a torn one may only be the
  -- last, and each other line holds one.
  abbrev pub ReadsAs : List Bytes → List Record → Type 0
  ReadsAs [] recs = recs ≡ []
  ReadsAs (line ∷ lines) recs =
      ((is_empty (rstrip line) ≡ true) × ReadsAs lines recs)
      ⊎ (((is_empty (rstrip line) ≡ false)
            × ((loads (rstrip line) ≡ none) × ((lines ≡ []) × (recs ≡ []))))
          ⊎ ((r : Record) × ((rest : List Record) × (HoldsRecord line r
                  × ((recs ≡ (r ∷ rest)) × ReadsAs lines rest)))))

  nothing_read :
      (n : ℕ) (lines : List Bytes) → lines ≡ [] → parse_lines loads sha256 n lines ≡ ([], [])
  unfolding parse_lines
  nothing_read n [] e = refl
  nothing_read n (line ∷ lines) e = cc e

  -- A line that added no finding holds what `ReadsAs` says of it.
  line-ReadsAs :
      (n : ℕ) (line : Bytes) (lines : List Bytes) (rest : Parsed)
      → (lines ≡ [] → rest ≡ ([], []))
      → (rest.1 ≡ [] → ReadsAs lines rest.0)
      → (add_line (is_empty lines) n (read_line loads sha256 line) rest).1 ≡ []
      → ReadsAs (line ∷ lines) (add_line (is_empty lines) n (read_line loads sha256 line) rest).0
  unfolding read_line add_line
  line-ReadsAs n line lines rest last later = by_blank (is_empty (rstrip line)) refl
    where
      by_shape :
          (value : Loaded) (o : Option Record)
          → is_empty (rstrip line) ≡ false
          → loads (rstrip line) ≡ some value
          → shape_ok value ≡ o
          → (add_line (is_empty lines) n (with_shape o) rest).1 ≡ []
          → ReadsAs (line ∷ lines) (add_line (is_empty lines) n (with_shape o) rest).0
      by_shape value none b l e h = cc h
      by_shape value (some r) b l e h = inr (
          inr (
            r,
            (
              rest.0,
              (record { value = value; not_blank = b; decodes = l; shape = e }, (refl, later h)),
            ),
          ))

      by_torn :
          (ls : List Bytes)
          → (ls ≡ [] → rest ≡ ([], []))
          → (add_line (is_empty ls) n unparseable rest).1 ≡ []
          → (ls ≡ []) × ((add_line (is_empty ls) n unparseable rest).0 ≡ [])
      by_torn [] k h = (refl, ap (λ (x : Parsed). x.0) (k refl))
      by_torn (x ∷ ls) k h = cc h

      by_loads :
          (o : Option Loaded)
          → is_empty (rstrip line) ≡ false
          → loads (rstrip line) ≡ o
          → (add_line (is_empty lines) n (loaded_line o) rest).1 ≡ []
          → ReadsAs (line ∷ lines) (add_line (is_empty lines) n (loaded_line o) rest).0
      by_loads none b l h = inr (inl (b, (l, by_torn lines last h)))
      by_loads (some value) b l h = by_shape value (shape_ok value) b l refl h

      by_blank :
          (b : Bool)
          → is_empty (rstrip line) ≡ b
          → (add_line
              (is_empty lines)
              n
              (if b then empty_line else loaded_line (loads (rstrip line)))
              rest).1
            ≡ []
          → ReadsAs
              (line ∷ lines)
              (add_line
                (is_empty lines)
                n
                (if b then empty_line else loaded_line (loads (rstrip line)))
                rest).0
      by_blank true b h = inl (b, later h)
      by_blank false b h = by_loads (loads (rstrip line)) b refl h

  parse_lines-ReadsAs :
      (n : ℕ) (lines : List Bytes)
      → (parse_lines loads sha256 n lines).1 ≡ []
      → ReadsAs lines (parse_lines loads sha256 n lines).0
  unfolding parse_lines
  parse_lines-ReadsAs n [] h = refl
  parse_lines-ReadsAs n (line ∷ lines) h =
      line-ReadsAs n line lines (parse_lines loads sha256 (suc n) lines)
        (nothing_read (suc n) lines) (parse_lines-ReadsAs (suc n) lines) h

  -- Lines that hold the records are parsed to them, with no finding.
  ReadsAs-parse_lines :
      (n : ℕ) (lines : List Bytes) (recs : List Record)
      → ReadsAs lines recs
      → parse_lines loads sha256 n lines ≡ (recs, [])
  unfolding parse_lines add_line read_line
  ReadsAs-parse_lines n [] recs h = rw h refl
  ReadsAs-parse_lines n (line ∷ lines) recs (inl p) =
      rw p.0 (ReadsAs-parse_lines (suc n) lines recs p.1)
  ReadsAs-parse_lines n (line ∷ lines) recs (inr (inl p)) = rw (p.0, p.1.0, p.1.1.0, p.1.1.1) refl
  ReadsAs-parse_lines n (line ∷ lines) recs (inr (inr (r, (rest, (h, (e, more)))))) =
      rw (h.not_blank, h.decodes, h.shape, e, ReadsAs-parse_lines (suc n) lines rest more) refl

  -- A feed with nothing against it.
  pub record CleanFeed (raw : Bytes) : Type 0 where
    pub records : List Record
    pub reads : ReadsAs (split_lines raw) records
    pub not_empty : records ≢ []
    pub in_sequence : InSequence 1 records
    pub once : KeysOnce [] records
    pub sound : AllSound sha256 (group_records [] records)

  feed_findings_iff :
      (recs : List Record) (findings : List Finding)
      → (feed_findings loads sha256 (recs, findings) ≡ [])
        ↔ ((findings ≡ []) × ((recs ≢ []) × (InSequence 1 recs × KeysOnce [] recs)))
  unfolding feed_findings
  feed_findings_iff recs findings =
      empty_append findings _ (λ e. e, λ e. e)
        (empty_append (empty_finding recs) _ (empty_finding_iff recs) (
          empty_append (find_seq_gap 1 recs) (find_duplicates [] recs) (find_seq_gap_iff 1 recs)
            (find_duplicates_iff [] recs)))

  -- What is asked of the parsed feed.
  abbrev IsClean : Parsed → Type 0
  IsClean (recs, findings) =
      ((findings ≡ []) × ((recs ≢ []) × (InSequence 1 recs × KeysOnce [] recs)))
      × AllSound sha256 (group_records [] recs)

  report_iff : (parsed : Parsed) → ((report loads sha256 parsed).overall ≡ none) ↔ IsClean parsed
  unfolding report
  report_iff (recs, findings) =
      let feed = feed_findings loads sha256 (recs, findings) in
      let v = worst_verdict_iff (worst_finding none feed) (group_records [] recs) in
      let w = worst_finding_iff none feed in
      let f = feed_findings_iff recs findings in
      (λ e. let q = v.0 e in (f.0 (w.0 q.0).1, q.1), λ p. v.1 (w.1 (refl, f.1 p.0), p.1))

  IsClean-iff : (raw : Bytes) → IsClean (parse_feed loads sha256 raw) ↔ CleanFeed raw
  unfolding parse_feed
  IsClean-iff raw = (
    λ p. record {
      records = (parse_lines loads sha256 1 (split_lines raw)).0;
      reads = parse_lines-ReadsAs 1 (split_lines raw) p.0.0;
      not_empty = p.0.1.0;
      in_sequence = p.0.1.1.0;
      once = p.0.1.1.1;
      sound = p.1;
    },
    λ c.
        subst IsClean (sym (ReadsAs-parse_lines 1 (split_lines raw) c.records c.reads))
          ((refl, (c.not_empty, (c.in_sequence, c.once))), c.sound),
  )

  -- A feed is VERIFIED exactly when it is clean.
  pub verify-verified_iff :
      (raw : Bytes) → ((verify loads sha256 raw).overall ≡ none) ↔ CleanFeed raw
  unfolding verify
  verify-verified_iff raw =
      let r = report_iff (parse_feed loads sha256 raw) in
      let c = IsClean-iff raw in (λ e. c.0 (r.0 e), λ p. r.1 (c.1 p))
