-- ===== src/Verifier/Main.antt =====
-- `render` and `main` (verifier/pyverifier/verify.py). Reading a file is a parameter, which gives the
-- code points of its text; a file that cannot be opened is `none`.
use Prim.Native.Char.{Char, code}
use treasury_intent_controll.Base.{
  ℕ, suc, Bool, true, false, String, ◌<>◌, List, [], ◌∷◌, ◌++◌, Option, none, some, if◌then◌else◌,
  ◌≡◌, refl, ap, subst, ◌∙◌, ◌↔◌, arith,
}
use treasury_intent_controll.Json.Text.{Bytes}
use treasury_intent_controll.Loop.Numerals.{show}
use treasury_intent_controll.Verifier.{
  Failure, refuted, unverifiable, Reason, empty, missing_declared, declared_detail_mismatch,
  no_terminal_hash, duplicate_achieved, achieved_not_terminal, hash_mismatch, no_record,
  unparseable_line, bad_record, intent_seq_dup, hash_on_nonterminal, seq_gap, intent_seq_gap,
  duplicate_achieved_key, unknown_event_type, terminal_type, trace_field_missing, Finding, Verdict,
  verified, found,
}
use treasury_intent_controll.Verifier.Feed.{Loaded, FeedReport, verify}
use treasury_intent_controll.Verifier.Feed.Report.{CleanFeed, verify-verified_iff}

abbrev failure_text : Failure → String
failure_text refuted = "REFUTED"
failure_text unverifiable = "UNVERIFIABLE"

unfoldable pub reason_text : Reason → String
unfolding show
reason_text empty = "empty"
reason_text missing_declared = "missing-declared"
reason_text declared_detail_mismatch = "declared-detail-mismatch"
reason_text no_terminal_hash = "no-terminal-hash"
reason_text duplicate_achieved = "duplicate-achieved"
reason_text achieved_not_terminal = "achieved-not-terminal"
reason_text hash_mismatch = "hash-mismatch"
reason_text no_record = ""
reason_text (unparseable_line n) = "unparseable-line:" <> show n
reason_text (bad_record n) = "bad-record:" <> show n
reason_text (intent_seq_dup n) = "intent-seq-dup:" <> show n
reason_text (hash_on_nonterminal n) = "hash-on-nonterminal:" <> show n
reason_text (seq_gap n i) = "seq-gap:" <> (show n <> (":" <> show i))
reason_text (intent_seq_gap n i) = "intent-seq-gap:" <> (show n <> (":" <> show i))
reason_text (duplicate_achieved_key key) = "duplicate-achieved-key:" <> key
reason_text (unknown_event_type type) = "unknown-event-type:" <> type
reason_text (terminal_type type) = "terminal-type:" <> type
reason_text (trace_field_missing type name) = "trace-field-missing:" <> (type <> (":" <> name))

abbrev finding_text : Finding → String
finding_text f = failure_text f.0 <> (" " <> reason_text f.1)

-- The verdict and its reason, with the space between them.
abbrev verdict_text : Verdict → String
verdict_text verified = "VERIFIED "
verdict_text (found f) = finding_text f

abbrev keep_front : (ℕ → Bool) → Char → String → String
keep_front is_space c String.[] = if is_space (code c) then String.[] else String.◌∷◌ c String.[]
keep_front is_space c (String.◌∷◌ d s) = String.◌∷◌ c (String.◌∷◌ d s)

-- `line.rstrip()`.
unfoldable pub strip_end : (ℕ → Bool) → String → String
strip_end is_space String.[] = String.[]
strip_end is_space (String.◌∷◌ c s) = keep_front is_space c (strip_end is_space s)

abbrev feed_lines : (ℕ → Bool) → List Finding → List String
feed_lines is_space [] = []
feed_lines is_space (f ∷ feed) =
    strip_end is_space ("feed " <> finding_text f) ∷ feed_lines is_space feed

abbrev intent_lines : (ℕ → Bool) → List (String × Verdict) → List String
intent_lines is_space [] = []
intent_lines is_space ((id, verdict) ∷ intents) =
    strip_end is_space ("intent " <> (id <> (" " <> verdict_text verdict)))
    ∷ intent_lines is_space intents

abbrev overall_text : Option Failure → String
overall_text none = "VERIFIED"
overall_text (some f) = failure_text f

abbrev has_verdict : Option Failure → Verdict → Bool
has_verdict none verified = true
has_verdict (some refuted) (found (refuted, reason)) = true
has_verdict (some unverifiable) (found (unverifiable, reason)) = true
has_verdict _ _ = false

-- How many intents have a verdict.
abbrev tally_verdict : Option Failure → List (String × Verdict) → ℕ
tally_verdict x [] = 0
tally_verdict x ((id, verdict) ∷ intents) =
    if has_verdict x verdict then suc (tally_verdict x intents) else tally_verdict x intents

abbrev count_all : List (String × Verdict) → ℕ
count_all [] = 0
count_all (x ∷ intents) = suc (count_all intents)

unfoldable pub result_line : FeedReport → String
unfolding show
result_line rep =
    "RESULT: "
    <> (overall_text rep.overall
        <> (" intents="
            <> (show (count_all rep.intents)
                <> (" verified="
                    <> (show (tally_verdict none rep.intents)
                        <> (" refuted="
                            <> (show (tally_verdict (some refuted) rep.intents)
                                <> (" unverifiable="
                                    <> show (tally_verdict (some unverifiable) rep.intents)))))))))

-- Each line with its newline.
abbrev join_lines : List String → String
join_lines [] = ""
join_lines (line ∷ lines) = line <> ("\n" <> join_lines lines)

unfoldable pub render : (ℕ → Bool) → FeedReport → String
unfolding strip_end reason_text result_line
render is_space rep =
    join_lines (
      feed_lines is_space rep.feed ++ (intent_lines is_space rep.intents ++ (result_line rep ∷ [])))

-- The exit status and what was printed on the standard output.
pub record Exit : Type 0 where
  pub status : ℕ
  pub printed : String

abbrev usage_error : Exit
usage_error = record { status = 2; printed = "" }

abbrev overall_status : Option Failure → ℕ
overall_status none = 0
overall_status (some f) = 1

two_differs : ◌≡◌ {A = ℕ} 2 0 → ⊥
two_differs e = omega arith

module _ (is_space : ℕ → Bool) (loads : Bytes → Option Loaded) (sha256 : Bytes → String)
    (read : String → Option Bytes) where
  abbrev report_on : Option Bytes → Exit
  report_on none = usage_error
  report_on (some raw) =
      let rep = verify loads sha256 raw in
      record { status = overall_status rep.overall; printed = render is_space rep }

  unfoldable pub main : List String → Exit
  main (prog ∷ path ∷ []) = report_on (read path)
  main _ = usage_error

  -- A run on one file, which can be read and holds a clean feed.
  pub record ReadsClean (argv : List String) : Type 0 where
    pub prog : String
    pub path : String
    pub raw : Bytes
    pub one_file : argv ≡ (prog ∷ path ∷ [])
    pub is_read : read path ≡ some raw
    pub is_clean : CleanFeed loads sha256 raw

  overall_status_iff : (o : Option Failure) → (overall_status o ≡ 0) ↔ (o ≡ none)
  overall_status_iff none = (λ e. refl, λ e. refl)
  overall_status_iff (some f) = (λ e. cc e, λ e. cc e)

  -- What a run on one path needs of it.
  record HoldsClean (o : Option Bytes) : Type 0 where
    raw : Bytes
    is_read : o ≡ some raw
    is_clean : CleanFeed loads sha256 raw

  report_on_iff : (o : Option Bytes) → ((report_on o).status ≡ 0) ↔ HoldsClean o
  report_on_iff none = (λ e. absurd (two_differs e), λ h. cc h.is_read)
  report_on_iff (some raw) =
      let s = overall_status_iff (verify loads sha256 raw).overall in
      let v = verify-verified_iff loads sha256 raw in
      (
        λ e. record { raw = raw; is_read = refl; is_clean = v.0 (s.0 e) },
        λ h. s.1 (
            v.1
              (subst (λ r. CleanFeed loads sha256 r) (same_bytes h.raw raw h.is_read) h.is_clean)),
      )
    where
      same_bytes : (a b : Bytes) → some b ≡ some a → a ≡ b
      same_bytes a b h = cc

  -- The verifier exits with 0 exactly where it is run on one file, the file can be read, and its
  -- feed is clean: every line that is not blank, but for a last one that is not JSON, decodes to a
  -- record of the right shape, these records are at least one, their global sequence counts up from
  -- 1, no two ACHIEVED records take one key and the history of each intent is sound.
  pub main-ReadsClean : (argv : List String) → ((main argv).status ≡ 0) ↔ ReadsClean argv
  unfolding main
  main-ReadsClean [] = (λ e. absurd (two_differs e), λ h. cc h.one_file)
  main-ReadsClean (prog ∷ []) = (λ e. absurd (two_differs e), λ h. cc h.one_file)
  main-ReadsClean (prog ∷ path ∷ more ∷ rest) = (λ e. absurd (two_differs e), λ h. cc h.one_file)
  main-ReadsClean (prog ∷ path ∷ []) =
      let r = report_on_iff (read path) in
      (
        λ e.
            let h = r.0 e in
            record {
              prog = prog;
              path = path;
              raw = h.raw;
              one_file = refl;
              is_read = h.is_read;
              is_clean = h.is_clean;
            },
        λ h. r.1 (record {
          raw = h.raw;
          is_read = ap (λ p. read p) (same_path h.prog h.path h.one_file) ∙ h.is_read;
          is_clean = h.is_clean;
        }),
      )
    where
      same_path : (p q : String) → (prog ∷ path ∷ []) ≡ (p ∷ q ∷ []) → path ≡ q
      same_path p q h = cc h
