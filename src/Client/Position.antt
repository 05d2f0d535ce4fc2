-- ===== src/Client/Position.antt =====
-- `terminal_position` (declarant/pydeclarant/client.py).
use treasury_intent_controll.Base.{
  ℕ, true, false, List, [], ◌∷◌, Option, none, some, ◌≡◌, refl, ◌≢◌, ◌⊎◌, inl, inr, ◌==◌, arith,
  eq_iff, if◌then◌else◌, Bool-cases, ◌∙◌, subst,
}
use treasury_intent_controll.Declare.{FeedRecord, get_text}
use treasury_intent_controll.Client.{seq_gt, best_record, committed, terminal_position}

-- No record of the list is past `best`.
abbrev pub NonePast : FeedRecord → List FeedRecord → Type 0
NonePast best [] = Unit
NonePast best (rec ∷ recs) = (seq_gt rec.intent_seq best.intent_seq ≡ false) × NonePast best recs

abbrev pub Among : FeedRecord → List FeedRecord → Type 0
Among best [] = ⊥
Among best (rec ∷ recs) = (best ≡ rec) ⊎ Among best recs

seq_gt_trans : (a b c : Option ℕ) → seq_gt b a ≡ false → seq_gt c b ≡ false → seq_gt c a ≡ false
seq_gt_trans none none c h k = k
seq_gt_trans none (some b) c h k = cc
seq_gt_trans (some a) b none h k = refl
seq_gt_trans (some a) none (some c) h k = cc
seq_gt_trans (some a) (some b) (some c) h k = ground arith

seq_gt_swap : (a b : Option ℕ) → seq_gt a b ≡ true → seq_gt b a ≡ false
seq_gt_swap none b h = cc
seq_gt_swap (some a) none h = refl
seq_gt_swap (some a) (some b) h = ground arith

seq_gt_self : (a : Option ℕ) → seq_gt a a ≡ false
seq_gt_self none = refl
seq_gt_self (some a) = ground arith

-- The record that one round of the loop keeps.
abbrev later : FeedRecord → FeedRecord → FeedRecord
later rec best = if seq_gt rec.intent_seq best.intent_seq then rec else best

later_bounds :
    (rec best : FeedRecord)
    → (seq_gt rec.intent_seq (later rec best).intent_seq ≡ false)
      × (seq_gt best.intent_seq (later rec best).intent_seq ≡ false)
later_bounds rec best = elim (Bool-cases (seq_gt rec.intent_seq best.intent_seq)) [
  | inl e ↦ rw e (seq_gt_self rec.intent_seq, seq_gt_swap rec.intent_seq best.intent_seq e)
  | inr e ↦ rw e (e, seq_gt_self best.intent_seq)
]

best_not_past :
    (best : FeedRecord) (recs : List FeedRecord)
    → seq_gt best.intent_seq (best_record best recs).intent_seq ≡ false
unfolding best_record
best_not_past best [] = seq_gt_self best.intent_seq
best_not_past best (rec ∷ recs) =
    seq_gt_trans (best_record (later rec best) recs).intent_seq (later rec best).intent_seq
      best.intent_seq (best_not_past (later rec best) recs) (later_bounds rec best).1

best_record-NonePast :
    (best : FeedRecord) (recs : List FeedRecord) → NonePast (best_record best recs) recs
unfolding best_record
best_record-NonePast best [] = tt
best_record-NonePast best (rec ∷ recs) = (
  seq_gt_trans (best_record (later rec best) recs).intent_seq (later rec best).intent_seq
      rec.intent_seq (best_not_past (later rec best) recs) (later_bounds rec best).0,
  best_record-NonePast (later rec best) recs,
)

later_cases : (rec best : FeedRecord) → (later rec best ≡ rec) ⊎ (later rec best ≡ best)
later_cases rec best = elim (Bool-cases (seq_gt rec.intent_seq best.intent_seq)) [
  | inl e ↦ inl (rw e)
  | inr e ↦ inr (rw e)
]

Among-later :
    (b best rec next : FeedRecord) (recs : List FeedRecord)
    → (next ≡ rec) ⊎ (next ≡ best)
    → Among b (next ∷ recs)
    → Among b (best ∷ rec ∷ recs)
Among-later b best rec next recs (inl e) (inl same) = inr (inl (same ∙ e))
Among-later b best rec next recs (inr e) (inl same) = inl (same ∙ e)
Among-later b best rec next recs _ (inr m) = inr (inr m)

best_record-Among :
    (best : FeedRecord) (recs : List FeedRecord) → Among (best_record best recs) (best ∷ recs)
unfolding best_record
best_record-Among best [] = inl refl
best_record-Among best (rec ∷ recs) =
    Among-later (best_record (later rec best) recs) best rec (later rec best) recs
      (later_cases rec best) (best_record-Among (later rec best) recs)

Among-self :
    (rec : FeedRecord) (recs : List FeedRecord) (b : FeedRecord)
    → Among b (rec ∷ rec ∷ recs)
    → Among b (rec ∷ recs)
Among-self rec recs b (inl e) = inl e
Among-self rec recs b (inr m) = m

committed-some :
    (best b : FeedRecord)
    → committed best ≡ some b
    → (best ≡ b) × (get_text best.trajectory_hash ≢ "")
unfolding committed
committed-some best b h = elim (Bool-cases (get_text best.trajectory_hash == "")) [
  | inl e ↦ cc (rw e at h)
  | inr e ↦ (cc (rw e at h), λ q. cc (e, (eq_iff (get_text best.trajectory_hash) "").1 q))
]

-- The feed record that decides is one of the feed's, no record has a greater sequence number, and
-- it carries a trajectory hash.
pub terminal_position-NonePast :
    (recs : List FeedRecord) (b : FeedRecord)
    → terminal_position recs ≡ some b
    → Among b recs × NonePast b recs × (get_text b.trajectory_hash ≢ "")
unfolding terminal_position
terminal_position-NonePast [] b h = cc
terminal_position-NonePast (rec ∷ recs) b h =
    let best = best_record rec (rec ∷ recs) in
    let (same, hash) = committed-some best b h in
    subst (λ x. Among x (rec ∷ recs) × NonePast x (rec ∷ recs) × (get_text x.trajectory_hash ≢ ""))
      same
      (
        Among-self rec recs best (best_record-Among rec (rec ∷ recs)),
        best_record-NonePast rec (rec ∷ recs),
        hash,
      )
