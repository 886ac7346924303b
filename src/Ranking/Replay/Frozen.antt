-- ===== src/Ranking/Replay/Frozen.antt =====
-- internal/ranking/replay.go: what a ranking frozen at an instant can tell of what came after it.
use std.Path.{fun_ext}
use contest_management_syste.Prelude.{
  ℕ, ◌≡◌, refl, sym, ap, ◌∙◌, Bool, false, not, Option, none, some, List, [], ◌∷◌, ◌++◌, inl, inr,
  map, map-map, map-cong, if◌then◌else◌, if_yes, if_no, Bool-cases,
}
use contest_management_syste.Prelude.Float.{Float}
use contest_management_syste.Prelude.Int.{ℤ}
use contest_management_syste.Ranking.{Row}
use contest_management_syste.Ranking.Replay.Rows.{
  SubmissionRow, AdjustmentRow, Key, same_key, key_of, adjustment_key, keep, keep-map, order_of,
}
use contest_management_syste.Ranking.Replay.Groups.{
  is_late, Task, Loop, take_submission, take_all, group, group_cell, begin,
}
use contest_management_syste.Ranking.Replay.{
  counted_adjustments, find_task, replay_found, replay_key, replay_keys, replay, Replayed, put_cell,
  change_of, is_row,
}

module _ {F : Type 0} where
  -- What is known of a submission from the freeze on: whose it is, to which task and when, and not its result.
  abbrev pub blank : SubmissionRow F → SubmissionRow F
  blank s = record s {
    tokened = false;
    compilation_outcome = none;
    score = none;
    ranking_score_details = [];
    scored_at = none;
  }

  abbrev pub hide : ℤ → SubmissionRow F → SubmissionRow F
  hide c s = if is_late (some c) s.submitted_at then blank s else s

  key_of-hide : (c : ℤ) (s : SubmissionRow F) → key_of (hide c s) ≡ key_of s
  key_of-hide c s = elim (Bool-cases (is_late (some c) s.submitted_at)) [
    | inl e ↦ rw e refl
    | inr e ↦ rw e refl
  ]

  keep-hide :
      (c : ℤ) (k : Key) (ss : List (SubmissionRow F))
      → keep (λ s. same_key k (key_of s)) (map (hide c) ss)
        ≡ map (hide c) (keep (λ s. same_key k (key_of s)) ss)
  keep-hide c k =
      keep-map (λ s. same_key k (key_of s)) (hide c) (λ s. ap (same_key k) (key_of-hide c s))

module _ {F : Type 0} ⦃f : Float F⦄ (is_icpc : Bool) where
  take_submission-hide :
      (task : Task F) (c : ℤ) (l : Loop F) (s : SubmissionRow F)
      → take_submission is_icpc task (some c) l (hide c s)
        ≡ take_submission is_icpc task (some c) l s
  unfolding take_submission
  take_submission-hide task c l s =
      let late = is_late (some c) s.submitted_at in
      elim (Bool-cases late) [
        | inl e ↦
            ap (take_submission is_icpc task (some c) l) (if_yes late (blank s) s e)
            ∙ if_yes late _ _ e
            ∙ sym (if_yes late _ _ e)
        | inr e ↦ ap (take_submission is_icpc task (some c) l) (if_no late (blank s) s e)
      ]

  take_all-hide :
      (task : Task F) (c : ℤ) (l : Loop F) (ss : List (SubmissionRow F))
      → take_all is_icpc task (some c) l (map (hide c) ss) ≡ take_all is_icpc task (some c) l ss
  unfolding take_all
  take_all-hide task c l [] = refl
  take_all-hide task c l (s ∷ ss) =
      ap (λ m. take_all is_icpc task (some c) m (map (hide c) ss)) (take_submission-hide task c l s)
      ∙ take_all-hide task c (take_submission is_icpc task (some c) l s) ss

  group-hide :
      (task : Task F) (c : ℤ) (ss : List (SubmissionRow F)) (made : List (AdjustmentRow F))
      → group is_icpc task (some c) (map (hide c) ss) made ≡ group is_icpc task (some c) ss made
  unfolding group
  group-hide task c ss made = rw (take_all-hide task c (begin is_icpc task made) ss) refl

  module _ (tasks : List (Task F)) (starts : ℕ → ℤ) (c : ℤ) where
    replay_found-hide :
        (g : Key → List (SubmissionRow F)) (h : Key → List (AdjustmentRow F)) (k : Key)
        (o : Option (ℕ × Task F)) (r : Replayed F)
        → replay_found is_icpc tasks starts (some c) (λ j. map (hide c) (g j)) h k o r
          ≡ replay_found is_icpc tasks starts (some c) g h k o r
    replay_found-hide g h k none r = refl
    replay_found-hide g h k (some (i, task)) r =
        ap
          (λ l. record {
            rows = put_cell k.0 i (group_cell is_icpc task (starts k.0) l) r.rows;
            changes = r.changes ++ map (change_of k.0) l.changes;
          })
          (group-hide task c (g k) (h k))

    replay_key-hide :
        (g : Key → List (SubmissionRow F)) (h : Key → List (AdjustmentRow F)) (r : Replayed F)
        (k : Key)
        → replay_key is_icpc tasks starts (some c) (λ j. map (hide c) (g j)) h r k
          ≡ replay_key is_icpc tasks starts (some c) g h r k
    unfolding replay_key
    replay_key-hide g h r k =
        ap (λ q. if is_row k.0 r.rows then q else r)
          (replay_found-hide g h k (find_task k.1 tasks) r)

    replay_keys-hide :
        (g : Key → List (SubmissionRow F)) (h : Key → List (AdjustmentRow F)) (r : Replayed F)
        (ks : List Key)
        → replay_keys is_icpc tasks starts (some c) (λ j. map (hide c) (g j)) h r ks
          ≡ replay_keys is_icpc tasks starts (some c) g h r ks
    unfolding replay_keys
    replay_keys-hide g h r [] = refl
    replay_keys-hide g h r (k ∷ ks) =
        ap (λ q. replay_keys is_icpc tasks starts (some c) (λ j. map (hide c) (g j)) h q ks)
          (replay_key-hide g h r k)
        ∙ replay_keys-hide g h (replay_key is_icpc tasks starts (some c) g h r k) ks

    -- What is hidden makes no difference.
    replay-hide :
        (rows : List (Row F)) (ss : List (SubmissionRow F)) (given : List (AdjustmentRow F))
        → replay is_icpc tasks starts (some c) rows (map (hide c) ss) given
          ≡ replay is_icpc tasks starts (some c) rows ss given
    unfolding replay
    replay-hide rows ss given =
        let made = counted_adjustments is_icpc (some c) given in
        let h = λ (k : Key). keep (λ a. same_key k (adjustment_key a)) made in
        let r : Replayed F = record { rows = rows; changes = [] } in
        let run = λ (g : Key → List (SubmissionRow F)) (ks : List Key).
          replay_keys is_icpc tasks starts (some c) g h r
            (order_of (ks ++ map adjustment_key made)) in
        ap (λ g. run g (map key_of (map (hide c) ss))) (fun_ext (λ k. keep-hide c k ss))
        ∙ ap (run (λ k. map (hide c) (keep (λ s. same_key k (key_of s)) ss))) (
            map-map (key_of {F = F}) (hide c) ss
            ∙ map-cong (λ s. key_of (hide c s)) (key_of {F = F}) ss (key_of-hide c))
        ∙ replay_keys-hide (λ k. keep (λ s. same_key k (key_of s)) ss) h r
            (order_of (map key_of ss ++ map adjustment_key made))

    replay-counted_adjustments :
        (rows : List (Row F)) (ss : List (SubmissionRow F)) (given given' : List (AdjustmentRow F))
        → keep (λ a. not (is_late (some c) a.created_at)) given
          ≡ keep (λ a. not (is_late (some c) a.created_at)) given'
        → replay is_icpc tasks starts (some c) rows ss given
          ≡ replay is_icpc tasks starts (some c) rows ss given'
    unfolding replay counted_adjustments
    replay-counted_adjustments rows ss given given' d = rw d refl

    -- A ranking that is frozen at c tells nothing of what came from c on, but that there were submissions: two contests with the same
    -- submissions up to their results on those of c and later, and with the same adjustments before c, have the same
    -- frozen cells and the same score changes, and so histories.
    pub replay-same :
        (rows : List (Row F)) (ss ss' : List (SubmissionRow F))
        (given given' : List (AdjustmentRow F))
        → map (hide c) ss ≡ map (hide c) ss'
        → keep (λ a. not (is_late (some c) a.created_at)) given
          ≡ keep (λ a. not (is_late (some c) a.created_at)) given'
        → replay is_icpc tasks starts (some c) rows ss given
          ≡ replay is_icpc tasks starts (some c) rows ss' given'
    replay-same rows ss ss' given given' e d =
        sym (replay-hide rows ss given)
        ∙ ap (λ z. replay is_icpc tasks starts (some c) rows z given) e
        ∙ replay-hide rows ss' given
        ∙ replay-counted_adjustments rows ss' given given' d
