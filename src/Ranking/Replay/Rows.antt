-- ===== src/Ranking/Replay/Rows.antt =====
-- internal/db/queries/aws.sql and scores.sql: the rows that `Replay` of internal/ranking/replay.go reads, and their groups.
use contest_management_syste.Prelude.{
  ℕ, ◌≡◌, refl, ap, ◌∙◌, map, Bool, true, false, ◌&&◌, ◌||◌, ◌==◌, Option, List, [], ◌∷◌, ◌++◌,
  String, if◌then◌else◌,
}
use contest_management_syste.Prelude.Int.{ℤ}

-- A row of `ListContestSubmissionsForRanking`.
pub record SubmissionRow (F : Type 0) : Type 0 where
  pub id : ℕ
  pub participation_id : ℕ
  pub task_id : ℕ
  pub submitted_at : ℤ
  pub tokened : Bool
  pub compilation_outcome : Option String
  pub score : Option F
  pub ranking_score_details : List F
  pub scored_at : Option ℤ

-- A row of `ListContestScoreAdjustments`.
pub record AdjustmentRow (F : Type 0) : Type 0 where
  pub participation_id : ℕ
  pub task_id : ℕ
  pub points : F
  pub created_at : ℤ

-- A participant and a task.
abbrev pub Key : Type 0
Key = ℕ × ℕ

abbrev pub same_key : Key → Key → Bool
same_key k j = k.0 == j.0 && k.1 == j.1

abbrev pub key_of : {F : Type 0} → SubmissionRow F → Key
key_of s = (s.participation_id, s.task_id)

abbrev pub adjustment_key : {F : Type 0} → AdjustmentRow F → Key
adjustment_key a = (a.participation_id, a.task_id)

abbrev pub keep : {A : Type 0} → (A → Bool) → List A → List A
keep p [] = []
keep p (x ∷ xs) = let rest = keep p xs in if p x then x ∷ rest else rest

kept_map :
    {A : Type 0} (h : A → A) (x : A) (xs ys : List A) (b : Bool)
    → xs ≡ map h ys
    → (if b then h x ∷ xs else xs) ≡ map h (if b then x ∷ ys else ys)
kept_map h x xs ys true e = ap (λ zs. h x ∷ zs) e
kept_map h x xs ys false e = e

pub keep-map :
    {A : Type 0} (p : A → Bool) (h : A → A)
    → ((x : A) → p (h x) ≡ p x)
    → (xs : List A) → keep p (map h xs) ≡ map h (keep p xs)
keep-map p h e [] = refl
keep-map p h e (x ∷ xs) =
    ap (λ b. if b then h x ∷ keep p (map h xs) else keep p (map h xs)) (e x)
    ∙ kept_map h x (keep p (map h xs)) (keep p xs) (p x) (keep-map p h e xs)

abbrev pub is_seen : Key → List Key → Bool
is_seen k [] = false
is_seen k (j ∷ js) = same_key k j || is_seen k js

abbrev pub order_from : List Key → List Key → List Key
order_from order [] = order
order_from order (k ∷ ks) = order_from (if is_seen k order then order else order ++ k ∷ []) ks

-- The keys in the order in which they appear first.
unfoldable pub order_of : List Key → List Key
order_of ks = order_from [] ks
