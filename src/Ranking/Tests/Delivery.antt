-- ===== src/Ranking/Tests/Delivery.antt =====
-- Runs of the delivery of boards of internal/rankingpush to internal/rankingweb. The rows are written with
-- their rank and key alone, the rank in strokes.
use contest_management_syste.Prelude.{
  ℕ, zero, suc, ◌≡◌, ◌⊎◌, refl, ap, Bool, true, false, none, some, List, [], ◌∷◌, ◌==◌, String, map,
  str_eq,
}
use Prim.Native.Char.{Char, code, nul}
use Prim.Native.String.{[], ◌∷◌}
use Prim.Native.String.compare.{nil-cons}
use text.Mathlib.Text.{is_eq}
use contest_management_syste.Prelude.Float.{nano}
use contest_management_syste.Ranking.Board.{BoardRow, sort_rows}
use contest_management_syste.Ranking.Delta.{
  RowJson, IsFaithful, sent, changed_rows, removed_keys, apply_rows,
}
use contest_management_syste.Ranking.Delta.Replay.{Shows, find_row-sent, apply_rows-changed_rows}
use contest_management_syste.Ranking.Push.{Reading, answered, lost, unchanged}
use contest_management_syste.Ranking.Push.Steps.{
  System, start, push, pushes, Reachable, begins, then_,
}
use contest_management_syste.Ranking.Push.Answers.{IsCurrent}
use contest_management_syste.Ranking.Push.Delivers.{Reachable-IsCurrent, push-ShownBy, ShownBy}

abbrev plain : ℕ → String → BoardRow ℕ
plain rank key = record {
  key = key;
  rank = rank;
  name = "";
  team = "";
  flag = "";
  photo = "";
  institution = "";
  total = 0;
  solved = 0;
  penalty = 0;
  cells = [];
  members = [];
  unofficial = false;
  place = 0;
  medal = "";
  reached = none;
}

abbrev first_char : String → Char
first_char [] = nul
first_char (c ∷ s) = c

abbrev tally : ℕ → String → String
tally zero k = String.◌∷◌ (first_char ".") k
tally (suc n) k = String.◌∷◌ (first_char "i") (tally n k)

abbrev counted : Bool → String → ℕ × String → ℕ × String
counted true s rest = (0, s)
counted false s (n, k) = (suc n, k)

abbrev untally : String → ℕ × String
untally [] = (0, "")
untally (c ∷ s) = counted (code c == b'.') s (untally s)

untally-tally : (n : ℕ) (k : String) → untally (tally n k) ≡ (n, k)
untally-tally zero k = refl
untally-tally (suc n) k = ap (counted false (tally n k)) (untally-tally n k)

abbrev read : ℕ × String → BoardRow ℕ
read (n, k) = plain n k

abbrev strokes : RowJson ℕ
strokes = record { marshal = λ r. tally r.rank r.key; unmarshal = λ s. read (untally s) }

tally-non_empty : (n : ℕ) (k : String) → str_eq "" (tally n k) ≡ false
tally-non_empty zero k = ap is_eq (nil-cons (first_char ".") k)
tally-non_empty (suc n) k = ap is_eq (nil-cons (first_char "i") (tally n k))

strokes-IsFaithful : IsFaithful strokes
strokes-IsFaithful = record {
  key_kept = λ r. ap (λ p. (read p).key) (untally-tally r.rank r.key);
  non_empty = λ r. tally-non_empty r.rank r.key;
  stable = λ r. rw (untally-tally r.rank r.key) (ap read (untally-tally r.rank r.key));
}

abbrev former : List (BoardRow ℕ)
former = plain 1 "ana" ∷ plain 2 "beto" ∷ plain 3 "carla" ∷ []

-- beto has overtaken ana, carla has gone and dora has come.
abbrev overtaken : List (BoardRow ℕ)
overtaken = plain 1 "beto" ∷ plain 2 "ana" ∷ plain 3 "dora" ∷ []

overtaken_run :
    apply_rows
      (map (sent strokes) (changed_rows strokes former overtaken))
      (removed_keys former overtaken)
      former
    ≡ overtaken
unfolding apply_rows changed_rows removed_keys sort_rows
overtaken_run = refl

apply_rows-changed_rows_example :
    Shows strokes
      (apply_rows
        (map (sent strokes) (changed_rows strokes former overtaken))
        (removed_keys former overtaken)
        (map (sent strokes) former))
      overtaken
apply_rows-changed_rows_example =
    apply_rows-changed_rows strokes strokes-IsFaithful former overtaken (map (sent strokes) former)
      (((refl, (refl, tt)), ((refl, tt), (tt, tt))))
      (
        ((refl, (refl, tt)), ((refl, tt), (tt, tt))),
        λ k. find_row-sent strokes strokes-IsFaithful k former,
      )

abbrev reading : List (BoardRow ℕ) → Reading ℕ
reading rows = record {
  next = record { header = "{}"; rows = rows };
  replayed = some [];
  touched = [];
  key_hash = "";
}

abbrev first_push : System ℕ
first_push = push strokes answered (reading former) start

-- The second push arrives, but its reply does not.
abbrev second_push : System ℕ
second_push = push strokes lost (reading overtaken) first_push

second-Reachable : Reachable strokes second_push
second-Reachable =
    then_ first_push second_push
      (then_ start first_push begins
        (pushes answered (reading former) start ((refl, (refl, tt)), ((refl, tt), (tt, tt)))))
      (pushes lost (reading overtaken) first_push ((refl, (refl, tt)), ((refl, tt), (tt, tt))))

Reachable-IsCurrent_example :
    IsCurrent strokes second_push.contest second_push.server
    × IsCurrent strokes second_push.contest second_push.file
Reachable-IsCurrent_example =
    Reachable-IsCurrent strokes strokes-IsFaithful second_push second-Reachable

push-ShownBy_example :
    let t = push strokes answered (reading former) second_push in
    (second_push.contest.full ≡ true
      → ShownBy strokes strokes-IsFaithful t.server (reading former).next)
    × (unchanged strokes second_push.contest (reading former) ≡ false
        → ShownBy strokes strokes-IsFaithful t.server (reading former).next
          ⊎ (t.contest.full ≡ true))
push-ShownBy_example =
    push-ShownBy strokes strokes-IsFaithful second_push (reading former) second-Reachable
      ((refl, (refl, tt)), ((refl, tt), (tt, tt)))
