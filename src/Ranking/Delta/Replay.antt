-- ===== src/Ranking/Delta/Replay.antt =====
-- internal/ranking/board.go and internal/rankingweb/board.go: `apply` on what `Diff` gives.
use contest_management_syste.Prelude.{
  ◌≡◌, inl, inr, refl, ap, ◌∙◌, Bool, false, not, Option, none, some, List, [], ◌∷◌, map, String,
  str_eq, str_eq_iff, if◌then◌else◌, All, arith, Bool-cases,
}
use contest_management_syste.Prelude.Float.{Float}
use contest_management_syste.Prelude.Sort.{sort_by, insert_by}
use contest_management_syste.Ranking.Board.{BoardRow, sort_rows}
use contest_management_syste.Ranking.Delta.{
  RowJson, IsFaithful, member, find_row, has_row, gone_keys, put_row, put_rows, apply_rows,
  key_before, removed_keys, old_bytes, changed_rows, sent,
}
use contest_management_syste.Ranking.Delta.Laws.{
  Keyed, find_row-key, find_row-none, find_row-cong, find_row-put_row, Keyed-put_rows,
  find_row-drop_rows, Keyed-drop_rows, find_row-sort_by, Keyed-sort_by,
}

abbrev pub first_of : {A : Type 0} → Option A → Option A → Option A
first_of (some a) b = some a
first_of none b = b

abbrev pub map_option : {A B : Type 0} → (A → B) → Option A → Option B
map_option h none = none
map_option h (some a) = some (h a)

member-insert_by :
    (less : String → String → Bool) (k c : String) (cs : List String)
    → member k (insert_by less c cs) ≡ member k (c ∷ cs)
unfolding insert_by
member-insert_by less k c [] = refl
member-insert_by less k c (d ∷ ds) = ground (arith, member-insert_by less k c ds)

member-sort_by :
    (less : String → String → Bool) (k : String) (cs : List String)
    → member k (sort_by less cs) ≡ member k cs
unfolding sort_by
member-sort_by less k [] = refl
member-sort_by less k (c ∷ cs) =
    member-insert_by less k c (sort_by less cs) ∙ ground (arith, member-sort_by less k cs)

module _ {F : Type 0} where
  find_row-put_rows :
      (k : String) (rs rows : List (BoardRow F))
      → find_row k (put_rows rs rows) ≡ first_of (find_row k rs) (find_row k rows)
  unfolding put_rows find_row
  find_row-put_rows k [] rows = refl
  find_row-put_rows k (r ∷ rs) rows =
      find_row-put_rows k rs (put_row r rows) ∙ ground (arith, find_row-put_row k r rows)

  -- The keys that are gone are those of the first rows that the second lack.
  member-gone_keys :
      (k : String) (next prev : List (BoardRow F))
      → member k (gone_keys next prev)
        ≡ (if has_row (find_row k next) then false else has_row (find_row k prev))
  unfolding gone_keys find_row
  member-gone_keys k next [] = ground arith
  member-gone_keys k next (r ∷ rs) =
      ground
        (arith, member-gone_keys k next rs, find_row-cong r.key k next, find_row-cong r.key k rs)

  module _ (j : RowJson F) where
    abbrev differs : List (BoardRow F) → BoardRow F → Bool
    differs prev r = not (str_eq (old_bytes j (find_row r.key prev)) (j.marshal r))

    All-changed_rows {κ} :
        (P : BoardRow F → Type κ) (prev rs : List (BoardRow F))
        → All P rs
        → All P (changed_rows j prev rs)
    unfolding changed_rows
    All-changed_rows P prev [] h = tt
    All-changed_rows P prev (r ∷ rs) h = elim (Bool-cases (differs prev r)) [
      | inl e ↦ rw e (h.0, All-changed_rows P prev rs h.1)
      | inr e ↦ rw e (All-changed_rows P prev rs h.1)
    ]

    abbrev kept : Option (BoardRow F) → List (BoardRow F) → Option (BoardRow F)
    kept none prev = none
    kept (some r) prev = if differs prev r then some r else none

    find_row-changed_rows :
        (k : String) (prev rs : List (BoardRow F))
        → Keyed rs
        → find_row k (changed_rows j prev rs) ≡ kept (find_row k rs) prev
    unfolding changed_rows find_row
    find_row-changed_rows k prev [] h = refl
    find_row-changed_rows k prev (r ∷ rs) h = ground (
      arith,
      find_row-changed_rows k prev rs h.1,
      find_row-none r.key rs h.0,
      find_row-cong r.key k rs,
    )

    -- The rows, each as it is read from the wire, in some order.
    abbrev pub Shows : List (BoardRow F) → List (BoardRow F) → Type 0
    Shows shown rows =
        Keyed shown × ((k : String) → find_row k shown ≡ map_option (sent j) (find_row k rows))

    module _ (faithful : IsFaithful j) where
      pub find_row-sent :
          (k : String) (rs : List (BoardRow F))
          → find_row k (map (sent j) rs) ≡ map_option (sent j) (find_row k rs)
      unfolding find_row
      find_row-sent k [] = refl
      find_row-sent k (r ∷ rs) =
          ground (arith, find_row-sent k rs, ap (λ c. str_eq c k) (faithful.key_kept r))

      All-sent :
          (k : String) (rs : List (BoardRow F))
          → All (λ s. str_eq s.key k ≡ false) rs
          → All (λ s. str_eq s.key k ≡ false) (map (sent j) rs)
      All-sent k [] h = tt
      All-sent k (r ∷ rs) h = (rw (faithful.key_kept r) h.0, All-sent k rs h.1)

      pub Keyed-sent : (rs : List (BoardRow F)) → Keyed rs → Keyed (map (sent j) rs)
      Keyed-sent [] h = tt
      Keyed-sent (r ∷ rs) h = (rw (faithful.key_kept r) (All-sent r.key rs h.0), Keyed-sent rs h.1)

      -- A row that is not sent again reads as the one that is there.
      same_bytes :
          (r : BoardRow F) (o : Option (BoardRow F))
          → not (str_eq (old_bytes j o) (j.marshal r)) ≡ false
          → map_option (sent j) o ≡ some (sent j r)
      same_bytes r none h = ground (arith, faithful.non_empty r)
      same_bytes r (some p) h =
          ap (λ b. some (j.unmarshal b)) ((str_eq_iff (j.marshal p) (j.marshal r)).0 (ground arith))

      applied :
          (k : String) (prev next : List (BoardRow F)) (o : Option (BoardRow F))
          → find_row k next ≡ o
          → (if (if has_row o then false else has_row (find_row k prev))
              then none
              else first_of
                  (map_option (sent j) (kept o prev))
                  (map_option (sent j) (find_row k prev)))
            ≡ map_option (sent j) o
      applied k prev next none e = ground arith
      applied k prev next (some r) e = elim (Bool-cases (differs prev r)) [
        | inl d ↦ rw d refl
        | inr d ↦ rw d (
            same_bytes r (find_row k prev)
              (rw (← find_row-cong r.key k prev (find_row-key k next r e)) d))
      ]

      module _ ⦃f : Float F⦄ where
        -- A full board shows its rows.
        pub sort_rows-Shows :
            (rows : List (BoardRow F)) → Keyed rows → Shows (sort_rows (map (sent j) rows)) rows
        unfolding sort_rows
        sort_rows-Shows rows h = (
          Keyed-sort_by _ (map (sent j) rows) (Keyed-sent rows h),
          λ k. find_row-sort_by _ k (map (sent j) rows) (Keyed-sent rows h) ∙ find_row-sent k rows,
        )

        -- If the rows of a board show the board `prev` and no two rows of `next` have the same key, then
        -- `apply` of what `Diff` says of `prev` and `next`, sent as JSON, makes them show `next`: for each
        -- key the row of `next` as it is read from the wire, and no row for a key that `next` lacks.
        pub apply_rows-changed_rows :
            (prev next rows : List (BoardRow F))
            → Keyed next
            → Shows rows prev
            → Shows
                (apply_rows (map (sent j) (changed_rows j prev next)) (removed_keys prev next) rows)
                next
        unfolding apply_rows sort_rows removed_keys
        apply_rows-changed_rows prev next rows h s =
            let news = map (sent j) (changed_rows j prev next) in
            let keyed = Keyed-drop_rows (removed_keys prev next) _ (Keyed-put_rows news rows s.0) in
            (
              Keyed-sort_by _ _ keyed,
              λ k.
                  find_row-sort_by _ k _ keyed
                  ∙ find_row-drop_rows k (removed_keys prev next) (put_rows news rows)
                  ∙ rw
                      (
                        member-sort_by key_before k (gone_keys next prev),
                        member-gone_keys k next prev,
                        find_row-put_rows k news rows,
                        find_row-sent k (changed_rows j prev next),
                        find_row-changed_rows k prev next h,
                        s.1 k,
                      )
                      (applied k prev next (find_row k next) refl),
            )
