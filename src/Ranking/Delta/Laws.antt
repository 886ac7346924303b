-- ===== src/Ranking/Delta/Laws.antt =====
-- internal/ranking/board.go and internal/rankingweb/board.go: the row of a key under the steps of `apply`.
use contest_management_syste.Prelude.{
  ◌≡◌, inl, inr, refl, sym, ap, ◌∙◌, Bool, true, false, not, ◌||◌, none, some, List, [], ◌∷◌,
  String, str_eq, str_eq_iff, if◌then◌else◌, All, arith, Bool-cases, Option-cases,
}
use contest_management_syste.Prelude.Sort.{sort_by, insert_by, All-insert_by, All-sort_by}
use contest_management_syste.Ranking.Board.{BoardRow}
use contest_management_syste.Ranking.Delta.{member, find_row, has_row, put_row, put_rows, drop_rows}

pub str_eq_refl : (s : String) → str_eq s s ≡ true
str_eq_refl s = (str_eq_iff s s).1 refl

-- Keys that equal a third are equal to the same keys.
pub str_eq_left : (a b c : String) → str_eq a b ≡ true → str_eq a c ≡ str_eq b c
str_eq_left a b c h = rw ((str_eq_iff a b).0 h) refl

pub str_eq_sym : (a b : String) → str_eq a b ≡ str_eq b a
str_eq_sym a b = elim (Bool-cases (str_eq a b)) [
  | inl e ↦ let p = (str_eq_iff a b).0 e in rw p refl
  | inr e ↦ elim (Bool-cases (str_eq b a)) [
    | inl d ↦ let p = (str_eq_iff b a).0 d in rw p refl
    | inr d ↦ e ∙ sym d
  ]
]

module _ {F : Type 0} where
  -- No two rows have the same key.
  abbrev pub Keyed : List (BoardRow F) → Type 0
  Keyed [] = Unit
  Keyed (r ∷ rs) = All (λ s. str_eq s.key r.key ≡ false) rs × Keyed rs

  -- The row found has the key.
  pub find_row-key :
      (k : String) (rs : List (BoardRow F)) (r : BoardRow F)
      → find_row k rs ≡ some r
      → str_eq r.key k ≡ true
  unfolding find_row
  find_row-key k [] r h = cc
  find_row-key k (x ∷ xs) r h = elim (Option-cases (find_row k xs)) [
    | inl e ↦ ground arith
    | inr (s, e) ↦ find_row-key k xs r (let q : some s ≡ some r = (rw e at h) in rw e q)
  ]

  pub find_row-none :
      (k : String) (rs : List (BoardRow F))
      → All (λ s. str_eq s.key k ≡ false) rs
      → find_row k rs ≡ none
  unfolding find_row
  find_row-none k [] h = refl
  find_row-none k (x ∷ xs) h = rw (find_row-none k xs h.1, h.0) refl

  pub find_row-cong :
      (j k : String) (rs : List (BoardRow F)) → str_eq j k ≡ true → find_row j rs ≡ find_row k rs
  find_row-cong j k rs h = ap (λ c. find_row c rs) ((str_eq_iff j k).0 h)

  pub find_row-put_row :
      (k : String) (r : BoardRow F) (rs : List (BoardRow F))
      → find_row k (put_row r rs) ≡ (if str_eq r.key k then some r else find_row k rs)
  unfolding find_row put_row
  find_row-put_row k r [] = refl
  find_row-put_row k r (x ∷ xs) =
      ground (arith, find_row-put_row k r xs, str_eq_left x.key r.key k, find_row-cong r.key k xs)

  pub find_row-drop_rows :
      (k : String) (gone : List String) (rs : List (BoardRow F))
      → find_row k (drop_rows gone rs) ≡ (if member k gone then none else find_row k rs)
  unfolding find_row drop_rows
  find_row-drop_rows k gone [] = ground arith
  find_row-drop_rows k gone (x ∷ xs) =
      ground (arith, find_row-drop_rows k gone xs, (str_eq_iff x.key k).0, ap (λ s. member s gone))

  -- A row put in keeps the keys apart.
  All-put_row :
      (k : String) (r : BoardRow F) (rs : List (BoardRow F))
      → All (λ s. str_eq s.key k ≡ false) rs
      → str_eq r.key k ≡ false
      → All (λ s. str_eq s.key k ≡ false) (put_row r rs)
  unfolding put_row
  All-put_row k r [] h e = (e, tt)
  All-put_row k r (x ∷ xs) h e =
      elim (Bool-cases (has_row (find_row r.key xs) || not (str_eq x.key r.key))) [
        | inl b ↦ rw b (h.0, All-put_row k r xs h.1 e)
        | inr b ↦ rw b (e, h.1)
      ]

  Keyed-put_row : (r : BoardRow F) (rs : List (BoardRow F)) → Keyed rs → Keyed (put_row r rs)
  unfolding put_row
  Keyed-put_row r [] h = (tt, tt)
  Keyed-put_row r (x ∷ xs) h =
      elim (Bool-cases (has_row (find_row r.key xs) || not (str_eq x.key r.key))) [
        | inl b ↦ rw b (
          All-put_row x.key r xs h.0 (
              ground (
                arith,
                str_eq_sym x.key r.key,
                find_row-cong r.key x.key xs,
                find_row-none x.key xs h.0,
              )),
          Keyed-put_row r xs h.1,
        )
        | inr b ↦
            let p : x.key ≡ r.key = (str_eq_iff x.key r.key).0 (ground arith) in
            rw b (rw (← p) h.0, h.1)
      ]

  pub Keyed-put_rows : (rs rows : List (BoardRow F)) → Keyed rows → Keyed (put_rows rs rows)
  unfolding put_rows
  Keyed-put_rows [] rows h = h
  Keyed-put_rows (r ∷ rs) rows h = Keyed-put_rows rs (put_row r rows) (Keyed-put_row r rows h)

  All-drop_rows {κ} :
      (P : BoardRow F → Type κ) (gone : List String) (rs : List (BoardRow F))
      → All P rs
      → All P (drop_rows gone rs)
  unfolding drop_rows
  All-drop_rows P gone [] h = tt
  All-drop_rows P gone (r ∷ rs) h = elim (Bool-cases (member r.key gone)) [
    | inl e ↦ rw e (All-drop_rows P gone rs h.1)
    | inr e ↦ rw e (h.0, All-drop_rows P gone rs h.1)
  ]

  pub Keyed-drop_rows :
      (gone : List String) (rs : List (BoardRow F)) → Keyed rs → Keyed (drop_rows gone rs)
  unfolding drop_rows
  Keyed-drop_rows gone [] h = tt
  Keyed-drop_rows gone (r ∷ rs) h = elim (Bool-cases (member r.key gone)) [
    | inl e ↦ rw e (Keyed-drop_rows gone rs h.1)
    | inr e ↦
        rw e
          (All-drop_rows (λ s. str_eq s.key r.key ≡ false) gone rs h.0, Keyed-drop_rows gone rs h.1)
  ]

  module _ (less : BoardRow F → BoardRow F → Bool) where
    find_row-insert_by :
        (k : String) (x : BoardRow F) (rs : List (BoardRow F))
        → All (λ s. str_eq s.key x.key ≡ false) rs
        → find_row k (insert_by less x rs) ≡ find_row k (x ∷ rs)
    unfolding insert_by find_row
    find_row-insert_by k x [] h = refl
    find_row-insert_by k x (y ∷ ys) h = ground (
      arith,
      h.0,
      find_row-insert_by k x ys h.1,
      str_eq_left x.key k y.key,
      str_eq_sym y.key k,
      str_eq_sym y.key x.key,
    )

    Keyed-insert_by :
        (x : BoardRow F) (rs : List (BoardRow F))
        → All (λ s. str_eq s.key x.key ≡ false) rs
        → Keyed rs
        → Keyed (insert_by less x rs)
    unfolding insert_by
    Keyed-insert_by x [] h k = (tt, tt)
    Keyed-insert_by x (y ∷ ys) h k = elim (Bool-cases (less y x)) [
      | inl e ↦ rw e (
        All-insert_by less (λ s. str_eq s.key y.key ≡ false) x ys (rw (str_eq_sym x.key y.key) h.0)
            k.0,
        Keyed-insert_by x ys h.1 k.1,
      )
      | inr e ↦ rw e (h, k)
    ]

    pub Keyed-sort_by : (rs : List (BoardRow F)) → Keyed rs → Keyed (sort_by less rs)
    unfolding sort_by
    Keyed-sort_by [] h = tt
    Keyed-sort_by (r ∷ rs) h =
        Keyed-insert_by r (sort_by less rs)
          (All-sort_by less (λ s. str_eq s.key r.key ≡ false) rs h.0) (Keyed-sort_by rs h.1)

    pub find_row-sort_by :
        (k : String) (rs : List (BoardRow F))
        → Keyed rs
        → find_row k (sort_by less rs) ≡ find_row k rs
    unfolding sort_by find_row
    find_row-sort_by k [] h = refl
    find_row-sort_by k (r ∷ rs) h =
        find_row-insert_by k r (sort_by less rs)
          (All-sort_by less (λ s. str_eq s.key r.key ≡ false) rs h.0)
        ∙ ground (arith, find_row-sort_by k rs h.1)
