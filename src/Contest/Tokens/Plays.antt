-- ===== src/Contest/Tokens/Plays.antt =====
-- internal/contest/tokens.go: when a token can be played.
use contest_management_syste.Prelude.{
  ◌≡◌, ◌⊎◌, ◌↔◌, refl, Option, none, some, Bool, true, false, arith, List, [], ◌∷◌, All, length,
  get_last?, str_eq, ◌||◌, if◌then◌else◌,
}
use contest_management_syste.Prelude.Sort.{
  sort_by, Ordered, Ordered-sort_by, All-sort_by, All-of_sort_by, length-sort_by,
}
use contest_management_syste.Prelude.Int.{ℤ, pos, ◌+ℤ◌, ◌≤ℤ◌, ◌<ℤ◌, +ℤ_parts, -ℤ_parts, ltb_ℤ}
use contest_management_syste.Contest.Tokens.{
  TokenRules, TokenState, no_tokens, tokens, can_play, wait_of, max_reached,
}

-- The minimum interval has passed since every play, if there is one.
abbrev pub Spaced : TokenRules → ℤ → List ℤ → Type 0
Spaced r now ps = pos 0 <ℤ r.min_interval → All (λ p. p +ℤ r.min_interval ≤ℤ now) ps

ltb_ℤ-false : (a b : ℤ) → ltb_ℤ a b ≡ false → b ≤ℤ a
ltb_ℤ-false a b h = ground arith

sorted : (ps : List ℤ) → Ordered ltb_ℤ (sort_by ltb_ℤ ps)
sorted = Ordered-sort_by ltb_ℤ (λ a b h. ground arith) (λ a b c p q. ground arith)

wait_iff :
    (r : TokenRules) (now : ℤ) (ps : List ℤ)
    → Ordered ltb_ℤ ps
    → (wait_of r (get_last? ps) now ≡ pos 0) ↔ Spaced r now ps
unfolding wait_of
wait_iff r now [] o = ((λ _ _. tt), λ _. refl)
wait_iff r now (x ∷ []) o = ground (arith, -ℤ_parts (x +ℤ r.min_interval) now)
wait_iff r now (x ∷ y ∷ ys) o =
    let ih = wait_iff r now (y ∷ ys) o.1 in
    (
      (λ e m.
          let rest = ih.0 e m in
          (
            omega (
              arith,
              ltb_ℤ-false y x o.0.0,
              +ℤ_parts x r.min_interval,
              +ℤ_parts y r.min_interval,
            ),
            rest,
          )),
      λ sp. ih.1 (λ m. (sp m).1),
    )

Spaced-iff :
    (r : TokenRules) (now : ℤ) (ps : List ℤ)
    → (wait_of r (get_last? (sort_by ltb_ℤ ps)) now ≡ pos 0) ↔ Spaced r now ps
Spaced-iff r now ps =
    let w = wait_iff r now (sort_by ltb_ℤ ps) (sorted ps) in
    ((λ e m. All-of_sort_by ltb_ℤ _ ps (w.0 e m)), λ sp. w.1 (λ m. All-sort_by ltb_ℤ _ ps (sp m)))

max_reached_iff :
    (m : Option ℤ) (ps : List ℤ)
    → (max_reached m (sort_by ltb_ℤ ps) ≡ false) ↔ ((n : ℤ) → m ≡ some n → pos (length ps) <ℤ n)
unfolding max_reached
max_reached_iff none ps = ((λ _ n e. cc), λ _. refl)
max_reached_iff (some n) ps =
    rw (length-sort_by ltb_ℤ ps) ((λ h k e. ground arith), λ h. ground (arith, h n refl))

-- The three ends of `Tokens`, by its tests.
abbrev by_mode : Bool → Bool → Bool → ℤ → ℤ → ℤ → TokenState
by_mode dis inf mr w av nx =
    if dis
    then record no_tokens { exhausted = true }
    else if inf
    then record no_tokens { exhausted = mr; wait = w; unlimited = true }
    else record no_tokens { exhausted = mr; wait = w; available = av; next = nx }

can_play-by_mode :
    (dis inf mr : Bool) (w av nx : ℤ)
    → (can_play (by_mode dis inf mr w av nx) ≡ true) ↔ (
        (dis ≡ false)
        × (mr ≡ false)
        × (w ≡ pos 0)
        × ((inf ≡ true) ⊎ (pos 0 <ℤ (by_mode dis inf mr w av nx).available)))
unfolding can_play
can_play-by_mode true inf mr w av nx = ground arith
can_play-by_mode false true true w av nx = ground arith
can_play-by_mode false true false w av nx = ground arith
can_play-by_mode false false true w av nx = ground arith
can_play-by_mode false false false w av nx = ground arith

can_play_tests :
    (r : TokenRules) (start : ℤ) (played : List ℤ) (now : ℤ)
    → let s = tokens r start played now in
      let ps = sort_by ltb_ℤ played in
      (can_play s ≡ true) ↔ (
        (str_eq r.mode "disabled" || str_eq r.mode "" ≡ false)
        × (max_reached r.max_number ps ≡ false)
        × (wait_of r (get_last? ps) now ≡ pos 0)
        × ((str_eq r.mode "infinite" ≡ true) ⊎ (pos 0 <ℤ s.available)))
unfolding tokens
can_play_tests r start played now = can_play-by_mode _ _ _ _ _ _

-- A token may be played exactly if the mode has tokens, fewer than the total cap were played, the
-- minimum interval has passed since every play, and the mode is infinite or a token is available.
pub can_play_iff :
    (r : TokenRules) (start : ℤ) (played : List ℤ) (now : ℤ)
    → let s = tokens r start played now in
      (can_play s ≡ true) ↔ (
        (str_eq r.mode "disabled" || str_eq r.mode "" ≡ false)
        × ((m : ℤ) → r.max_number ≡ some m → pos (length played) <ℤ m)
        × Spaced r now played
        × ((str_eq r.mode "infinite" ≡ true) ⊎ (pos 0 <ℤ s.available)))
can_play_iff r start played now =
    let mx = max_reached_iff r.max_number played in
    let sp = Spaced-iff r now played in
    let core = can_play_tests r start played now in
    (
      (λ h. let t = core.0 h in (t.0, mx.0 t.1, sp.0 t.2, t.3)),
      λ t. core.1 (t.0, mx.1 t.1, sp.1 t.2, t.3),
    )
