-- ===== src/Queue/Streams/Tests/Lists.antt =====
-- Redis as lists of slots, which has the laws of Queue/Streams/Commands.
use contest_management_syste.Prelude.{
  ℕ, zero, suc, ◌≡◌, inl, inr, refl, ◌&&◌, ◌==◌, Option, none, some, List, [], ◌∷◌, ◌++◌, String,
  str_eq, str_eq_iff, if◌then◌else◌, length, get_elem?, All, All-mono, In, arith, Bool-cases,
}
use contest_management_syste.Queue.Streams.Commands.{
  Slot, unused, waiting, pending, acked, gone, Message, Redis, IsRedis, is_at, is_listed, deliver,
  acknowledge, delete, claim, is_pending, is_waiting, is_there,
}
use contest_management_syste.Queue.Streams.{Value}

abbrev pub Store : Type 0
Store = String → List (Slot Value)

abbrev pub slot_or : Option (Slot Value) → Slot Value
slot_or none = unused
slot_or (some s) = s

abbrev pub look : Store → String → ℕ → Slot Value
look x s k = slot_or (get_elem? (x s) k)

abbrev pub modify : (Slot Value → Slot Value) → ℕ → List (Slot Value) → List (Slot Value)
modify g k [] = []
modify g zero (s ∷ ss) = g s ∷ ss
modify g (suc k) (s ∷ ss) = s ∷ modify g k ss

abbrev pub change : (Slot Value → Slot Value) → Store → String → ℕ → Store
change g x s k t = if str_eq s t then modify g k (x t) else x t

abbrev pub one_later : Option Value → Option (ℕ × Value) → Option (ℕ × Value)
one_later (some v) o = some (0, v)
one_later none none = none
one_later none (some (k, v)) = some (suc k, v)

abbrev pub first_waiting : List (Slot Value) → Option (ℕ × Value)
first_waiting [] = none
first_waiting (s ∷ ss) = one_later (is_waiting s) (first_waiting ss)

abbrev pub read_one :
    Store
    → String
    → String
    → Option (ℕ × Value)
    → Store × List (Message Value)
    → Store × List (Message Value)
read_one x s c none rest = rest
read_one x s c (some (k, v)) rest =
    (change (deliver c) x s k, record { stream = s; id = k; value = v } ∷ [])

abbrev pub read : Store → List String → String → Store × List (Message Value)
read x [] c = (x, [])
read x (s ∷ ss) c = read_one x s c (first_waiting (x s)) (read x ss c)

abbrev pub claim_one : Store → String → String → ℕ → Option Value → Store × Option Value
claim_one x s c k none = (x, none)
claim_one x s c k (some v) = (change (claim c) x s k, some v)

abbrev pub add_slot : Store → String → Value → Store
add_slot x s v t = if str_eq s t then x t ++ waiting v ∷ [] else x t

abbrev pub lists : Redis Store Value
lists = record {
  look = look;
  xadd = λ x s v. (add_slot x s v, length (x s));
  xreadgroup = read;
  xack = change acknowledge;
  xdel = change delete;
  xclaim = λ x s c k. claim_one x s c k (is_pending (look x s k));
}

slot_past : (ss : List (Slot Value)) → slot_or (get_elem? ss (length ss)) ≡ unused
slot_past [] = refl
slot_past (s ∷ ss) = slot_past ss

slot_append :
    (ss : List (Slot Value)) (v : Value) (j : ℕ)
    → slot_or (get_elem? (ss ++ waiting v ∷ []) j)
      ≡ (if length ss == j then waiting v else slot_or (get_elem? ss j))
slot_append [] v zero = refl
slot_append [] v (suc j) = ground arith
slot_append (s ∷ ss) v zero = ground arith
slot_append (s ∷ ss) v (suc j) = ground (arith, slot_append ss v j)

slot_modify :
    (g : Slot Value → Slot Value)
    → g unused ≡ unused
    → (ss : List (Slot Value)) (k j : ℕ)
    → slot_or (get_elem? (modify g k ss) j)
      ≡ (if k == j then g (slot_or (get_elem? ss j)) else slot_or (get_elem? ss j))
slot_modify g u [] k j = ground (arith, u)
slot_modify g u (s ∷ ss) zero zero = refl
slot_modify g u (s ∷ ss) zero (suc j) = ground arith
slot_modify g u (s ∷ ss) (suc k) zero = ground arith
slot_modify g u (s ∷ ss) (suc k) (suc j) = ground (arith, slot_modify g u ss k j)

look-change :
    (g : Slot Value → Slot Value)
    → g unused ≡ unused
    → (x : Store) (s : String) (k : ℕ) (t : String) (j : ℕ)
    → look (change g x s k) t j ≡ (if is_at s k t j then g (look x t j) else look x t j)
look-change g u x s k t j = elim (Bool-cases (str_eq s t)) [
  | inl e ↦ rw e (slot_modify g u (x t) k j)
  | inr e ↦ rw e refl
]

-- What is read stands there.
abbrev pub Fits : List (Slot Value) → Option (ℕ × Value) → Type 0
Fits ss none = Unit
Fits ss (some (k, v)) = slot_or (get_elem? ss k) ≡ waiting v

one_later-Fits :
    (s : Slot Value) (ss : List (Slot Value)) (o : Option (ℕ × Value))
    → Fits ss o
    → Fits (s ∷ ss) (one_later (is_waiting s) o)
one_later-Fits (waiting v) ss o f = refl
one_later-Fits unused ss none f = tt
one_later-Fits unused ss (some (k, v)) f = f
one_later-Fits (pending c w) ss none f = tt
one_later-Fits (pending c w) ss (some (k, v)) f = f
one_later-Fits (acked w) ss none f = tt
one_later-Fits (acked w) ss (some (k, v)) f = f
one_later-Fits gone ss none f = tt
one_later-Fits gone ss (some (k, v)) f = f

first_waiting-Fits : (ss : List (Slot Value)) → Fits ss (first_waiting ss)
first_waiting-Fits [] = tt
first_waiting-Fits (s ∷ ss) = one_later-Fits s ss (first_waiting ss) (first_waiting-Fits ss)

IsFound : Store → List String → Message Value → Type 0
IsFound x ss m = In m.stream ss × (look x m.stream m.id ≡ waiting m.value)

read_one_waiting :
    (x : Store) (s : String) (ss : List String) (c : String) (o : Option (ℕ × Value))
    → Fits (x s) o
    → All (IsFound x ss) (read x ss c).1
    → All (IsFound x (s ∷ ss)) (read_one x s c o (read x ss c)).1
unfolding IsFound
read_one_waiting x s ss c none f h =
    All-mono (IsFound x ss) (IsFound x (s ∷ ss)) (λ m (i, e). (inr i, e)) (read x ss c).1 h
read_one_waiting x s ss c (some (k, v)) f h = ((inl refl, f), tt)

read_waiting : (x : Store) (ss : List String) (c : String) → All (IsFound x ss) (read x ss c).1
unfolding IsFound
read_waiting x [] c = tt
read_waiting x (s ∷ ss) c =
    read_one_waiting x s ss c (first_waiting (x s)) (first_waiting-Fits (x s)) (read_waiting x ss c)

Delivers : Store → String → Store × List (Message Value) → Type 0
Delivers x c q =
    (t : String) (j : ℕ)
    → look q.0 t j ≡ (if is_listed t j q.1 then deliver c (look x t j) else look x t j)

read_one-Delivers :
    (x : Store) (s c : String) (o : Option (ℕ × Value)) (q : Store × List (Message Value))
    → Delivers x c q
    → Delivers x c (read_one x s c o q)
unfolding Delivers
read_one-Delivers x s c none q h = h
read_one-Delivers x s c (some (k, v)) q h =
    λ t j. ground (arith, look-change (deliver c) refl x s k t j)

read-Delivers : (x : Store) (ss : List String) (c : String) → Delivers x c (read x ss c)
unfolding Delivers
read-Delivers x [] c = λ t j. refl
read-Delivers x (s ∷ ss) c =
    read_one-Delivers x s c (first_waiting (x s)) (read x ss c) (read-Delivers x ss c)

claim_one_pending :
    (x : Store) (s c : String) (k : ℕ) (v : Value) (o : Option Value)
    → (claim_one x s c k o).1 ≡ some v
    → o ≡ some v
claim_one_pending x s c k v none h = h
claim_one_pending x s c k v (some w) h = h

look-claim_one :
    (x : Store) (s c : String) (k : ℕ) (t : String) (j : ℕ) (o : Option Value)
    → look (claim_one x s c k o).0 t j ≡ (
        if is_there (claim_one x s c k o).1 && is_at s k t j
        then claim c (look x t j)
        else look x t j)
look-claim_one x s c k t j none = refl
look-claim_one x s c k t j (some w) = look-change (claim c) refl x s k t j

look-add_slot :
    (x : Store) (s : String) (v : Value) (t : String) (j : ℕ)
    → look (add_slot x s v) t j ≡ (if is_at s (length (x s)) t j then waiting v else look x t j)
look-add_slot x s v t j = elim (Bool-cases (str_eq s t)) [
  | inl e ↦ let same = (str_eq_iff s t).0 e in rw (e, same) (slot_append (x t) v j)
  | inr e ↦ rw e refl
]

pub lists-IsRedis : IsRedis lists
unfolding IsFound Delivers
lists-IsRedis = record {
  xadd_fresh = λ x s v. slot_past (x s);
  look-xadd = look-add_slot;
  xreadgroup_waiting = read_waiting;
  look-xreadgroup = λ x ss c t j. read-Delivers x ss c t j;
  look-xack = look-change acknowledge refl;
  look-xdel = look-change delete refl;
  xclaim_pending = λ x s c k v h. claim_one_pending x s c k v (is_pending (look x s k)) h;
  look-xclaim = λ x s c k t j. look-claim_one x s c k t j (is_pending (look x s k));
}
