-- ===== src/Queue/Streams/Commands.antt =====
-- The commands on streams of Redis that internal/queue/queue.go uses, with one consumer group to a stream, and
-- what the documentation of Redis says of them. An entry keeps its id, which is never given again.
use contest_management_syste.Prelude.{
  ℕ, ◌≡◌, Bool, true, false, ◌&&◌, ◌||◌, ◌==◌, Option, none, some, List, [], ◌∷◌, String, str_eq,
  if◌then◌else◌, All, In,
}

-- What has become of an id in a stream: waiting to be delivered, delivered to a consumer, acknowledged, deleted.
pub data Slot (M : Type 0) : Type 0 where
  unused : Slot M
  waiting : M → Slot M
  pending : String → M → Slot M
  acked : M → Slot M
  gone : Slot M

pub record Message (M : Type 0) : Type 0 where
  pub stream : String
  pub id : ℕ
  pub value : M

pub record Redis (R M : Type 0) : Type 0 where
  pub look : R → String → ℕ → Slot M
  -- XADD, with the id
  pub xadd : R → String → M → R × ℕ
  -- XREADGROUP of new messages, COUNT 1: one at most of each stream
  pub xreadgroup : R → List String → String → R × List (Message M)
  pub xack : R → String → ℕ → R
  pub xdel : R → String → ℕ → R
  -- XCLAIM, with the message if there is one to claim
  pub xclaim : R → String → String → ℕ → R × Option M

abbrev pub is_at : String → ℕ → String → ℕ → Bool
is_at s k t j = str_eq s t && k == j

module _ {M : Type 0} where
  abbrev pub is_there : Option M → Bool
  is_there none = false
  is_there (some v) = true

  abbrev pub is_listed : String → ℕ → List (Message M) → Bool
  is_listed t j [] = false
  is_listed t j (m ∷ ms) = is_at m.stream m.id t j || is_listed t j ms

  abbrev pub deliver : String → Slot M → Slot M
  deliver c unused = unused
  deliver c (waiting v) = pending c v
  deliver c (pending d v) = pending d v
  deliver c (acked v) = acked v
  deliver c gone = gone

  abbrev pub acknowledge : Slot M → Slot M
  acknowledge unused = unused
  acknowledge (waiting v) = waiting v
  acknowledge (pending d v) = acked v
  acknowledge (acked v) = acked v
  acknowledge gone = gone

  abbrev pub delete : Slot M → Slot M
  delete unused = unused
  delete (waiting v) = gone
  delete (pending d v) = gone
  delete (acked v) = gone
  delete gone = gone

  abbrev pub claim : String → Slot M → Slot M
  claim c unused = unused
  claim c (waiting v) = waiting v
  claim c (pending d v) = pending c v
  claim c (acked v) = acked v
  claim c gone = gone

  abbrev pub is_waiting : Slot M → Option M
  is_waiting unused = none
  is_waiting (waiting v) = some v
  is_waiting (pending d v) = none
  is_waiting (acked v) = none
  is_waiting gone = none

  abbrev pub is_pending : Slot M → Option M
  is_pending unused = none
  is_pending (waiting v) = none
  is_pending (pending d v) = some v
  is_pending (acked v) = none
  is_pending gone = none

pub record IsRedis {R M : Type 0} (r : Redis R M) : Type 0 where
  pub xadd_fresh : (x : R) (s : String) (v : M) → r.look x s (r.xadd x s v).1 ≡ unused
  pub look-xadd :
      (x : R) (s : String) (v : M) (t : String) (j : ℕ)
      → r.look (r.xadd x s v).0 t j
        ≡ (if is_at s (r.xadd x s v).1 t j then waiting v else r.look x t j)
  pub xreadgroup_waiting :
      (x : R) (ss : List String) (c : String)
      → All
          (λ m. In m.stream ss × (r.look x m.stream m.id ≡ waiting m.value))
          (r.xreadgroup x ss c).1
  pub look-xreadgroup :
      (x : R) (ss : List String) (c : String) (t : String) (j : ℕ)
      → r.look (r.xreadgroup x ss c).0 t j
        ≡ (if is_listed t j (r.xreadgroup x ss c).1 then deliver c (r.look x t j) else r.look x t j)
  pub look-xack :
      (x : R) (s : String) (k : ℕ) (t : String) (j : ℕ)
      → r.look (r.xack x s k) t j
        ≡ (if is_at s k t j then acknowledge (r.look x t j) else r.look x t j)
  pub look-xdel :
      (x : R) (s : String) (k : ℕ) (t : String) (j : ℕ)
      → r.look (r.xdel x s k) t j ≡ (if is_at s k t j then delete (r.look x t j) else r.look x t j)
  pub xclaim_pending :
      (x : R) (s c : String) (k : ℕ) (v : M)
      → (r.xclaim x s c k).1 ≡ some v
      → is_pending (r.look x s k) ≡ some v
  pub look-xclaim :
      (x : R) (s c : String) (k : ℕ) (t : String) (j : ℕ)
      → r.look (r.xclaim x s c k).0 t j ≡ (
          if is_there (r.xclaim x s c k).1 && is_at s k t j
          then claim c (r.look x t j)
          else r.look x t j)
