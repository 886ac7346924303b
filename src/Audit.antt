-- ===== src/Audit.antt =====
-- internal/auditlog/verify.go: the verification of the hash chain of the audit log, and how the trigger of
-- internal/db/migrations/0021_operations.sql chains a new entry. The hash over an entry's content, its place and
-- the previous hash is an argument; the table is its entries in the order of `seq`.
pub mod Chain
pub mod Pages
pub mod Evidence
mod Tests
use contest_management_syste.Prelude.{
  ℕ, zero, suc, ◌+◌, ◌-◌, Bool, true, false, not, ◌==◌, ltb, Option, none, some, List, [], ◌∷◌,
  ◌++◌, String, str_eq, if◌then◌else◌, length, take, get_last?,
}

-- A row of `AuditChain`; the content is what `audit_hash` reads besides `prev_hash` and `seq`.
pub record Entry (C : Type 0) : Type 0 where
  pub seq : ℕ
  pub id : ℕ
  pub prev_hash : String
  pub hash : String
  pub content : C

pub data Problem : Type 0 where
  outside_chain : ℕ → Problem
  missing : ℕ → ℕ → Problem
  not_following : ℕ → ℕ → Problem
  modified : ℕ → ℕ → Problem

pub record Report : Type 0 where
  pub entries : ℕ
  pub head_seq : ℕ
  pub head_hash : String
  pub problems : List Problem
  pub more : ℕ

abbrev max_problems : ℕ
max_problems = 20

abbrev pub is_ok : Report → Bool
is_ok r = length r.problems == 0

-- `add`, under the condition of its call.
abbrev pub add_if : Bool → Problem → Report → Report
add_if false p r = r
add_if true p r =
    if ltb (length r.problems) max_problems
    then record r { problems = r.problems ++ p ∷ [] }
    else record r { more = suc r.more }

-- The variables of the loop of `Verify`.
pub record Walk : Type 0 where
  pub last : ℕ
  pub prev : String
  pub report : Report

module _ {C : Type 0} (audit_hash : String → ℕ → C → String) where
  abbrev pub expected : Entry C → String
  expected r = audit_hash r.prev_hash r.seq r.content

  -- The body of the loop over the rows.
  unfoldable pub check_entry : Walk → Entry C → Walk
  check_entry w r =
      let a = add_if (not (r.seq == suc w.last)) (missing (suc w.last) (r.seq - 1)) w.report in
      let b = add_if (not (str_eq r.prev_hash w.prev)) (not_following r.seq r.id) a in
      let c = add_if (not (str_eq r.hash (expected r))) (modified r.seq r.id) b in
      record { last = r.seq; prev = r.hash; report = record c { entries = suc c.entries } }

  unfoldable pub walk : Walk → List (Entry C) → Walk
  walk w [] = w
  walk w (r ∷ rs) = walk (check_entry w r) rs

-- The rows of `AuditChain` without its limit.
unfoldable pub chain_from : {C : Type 0} → ℕ → List (Entry C) → List (Entry C)
chain_from after [] = []
chain_from after (r ∷ rs) =
    let rest = chain_from after rs in if ltb after r.seq then r ∷ rest else rest

module _ {C : Type 0} (audit_hash : String → ℕ → C → String) (page : ℕ)
    (table : List (Entry C)) where
  -- The loop over the pages.
  unfoldable pub walk_pages : ℕ → Walk → Walk
  unfolding walk chain_from
  walk_pages zero w = w
  walk_pages (suc fuel) w =
      let rows = take page (chain_from w.last table) in
      let done = walk audit_hash w rows in
      let rest = walk_pages fuel done in if ltb (length rows) page then done else rest

abbrev pub seq_of : {C : Type 0} → Option (Entry C) → ℕ
seq_of none = 0
seq_of (some r) = r.seq

abbrev pub hash_of : {C : Type 0} → Option (Entry C) → String
hash_of none = ""
hash_of (some r) = r.hash

abbrev pub no_report : Report
no_report = record { entries = 0; head_seq = 0; head_hash = ""; problems = []; more = 0 }

-- The walk before the first row.
abbrev pub first_walk : ℕ → Walk
first_walk outside = record {
  last = 0;
  prev = "";
  report = add_if (ltb 0 outside) (outside_chain outside) no_report;
}

-- `Verify`
unfoldable pub verify : {C : Type 0} → (String → ℕ → C → String) → ℕ → ℕ → List (Entry C) → Report
unfolding walk_pages
verify audit_hash page outside table =
    let w = walk_pages audit_hash page table (suc (length table)) (first_walk outside) in
    record w.report { head_seq = seq_of (get_last? table); head_hash = hash_of (get_last? table) }

-- The trigger `audit_log_chain`.
unfoldable pub chained :
    {C : Type 0} → (String → ℕ → C → String) → List (Entry C) → ℕ → C → List (Entry C)
chained audit_hash table id content =
    let prev = hash_of (get_last? table) in
    let seq = suc (seq_of (get_last? table)) in
    table
    ++ record {
      seq = seq;
      id = id;
      prev_hash = prev;
      hash = audit_hash prev seq content;
      content = content;
    }
      ∷ []
