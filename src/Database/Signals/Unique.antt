-- ===== src/Database/Signals/Unique.antt =====
-- The constraint `UNIQUE (signal_hash)`, and the deduplication that rests on it.
use upstox_gtt.Common.{
  ℕ, ◌≡◌, ℤ, Bool, true, false, ◌||◌, Option, none, some, List, [], ◌∷◌, ◌++◌, map, String, str_eq,
  eq_iff, refl, arith, Bool-cases, inl, inr, if◌then◌else◌, ap, ◌∙◌,
}
use upstox_gtt.Signal.{Status}
use upstox_gtt.Database.{SignalData, SignalRow, Tables, BlockReason}
use upstox_gtt.Database.Signals.{
  new_id, duplicate, same_hash, hash_taken, message_taken, new_row, insert_signal, update_rows,
  has_id, set_status, update_signal_status, set_pnl, update_signal_pnl,
}

-- No two rows have the same hash.
abbrev pub UniqueHashes : List SignalRow → Type 0
UniqueHashes [] = Unit
UniqueHashes (r ∷ rs) = (hash_taken r.inserted.signal_hash rs ≡ false) × UniqueHashes rs

-- An update that leaves the inserted columns alone.
abbrev pub KeepsInserted : (SignalRow → SignalRow) → Type 0
KeepsInserted f = (r : SignalRow) → (f r).inserted ≡ r.inserted

abbrev when : (SignalRow → Bool) → (SignalRow → SignalRow) → SignalRow → SignalRow
when where_ f r = if where_ r then f r else r

when_keeps :
    (where_ : SignalRow → Bool) (f : SignalRow → SignalRow) (r : SignalRow)
    → KeepsInserted f
    → (when where_ f r).inserted ≡ r.inserted
when_keeps where_ f r keeps = ground (arith, keeps r)

pub hash_taken-map :
    (h : Option String) (where_ : SignalRow → Bool) (f : SignalRow → SignalRow)
    (rs : List SignalRow)
    → KeepsInserted f
    → hash_taken h (map (λ r. if where_ r then f r else r) rs) ≡ hash_taken h rs
unfolding hash_taken
hash_taken-map h where_ f [] keeps = refl
hash_taken-map h where_ f (r ∷ rs) keeps =
    rw (when_keeps where_ f r keeps)
      (ap (λ b. same_hash h r.inserted.signal_hash || b) (hash_taken-map h where_ f rs keeps))

UniqueHashes-map :
    (where_ : SignalRow → Bool) (f : SignalRow → SignalRow) (rs : List SignalRow)
    → KeepsInserted f
    → UniqueHashes rs
    → UniqueHashes (map (λ r. if where_ r then f r else r) rs)
UniqueHashes-map where_ f [] keeps u = tt
UniqueHashes-map where_ f (r ∷ rs) keeps (fresh, u) = (
  rw (when_keeps where_ f r keeps)
      (hash_taken-map r.inserted.signal_hash where_ f rs keeps ∙ fresh),
  UniqueHashes-map where_ f rs keeps u,
)

hash_taken-snoc :
    (h : Option String) (rs : List SignalRow) (r : SignalRow)
    → hash_taken h (rs ++ r ∷ []) ≡ (hash_taken h rs || same_hash h r.inserted.signal_hash)
unfolding hash_taken
hash_taken-snoc h [] r = ground arith
hash_taken-snoc h (x ∷ rs) r = ground (arith, hash_taken-snoc h rs r)

same_hash_comm : (a b : Option String) → same_hash a b ≡ same_hash b a
same_hash_comm none none = refl
same_hash_comm none (some b) = refl
same_hash_comm (some a) none = refl
same_hash_comm (some a) (some b) = ground (arith, eq_iff a b, eq_iff b a)

UniqueHashes-snoc :
    (rs : List SignalRow) (r : SignalRow)
    → UniqueHashes rs
    → hash_taken r.inserted.signal_hash rs ≡ false
    → UniqueHashes (rs ++ r ∷ [])
unfolding hash_taken
UniqueHashes-snoc [] r u fresh = (refl, tt)
UniqueHashes-snoc (x ∷ rs) r (fx, u) fresh = (
  hash_taken-snoc x.inserted.signal_hash rs r
      ∙ ground (arith, same_hash_comm x.inserted.signal_hash r.inserted.signal_hash),
  UniqueHashes-snoc rs r u (ground arith),
)

set_status-KeepsInserted :
    (now : ℕ) (s : Status) (why : Option BlockReason) (ids : Option (List String)) (ltp : Option ℤ)
    → KeepsInserted (set_status now s why ids ltp)
unfolding set_status
set_status-KeepsInserted now s why ids ltp r = refl

set_pnl-KeepsInserted : (now : ℕ) (e x p : ℤ) → KeepsInserted (set_pnl now e x p)
unfolding set_pnl
set_pnl-KeepsInserted now e x p r = refl

-- What the services do to the table.
pub data TableOp : Type 0 where
  insert : ℕ → SignalData → TableOp
  status : ℕ → ℕ → Status → Option BlockReason → Option (List String) → Option ℤ → TableOp
  settle : ℕ → ℕ → ℤ → ℤ → ℤ → TableOp

unfoldable pub run_op : TableOp → Tables → Tables
run_op (insert now d) t = (insert_signal now d t).1
run_op (status now id s why ids ltp) t = update_signal_status now id s why ids ltp t
run_op (settle now id e x p) t = update_signal_pnl now id e x p t

unfoldable pub run_ops : List TableOp → Tables → Tables
unfolding run_op
run_ops [] t = t
run_ops (op ∷ ops) t = run_ops ops (run_op op t)

insert_signal-UniqueHashes :
    (now : ℕ) (d : SignalData) (t : Tables)
    → UniqueHashes t.signals
    → UniqueHashes (insert_signal now d t).1.signals
unfolding insert_signal
insert_signal-UniqueHashes now d t u = elim (Bool-cases (hash_taken d.signal_hash t.signals)) [
  | inl taken ↦ rw taken u
  | inr fresh ↦ elim (Bool-cases (message_taken d.redis_message_id t.signals)) [
    | inl seen ↦ rw (fresh, seen) u
    | inr unseen ↦
        rw (fresh, unseen) (UniqueHashes-snoc t.signals (new_row now t.next_id d) u fresh)
  ]
]

run_op-UniqueHashes :
    (op : TableOp) (t : Tables) → UniqueHashes t.signals → UniqueHashes (run_op op t).signals
unfolding run_op update_signal_status update_signal_pnl update_rows
run_op-UniqueHashes (insert now d) t u = insert_signal-UniqueHashes now d t u
run_op-UniqueHashes (status now id s why ids ltp) t u =
    UniqueHashes-map (has_id id) (set_status now s why ids ltp) t.signals
      (set_status-KeepsInserted now s why ids ltp) u
run_op-UniqueHashes (settle now id e x p) t u =
    UniqueHashes-map (has_id id) (set_pnl now e x p) t.signals (set_pnl-KeepsInserted now e x p) u

-- A hash that is in the table stays there.
insert_signal-taken :
    (now : ℕ) (d : SignalData) (h : Option String) (t : Tables)
    → hash_taken h t.signals ≡ true
    → hash_taken h (insert_signal now d t).1.signals ≡ true
unfolding insert_signal
insert_signal-taken now d h t k = elim (Bool-cases (hash_taken d.signal_hash t.signals)) [
  | inl taken ↦ rw taken k
  | inr fresh ↦ elim (Bool-cases (message_taken d.redis_message_id t.signals)) [
    | inl seen ↦ rw (fresh, seen) k
    | inr unseen ↦
        rw (fresh, unseen) (hash_taken-snoc h t.signals (new_row now t.next_id d) ∙ ground arith)
  ]
]

pub run_op-taken :
    (op : TableOp) (h : Option String) (t : Tables)
    → hash_taken h t.signals ≡ true
    → hash_taken h (run_op op t).signals ≡ true
unfolding run_op update_signal_status update_signal_pnl update_rows
run_op-taken (insert now d) h t k = insert_signal-taken now d h t k
run_op-taken (status now id s why ids ltp) h t k =
    hash_taken-map h (has_id id) (set_status now s why ids ltp) t.signals
      (set_status-KeepsInserted now s why ids ltp)
    ∙ k
run_op-taken (settle now id e x p) h t k =
    hash_taken-map h (has_id id) (set_pnl now e x p) t.signals (set_pnl-KeepsInserted now e x p) ∙ k

pub run_ops-taken :
    (ops : List TableOp) (h : Option String) (t : Tables)
    → hash_taken h t.signals ≡ true
    → hash_taken h (run_ops ops t).signals ≡ true
unfolding run_ops
run_ops-taken [] h t k = k
run_ops-taken (op ∷ ops) h t k = run_ops-taken ops h (run_op op t) (run_op-taken op h t k)

-- Inserts and updates in any order keep the hashes of a table different from one another.
pub run_ops-UniqueHashes :
    (ops : List TableOp) (t : Tables)
    → UniqueHashes t.signals
    → UniqueHashes (run_ops ops t).signals
unfolding run_ops
run_ops-UniqueHashes [] t u = u
run_ops-UniqueHashes (op ∷ ops) t u =
    run_ops-UniqueHashes ops (run_op op t) (run_op-UniqueHashes op t u)

same_hash_self : (h : String) → str_eq h h ≡ true
same_hash_self h = (eq_iff h h).1 refl

pub inserted_taken :
    (now : ℕ) (d : SignalData) (h : String) (id : ℕ) (t : Tables)
    → d.signal_hash ≡ some h
    → (insert_signal now d t).0 ≡ new_id id
    → hash_taken (some h) (insert_signal now d t).1.signals ≡ true
unfolding insert_signal
inserted_taken now d h id t e k = elim (Bool-cases (hash_taken d.signal_hash t.signals)) [
  | inl taken ↦ absurd (cc (rw taken at k))
  | inr fresh ↦ elim (Bool-cases (message_taken d.redis_message_id t.signals)) [
    | inl seen ↦ absurd (cc (rw (fresh, seen) at k))
    | inr unseen ↦
        rw (fresh, unseen)
          (hash_taken-snoc (some h) t.signals (new_row now t.next_id d)
            ∙ ground (arith, same_hash_self h))
  ]
]

pub taken_duplicate :
    (now : ℕ) (d : SignalData) (h : String) (t : Tables)
    → d.signal_hash ≡ some h
    → hash_taken (some h) t.signals ≡ true
    → ((insert_signal now d t).0 ≡ duplicate) × ((insert_signal now d t).1.signals ≡ t.signals)
unfolding insert_signal
taken_duplicate now d h t e k = ground arith

-- Once a signal with a hash has been inserted, every later insert with that hash, whatever its other
-- columns and whatever was inserted and updated in between, is answered with no row and adds none.
pub insert_signal_once :
    (now later : ℕ) (d d' : SignalData) (h : String) (id : ℕ) (ops : List TableOp) (t : Tables)
    → d.signal_hash ≡ some h
    → d'.signal_hash ≡ some h
    → (insert_signal now d t).0 ≡ new_id id
    → let t' = run_ops ops (insert_signal now d t).1 in
      ((insert_signal later d' t').0 ≡ duplicate)
      × ((insert_signal later d' t').1.signals ≡ t'.signals)
insert_signal_once now later d d' h id ops t e e' k =
    taken_duplicate later d' h (run_ops ops (insert_signal now d t).1) e'
      (run_ops-taken ops (some h) (insert_signal now d t).1 (inserted_taken now d h id t e k))
