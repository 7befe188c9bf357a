-- ===== src/Engine/Loop/Batch.antt =====
-- One message adds the posts of at most one request, for a hash that no row had.
use upstox_gtt.Common.{
  ℕ, zero, suc, ◌+◌, ◌≤◌, ◌≡◌, inl, inr, ℤ, Bool, true, false, Option, none, some, List, [], ◌∷◌,
  ◌++◌, String, str_eq, eq_iff, refl, ap, ◌∙◌, arith, if◌then◌else◌, Bool-cases, Option-cases,
}
use upstox_gtt.Signal.{RawSignal, pending}
use upstox_gtt.Signal.Parser.{parse_message_to_signal}
use upstox_gtt.Database.{SignalData, Tables}
use upstox_gtt.Database.Signals.{hash_taken, insert_signal, new_id}
use upstox_gtt.Database.Signals.Unique.{
  insert, run_op, run_op-taken, taken_duplicate, inserted_taken,
}
use upstox_gtt.Database.Writer.{DbWrite}
use upstox_gtt.Engine.State.{
  Settings, SignalKey, Surroundings, Sent, posts, Engine, Verdict, parse_failed, duplicate_signal,
  blocked_for, failed_for, placed, raises, compute_signal_hash,
}
use upstox_gtt.Engine.Process.{signal_to_dict}
use upstox_gtt.Rules.Buffer.{apply_buffer}
use upstox_gtt.Engine.Stages.{with_instrument, adj_with_instrument, process_signal}
use upstox_gtt.Engine.Safety.Orders.{prepared, process_signal_sends}
use upstox_gtt.Engine.Effects.{Effect}
use upstox_gtt.Engine.Effects.Verdicts.{process_signal-Effect}
use upstox_gtt.Engine.Loop.{Delivery, Reader, handle}

abbrev has_hash : String → Option String → Bool
has_hash h none = false
has_hash h (some k) = str_eq h k

-- How many posts there were for a hash.
unfoldable pub orders_of : String → List Sent → ℕ
orders_of h [] = 0
orders_of h (x ∷ xs) = let rest = orders_of h xs in if has_hash h x.hash then suc rest else rest

orders_of-posts :
    (h : String) (n : ℕ) (x : Sent) → orders_of h (posts n x) ≡ (if has_hash h x.hash then n else 0)
unfolding orders_of posts
orders_of-posts h zero x = ground arith
orders_of-posts h (suc n) x = ground (arith, orders_of-posts h n x)

orders_of-append :
    (h : String) (xs : List Sent) (n : ℕ) (x : Sent)
    → orders_of h (xs ++ posts n x) ≡ orders_of h xs + (if has_hash h x.hash then n else 0)
unfolding orders_of
orders_of-append h [] n x = ground (arith, orders_of-posts h n x)
orders_of-append h (y ∷ xs) n x = ground (arith, orders_of-append h xs n x)

-- A hash has three posts at most, and none while no row has it.
abbrev pub FewPosts : String → Engine → Type 0
FewPosts h e = orders_of h e.sent ≤ (if hash_taken (some h) e.tables.signals then 3 else 0)

Effect-taken :
    (cfg : Settings) (env : Surroundings) (h m : String) (k : Option String) (q : List DbWrite)
    (t : Tables) (r : Verdict × Engine)
    → Effect cfg env h m q t r
    → hash_taken k t.signals ≡ true
    → hash_taken k r.1.tables.signals ≡ true
unfolding run_op
Effect-taken cfg env h m k q t (parse_failed, e) x taken = absurd x
Effect-taken cfg env h m k q t (duplicate_signal, e) (_, same) taken = rw same taken
Effect-taken cfg env h m k q t (blocked_for why, e) (same, _) taken = rw same taken
Effect-taken cfg env h m k q t (failed_for why, e) (id, (d, _, _, _, tab), _) taken =
    rw tab (run_op-taken (insert env.now d) k t taken)
Effect-taken cfg env h m k q t (placed ids, e) (id, (d, _, _, _, tab), _) taken =
    rw tab (run_op-taken (insert env.now d) k t taken)
Effect-taken cfg env h m k q t (raises x, e) (_, inl same) taken = rw same taken
Effect-taken cfg env h m k q t (raises x, e) (_, inr (id, (d, _, _, _, tab))) taken =
    rw tab (run_op-taken (insert env.now d) k t taken)

-- A row that is new has a hash that no row had.
new_untaken :
    (now : ℕ) (d : SignalData) (h : String) (id : ℕ) (t : Tables)
    → d.signal_hash ≡ some h
    → (insert_signal now d t).0 ≡ new_id id
    → hash_taken (some h) t.signals ≡ false
new_untaken now d h id t e new = elim (Bool-cases (hash_taken (some h) t.signals)) [
  | inl taken ↦ absurd (cc ((taken_duplicate now d h t e taken).0, new))
  | inr free ↦ free
]

-- More rows and no more posts.
pub keeps-FewPosts :
    (h : String) (e e' : Engine)
    → e'.sent ≡ e.sent
    → (hash_taken (some h) e.tables.signals ≡ true → hash_taken (some h) e'.tables.signals ≡ true)
    → FewPosts h e
    → FewPosts h e'
keeps-FewPosts h e e' same more one = ground (arith, more)

-- The posts of one more request, for a hash that no row had.
adds-FewPosts :
    (h k : String) (n : ℕ) (x : Sent) (e e' : Engine)
    → n ≤ 3
    → x.hash ≡ some k
    → e'.sent ≡ e.sent ++ posts n x
    → (hash_taken (some k) e.tables.signals ≡ false)
    → (hash_taken (some k) e'.tables.signals ≡ true)
    → (hash_taken (some h) e.tables.signals ≡ true → hash_taken (some h) e'.tables.signals ≡ true)
    → FewPosts h e
    → FewPosts h e'
adds-FewPosts h k n x e e' few hash sent before after more one =
    let counted = ap (orders_of h) sent ∙ orders_of-append h e.sent n x in
    elim (Bool-cases (str_eq h k)) [
      | inl same ↦
          let eq = (eq_iff h k).0 same in
          ground (arith, counted, hash, same, eq, before, after, one)
      | inr other ↦ ground (arith, counted, hash, other, more, one)
    ]

module _ (cfg : Settings) (rounds_up : ℤ → Bool) (digest : SignalKey → String) (r : Reader) where
  process_signal-taken :
      (env : Surroundings) (s : RawSignal) (e : Engine) (h : String)
      → hash_taken (some h) e.tables.signals ≡ true
      → hash_taken (some h) (process_signal cfg env rounds_up digest (some s) e).1.tables.signals
        ≡ true
  process_signal-taken env s e h =
      Effect-taken cfg env (compute_signal_hash digest s) s.redis_message_id (some h) e.queue
        e.tables (process_signal cfg env rounds_up digest (some s) e)
        (process_signal-Effect cfg env rounds_up digest s e)

  process_signal-FewPosts :
      (env : Surroundings) (s : RawSignal) (e : Engine) (h : String)
      → FewPosts h e
      → FewPosts h (process_signal cfg env rounds_up digest (some s) e).1
  unfolding signal_to_dict
  process_signal-FewPosts env s e h one = elim (process_signal_sends cfg rounds_up digest env s e) [
    | inl none_ ↦
        keeps-FewPosts h e (process_signal cfg env rounds_up digest (some s) e).1 none_
          (process_signal-taken env s e h) one
    | inr (i, passed, (tables, (calls, few, again, sent))) ↦
        let (id, new) = passed.fresh in
        let k = compute_signal_hash digest s in
        let s1 = with_instrument (prepared digest s) i.instrument_key in
        let adj =
          adj_with_instrument (apply_buffer rounds_up (prepared digest s)) i.instrument_key in
        let row = signal_to_dict s1 (some adj) pending in
        adds-FewPosts h k calls _ e (process_signal cfg env rounds_up digest (some s) e).1 few refl
          sent (new_untaken env.now row k id e.tables refl new)
          (rw tables (inserted_taken env.now row k id e.tables refl new))
          (process_signal-taken env s e h) one
  ]

  pub handle-FewPosts :
      (d : Delivery) (e : Engine) (h : String)
      → FewPosts h e
      → FewPosts h (handle cfg rounds_up digest r d e).1
  unfolding handle process_signal
  handle-FewPosts d e h one =
      elim (Option-cases
        (parse_message_to_signal r.to_float r.parse_expiry_date r.default d.fields d.id)) [
          | inl nothing ↦ rw nothing one
          | inr (s, parsed) ↦ rw parsed (process_signal-FewPosts d.env s e h one)
        ]
