-- ===== src/Tracker/Links.antt =====
-- The links from orders to legs.
use upstox_gtt.Common.{
  subst, ℕ, ◌≡◌, true, ◌&&◌, Option, none, some, List, [], ◌∷◌, String, str_eq, eq_iff, any, refl,
  arith, ap, sym, ◌∙◌, Bool-cases, inl, inr,
}
use upstox_gtt.Signal.{Strategy, same_strategy, same_strategy_iff}
use upstox_gtt.Database.{RuleData, Tables}
use upstox_gtt.Database.Signals.{update_signal_status}
use upstox_gtt.Database.Rules.{upsert_gtt_rule, get_gtt_rules_by_gtt_order_id}
use upstox_gtt.Database.Rules.Upsert.{find_leg, merged, find_leg-upsert_gtt_rule}
use upstox_gtt.Rules.PnlGuard.{Limits}
use upstox_gtt.Tracker.{Tracker, has_strategy}
use upstox_gtt.Tracker.Fill.{FetchedTrade}
use upstox_gtt.Tracker.Updates.{
  GttPayload, process_items, upsert_items, reconcile_known, update_known, leg_status, update_legs,
  terminal_status, reconcile_gtt_payload, handle_gtt_update,
}

-- The leg is there with the status of the GTT, and no order is linked to it.
abbrev pub Unlinked : String → String → Strategy → Tables → Type 0
Unlinked status g s t =
    (r : RuleData) × (find_leg g s t.gtt_rules ≡ some r)
    × (r.status ≡ some status)
    × (r.order_id ≡ none)

merged_parts :
    (d : RuleData) (o : Option RuleData)
    → ((merged d o).status ≡ d.status) × ((merged d o).order_id ≡ d.order_id)
merged_parts d none = (refl, refl)
merged_parts d (some r) = (refl, refl)

upsert_leg-Unlinked :
    (id : ℕ) (status g : String) (s : Strategy) (r : RuleData) (t : Tables)
    → has_strategy s r ≡ true
    → Unlinked status g s (upsert_gtt_rule (leg_status id g status r) t)
upsert_leg-Unlinked id status g s r t same =
    let d = leg_status id g status r in
    let old = find_leg g s t.gtt_rules in
    let own : (str_eq g g && same_strategy s r.strategy) ≡ true =
      ground (arith, eq_iff g g, same_strategy_iff s r.strategy, same_strategy_iff r.strategy s) in
    (
      merged d old,
      find_leg-upsert_gtt_rule g s d t ∙ rw own refl,
      (merged_parts d old).0,
      (merged_parts d old).1,
    )

keep_upsert-Unlinked :
    (id : ℕ) (status g : String) (s : Strategy) (r : RuleData) (t : Tables)
    → Unlinked status g s t
    → Unlinked status g s (upsert_gtt_rule (leg_status id g status r) t)
keep_upsert-Unlinked id status g s r t (x, there, stat, order) =
    let d = leg_status id g status r in
    let old = find_leg g s t.gtt_rules in
    elim (Bool-cases (str_eq g g && same_strategy s r.strategy)) [
      | inl own ↦ (
        merged d old,
        find_leg-upsert_gtt_rule g s d t ∙ rw own refl,
        (merged_parts d old).0,
        (merged_parts d old).1,
      )
      | inr other ↦ (x, find_leg-upsert_gtt_rule g s d t ∙ rw other there, stat, order)
    ]

keep_legs-Unlinked :
    (id : ℕ) (status g : String) (s : Strategy) (rs : List RuleData) (t : Tables)
    → Unlinked status g s t
    → Unlinked status g s (update_legs id g status rs t)
unfolding update_legs
keep_legs-Unlinked id status g s [] t h = h
keep_legs-Unlinked id status g s (r ∷ rs) t h =
    keep_legs-Unlinked id status g s rs (upsert_gtt_rule (leg_status id g status r) t)
      (keep_upsert-Unlinked id status g s r t h)

update_legs-Unlinked :
    (id : ℕ) (status g : String) (s : Strategy) (rs : List RuleData) (t : Tables)
    → any (has_strategy s) rs ≡ true
    → Unlinked status g s (update_legs id g status rs t)
unfolding update_legs
update_legs-Unlinked id status g s [] t h = ground arith
update_legs-Unlinked id status g s (r ∷ rs) t h = elim (Bool-cases (has_strategy s r)) [
  | inl own ↦
      keep_legs-Unlinked id status g s rs (upsert_gtt_rule (leg_status id g status r) t)
        (upsert_leg-Unlinked id status g s r t own)
  | inr other ↦
      update_legs-Unlinked id status g s rs (upsert_gtt_rule (leg_status id g status r) t)
        (ground arith)
]

terminal-rules :
    (now id : ℕ) (status : String) (t : Tables)
    → (terminal_status now id status t).gtt_rules ≡ t.gtt_rules
unfolding terminal_status update_signal_status
terminal-rules now id status t = ground arith

reconcile_known-bare :
    (lim : Limits) (now : ℕ) (trades_of : String → Option (List FetchedTrade)) (g : String)
    (legs : List RuleData) (tk : Tracker)
    → reconcile_known lim now trades_of g [] legs tk ≡ tk
unfolding process_items upsert_items
reconcile_known-bare lim now trades_of g [] tk = refl
reconcile_known-bare lim now trades_of g (r ∷ rs) tk = refl

reconcile-bare :
    (lim : Limits) (now : ℕ) (trades_of : String → Option (List FetchedTrade)) (p : GttPayload)
    (g : String) (tk : Tracker)
    → p.gtt_id ≡ some g
    → p.rules ≡ []
    → reconcile_gtt_payload lim now trades_of p tk ≡ tk
unfolding reconcile_gtt_payload
reconcile-bare lim now trades_of p g tk named bare = rw named (
    rw bare
      (reconcile_known-bare lim now trades_of g (get_gtt_rules_by_gtt_order_id g tk.tables) tk))

update_known-Unlinked :
    (lim : Limits) (now : ℕ) (trades_of : String → Option (List FetchedTrade)) (p : GttPayload)
    (g : String) (s : Strategy) (legs : List RuleData) (tk : Tracker)
    → p.gtt_id ≡ some g
    → p.rules ≡ []
    → any (has_strategy s) legs ≡ true
    → Unlinked p.status g s (update_known lim now trades_of g p legs tk).tables
update_known-Unlinked lim now trades_of p g s [] tk named bare there = ground arith
update_known-Unlinked lim now trades_of p g s (r ∷ rs) tk named bare there =
    let t1 = update_legs r.signal_id g p.status (r ∷ rs) tk.tables in
    let tr1 = record tk { tables = terminal_status now r.signal_id p.status t1 } in
    let (x, leg, stat, order) =
      update_legs-Unlinked r.signal_id p.status g s (r ∷ rs) tk.tables there in
    (
      x,
      ap (λ (z : Tracker). find_leg g s z.tables.gtt_rules)
            (reconcile-bare lim now trades_of p g tr1 named bare)
          ∙ ap (find_leg g s) (terminal-rules now r.signal_id p.status t1)
          ∙ leg,
      stat,
      order,
    )

-- A message of a GTT that names no rules takes the order links off its legs: each leg that the table
-- has of it is afterwards there with the status of the message and with no order, whatever order was
-- linked to it before.
pub handle_gtt_update_unlinks :
    (lim : Limits) (now : ℕ) (trades_of : String → Option (List FetchedTrade)) (p : GttPayload)
    (g : String) (s : Strategy) (tk : Tracker)
    → p.gtt_id ≡ some g
    → p.rules ≡ []
    → any (has_strategy s) (get_gtt_rules_by_gtt_order_id g tk.tables) ≡ true
    → Unlinked p.status g s (handle_gtt_update lim now trades_of p tk).tables
handle_gtt_update_unlinks lim now trades_of p g s tk named bare there =
    let legs = get_gtt_rules_by_gtt_order_id g tk.tables in
    let step : handle_gtt_update lim now trades_of p tk
        ≡ update_known lim now trades_of g p legs tk =
      unfold handle_gtt_update in
      ap
        (λ o. elim o [
          | none ↦ tk
          | some gid ↦
              update_known lim now trades_of gid p (get_gtt_rules_by_gtt_order_id gid tk.tables) tk
        ])
        named in
    subst (λ (z : Tracker). Unlinked p.status g s z.tables) (sym step)
      (update_known-Unlinked lim now trades_of p g s legs tk named bare there)
