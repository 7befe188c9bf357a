-- ===== src/First/Consumer.antt =====
-- gtt_strategy.py: the consumer of the stream. A message's id is a number, in the order of the stream, with
-- its text; what Redis and the network do at each message is given.
use Prim.Native.Char.{Char}
pub mod Once
pub mod Restarts
pub mod Tail
use upstox_gtt.Common.{
  ℕ, zero, suc, ◌+◌, ◌-◌, ◌==◌, ℤ, Bool, true, false, not, ◌&&◌, ◌||◌, Option, none, some, List, [],
  ◌∷◌, ◌++◌, String, str_eq, if◌then◌else◌, is_empty, any, ltb, leb, length, get_or, keep, lower,
  strip,
}
use upstox_gtt.Signal.Parser.{Message}
use upstox_gtt.First.Signals.{Signal, parse_message_to_signal}
use upstox_gtt.First.Instruments.{InstrumentCache}
use upstox_gtt.First.Orders.{
  Payload, Reply, Result, placed, refused, http_error, error, Surroundings, Outcome,
  place_gtt_order,
}
use upstox_gtt.First.Metadata.{Metadata, Storage, enqueue_or_store, work}

-- `last_id`: "$", or the id of a message.
pub data Cursor : Type 0 where
  tail : Cursor
  after : ℕ → Cursor

-- `REDIS_START_FROM`, and the id that an earlier run stored.
unfoldable pub start_cursor : String → Option ℕ → Cursor
unfolding lower strip
start_cursor policy stored =
    let p = lower (strip policy) in
    if str_eq p "$" || str_eq p "tail" || str_eq p "new"
    then tail
    else if str_eq p "0" || str_eq p "head"
    then after 0
    else elim stored [ none ↦ tail | some id ↦ after id ]

pub record Config : Type 0 where
  pub delimiter : Char
  pub strict : Bool
  pub to_float : String → Option ℤ
  pub default_quantity : ℤ
  pub async_metadata : Bool
  pub summary : Signal → String
  pub id_text : ℕ → String
  pub surroundings : Surroundings

-- A message, and what its handling meets: the network, whether the look-up in the set of processed ids
-- succeeds, how many of the commands that track it do, and the time.
pub record Delivery : Type 0 where
  pub id : ℕ
  pub fields : Message
  pub net : ℕ → Reply
  pub zscore_ok : Bool
  pub tracked : ℕ
  pub now : ℕ

-- The consumer, with the keys of Redis that it keeps and the ids for which it called `place_gtt_order_upstox`.
pub record Consumer : Type 0 where
  pub last_id : Cursor
  pub processed_ids : List ℕ
  pub zset : List (ℕ × ℕ)
  pub last_key : Option ℕ
  pub cache : InstrumentCache
  pub placements : List (ℕ × List Payload)
  pub queue : List Metadata
  pub storage : Storage

abbrev pub has_id : ℕ → List ℕ → Bool
has_id id = any (λ n. n == id)

-- `ZSCORE key id`, as whether there is a score.
abbrev pub scored : ℕ → List (ℕ × ℕ) → Bool
scored id = any (λ x. x.0 == id)

abbrev pub without : ℕ → List (ℕ × ℕ) → List (ℕ × ℕ)
without id = keep (λ x. not (x.0 == id))

-- A member goes behind those of a lower score, or of the same score and a lower id.
unfoldable pub insert_ranked : ℕ × ℕ → List (ℕ × ℕ) → List (ℕ × ℕ)
insert_ranked x [] = x ∷ []
insert_ranked (id, score) ((j, s) ∷ l) =
    let rest = insert_ranked (id, score) l in
    if ltb s score || (s == score && ltb j id) then (j, s) ∷ rest else (id, score) ∷ (j, s) ∷ l

-- `ZADD`: the score of a member is replaced.
unfoldable pub zadd : ℕ → ℕ → List (ℕ × ℕ) → List (ℕ × ℕ)
unfolding insert_ranked
zadd id score l = insert_ranked (id, score) (without id l)

unfoldable pub drop_first : ℕ → List (ℕ × ℕ) → List (ℕ × ℕ)
drop_first zero l = l
drop_first (suc n) [] = []
drop_first (suc n) (x ∷ l) = drop_first n l

abbrev pub processed_zset_max : ℕ
processed_zset_max = 10_000

-- `ZREMRANGEBYRANK key 0 (count - max - 1)`, if there are more than `max`.
unfoldable pub trim : List (ℕ × ℕ) → List (ℕ × ℕ)
unfolding drop_first
trim l =
    if ltb processed_zset_max (length l) then drop_first (length l - processed_zset_max) l else l

-- The commands that track a message: as many as succeed.
unfoldable pub track : ℕ → ℕ → ℕ → Consumer → Consumer
unfolding zadd trim
track zero id now c = c
track (suc zero) id now c = record c { zset = zadd id now c.zset }
track (suc (suc zero)) id now c = record c { zset = zadd id now c.zset; last_key = some id }
track _ id now c = record c { zset = trim (zadd id now c.zset); last_key = some id }

abbrev pub result_metadata : String → Signal → Result → Metadata
result_metadata id s (placed ids key ltp p) = record {
  message_id = id;
  signal = some s;
  status = "success";
  gtt_ids = get_or [] ids;
  instrument_key = key;
  ltp_at_placement = ltp;
  gtt_request_payload = some p;
}
result_metadata id s _ = record {
  message_id = id;
  signal = some s;
  status = "failed";
  gtt_ids = [];
  instrument_key = "";
  ltp_at_placement = none;
  gtt_request_payload = none;
}

abbrev pub parse_error : String → Metadata
parse_error id = record {
  message_id = id;
  signal = none;
  status = "parse_error";
  gtt_ids = [];
  instrument_key = "";
  ltp_at_placement = none;
  gtt_request_payload = none;
}

module _ (cfg : Config) where
  abbrev pub keep_metadata : ℕ → Metadata → Consumer → Consumer
  keep_metadata now m c =
      let (queue, storage) =
        enqueue_or_store cfg.summary cfg.async_metadata now m (c.queue, c.storage) in
      record c { queue = queue; storage = storage }

  abbrev pub skip : ℕ → Consumer → Consumer
  skip id c = record c { last_id = after id }

  abbrev pub placed_state : Delivery → Signal → Outcome → Consumer → Consumer
  placed_state d s o c =
      keep_metadata d.now (result_metadata (cfg.id_text d.id) s o.result)
        (record c { cache = o.cache; placements = (d.id, o.posts) ∷ c.placements })

  -- A new message: an unreadable one is only stored; the others are placed, stored and tracked.
  abbrev pub handle_new : Delivery → Option Signal → Consumer → Consumer
  handle_new d none c = skip d.id (keep_metadata d.now (parse_error (cfg.id_text d.id)) c)
  handle_new d (some s) c =
      track d.tracked d.id d.now
        (skip d.id (placed_state d s (place_gtt_order cfg.surroundings d.net s c.cache) c))

  -- The body of the loop.
  unfoldable pub handle : Delivery → Consumer → Consumer
  unfolding track enqueue_or_store
  handle d c =
      if has_id d.id c.processed_ids
      then skip d.id c
      else if d.zscore_ok && scored d.id c.zset
      then skip d.id c
      else handle_new d
          (parse_message_to_signal cfg.to_float cfg.default_quantity cfg.delimiter cfg.strict
            d.fields)
          (record c { processed_ids = d.id ∷ c.processed_ids })

  unfoldable pub handle_all : List Delivery → Consumer → Consumer
  unfolding handle
  handle_all [] c = c
  handle_all (d ∷ ds) c = handle_all ds (handle d c)

  -- A start: what Redis and the tables hold stays; the memory is new.
  unfoldable pub restart : String → InstrumentCache → Consumer → Consumer
  unfolding start_cursor
  restart policy cache c = record c {
    last_id = start_cursor policy c.last_key;
    processed_ids = [];
    cache = cache;
    queue = [];
  }

  -- A round of the worker that stores the metadata.
  unfoldable pub worker : ℕ → Consumer → Consumer
  unfolding work
  worker now c =
      let (queue, storage) = work cfg.summary now (c.queue, c.storage) in
      record c { queue = queue; storage = storage }
