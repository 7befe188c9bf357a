-- ===== src/Ingestor/Once.antt =====
-- gtt_v2/services/signal_ingestor/telegram_listener.py: a message that is delivered again.
use upstox_gtt.Common.{
  ℕ, suc, ◌+◌, ◌≤◌, ◌<◌, ◌≡◌, inl, inr, ℤ, true, List, [], ◌∷◌, ◌++◌, String, refl, arith,
  if◌then◌else◌, Bool-cases, All, is_blank, strip,
}
use upstox_gtt.Signal.Parser.{Message}
use upstox_gtt.Ingestor.{
  MessageKey, same_message, Answer, raised, no_signal, found, Ingestor, Delivery, held, remembered,
  should_skip, publish, handle_new, handle_message, handle_messages,
}

-- How often a signal of a message was put into the stream.
unfoldable pub published : MessageKey → List (MessageKey × Message) → ℕ
published k [] = 0
published k ((j, m) ∷ l) = let rest = published k l in if same_message j k then suc rest else rest

published-append :
    (k j : MessageKey) (m : Message) (l : List (MessageKey × Message))
    → published k (l ++ ((j, m) ∷ []))
      ≡ (if same_message j k then suc (published k l) else published k l)
unfolding published
published-append k j m [] = refl
published-append k j m ((i, n) ∷ l) = ground (arith, published-append k j m l)

-- The key of a message that is held at an instant was held before, and for the same message.
held_before :
    (now end : ℕ) (k j : MessageKey) (seen : List (MessageKey × ℕ))
    → now ≤ end
    → same_message j k ≡ true
    → held end k seen ≡ true
    → held now j seen ≡ true
held_before now end k j [] early same h = h
held_before now end k j (x ∷ seen) early same h =
    ground (arith, held_before now end k j seen early same)

-- Whether the day after a delivery reaches an instant.
abbrev pub DayCovers : ℕ → Delivery → Type 0
DayCovers end d = (d.now ≤ end) × (end < d.now + 86_400_000)

-- Nothing was published of a message before its key was set, and at most once after.
abbrev pub OnceBy : ℕ → MessageKey → Ingestor → Type 0
OnceBy end k s = published k s.stream ≤ (if held end k s.seen then 1 else 0)

module _ (parse : String → Answer) (show_price show_int : ℤ → String) where
  publish-published :
      (k : MessageKey) (d : Delivery) (a : Answer) (s : Ingestor)
      → published k (publish parse show_price show_int d a s).stream
        ≤ (if same_message d.key k then suc (published k s.stream) else published k s.stream)
  publish-published k d raised s = ground arith
  publish-published k d no_signal s = ground arith
  publish-published k d (found t) s = rw (published-append k d.key _ s.stream) (ground arith)

  publish-seen :
      (d : Delivery) (a : Answer) (s : Ingestor)
      → (publish parse show_price show_int d a s).seen ≡ s.seen
  publish-seen d raised s = refl
  publish-seen d no_signal s = refl
  publish-seen d (found t) s = refl

  -- A new message: its signal is published at most once more.
  handle_new-published :
      (k : MessageKey) (d : Delivery) (s : Ingestor)
      → (published k (handle_new parse show_price show_int d s).stream
          ≤ (if same_message d.key k then suc (published k s.stream) else published k s.stream))
        × ((handle_new parse show_price show_int d s).seen ≡ s.seen)
  handle_new-published k d s = elim (Bool-cases (should_skip d.text)) [
    | inl noise ↦ rw noise (ground arith, refl)
    | inr kept ↦ rw kept (publish-published k d (parse d.text) _, publish-seen d (parse d.text) _)
  ]

  handle-OnceBy :
      (end : ℕ) (k : MessageKey) (d : Delivery) (s : Ingestor)
      → DayCovers end d
      → OnceBy end k s
      → OnceBy end k (handle_message parse show_price show_int d s)
  unfolding handle_message
  handle-OnceBy end k d s (early, late) once = elim (Bool-cases (is_blank (strip d.text))) [
    | inl blank ↦ rw blank once
    | inr text ↦ elim (Bool-cases (held d.now d.key s.seen)) [
      | inl again ↦ rw (text, again) once
      | inr new ↦
          let s1 = record s { seen = remembered d.now d.key s.seen } in
          let (more, kept) = handle_new-published k d s1 in
          rw (text, new)
            (rw kept (elim (Bool-cases (same_message d.key k)) [
              | inl same ↦
                  let before = held_before d.now end k d.key s.seen early same in
                  ground (arith, same, before, new, more, once, late)
              | inr other ↦ ground (arith, other, more, once)
            ]))
    ]
  ]

  handle-All-OnceBy :
      (end : ℕ) (k : MessageKey) (ds : List Delivery) (s : Ingestor)
      → All (DayCovers end) ds
      → OnceBy end k s
      → OnceBy end k (handle_messages parse show_price show_int ds s)
  unfolding handle_messages
  handle-All-OnceBy end k [] s days once = once
  handle-All-OnceBy end k (d ∷ ds) s (day, days) once =
      handle-All-OnceBy end k ds (handle_message parse show_price show_int d s) days
        (handle-OnceBy end k d s day once)

  -- However often a message of Telegram is delivered, also with another text, its signal is put into the
  -- stream at most once, if nothing was published before, and there is an instant that no delivery is
  -- after and that is less than a day after each of them.
  pub handle_messages_once :
      (end : ℕ) (k : MessageKey) (ds : List Delivery) (s : Ingestor)
      → All (DayCovers end) ds
      → s.stream ≡ []
      → published k (handle_messages parse show_price show_int ds s).stream ≤ 1
  handle_messages_once end k ds s days none_yet =
      ground
        (arith, handle-All-OnceBy end k ds s days (unfold published in ground (arith, none_yet)))
