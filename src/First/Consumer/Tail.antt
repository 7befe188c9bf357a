-- ===== src/First/Consumer/Tail.antt =====
-- The position in the stream: what `XREAD` with `last_id` gives, call after call. A stream is the list of the
-- ids of its messages, in their order.
use upstox_gtt.Common.{
  ℕ, zero, suc, ◌≤◌, ◌<◌, ◌≡◌, false, List, [], ◌∷◌, ◌++◌, refl, arith, if_elim, ltb, keep, All,
  All-append,
}
use upstox_gtt.First.Consumer.{Cursor, tail, after, has_id}

abbrev pub batch : ℕ
batch = 10

unfoldable pub take : ℕ → List ℕ → List ℕ
take zero l = []
take (suc n) [] = []
take (suc n) (x ∷ l) = x ∷ take n l

-- The reader, and the ids that were given to it.
pub record Reader : Type 0 where
  pub stream : List ℕ
  pub last_id : Cursor
  pub delivered : List ℕ

-- What `XREAD` gives: behind "$" only what is added during the call, else all that is behind the id; and
-- at most ten messages.
abbrev pub xread : Cursor → List ℕ → List ℕ → List ℕ
xread tail old arriving = take batch arriving
xread (after n) old arriving = take batch (keep (ltb n) (old ++ arriving))

abbrev pub last_of : Cursor → List ℕ → Cursor
last_of c [] = c
last_of c (x ∷ l) = last_of (after x) l

-- Messages that are added between two calls, and a call during which messages are added.
pub data Step : Type 0 where
  between : List ℕ → Step
  call : List ℕ → Step

unfoldable pub advance : Step → Reader → Reader
unfolding take
advance (between ms) r = record r { stream = r.stream ++ ms }
advance (call ms) r =
    let got = xread r.last_id r.stream ms in
    record {
      stream = r.stream ++ ms;
      last_id = last_of r.last_id got;
      delivered = r.delivered ++ got;
    }

unfoldable pub advance_all : List Step → Reader → Reader
unfolding advance
advance_all [] r = r
advance_all (s ∷ ss) r = advance_all ss (advance s r)

abbrev pub added : Step → List ℕ
added (between ms) = ms
added (call ms) = ms

abbrev pub Above : ℕ → List ℕ → Type 0
Above b = All (λ m. b < m)

-- The position is behind the id `b`.
abbrev pub Behind : ℕ → Cursor → Type 0
Behind b tail = Unit
Behind b (after n) = b ≤ n

take-Above : (b n : ℕ) (l : List ℕ) → Above b l → Above b (take n l)
unfolding take
take-Above b zero l h = tt
take-Above b (suc n) [] h = tt
take-Above b (suc n) (x ∷ l) (h, hs) = (h, take-Above b n l hs)

keep-Above : (b n : ℕ) (l : List ℕ) → b ≤ n → Above b (keep (ltb n) l)
keep-Above b n [] h = tt
keep-Above b n (x ∷ l) h =
    if_elim (Above b) (ltb n x) (λ lt. (ground arith, keep-Above b n l h))
      (λ ge. keep-Above b n l h)

xread-Above :
    (b : ℕ) (c : Cursor) (old arriving : List ℕ)
    → Behind b c
    → Above b arriving
    → Above b (xread c old arriving)
xread-Above b tail old arriving h new = take-Above b batch arriving new
xread-Above b (after n) old arriving h new =
    take-Above b batch (keep (ltb n) (old ++ arriving)) (keep-Above b n (old ++ arriving) h)

last_of-Behind : (b : ℕ) (c : Cursor) (l : List ℕ) → Behind b c → Above b l → Behind b (last_of c l)
last_of-Behind b c [] h new = h
last_of-Behind b c (x ∷ l) h (lt, new) = last_of-Behind b (after x) l (omega arith) new

advance_all-Above :
    (b : ℕ) (ss : List Step) (r : Reader)
    → Behind b r.last_id
    → Above b r.delivered
    → All (λ s. Above b (added s)) ss
    → Above b (advance_all ss r).delivered
unfolding advance_all
advance_all-Above b [] r h d new = d
advance_all-Above b (between ms ∷ ss) r h d (n, ns) = advance_all-Above b ss _ h d ns
advance_all-Above b (call ms ∷ ss) r h d (n, ns) =
    let got = xread-Above b r.last_id r.stream ms h n in
    advance_all-Above b ss _ (last_of-Behind b r.last_id _ h got)
      (All-append (λ m. b < m) r.delivered _ d got) ns

missing : (b m : ℕ) (l : List ℕ) → m ≤ b → Above b l → has_id m l ≡ false
missing b m [] h k = refl
missing b m (x ∷ l) h (lt, k) = ground (arith, missing b m l h k)

All-missing :
    (b : ℕ) (ms l : List ℕ) → All (λ m. m ≤ b) ms → Above b l → All (λ m. has_id m l ≡ false) ms
All-missing b [] l h k = tt
All-missing b (m ∷ ms) l (h, hs) k = (missing b m l h k, All-missing b ms l hs k)

-- A reader at "$" that was given nothing yet.
abbrev pub at_tail : List ℕ → Reader
at_tail stream = record { stream = stream; last_id = tail; delivered = [] }

-- While nothing has been read since a start at "$", the messages that are added between two calls are never
-- delivered, by whatever calls follow, if the messages that are added later have larger ids.
pub tail_misses :
    (b : ℕ) (ms : List ℕ) (ss : List Step) (stream : List ℕ)
    → All (λ m. m ≤ b) ms
    → All (λ s. Above b (added s)) ss
    → All (λ m. has_id m (advance_all (between ms ∷ ss) (at_tail stream)).delivered ≡ false) ms
unfolding advance_all
tail_misses b ms ss stream old new =
    let r = advance (between ms) (at_tail stream) in
    All-missing b ms (advance_all ss r).delivered old (advance_all-Above b ss r tt tt new)
