-- ===== src/First/Monitor/Subscriptions.antt =====
-- The instruments that the monitor is subscribed to.
use upstox_gtt.Common.{
  ◌≡◌, Bool, ◌&&◌, ◌||◌, List, [], ◌∷◌, ◌++◌, String, str_eq, eq_iff, refl, ap, ◌∙◌, arith, keep,
  Bool-cases, inl, inr,
}
use upstox_gtt.First.Monitor.{
  Watched, Monitor, key_of, watches, has_key, new_keys, rebuild_cache, refresh,
}

has_key-keep :
    (k : String) (p : String → Bool) (l : List String) → has_key k (keep p l) ≡ (has_key k l && p k)
has_key-keep k p [] = refl
has_key-keep k p (j ∷ l) = elim (Bool-cases (str_eq j k)) [
  | inl same ↦
      let eq : p j ≡ p k = ap p ((eq_iff j k).0 same) in
      ground (arith, same, eq, has_key-keep k p l)
  | inr other ↦ ground (arith, other, has_key-keep k p l)
]

has_key-append :
    (k : String) (a b : List String) → has_key k (a ++ b) ≡ (has_key k a || has_key k b)
has_key-append k [] b = refl
has_key-append k (j ∷ a) b = ground (arith, has_key-append k a b)

-- The new keys and the known ones are those of the cache and the known ones.
has_key-new_keys :
    (k : String) (ws : List Watched) (known : List String)
    → (has_key k known || has_key k (new_keys ws known)) ≡ (has_key k known || watches ws k)
unfolding new_keys
has_key-new_keys k [] known = refl
has_key-new_keys k (w ∷ ws) known = elim (Bool-cases (has_key (key_of w) known)) [
  | inl old ↦ elim (Bool-cases (str_eq (key_of w) k)) [
    | inl same ↦
        let eq : has_key (key_of w) known ≡ has_key k known =
          ap (λ x. has_key x known) ((eq_iff (key_of w) k).0 same) in
        ground (arith, old, same, eq, has_key-new_keys k ws known)
    | inr other ↦ ground (arith, old, other, has_key-new_keys k ws known)
  ]
  | inr new ↦ ground (arith, new, has_key-new_keys k ws (key_of w ∷ known))
]

-- After a refresh the monitor is subscribed to exactly the instruments of the signals that it then
-- watches, whatever it was subscribed to.
pub refresh_subscribes :
    (k : String) (m : Monitor) → has_key k (refresh m).subscribed ≡ watches (refresh m).cache k
unfolding refresh
refresh_subscribes k m =
    let m1 = rebuild_cache m in
    has_key-keep k (watches m1.cache) (m1.subscribed ++ new_keys m1.cache m1.subscribed)
    ∙ ground (
      arith,
      has_key-append k m1.subscribed (new_keys m1.cache m1.subscribed),
      has_key-new_keys k m1.cache m1.subscribed,
    )
