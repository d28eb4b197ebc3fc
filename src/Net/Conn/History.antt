-- ===== src/Net/Conn/History.antt =====
-- The tracker over any history of connections.
use sourcemud.Base.{
  ℕ, suc, ◌+◌, ◌^◌, ◌≤◌, ◌<◌, ◌≡◌, ◌≢◌, inl, inr, refl, sym, subst, true, false, some, List, [],
  ◌∷◌, arith,
}
use sourcemud.Base.Int.{ℤ, pos, negsuc, pred_ℤ, pred_int, leb_ℤ}
use sourcemud.Base.Lists.{All}
use sourcemud.Base.Tests.{Bool-cases}
use sourcemud.Base.Text.{text_eq_iff}
use sourcemud.Net.Addr.{NetAddr, is_local}
use sourcemud.Net.Conn.{ConnList, Limits, no_conns, add, Event, connects, leaves, run}
use sourcemud.Net.Conn.Adding.{Added, add-Added}
use sourcemud.Net.Conn.Counts.{same_host, conns_of, IsTracked}
use sourcemud.Net.Conn.Removing.{conns_of_same, Removed, remove-Removed}
use sourcemud.Net.Deny.Laws.{IsHost}

abbrev pub host_of : Event → NetAddr
host_of (connects a) = a
host_of (leaves a) = a

-- How many connections a history closes.
abbrev pub removals : List Event → ℕ
removals [] = 0
removals (connects a ∷ es) = removals es
removals (leaves a ∷ es) = suc (removals es)

-- Not above zero, and not below minus a number.
abbrev pub IsLow : ℕ → ℤ → Type 0
IsLow k (pos n) = n ≡ 0
IsLow k (negsuc n) = suc n ≤ k

pred_int-IsLow : (k : ℕ) (n : ℤ) → k < 2 ^ 31 → IsLow k n → IsLow (suc k) (pred_int n)
pred_int-IsLow k (pos n) lt h = ground arith
pred_int-IsLow k (negsuc n) lt h = ground arith

zero_right : (k : ℕ) → k ≡ k + 0
zero_right k = omega arith

IsLow-suc : (k : ℕ) (n : ℤ) → IsLow k n → IsLow (suc k) n
IsLow-suc k (pos n) h = h
IsLow-suc k (negsuc n) h = omega arith

-- Any history of connections of at most 2^31 removals has a result: a tracker with one open entry a
-- host, whose total is never above zero.
pub run-IsTracked :
    (m : Limits) (es : List Event) (l : ConnList) (k : ℕ)
    → All (λ e. IsHost (host_of e)) es
    → IsTracked l.connections
    → IsLow k l.total_conns
    → k + removals es ≤ 2 ^ 31
    → (l' : ConnList) × (run m l es ≡ some l')
      × IsTracked l'.connections
      × IsLow (k + removals es) l'.total_conns
unfolding run
run-IsTracked m [] l k hs v low le =
    (l, refl, v, subst (λ j. IsLow j l.total_conns) (zero_right k) low)
run-IsTracked m (connects a ∷ es) l k hs v low le =
    let (r, e, tracked, added, total) = add-Added m l a hs.0 v in
    let (l', e', tracked', low') = run-IsTracked m es r.0 k hs.1 tracked (rw total low) le in
    (l', rw (e, run) e', tracked', low')
run-IsTracked m (leaves a ∷ es) l k hs v low le =
    let (r, e, tracked, removed) = remove-Removed l a hs.0 v in
    let shift : suc k + removals es ≡ k + suc (removals es) = omega arith in
    let below : IsLow (suc k) r.total_conns = removed_low r removed in
    let (l', e', tracked', low') = run-IsTracked m es r (suc k) hs.1 tracked below (omega arith) in
    (l', rw (e, run) e', tracked', subst (λ j. IsLow j l'.total_conns) shift low')
  where
    removed_low : (r : ConnList) → Removed l a r → IsLow (suc k) r.total_conns
    removed_low r (inl (none_open, same)) = rw same (IsLow-suc k l.total_conns low)
    removed_low r (inr (had, counted, total)) =
        rw total (pred_int-IsLow k l.total_conns (omega arith) low)

-- However many clients connect, none is refused for the number of all clients, since `add` never
-- counts it: with a limit of at least one, no call after any history of at most 2^31 removals
-- returns -1.
pub add_never_full :
    (m : Limits) (n : ℕ) (es : List Event) (l : ConnList) (a : NetAddr)
    → m.max_clients ≡ pos (suc n)
    → All (λ e. IsHost (host_of e)) es
    → removals es ≤ 2 ^ 31
    → run m no_conns es ≡ some l
    → IsHost a
    → (r : ConnList × ℤ) × (add m l a ≡ some r) × (r.1 ≢ negsuc 0)
add_never_full m n es l a limit hs le e h =
    let (l', e', tracked, low) = run-IsTracked m es no_conns 0 hs tt refl (omega arith) in
    let same : l' ≡ l = cc in
    let (r, ran, tracked', added, total) =
      add-Added m l a h (subst (λ (k : ConnList). IsTracked k.connections) same tracked) in
    let low' : IsLow (0 + removals es) l.total_conns =
      subst (λ (k : ConnList). IsLow (0 + removals es) k.total_conns) same low in
    (r, ran, λ full. ground arith)

-- The limit for each host.
abbrev IsWithin : ℤ → ConnList → Type 0
IsWithin max l =
    (a : NetAddr) → IsHost a → is_local a ≡ false → leb_ℤ (conns_of l.connections a) max ≡ true

same_host-is_local :
    (a b : NetAddr) → IsHost a → IsHost b → same_host a b ≡ true → is_local a ≡ is_local b
unfolding is_local
same_host-is_local a b ha hb e = ground (arith, text_eq_iff a.sin_addr b.sin_addr)

add-IsWithin :
    (m : Limits) (n : ℕ) (l : ConnList) (a : NetAddr) (r : ConnList × ℤ)
    → m.max_per_host ≡ pos (suc n)
    → IsHost a
    → Added m l a r
    → IsWithin m.max_per_host l
    → IsWithin m.max_per_host r.0
add-IsWithin m n l a r limit h added within b hb far = elim added [
  | inl (zero_code, counted, room) ↦ elim (Bool-cases (same_host b a)) [
    | inl this ↦
        ground
          (arith, counted b, same_host-is_local b a hb h this, conns_of_same l.connections b a this)
    | inr other ↦ ground (arith, counted b, within b hb far)
  ]
  | inr refused ↦ ground (arith, within b hb far)
]

leb_ℤ-pred_ℤ : (a b : ℤ) → leb_ℤ a b ≡ true → leb_ℤ (pred_ℤ a) b ≡ true
leb_ℤ-pred_ℤ a b h = ground arith

remove-IsWithin :
    (max : ℤ) (l : ConnList) (a : NetAddr) (l' : ConnList)
    → Removed l a l'
    → IsWithin max l
    → IsWithin max l'
remove-IsWithin max l a l' removed within b hb far = elim removed [
  | inl kept ↦ ground (arith, within b hb far)
  | inr (had, counted, total) ↦ elim (Bool-cases (same_host b a)) [
    | inl this ↦
        ground (arith, counted b, leb_ℤ-pred_ℤ (conns_of l.connections b) max (within b hb far))
    | inr other ↦ ground (arith, counted b, within b hb far)
  ]
]

run-IsWithin :
    (m : Limits) (n : ℕ) (es : List Event) (l : ConnList)
    → m.max_per_host ≡ pos (suc n)
    → All (λ e. IsHost (host_of e)) es
    → IsTracked l.connections
    → IsWithin m.max_per_host l
    → (l' : ConnList) × (run m l es ≡ some l')
      × IsTracked l'.connections
      × IsWithin m.max_per_host l'
unfolding run
run-IsWithin m n [] l limit hs v within = (l, refl, v, within)
run-IsWithin m n (connects a ∷ es) l limit hs v within =
    let (r, e, tracked, added, total) = add-Added m l a hs.0 v in
    let (l', e', v', within') =
      run-IsWithin m n es r.0 limit hs.1 tracked (add-IsWithin m n l a r limit hs.0 added within) in
    (l', rw (e, run) e', v', within')
run-IsWithin m n (leaves a ∷ es) l limit hs v within =
    let (r, e, tracked, removed) = remove-Removed l a hs.0 v in
    let (l', e', v', within') =
      run-IsWithin m n es r limit hs.1 tracked
        (remove-IsWithin m.max_per_host l a r removed within) in
    (l', rw (e, run) e', v', within')

no_conns-IsWithin : (n : ℕ) → IsWithin (pos n) no_conns
unfolding conns_of
no_conns-IsWithin n a h far = ground arith

-- With a limit for a host of at least one, any history of connections has a result, in which no host
-- but a local one has more connections than that limit.
pub host_limit :
    (m : Limits) (n : ℕ) (es : List Event) (a : NetAddr)
    → m.max_per_host ≡ pos (suc n)
    → All (λ e. IsHost (host_of e)) es
    → IsHost a
    → is_local a ≡ false
    → (l : ConnList) × (run m no_conns es ≡ some l)
      × (leb_ℤ (conns_of l.connections a) m.max_per_host ≡ true)
host_limit m n es a limit hs h far =
    let start = subst (λ k. IsWithin k no_conns) (sym limit) (no_conns-IsWithin (suc n)) in
    let (l, e, tracked, within) = run-IsWithin m n es no_conns limit hs tt start in
    (l, e, within a h far)
