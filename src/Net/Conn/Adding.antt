-- ===== src/Net/Conn/Adding.antt =====
-- `IPConnList::add` as an operation on the counts of hosts.
use native.Mathlib.Nat.{le_refl}
use sourcemud.Base.{
  ◌∙◌, ◌≡◌, ◌⊎◌, inl, inr, refl, true, false, not, ◌&&◌, some, List, [], ◌∷◌, ◌++◌, arith,
}
use sourcemud.Base.Int.{ℤ, pos, negsuc, suc_ℤ, leb_ℤ}
use sourcemud.Base.Tests.{Bool-cases}
use sourcemud.Net.Addr.{NetAddr, is_local}
use sourcemud.Net.Conn.{IpTrack, ConnList, Limits, Scan, absent, full, bumped, finish_add, add}
use sourcemud.Net.Deny.Laws.{IsHost}
use sourcemud.Net.Conn.Counts.{
  same_host, conns_of, IsOpen, IsTracked, CountedOne, Scans, same_host_refl, same_host_apart,
  scan_add-Scans,
}

absent_apart :
    (a : NetAddr) (t : IpTrack) (ts : List IpTrack)
    → IsOpen t.conns
    → conns_of (t ∷ ts) a ≡ pos 0
    → (same_host a t.addr ≡ false) × (conns_of ts a ≡ pos 0)
unfolding conns_of
absent_apart a t ts h e = elim (Bool-cases (same_host a t.addr)) [
  | inl this ↦ absurd (ground (arith, this))
  | inr other ↦ (other, rw other at e)
]

-- A new entry at the end counts one connection of its host.
append-CountedOne :
    (a : NetAddr) (ts : List IpTrack)
    → IsTracked ts
    → conns_of ts a ≡ pos 0
    → CountedOne suc_ℤ a ts (ts ++ (record { addr = a; conns = pos 1 } ∷ []))
unfolding conns_of
append-CountedOne a [] v e b = refl
append-CountedOne a (t ∷ ts) v e b =
    let (apart, rest) = absent_apart a t ts v.1 e in
    elim (Bool-cases (same_host b t.addr)) [
      | inl this ↦ rw (this, same_host_apart a b t.addr apart this)
      | inr other ↦ rw other (append-CountedOne a ts v.3 rest b)
    ]

append-IsTracked :
    (a : NetAddr) (ts : List IpTrack)
    → IsHost a
    → IsTracked ts
    → conns_of ts a ≡ pos 0
    → IsTracked (ts ++ (record { addr = a; conns = pos 1 } ∷ []))
unfolding conns_of
append-IsTracked a [] h v e = (h, le_refl 1, refl, tt)
append-IsTracked a (t ∷ ts) h v e =
    let (apart, rest) = absent_apart a t ts v.1 e in
    let apart' = same_host_apart a t.addr t.addr apart (same_host_refl t.addr) in
    (
      v.0,
      v.1,
      append-CountedOne a ts v.3 rest t.addr ∙ rw apart' v.2,
      append-IsTracked a ts h v.3 rest,
    )

-- The outcome of `add`: one more connection of the host and 0, or no change, -1 where the total is
-- at its limit, or -2 where the host is; local hosts meet no limit.
abbrev pub Added : Limits → ConnList → NetAddr → ConnList × ℤ → Type 0
Added m l a (l', code) =
    ((code ≡ pos 0)
      × CountedOne suc_ℤ a l.connections l'.connections
      × ((is_local a ≡ true)
          ⊎ ((leb_ℤ m.max_clients l.total_conns ≡ false)
              × ((conns_of l.connections a ≡ pos 0)
                  ⊎ (leb_ℤ m.max_per_host (conns_of l.connections a) ≡ false)))))
    ⊎ ((code ≡ negsuc 0)
        × (l' ≡ l)
        × (is_local a ≡ false)
        × (leb_ℤ m.max_clients l.total_conns ≡ true))
    ⊎ ((code ≡ negsuc 1)
        × (l' ≡ l)
        × (is_local a ≡ false)
        × (leb_ℤ m.max_per_host (conns_of l.connections a) ≡ true))

finish_add-Added :
    (m : Limits) (l : ConnList) (a : NetAddr) (s : Scan)
    → IsHost a
    → IsTracked l.connections
    → not (is_local a) && leb_ℤ m.max_clients l.total_conns ≡ false
    → Scans m.max_per_host a l.connections s
    → IsTracked (finish_add l a s).0.connections × Added m l a (finish_add l a s)
unfolding finish_add
finish_add-Added m l a absent h v room k = (
  append-IsTracked a l.connections h v k,
  inl (refl, append-CountedOne a l.connections v k, ground arith),
)
finish_add-Added m l a full h v room k = (v, inr (inr (refl, refl, k.0, k.1)))
finish_add-Added m l a (bumped ts) h v room k = (k.0, inl (refl, k.1, ground arith))

finish_add_total :
    (l : ConnList) (a : NetAddr) (s : Scan) → (finish_add l a s).0.total_conns ≡ l.total_conns
unfolding finish_add
finish_add_total l a absent = refl
finish_add_total l a full = refl
finish_add_total l a (bumped ts) = refl

-- On a tracker with one open entry a host, `add` answers and keeps it so; it counts exactly one
-- more connection of the host, or refuses with the code of the limit that the host is at. The
-- total stays as it was in every case.
pub add-Added :
    (m : Limits) (l : ConnList) (a : NetAddr)
    → IsHost a
    → IsTracked l.connections
    → (r : ConnList × ℤ) × (add m l a ≡ some r)
      × IsTracked r.0.connections
      × Added m l a r
      × (r.0.total_conns ≡ l.total_conns)
unfolding add
add-Added m l a h v = elim (Bool-cases (not (is_local a) && leb_ℤ m.max_clients l.total_conns)) [
  | inl over ↦ ((l, negsuc 0), rw over, v, inr (inl (refl, refl, ground arith, ground arith)), refl)
  | inr room ↦
      let (s, e, k) = scan_add-Scans m.max_per_host a l.connections h v in
      let (tracked, added) = finish_add-Added m l a s h v room k in
      (finish_add l a s, rw (room, e), tracked, added, finish_add_total l a s)
]
