-- ===== src/Net/Conn/Counts.antt =====
-- The tracker as a count for each host, and the scan of `IPConnList::add`.
use sourcemud.Base.{
  ◌∙◌, ◌≤◌, ◌≡◌, ◌⊎◌, inl, inr, refl, sym, Bool, true, false, not, ◌&&◌, some, List, [], ◌∷◌, arith,
}
use sourcemud.Base.Int.{ℤ, pos, negsuc, suc_ℤ, leb_ℤ, is_zero}
use sourcemud.Base.Tests.{if◌then◌else◌, Bool-cases}
use sourcemud.Base.Text.{text_eq, text_eq_iff}
use sourcemud.Net.Addr.{NetAddr, is_local}
use sourcemud.Net.Conn.{IpTrack, Scan, absent, full, bumped, scan_cons, scan_here, scan_add}
use sourcemud.Net.Deny.Laws.{IsHost, addrcmp-text_eq}

abbrev pub same_host : NetAddr → NetAddr → Bool
same_host a b = text_eq a.sin_addr b.sin_addr

-- The connections of a host.
unfoldable pub conns_of : List IpTrack → NetAddr → ℤ
conns_of [] a = pos 0
conns_of (t ∷ ts) a = if same_host a t.addr then t.conns else conns_of ts a

abbrev pub IsOpen : ℤ → Type 0
IsOpen (pos n) = 1 ≤ n
IsOpen (negsuc n) = ⊥

-- Each host has one entry, and connections.
abbrev pub IsTracked : List IpTrack → Type 0
IsTracked [] = Unit
IsTracked (t ∷ ts) = IsHost t.addr × IsOpen t.conns × (conns_of ts t.addr ≡ pos 0) × IsTracked ts

abbrev pub CountedOne : (ℤ → ℤ) → NetAddr → List IpTrack → List IpTrack → Type 0
CountedOne f a ts ts' =
    (b : NetAddr) → conns_of ts' b ≡ (if same_host b a then f (conns_of ts b) else conns_of ts b)

-- What the scan of `add` has found out.
abbrev pub Scans : ℤ → NetAddr → List IpTrack → Scan → Type 0
Scans max a ts absent = conns_of ts a ≡ pos 0
Scans max a ts full =
    (is_local a ≡ false) × (leb_ℤ max (conns_of ts a) ≡ true) × IsOpen (conns_of ts a)
Scans max a ts (bumped ts') =
    IsTracked ts'
    × CountedOne suc_ℤ a ts ts'
    × ((is_local a ≡ true) ⊎ (leb_ℤ max (conns_of ts a) ≡ false))

pub same_host_refl : (a : NetAddr) → same_host a a ≡ true
same_host_refl a = (text_eq_iff a.sin_addr a.sin_addr).1 refl

-- Hosts that are the same are the same to every host.
pub same_host_trans : (a b c : NetAddr) → same_host a b ≡ true → same_host c a ≡ same_host c b
same_host_trans a b c h = rw ((text_eq_iff a.sin_addr b.sin_addr).0 h)

-- A host is not the same as two that differ.
pub same_host_apart :
    (a b t : NetAddr) → same_host a t ≡ false → same_host b t ≡ true → same_host b a ≡ false
same_host_apart a b t h k = ground (
  arith,
  text_eq_iff a.sin_addr t.sin_addr,
  text_eq_iff b.sin_addr t.sin_addr,
  text_eq_iff b.sin_addr a.sin_addr,
)

IsOpen-suc_ℤ : (n : ℤ) → IsOpen n → IsOpen (suc_ℤ n)
IsOpen-suc_ℤ n h = ground arith

scan_here-Scans :
    (max : ℤ) (a : NetAddr) (t : IpTrack) (ts : List IpTrack)
    → IsTracked (t ∷ ts)
    → same_host a t.addr ≡ true
    → Scans max a (t ∷ ts) (scan_here (is_local a) max t ts)
unfolding scan_here conns_of
scan_here-Scans max a t ts v h = elim (Bool-cases (not (is_local a) && leb_ℤ max t.conns)) [
  | inl over ↦ rw (over, h, scan_here) (ground arith, ground arith, v.1)
  | inr room ↦
      rw (room, scan_here)
        (
          (v.0, IsOpen-suc_ℤ t.conns v.1, v.2, v.3),
          λ b. ground (arith, same_host_trans a t.addr b h),
          ground arith,
        )
]

scan_cons-Scans :
    (max : ℤ) (a : NetAddr) (t : IpTrack) (ts : List IpTrack) (s : Scan)
    → IsTracked (t ∷ ts)
    → same_host a t.addr ≡ false
    → Scans max a ts s
    → Scans max a (t ∷ ts) (scan_cons t s)
unfolding conns_of
scan_cons-Scans max a t ts absent v h k = rw h k
scan_cons-Scans max a t ts full v h k = rw h k
scan_cons-Scans max a t ts (bumped us) v h (tracked, counted, room) =
    let apart = same_host_apart a t.addr t.addr h (same_host_refl t.addr) in
    (
      (v.0, v.1, counted t.addr ∙ rw apart v.2, tracked),
      λ b. elim (Bool-cases (same_host b t.addr)) [
        | inl this ↦ rw (this, same_host_apart a b t.addr h this)
        | inr other ↦ rw other (counted b)
      ],
      rw h room,
    )

pub scan_add-Scans :
    (max : ℤ) (a : NetAddr) (ts : List IpTrack)
    → IsHost a
    → IsTracked ts
    → (s : Scan) × (scan_add max a ts ≡ some s) × Scans max a ts s
unfolding scan_add conns_of
scan_add-Scans max a [] h v = (absent, refl, refl)
scan_add-Scans max a (t ∷ ts) h v =
    let (s, e, k) = scan_add-Scans max a ts h v.3 in
    let (sign, cmp, z) = addrcmp-text_eq a t.addr h v.0 in
    elim (Bool-cases (is_zero sign)) [
      | inl hit ↦ (
        scan_here (is_local a) max t ts,
        rw (cmp, hit),
        scan_here-Scans max a t ts v (sym z ∙ hit),
      )
      | inr miss ↦
          (scan_cons t s, rw (cmp, miss, e), scan_cons-Scans max a t ts s v (sym z ∙ miss) k)
    ]
