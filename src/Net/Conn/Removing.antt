-- ===== src/Net/Conn/Removing.antt =====
-- `IPConnList::remove` as an operation on the counts of hosts.
use sourcemud.Base.{
  ◌∙◌, ◌≡◌, ◌⊎◌, inl, inr, refl, sym, true, false, Option, none, some, List, [], ◌∷◌, arith,
}
use sourcemud.Base.Int.{ℤ, pos, pred_ℤ, pred_int, is_zero}
use sourcemud.Base.Options.{◌>>=◌}
use sourcemud.Base.Tests.{Bool-cases}
use sourcemud.Base.Text.{text_eq_iff}
use sourcemud.Net.Addr.{NetAddr}
use sourcemud.Net.Conn.{IpTrack, ConnList, drop_here, scan_remove, finish_remove, remove}
use sourcemud.Net.Deny.Laws.{IsHost, addrcmp-text_eq}
use sourcemud.Net.Conn.Counts.{
  same_host, conns_of, IsOpen, IsTracked, CountedOne, same_host_refl, same_host_trans,
  same_host_apart,
}

-- What the scan of `remove` has found: no entry, or the list with one connection less.
abbrev Drops : NetAddr → List IpTrack → Option (List IpTrack) → Type 0
Drops a ts none = conns_of ts a ≡ pos 0
Drops a ts (some ts') = IsTracked ts' × CountedOne pred_ℤ a ts ts' × IsOpen (conns_of ts a)

pub conns_of_same :
    (ts : List IpTrack) (b c : NetAddr) → same_host b c ≡ true → conns_of ts b ≡ conns_of ts c
unfolding conns_of
conns_of_same [] b c h = refl
conns_of_same (t ∷ ts) b c h =
    simp ((text_eq_iff b.sin_addr c.sin_addr).0 h, conns_of_same ts b c h)

IsOpen-pred_ℤ : (n : ℤ) → IsOpen n → is_zero (pred_ℤ n) ≡ false → IsOpen (pred_ℤ n)
IsOpen-pred_ℤ n h k = ground arith

is_zero→eq : (n : ℤ) → is_zero n ≡ true → n ≡ pos 0
is_zero→eq n h = ground arith

drop_here-Drops :
    (a : NetAddr) (t : IpTrack) (ts : List IpTrack)
    → IsTracked (t ∷ ts)
    → same_host a t.addr ≡ true
    → Drops a (t ∷ ts) (some (drop_here t ts))
unfolding drop_here conns_of
drop_here-Drops a t ts v h = elim (Bool-cases (is_zero (pred_ℤ t.conns))) [
  | inl last ↦
      rw (last, drop_here)
        (
          v.3,
          λ b. elim (Bool-cases (same_host b t.addr)) [
            | inl this ↦
                rw (this, same_host_trans a t.addr b h, this)
                  (conns_of_same ts b t.addr this ∙ v.2 ∙ sym (is_zero→eq _ last))
            | inr other ↦ rw (other, same_host_trans a t.addr b h, other)
          ],
          rw h v.1,
        )
  | inr more ↦
      rw (more, drop_here)
        (
          (v.0, IsOpen-pred_ℤ t.conns v.1 more, v.2, v.3),
          λ b. ground (arith, same_host_trans a t.addr b h),
          rw h v.1,
        )
]

cons-Drops :
    (a : NetAddr) (t : IpTrack) (ts : List IpTrack) (r : Option (List IpTrack))
    → IsTracked (t ∷ ts)
    → same_host a t.addr ≡ false
    → Drops a ts r
    → Drops a (t ∷ ts) (r >>= λ us. some (t ∷ us))
unfolding conns_of
cons-Drops a t ts none v h k = rw h k
cons-Drops a t ts (some us) v h (tracked, counted, had) =
    let apart = same_host_apart a t.addr t.addr h (same_host_refl t.addr) in
    (
      (v.0, v.1, counted t.addr ∙ rw apart v.2, tracked),
      λ b. elim (Bool-cases (same_host b t.addr)) [
        | inl this ↦ rw (this, same_host_apart a b t.addr h this)
        | inr other ↦ rw other (counted b)
      ],
      rw h had,
    )

scan_remove-Drops :
    (a : NetAddr) (ts : List IpTrack)
    → IsHost a
    → IsTracked ts
    → (r : Option (List IpTrack)) × (scan_remove a ts ≡ some r) × Drops a ts r
unfolding scan_remove conns_of
scan_remove-Drops a [] h v = (none, refl, refl)
scan_remove-Drops a (t ∷ ts) h v =
    let (r, e, k) = scan_remove-Drops a ts h v.3 in
    let (sign, cmp, z) = addrcmp-text_eq a t.addr h v.0 in
    elim (Bool-cases (is_zero sign)) [
      | inl hit ↦ (some (drop_here t ts), rw (cmp, hit), drop_here-Drops a t ts v (sym z ∙ hit))
      | inr miss ↦
          (r >>= λ us. some (t ∷ us), rw (cmp, miss, e), cons-Drops a t ts r v (sym z ∙ miss) k)
    ]

-- The outcome of `remove`: a host with no connection changes nothing; any other host has one
-- connection less, and so has the total, which wraps below the least `int`.
abbrev pub Removed : ConnList → NetAddr → ConnList → Type 0
Removed l a l' =
    ((conns_of l.connections a ≡ pos 0) × (l' ≡ l))
    ⊎ (IsOpen (conns_of l.connections a)
        × CountedOne pred_ℤ a l.connections l'.connections
        × (l'.total_conns ≡ pred_int l.total_conns))

-- On a tracker with one open entry a host, `remove` answers, keeps it so, and takes exactly one
-- connection from a host that has some, and one from the total, which wraps below the least `int`.
pub remove-Removed :
    (l : ConnList) (a : NetAddr)
    → IsHost a
    → IsTracked l.connections
    → (l' : ConnList) × (remove l a ≡ some l') × IsTracked l'.connections × Removed l a l'
unfolding remove
remove-Removed l a h v =
    let (r, e, k) = scan_remove-Drops a l.connections h v in
    let (tracked, removed) = done r k in (finish_remove l r, rw e, tracked, removed)
  where
    done :
        (r : Option (List IpTrack))
        → Drops a l.connections r
        → IsTracked (finish_remove l r).connections × Removed l a (finish_remove l r)
    done none k = (v, inl (k, refl))
    done (some ts) (tracked, counted, had) = (tracked, inr (had, counted, refl))
