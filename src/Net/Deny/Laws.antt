-- ===== src/Net/Deny/Laws.antt =====
-- Which addresses the list denies, and what adding and removing an entry change.
use sourcemud.Base.{
  ℕ, ◌∙◌, ◌≤◌, ◌≡◌, ◌↔◌, ◌⊎◌, inl, inr, refl, sym, Bool, true, false, some, List, [], ◌∷◌, arith,
}
use sourcemud.Base.Int.{ℤ, is_zero}
use sourcemud.Base.Lists.{length, All}
use sourcemud.Base.Tests.{Bool-cases}
use sourcemud.Base.Text.{text_eq, text_eq_iff}
use sourcemud.Net.Addr.{NetAddr, af_inet, memcmp, addrcmp, addrcmp_mask}
use sourcemud.Net.Deny.{IpDeny, denied}
use sourcemud.Net.Mask.{IsAddr, prefix_bits, length-prefix_bits, apply_mask-prefix_bits}

pub record IsHost (a : NetAddr) : Type 0 where
  pub inet : a.family ≡ af_inet
  pub bytes : IsAddr a.sin_addr

pub record IsEntry (d : IpDeny) : Type 0 where
  pub host : IsHost d.addr
  pub mask_le : d.mask ≤ 32

memcmp_zero : (xs ys : List ℕ) → length xs ≡ length ys → is_zero (memcmp xs ys) ≡ text_eq xs ys
unfolding memcmp text_eq
memcmp_zero [] [] h = refl
memcmp_zero [] (y ∷ ys) h = absurd (omega arith)
memcmp_zero (x ∷ xs) [] h = absurd (omega arith)
memcmp_zero (x ∷ xs) (y ∷ ys) h = ground (arith, memcmp_zero xs ys)

-- On addresses of the IPv4 family a comparison is zero exactly where they are equal.
pub addrcmp-text_eq :
    (a b : NetAddr)
    → IsHost a
    → IsHost b
    → (sign : ℤ) × (addrcmp a b ≡ some sign) × (is_zero sign ≡ text_eq a.sin_addr b.sin_addr)
unfolding addrcmp
addrcmp-text_eq a b ha hb =
    (memcmp a.sin_addr b.sin_addr, ground arith, memcmp_zero _ _ (omega arith))

addrcmp_mask-text_eq :
    (a : NetAddr) (d : IpDeny)
    → IsHost a
    → IsEntry d
    → (sign : ℤ) × (addrcmp_mask a d.addr d.mask ≡ some sign)
      × (is_zero sign ≡ text_eq (prefix_bits d.mask a.sin_addr) d.addr.sin_addr)
unfolding addrcmp_mask
addrcmp_mask-text_eq a d ha hd = (
  memcmp (prefix_bits d.mask a.sin_addr) d.addr.sin_addr,
  ground (arith, apply_mask-prefix_bits d.mask a ha.bytes),
  memcmp_zero _ _ (omega (arith, length-prefix_bits d.mask a.sin_addr)),
)

-- Some entry's address is the first bits, as many as its mask tells, of the given one.
abbrev pub Covered : List IpDeny → NetAddr → Type 0
Covered [] a = ⊥
Covered (d ∷ ds) a = (prefix_bits d.mask a.sin_addr ≡ d.addr.sin_addr) ⊎ Covered ds a

-- A list of well-formed entries always answers, and denies exactly the hosts that it covers.
pub denied-Covered :
    (ds : List IpDeny) (a : NetAddr)
    → All IsEntry ds
    → IsHost a
    → (b : Bool) × (denied ds a ≡ some b) × ((b ≡ true) ↔ Covered ds a)
unfolding denied
denied-Covered [] a hs ha = (false, refl, (λ e. cc, λ h. absurd h))
denied-Covered (d ∷ ds) a hs ha =
    let (sign, e, z) = addrcmp_mask-text_eq a d ha hs.0 in
    let (b, rest, iff) = denied-Covered ds a hs.1 ha in
    let same = text_eq_iff (prefix_bits d.mask a.sin_addr) d.addr.sin_addr in
    elim (Bool-cases (is_zero sign)) [
      | inl hit ↦ (true, rw (e, hit), (λ _. inl (same.0 (sym z ∙ hit)), λ _. refl))
      | inr miss ↦ (
        b,
        rw (e, miss) rest,
        (λ h. inr (iff.0 h), elim [ inl h ↦ ground (arith, same.1 h) | inr h ↦ iff.1 h ]),
      )
    ]
