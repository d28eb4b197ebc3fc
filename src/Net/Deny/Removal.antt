-- ===== src/Net/Deny/Removal.antt =====
-- What `IPDenyList::remove` erases.
use sourcemud.Base.{
  ℕ, ◌∙◌, ◌≡◌, ◌≢◌, ◌⊎◌, inl, inr, refl, ap, sym, Bool, true, false, Option, none, some, List, [],
  ◌∷◌, ◌++◌, arith,
}
use sourcemud.Base.Int.{pos, negsuc, is_zero}
use sourcemud.Base.Lists.{All}
use sourcemud.Base.Tests.{◌==◌, ==_iff, if◌then◌else◌, Bool-cases, Option-cases}
use sourcemud.Base.Text.{Text, text_eq_iff}
use sourcemud.Net.Addr.{NetAddr, parse_addr}
use sourcemud.Net.Deny.{IpDeny, erase_first, remove, remove_parsed}
use sourcemud.Net.Deny.Laws.{IsHost, IsEntry, addrcmp-text_eq}
use sourcemud.Net.Mask.{IsAddr, parse_addr_masked}

-- An entry that the scan passes over: one of another mask, or of the very address.
abbrev pub Passed : NetAddr → ℕ → IpDeny → Type 0
Passed addr mask d = (d.mask ≢ mask) ⊎ (d.addr.sin_addr ≡ addr.sin_addr)

-- The outcome of the scan: the first entry of the mask and of ANOTHER address is gone, or there is
-- none and the list is the same.
abbrev pub Erases : NetAddr → ℕ → List IpDeny → List IpDeny → Bool → Type 0
Erases addr mask ds ds' true =
    (front : List IpDeny) × (d : IpDeny) × (back : List IpDeny) × (ds ≡ front ++ (d ∷ back))
    × (ds' ≡ front ++ back)
    × (d.mask ≡ mask)
    × (d.addr.sin_addr ≢ addr.sin_addr)
    × All (Passed addr mask) front
Erases addr mask ds ds' false = (ds' ≡ ds) × All (Passed addr mask) ds

Erases-cons :
    (addr : NetAddr) (mask : ℕ) (d : IpDeny) (ds ds' : List IpDeny) (b : Bool)
    → Passed addr mask d
    → Erases addr mask ds ds' b
    → Erases addr mask (d ∷ ds) (d ∷ ds') b
Erases-cons addr mask d ds ds' true p (front, x, back, e, e', m, ne, all) =
    (d ∷ front, x, back, ap (λ l. d ∷ l) e, ap (λ l. d ∷ l) e', m, ne, (p, all))
Erases-cons addr mask d ds ds' false p (e, all) = (ap (λ l. d ∷ l) e, (p, all))

erase_first-Erases :
    (addr : NetAddr) (mask : ℕ) (ds : List IpDeny)
    → IsHost addr
    → All IsEntry ds
    → (ds' : List IpDeny) × (b : Bool) × (erase_first addr mask ds ≡ some (ds', b))
      × Erases addr mask ds ds' b
unfolding erase_first
erase_first-Erases addr mask [] h hs = ([], false, refl, (refl, tt))
erase_first-Erases addr mask (d ∷ ds) h hs =
    let (ds', b, e, rest) = erase_first-Erases addr mask ds h hs.1 in
    let (sign, cmp, z) = addrcmp-text_eq addr d.addr h hs.0.host in
    let same = text_eq_iff addr.sin_addr d.addr.sin_addr in
    let go_on = λ (p : Passed addr mask d). Erases-cons addr mask d ds ds' b p rest in
    elim (Bool-cases (d.mask == mask)) [
      | inr other ↦ (d ∷ ds', b, rw (other, e), go_on (inl (λ m. ground (arith, other))))
      | inl this ↦ elim (Bool-cases (is_zero sign)) [
        | inl zero_sign ↦ (
          d ∷ ds',
          b,
          rw (this, cmp, zero_sign, e),
          go_on (inr (sym (same.0 (sym z ∙ zero_sign)))),
        )
        | inr differs ↦ (
          ds,
          true,
          rw (this, cmp, differs),
          (
            [],
            d,
            ds,
            refl,
            refl,
            (==_iff d.mask mask).0 this,
            λ (k : d.addr.sin_addr ≡ addr.sin_addr). ground (arith, same.1 (sym k)),
            tt,
          ),
        )
      ]
    ]

module _ (inet_pton : Text → Option (List ℕ))
    (reads : (host : Text) (bytes : List ℕ) → inet_pton host ≡ some bytes → IsAddr bytes)
    (ds : List IpDeny) (line : Text) (entries : All IsEntry ds) where
  -- Removing a line that is an address erases the first entry of the line's mask whose address
  -- differs from the line's, with the result 0; with no such entry the list stays and the result
  -- is 1. A line that is no address changes nothing and gives -1.
  pub remove-Erases :
      ((parse_addr inet_pton line ≡ none) × (remove inet_pton ds line ≡ some (ds, negsuc 0)))
      ⊎ ((addr : NetAddr) × (mask : ℕ) × (ds' : List IpDeny) × (b : Bool) × (parse_addr inet_pton
              line
            ≡ some (addr, mask))
          × (remove inet_pton ds line ≡ some (ds', if b then pos 0 else pos 1))
          × Erases addr mask ds ds' b)
  unfolding remove
  remove-Erases = elim (Option-cases (parse_addr inet_pton line)) [
    | inl e ↦ inl (e, rw (e, remove_parsed))
    | inr ((addr, mask), e) ↦
        let (inet, bytes, le, whole) = parse_addr_masked inet_pton line addr mask reads e in
        let (ds', b, run, erases) =
          erase_first-Erases addr mask ds (record { inet = inet; bytes = bytes }) entries in
        inr (addr, mask, ds', b, e, rw (e, remove_parsed, run), erases)
  ]
