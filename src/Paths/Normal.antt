-- ===== src/Paths/Normal.antt =====
-- `normalize` of src/common/file.cc.
use sourcemud.Base.{◌≡◌, refl, ap, ◌∙◌, false, inl, inr, List, [], ◌∷◌}
use sourcemud.Base.Lists.{All}
use sourcemud.Base.Tests.{Bool-cases}
use sourcemud.Base.Text.{Text, text_eq}
use sourcemud.Strings.Split.{explode, implode, append_with, Lacks, explode-implode, explode-Lacks}
use sourcemud.Paths.{rev_onto, drop_last, is_skipped, is_up, resolve, normalize}

-- A component that names a file or a directory below another.
abbrev pub IsPlain : Text → Type 0
IsPlain p = (is_skipped p ≡ false) × (is_up p ≡ false) × Lacks b'/' p

resolve_plain : (kept ps : List Text) → All IsPlain ps → resolve kept ps ≡ rev_onto kept ps
unfolding resolve
resolve_plain kept [] h = refl
resolve_plain kept (p ∷ ps) h = rw (resolve, h.0.0, h.0.1) (resolve_plain (p ∷ kept) ps h.1)

rev_onto-IsPlain :
    (kept ps : List Text) → All IsPlain kept → All IsPlain ps → All IsPlain (rev_onto kept ps)
rev_onto-IsPlain [] ps h k = k
rev_onto-IsPlain (p ∷ kept) ps h k = rev_onto-IsPlain kept (p ∷ ps) h.1 (h.0, k)

drop_last-IsPlain : (kept : List Text) → All IsPlain kept → All IsPlain (drop_last kept)
drop_last-IsPlain [] h = h
drop_last-IsPlain (p ∷ kept) h = h.1

resolve-IsPlain :
    (kept ps : List Text) → All IsPlain kept → All (Lacks b'/') ps → All IsPlain (resolve kept ps)
unfolding resolve
resolve-IsPlain kept [] h k = rev_onto-IsPlain kept [] h tt
resolve-IsPlain kept (p ∷ ps) h k = elim (Bool-cases (is_skipped p)) [
  | inl skip ↦ rw (resolve, skip) (resolve-IsPlain kept ps h k.1)
  | inr keep ↦ elim (Bool-cases (is_up p)) [
    | inl up ↦
        rw (resolve, keep, up) (resolve-IsPlain (drop_last kept) ps (drop_last-IsPlain kept h) k.1)
    | inr down ↦ rw (resolve, keep, down) (resolve-IsPlain (p ∷ kept) ps ((keep, down, k.0), h) k.1)
  ]
]

plain-Lacks : (ps : List Text) → All IsPlain ps → All (Lacks b'/') ps
plain-Lacks [] h = tt
plain-Lacks (p ∷ ps) h = (h.0.2, plain-Lacks ps h.1)

-- Plain components behind a slash are split into themselves, but for an empty one in front.
resolve-explode :
    (ps : List Text) → All IsPlain ps → resolve [] (explode (b'/' ∷ implode ps b'/') b'/') ≡ ps
resolve-explode [] h =
    unfold implode in ap (resolve []) root ∙ unfold resolve is_skipped text_eq in refl
  where
    root : explode (b'/' ∷ []) b'/' ≡ [] ∷ [] ∷ []
    root =
        unfold implode append_with in explode-implode ([] ∷ [] ∷ []) b'/' (tt, (tt, tt)) (λ e. cc)
resolve-explode (p ∷ ps) h =
    ap (resolve []) split ∙ unfold resolve is_skipped text_eq in resolve_plain [] (p ∷ ps) h
  where
    split : explode (b'/' ∷ implode (p ∷ ps) b'/') b'/' ≡ [] ∷ p ∷ ps
    split =
        unfold implode append_with in
        explode-implode ([] ∷ p ∷ ps) b'/' (tt, plain-Lacks (p ∷ ps) h) (λ e. cc)

-- A normal path is a slash and components with slashes between, none of them empty, `.` or `..`, and none
-- with a slash; and it is its own normal path.
pub normalize-IsPlain :
    (path : Text)
    → ((parts : List Text) × (normalize path ≡ b'/' ∷ implode parts b'/') × All IsPlain parts)
      × (normalize (normalize path) ≡ normalize path)
unfolding normalize
normalize-IsPlain path =
    let parts : List Text = resolve [] (explode path b'/') in
    let plain : All IsPlain parts =
      resolve-IsPlain [] (explode path b'/') tt (explode-Lacks path b'/') in
    ((parts, refl, plain), ap (λ ps. b'/' ∷ implode ps b'/') (resolve-explode parts plain))
