-- ===== src/Command/Words/Joins.antt =====
-- What `repair` makes of the words in the buffer.
use mathlib.Core.List.{append_assoc}
use sourcemud.Base.{ℕ, suc, ◌-◌, ◌≡◌, ◌∙◌, refl, ap, sym, List, [], ◌∷◌, ◌++◌, arith}
use sourcemud.Base.Lists.{length, All}
use sourcemud.Base.Text.{Text}
use sourcemud.Strings.Chars.{c_str}
use sourcemud.Command.Words.{join_next, join_times, repair}
use sourcemud.Strings.Split.{Lacks, implode, append_with}

c_str_run : (p rest : Text) → Lacks 0 p → c_str (p ++ (0 ∷ rest)) ≡ p
unfolding c_str
c_str_run [] rest h = refl
c_str_run (c ∷ p) rest h = ground (arith, h.0, c_str_run p rest h.1)

c_str_whole : (p : Text) → Lacks 0 p → c_str p ≡ p
unfolding c_str
c_str_whole [] h = refl
c_str_whole (c ∷ p) h = ground (arith, h.0, c_str_whole p h.1)

join_next_run : (p rest : Text) → Lacks 0 p → join_next (p ++ (0 ∷ rest)) ≡ p ++ (b' ' ∷ rest)
unfolding join_next
join_next_run [] rest h = refl
join_next_run (c ∷ p) rest h = ground (arith, h.0, join_next_run p rest h.1)

Lacks-append : (p q : Text) → Lacks 0 p → Lacks 0 q → Lacks 0 (p ++ q)
Lacks-append [] q h k = k
Lacks-append (c ∷ p) q h k = (h.0, Lacks-append p q h.1 k)

regroup :
    (p q a rest : Text) (c : ℕ) → p ++ (c ∷ ((q ++ a) ++ rest)) ≡ (p ++ (c ∷ q)) ++ (a ++ rest)
regroup p q a rest c = simp append_assoc refl

-- One zero byte between: the words are joined, one at each round.
join_times_run :
    (p : Text) (ps : List Text) (rest : Text)
    → Lacks 0 p
    → All (Lacks 0) ps
    → join_times (length ps) (p ++ (append_with 0 ps ++ rest)) ≡ p ++ (append_with b' ' ps ++ rest)
unfolding join_times append_with
join_times_run p [] rest h hs = refl
join_times_run p (q ∷ qs) rest h hs =
    ap (join_times (length qs)) (join_next_run p ((q ++ append_with 0 qs) ++ rest) h)
    ∙ ap (join_times (length qs)) (regroup p q (append_with 0 qs) rest b' ')
    ∙ join_times_run (p ++ (b' ' ∷ q)) qs rest (Lacks-append p (b' ' ∷ q) h (omega arith, hs.0))
        hs.1
    ∙ sym (regroup p q (append_with b' ' qs) rest b' ')

append_with-Lacks : (ps : List Text) → All (Lacks 0) ps → Lacks 0 (append_with b' ' ps)
unfolding append_with
append_with-Lacks [] hs = tt
append_with-Lacks (q ∷ qs) hs =
    (omega arith, Lacks-append q (append_with b' ' qs) hs.0 (append_with-Lacks qs hs.1))

-- Words with one separator between are joined with spaces, up to the zero byte behind the last.
pub repair-implode :
    (p : Text) (ps : List Text) (rest : Text)
    → Lacks 0 p
    → All (Lacks 0) ps
    → repair (implode (p ∷ ps) 0 ++ (0 ∷ rest)) (length (p ∷ ps)) ≡ implode (p ∷ ps) b' '
unfolding repair implode
repair-implode p ps rest h hs =
    let count : suc (length ps) - 1 ≡ length ps = omega arith in
    ap (λ n. c_str (join_times n ((p ++ append_with 0 ps) ++ (0 ∷ rest)))) count
    ∙ ap (λ l. c_str (join_times (length ps) l)) (append_assoc p (append_with 0 ps) (0 ∷ rest))
    ∙ ap c_str (join_times_run p ps (0 ∷ rest) h hs)
    ∙ ap c_str (sym (append_assoc p (append_with b' ' ps) (0 ∷ rest)))
    ∙ c_str_run (p ++ append_with b' ' ps) rest
        (Lacks-append p (append_with b' ' ps) h (append_with-Lacks ps hs))

-- Two words with more than one separator between are not joined: only the first of them is kept, with a
-- space behind it.
pub repair_gap : (p rest : Text) → Lacks 0 p → repair (p ++ (0 ∷ 0 ∷ rest)) 2 ≡ p ++ (b' ' ∷ [])
unfolding repair join_times
repair_gap p rest h =
    ap c_str (join_next_run p (0 ∷ rest) h)
    ∙ ap c_str (sym (append_assoc p (b' ' ∷ []) (0 ∷ rest)))
    ∙ c_str_run (p ++ (b' ' ∷ [])) rest (Lacks-append p (b' ' ∷ []) h (omega arith, tt))
