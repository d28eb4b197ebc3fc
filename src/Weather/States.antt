-- ===== src/Weather/States.antt =====
-- `load` of src/mud/weather.cc on the nodes of a state.
use mathlib.Core.List.{append_assoc, append-nil}
use sourcemud.Base.{
  ℕ, suc, ◌+◌, ◌^◌, ◌≤◌, ◌<◌, ◌≡◌, refl, ap, sym, subst, Option, List, [], ◌∷◌, ◌++◌, arith,
}
use sourcemud.Base.Int.{pos}
use sourcemud.Base.Lists.{All, length}
use sourcemud.Base.Text.{Text, codes, text_eq}
use sourcemud.Strings.Numbers.{tolong, tostr, tolong-tostr}
use sourcemud.Strings.Split.{Lacks}
use sourcemud.Telnet.Stream.{to_int}
use sourcemud.ObjFile.Outcome.{ok}
use sourcemud.ObjFile.Reader.{Reader}
use sourcemud.ObjFile.Nodes.{
  value_string, value_none, attr_node, begin_untyped, get_int, get_string,
}
use sourcemud.ObjFile.Writer.{Call, put_attr, put_long, put_end}
use sourcemud.ObjFile.Contents.{Content, contents}
use sourcemud.ObjFile.Streams.{node_with, Streams, Loads, Loads-mono, Loads-end, Loads-step}
use sourcemud.Weather.{WeatherChange, WeatherState}
use sourcemud.Weather.File.{
  to_uint, change_node, fresh_change, state_node, save_descs, save_changes,
}

-- What can be saved: strings without a zero byte, and numbers of 32 bits.
abbrev pub IsSaved : WeatherChange → Type 0
IsSaved c = Lacks 0 c.to × Lacks 0 c.desc × (c.chance < 2 ^ 32)

abbrev pub IsSavedState : WeatherState → Type 0
IsSavedState s = Lacks 0 s.id × All (Lacks 0) s.descs × All IsSaved s.changes

pub uint-tostr : (n : ℕ) → n < 2 ^ 32 → to_uint (to_int (tolong (tostr (pos n)))) ≡ n
uint-tostr n h = rw (tolong-tostr (pos n) (omega arith)) (unfold to_uint to_int in ground arith)

attribute : Text → Text → Text → Content
attribute ns name text = record {
  node_type = attr_node;
  ns = ns;
  name = name;
  value = value_string text;
}

-- The body of a rule.
change_Loads :
    (c : WeatherChange) (unset : ℕ) (rest : List Call) (r : Reader)
    → c.chance < 2 ^ 32
    → Streams r (
        contents (
          put_attr (codes "change") (codes "target") c.to
          ∷ put_long (codes "change") (codes "chance") (pos c.chance)
          ∷ put_attr (codes "change") (codes "text") c.desc
          ∷ put_end
          ∷ rest))
    → Loads change_node 3 (fresh_change unset) r c (λ r'. Streams r' (contents rest))
unfolding change_node get_string get_int text_eq
change_Loads c unset rest r h s =
    Loads-step change_node 2 3 (fresh_change unset) (record (fresh_change unset) { to = c.to }) c r
      _ _ _ (omega arith) refl s
      (λ line r₁ s₁. (
        r₁,
        refl,
        Loads-step change_node 1 2 _ (record { to = c.to; desc = []; chance = c.chance }) c r₁ _ _ _
            (omega arith) refl s₁
            (λ line r₂ s₂. (
              r₂,
              ap (λ n. ok (record { to = c.to; desc = []; chance = n }, r₂))
                  (uint-tostr c.chance h),
              Loads-step change_node 0 1 _ c c r₂ _ _ _ (omega arith) refl s₂ (λ line r₃ s₃.
                  (r₃, refl, Loads-end change_node 0 c r₃ _ (contents rest) refl s₃)),
            )),
      ))

descs_Loads :
    (fuel unset m n : ℕ) (ds : List Text) (rest : List Call) (s d : WeatherState) (r : Reader)
    (Q : Reader → Type 0)
    → length ds + m ≤ n
    → Streams r (contents (save_descs ds rest))
    → ((r' : Reader)
        → Streams r' (contents rest)
        → Loads (state_node fuel unset) m (record s { descs = s.descs ++ ds }) r' d Q)
    → Loads (state_node fuel unset) n s r d Q
unfolding save_descs state_node get_string text_eq
descs_Loads fuel unset m n [] rest s d r Q le streams next =
    subst (λ x. Loads (state_node fuel unset) n (record s { descs = x }) r d Q) (append-nil s.descs)
      (Loads-mono (state_node fuel unset) m n _ d r Q (omega arith) (next r streams))
descs_Loads fuel unset m n (x ∷ xs) rest s d r Q le streams next =
    Loads-step (state_node fuel unset) (length xs + m) n s
      (record s { descs = s.descs ++ (x ∷ []) }) d r Q _ _ (omega arith) refl streams
      (λ line r' streams'. (
        r',
        refl,
        descs_Loads fuel unset m (length xs + m) xs rest (record s { descs = s.descs ++ (x ∷ []) })
            d r' Q (omega arith) streams'
            (λ r'' k.
              subst (λ y. Loads (state_node fuel unset) m (record s { descs = y }) r'' d Q)
                (sym (append_assoc s.descs (x ∷ []) xs)) (next r'' k)),
      ))

change_step :
    (fuel unset : ℕ) (c : WeatherChange) (rest : List Call) (s : WeatherState) (line : Option ℕ)
    (r : Reader)
    → 3 < fuel
    → c.chance < 2 ^ 32
    → Streams r (
        contents (
          put_attr (codes "change") (codes "target") c.to
          ∷ put_long (codes "change") (codes "chance") (pos c.chance)
          ∷ put_attr (codes "change") (codes "text") c.desc
          ∷ put_end
          ∷ rest))
    → (r' : Reader) × (state_node fuel unset s
          (node_with
            (record {
              node_type = begin_untyped;
              ns = codes "state";
              name = codes "change";
              value = value_none;
            })
            line)
          r
        ≡ ok (record s { changes = s.changes ++ (c ∷ []) }, r'))
      × Streams r' (contents rest)
unfolding state_node text_eq Loads
change_step fuel unset c rest s line r enough h streams =
    let (r', e, streams') = change_Loads c unset rest r h streams fuel enough in
    (r', rw e refl, streams')

changes_Loads :
    (fuel unset m n : ℕ) (cs : List WeatherChange) (rest : List Call) (s d : WeatherState)
    (r : Reader) (Q : Reader → Type 0)
    → 3 < fuel
    → All IsSaved cs
    → length cs + m ≤ n
    → Streams r (contents (save_changes cs rest))
    → ((r' : Reader)
        → Streams r' (contents rest)
        → Loads (state_node fuel unset) m (record s { changes = s.changes ++ cs }) r' d Q)
    → Loads (state_node fuel unset) n s r d Q
unfolding save_changes
changes_Loads fuel unset m n [] rest s d r Q enough saved le streams next =
    subst (λ x. Loads (state_node fuel unset) n (record s { changes = x }) r d Q)
      (append-nil s.changes)
      (Loads-mono (state_node fuel unset) m n _ d r Q (omega arith) (next r streams))
changes_Loads fuel unset m n (c ∷ cs) rest s d r Q enough saved le streams next =
    Loads-step (state_node fuel unset) (length cs + m) n s
      (record s { changes = s.changes ++ (c ∷ []) }) d r Q _ _ (omega arith) refl streams
      (λ line r₁ streams₁.
        let (r', e, streams') =
          change_step fuel unset c (save_changes cs rest) s line r₁ enough saved.0.2 streams₁ in
        (
          r',
          e,
          changes_Loads fuel unset m (length cs + m) cs rest
              (record s { changes = s.changes ++ (c ∷ []) }) d r' Q enough saved.1 (omega arith)
              streams'
              (λ r'' k.
                subst (λ y. Loads (state_node fuel unset) m (record s { changes = y }) r'' d Q)
                  (sym (append_assoc s.changes (c ∷ []) cs)) (next r'' k)),
        ))

-- The rounds of the loop over the body of a state.
abbrev pub rounds : WeatherState → ℕ
rounds s = suc (length s.descs + length s.changes)

pub state_Loads :
    (fuel unset : ℕ) (s : WeatherState) (rest : List Call) (r : Reader)
    → 3 < fuel
    → IsSavedState s
    → Streams r (
        contents (
          put_attr (codes "state") (codes "id") s.id
          ∷ save_descs s.descs (save_changes s.changes (put_end ∷ rest))))
    → Loads
        (state_node fuel unset)
        (rounds s)
        (record { id = codes "state"; changes = []; descs = [] })
        r
        s
        (λ r'. Streams r' (contents rest))
unfolding state_node get_string text_eq
state_Loads fuel unset s rest r enough saved streams =
    Loads-step (state_node fuel unset) (length s.descs + length s.changes) (rounds s) _
      (record { id = s.id; changes = []; descs = [] }) s r _ _ _ (omega arith) refl streams
      (λ line r₁ s₁. (
        r₁,
        refl,
        descs_Loads fuel unset (length s.changes) _ s.descs
            (save_changes s.changes (put_end ∷ rest))
            (record { id = s.id; changes = []; descs = [] }) s r₁ _ (omega arith) s₁
            (λ r₂ s₂.
              changes_Loads fuel unset 0 _ s.changes (put_end ∷ rest)
                (record { id = s.id; changes = []; descs = s.descs }) s r₂ _ enough saved.2
                (omega arith) s₂
                (λ r₃ s₃. Loads-end (state_node fuel unset) 0 s r₃ _ (contents rest) refl s₃)),
      ))
