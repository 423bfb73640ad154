-- ===== src/Safety/SideEffect/Patterns.antt =====
-- `_side_effect` finds exactly the three forms that change data inside a read.
use mathlib.Core.Path.{subst}
use cubrid_mcp_server.Common.{
  ◌≡◌, refl, sym, ap, Bool, true, false, ◌⊎◌, inl, inr, ◌↔◌, ◌≢◌, List, [], ◌∷◌, ◌++◌, Option, none,
  some, head?, arith, append_assoc, Option-cases,
}
use cubrid_mcp_server.Common.Text.{Text, codes, text_eq_iff, is_in}
use cubrid_mcp_server.Common.Unicode.{Unicode}
use cubrid_mcp_server.Safety.Tokens.{CodeToken, TokenKind, name, punctuation, code_tokens}
use cubrid_mcp_server.Safety.SideEffect.{
  side_effect_names, click_counter_names, is_mark, is_word, effect_at, first_effect, side_effect,
}

-- A function or a serial attribute that changes data is called or selected, or the click-counter
-- clause is written, somewhere in the tokens.
pub data ChangesData (ts : List CodeToken) : Type 0 where
  calls :
      (pre post : List CodeToken) (n : Text)
      → is_in n side_effect_names ≡ true
      → ts
        ≡ pre
          ++ (record { kind = name; value = n }
              ∷ record { kind = punctuation; value = codes "(" }
              ∷ post)
      → ChangesData ts
  selects :
      (pre post : List CodeToken) (n : Text)
      → is_in n side_effect_names ≡ true
      → ts
        ≡ pre
          ++ (record { kind = punctuation; value = codes "." }
              ∷ record { kind = name; value = n }
              ∷ post)
      → ChangesData ts
  counts :
      (pre post : List CodeToken) (n : Text) (k l : TokenKind)
      → is_in n click_counter_names ≡ true
      → ts
        ≡ pre
          ++ (record { kind = k; value = codes "WITH" }
              ∷ record { kind = name; value = n }
              ∷ record { kind = l; value = codes "FOR" }
              ∷ post)
      → ChangesData ts

abbrev is_some {ℓ} : {A : Type ℓ} → Option A → Bool
is_some none = false
is_some (some a) = true

-- One token back, as `_side_effect` looks at it.
abbrev with_before : Option CodeToken → List CodeToken → List CodeToken
with_before none ts = ts
with_before (some b) ts = b ∷ ts

ChangesData-cons : (t : CodeToken) {ts : List CodeToken} → ChangesData ts → ChangesData (t ∷ ts)
ChangesData-cons t (calls pre post n h e) = calls (t ∷ pre) post n h (ap (◌∷◌ t) e)
ChangesData-cons t (selects pre post n h e) = selects (t ∷ pre) post n h (ap (◌∷◌ t) e)
ChangesData-cons t (counts pre post n k l h e) = counts (t ∷ pre) post n k l h (ap (◌∷◌ t) e)

abbrev mark_token : Text → CodeToken
mark_token m = record { kind = punctuation; value = m }

is_mark-some : (m : Text) (o : Option CodeToken) → is_mark m o ≡ true → o ≡ some (mark_token m)
unfolding is_mark
is_mark-some m none h = cc
is_mark-some m (some t) h = ground (arith, text_eq_iff t.value m)

is_mark_refl : (m : Text) → is_mark m (some (mark_token m)) ≡ true
unfolding is_mark
is_mark_refl m = ground (arith, text_eq_iff m m)

is_word-some :
    (w : Text) (o : Option CodeToken)
    → is_word w o ≡ true
    → (k : TokenKind) × (o ≡ some (record { kind = k; value = w }))
unfolding is_word
is_word-some w none h = cc
is_word-some w (some t) h = (t.kind, ground (arith, text_eq_iff t.value w))

is_word_refl : (w : Text) (k : TokenKind) → is_word w (some (record { kind = k; value = w })) ≡ true
unfolding is_word
is_word_refl w k = ground (arith, text_eq_iff w w)

-- What `effect_at` asks of a token and its neighbours.
data Effect (before : Option CodeToken) (n : Text) (after : Option CodeToken) : Type 0 where
  call : is_in n side_effect_names ≡ true → is_mark (codes "(") after ≡ true → Effect before n after
  select :
      is_in n side_effect_names ≡ true → is_mark (codes ".") before ≡ true → Effect before n after
  count :
      is_in n click_counter_names ≡ true
      → is_word (codes "WITH") before ≡ true
      → is_word (codes "FOR") after ≡ true
      → Effect before n after

effect_tests :
    (before : Option CodeToken) (k : TokenKind) (n : Text) (after : Option CodeToken) (r : Text)
    → effect_at before (record { kind = k; value = n }) after ≡ some r
    → (k ≡ name)
      × (((is_in n side_effect_names ≡ true) × (is_mark (codes "(") after ≡ true))
          ⊎ (((is_in n side_effect_names ≡ true) × (is_mark (codes ".") before ≡ true))
              ⊎ ((is_in n click_counter_names ≡ true)
                  × (is_word (codes "WITH") before ≡ true)
                  × (is_word (codes "FOR") after ≡ true))))
unfolding effect_at
effect_tests before name n after r e = ground arith
effect_tests before _ n after r e = cc

effect_at-Effect :
    (before : Option CodeToken) (k : TokenKind) (n : Text) (after : Option CodeToken) (r : Text)
    → effect_at before (record { kind = k; value = n }) after ≡ some r
    → (k ≡ name) × Effect before n after
effect_at-Effect before k n after r e =
    let (is, found) = effect_tests before k n after r e in
    (
      is,
      elim found [
        | inl t ↦ call t.0 t.1
        | inr (inl t) ↦ select t.0 t.1
        | inr (inr t) ↦ count t.0 t.1 t.2
      ],
    )

Effect-effect_at :
    (before : Option CodeToken) (n : Text) (after : Option CodeToken)
    → Effect before n after
    → effect_at before (record { kind = name; value = n }) after ≢ none
unfolding effect_at
Effect-effect_at before n after (call h k) e = ground arith
Effect-effect_at before n after (select h k) e = ground arith
Effect-effect_at before n after (count h k l) e = ground arith

head?-some :
    (ts : List CodeToken) (t : CodeToken)
    → head? ts ≡ some t
    → (post : List CodeToken) × (ts ≡ t ∷ post)
head?-some [] t e = cc
head?-some (x ∷ xs) t e = (xs, cc)

called :
    (before : Option CodeToken) (n : Text) (post : List CodeToken)
    → is_in n side_effect_names ≡ true
    → ChangesData
        (with_before before (record { kind = name; value = n } ∷ mark_token (codes "(") ∷ post))
called none n post h = calls [] post n h refl
called (some b) n post h = calls (b ∷ []) post n h refl

Effect-ChangesData :
    (before : Option CodeToken) (n : Text) (ts : List CodeToken)
    → Effect before n (head? ts)
    → ChangesData (with_before before (record { kind = name; value = n } ∷ ts))
Effect-ChangesData before n ts (call h k) =
    let (post, e) = head?-some ts _ (is_mark-some (codes "(") (head? ts) k) in
    rw e (called before n post h)
Effect-ChangesData before n ts (select h k) =
    rw (is_mark-some (codes ".") before k) (selects [] ts n h refl)
Effect-ChangesData before n ts (count h k l) =
    let (w, wb) = is_word-some (codes "WITH") before k in
    let (f, fa) = is_word-some (codes "FOR") (head? ts) l in
    let (post, e) = head?-some ts _ fa in rw (wb, e) (counts [] post n w f h refl)

with_before-ChangesData :
    (before : Option CodeToken) {ts : List CodeToken}
    → ChangesData ts
    → ChangesData (with_before before ts)
with_before-ChangesData none changes = changes
with_before-ChangesData (some b) changes = ChangesData-cons b changes

first_effect-ChangesData :
    (before : Option CodeToken) (ts : List CodeToken) (r : Text)
    → first_effect before ts ≡ some r
    → ChangesData (with_before before ts)
first_effect-ChangesData before [] r e = unfold first_effect in cc
first_effect-ChangesData before (t ∷ ts) r e = elim (Option-cases (effect_at before t (head? ts))) [
  | inl quiet ↦
      let later = first_effect-ChangesData (some t) ts r (unfold first_effect in ground arith) in
      with_before-ChangesData before later
  | inr (x, found) ↦
      let (is, effect) = effect_at-Effect before t.kind t.value (head? ts) x found in
      let named : record { kind = name; value = t.value } ≡ t =
        λ i. record { kind = sym is i; value = t.value } in
      subst (λ x. ChangesData (with_before before (x ∷ ts))) named
        (Effect-ChangesData before t.value ts effect)
]

-- The token that stands before a split.
abbrev last_before : Option CodeToken → List CodeToken → Option CodeToken
last_before before [] = before
last_before before (t ∷ ts) = last_before (some t) ts

quiet_everywhere :
    (before : Option CodeToken) (pre : List CodeToken) (t : CodeToken) (post : List CodeToken)
    → first_effect before (pre ++ t ∷ post) ≡ none
    → effect_at (last_before before pre) t (head? post) ≡ none
unfolding first_effect
quiet_everywhere before [] t post e = ground arith
quiet_everywhere before (p ∷ pre) t post e = quiet_everywhere (some p) pre t post (ground arith)

last_before-concat :
    (before : Option CodeToken) (pre : List CodeToken) (t : CodeToken)
    → last_before before (pre ++ t ∷ []) ≡ some t
last_before-concat before [] t = refl
last_before-concat before (p ∷ pre) t = last_before-concat (some p) pre t

-- The same for a split with the token before it.
quiet_behind :
    (pre : List CodeToken) (b t : CodeToken) (post : List CodeToken)
    → first_effect none (pre ++ b ∷ t ∷ post) ≡ none
    → effect_at (some b) t (head? post) ≡ none
quiet_behind pre b t post q =
    rw last_before-concat at (quiet_everywhere none (pre ++ b ∷ []) t post (rw append_assoc q))

ChangesData-first_effect : (ts : List CodeToken) → ChangesData ts → first_effect none ts ≢ none
ChangesData-first_effect ts (calls pre post n h e) q =
    Effect-effect_at (last_before none pre) n _ (call h (is_mark_refl (codes "(")))
      (quiet_everywhere none pre _ _ (rw e at q))
ChangesData-first_effect ts (selects pre post n h e) q =
    Effect-effect_at (some (mark_token (codes "."))) n _ (select h (is_mark_refl (codes ".")))
      (quiet_behind pre _ _ _ (rw e at q))
ChangesData-first_effect ts (counts pre post n k l h e) q =
    Effect-effect_at (some (record { kind = k; value = codes "WITH" })) n _
      (count h (is_word_refl (codes "WITH") k) (is_word_refl (codes "FOR") l))
      (quiet_behind pre _ _ _ (rw e at q))

-- `_side_effect` returns `None` exactly for an input that calls or selects none of the functions and
-- serial attributes that change data, and that holds no click-counter clause.
pub side_effect-none_iff :
    (u : Unicode) (sql : Text) → (side_effect u sql ≡ none) ↔ (¬ ChangesData (code_tokens u sql))
unfolding side_effect
side_effect-none_iff u sql = (
  λ quiet changes. ChangesData-first_effect (code_tokens u sql) changes quiet,
  λ none_changes. elim (Option-cases (first_effect none (code_tokens u sql))) [
    | inl quiet ↦ quiet
    | inr (r, e) ↦ absurd (none_changes (first_effect-ChangesData none (code_tokens u sql) r e))
  ],
)
