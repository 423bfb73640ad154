-- ===== src/Server/Groups/Entries.antt =====
-- What grouping rows amounts to: a map from each name to the head of its first row and all its items.
use mathlib.Core.Option
use cubrid_mcp_server.Common.{
  ◌≡◌, refl, sym, ap, ◌∙◌, Bool, true, false, Bool-cases, inl, inr, if◌then◌else◌, Option, none,
  some, List, [], ◌∷◌, ◌++◌, append_assoc, append-nil, map, arith, Among, here, there,
}
use cubrid_mcp_server.Common.Text.{Text, text_eq, text_eq_iff, is_in}
use cubrid_mcp_server.Config.Registry.{Named, names, lookup}
use cubrid_mcp_server.Config.Registry.Named.{Distinct, is_in-append}
use cubrid_mcp_server.Server.Identifiers.{keep, find_first}
use cubrid_mcp_server.Server.Groups.{Grouped, add_item, group}

-- The names that are not among those seen, each where it is first met.
unfoldable pub fresh_names : List Text → List Text → List Text
fresh_names seen [] = []
fresh_names seen (x ∷ xs) =
    let skipped = fresh_names seen xs in
    let kept = x ∷ fresh_names (seen ++ x ∷ []) xs in if is_in x seen then skipped else kept

same_name : (a b c : Text) → text_eq a b ≡ true → text_eq c a ≡ text_eq c b
same_name a b c h = ap (text_eq c) ((text_eq_iff a b).0 h)

other_name :
    (a b name : Text) → text_eq a b ≡ false → text_eq name b ≡ true → text_eq name a ≡ false
other_name a b name h e = elim (Bool-cases (text_eq name a)) [
  | inl same ↦
      absurd
        (cc (h, (text_eq_iff a b).1 (sym ((text_eq_iff name a).0 same) ∙ (text_eq_iff name b).0 e)))
  | inr other ↦ other
]

absent_cons :
    (x y : Text) (ys : List Text)
    → text_eq x y ≡ false
    → is_in x ys ≡ false
    → is_in x (y ∷ ys) ≡ false
unfolding is_in
absent_cons x y ys h k = rw (h, k) refl

fresh_names-absent :
    (x : Text) (seen xs : List Text) → is_in x seen ≡ true → is_in x (fresh_names seen xs) ≡ false
unfolding fresh_names
fresh_names-absent x seen [] h = unfold is_in in refl
fresh_names-absent x seen (y ∷ xs) h = elim (Bool-cases (is_in y seen)) [
  | inl known ↦ rw known (fresh_names-absent x seen xs h)
  | inr new ↦ elim (Bool-cases (text_eq x y)) [
    | inl same ↦ absurd (cc (h, new, (text_eq_iff x y).0 same))
    | inr other ↦ rw new (
        absent_cons x y _ other
          (fresh_names-absent x (seen ++ y ∷ []) xs (is_in-append x seen (y ∷ []) h)))
  ]
]

is_in-snoc_self : (x : Text) (xs : List Text) → is_in x (xs ++ x ∷ []) ≡ true
unfolding is_in
is_in-snoc_self x [] = rw ((text_eq_iff x x).1 refl) refl
is_in-snoc_self x (y ∷ xs) = ground (arith, is_in-snoc_self x xs)

fresh_names-Distinct : (seen xs : List Text) → Distinct (fresh_names seen xs)
unfolding fresh_names
fresh_names-Distinct seen [] = tt
fresh_names-Distinct seen (y ∷ xs) = elim (Bool-cases (is_in y seen)) [
  | inl known ↦ rw known (fresh_names-Distinct seen xs)
  | inr new ↦ rw new (
    fresh_names-absent y (seen ++ y ∷ []) xs (is_in-snoc_self y seen),
    fresh_names-Distinct (seen ++ y ∷ []) xs,
  )
]

name_is_in :
    {A : Type 0} (x : Text × A) (entries : Named A)
    → Among x entries
    → is_in x.0 (names entries) ≡ true
unfolding is_in names
name_is_in x [] m = elim m [ ]
name_is_in x (y ∷ entries) here = rw ((text_eq_iff x.0 x.0).1 refl) refl
name_is_in x (y ∷ entries) (there m) = ground (arith, name_is_in x entries m)

-- With distinct names, an entry is found under its name.
pub lookup-Among :
    {A : Type 0} (x : Text × A) (entries : Named A)
    → Distinct (names entries)
    → Among x entries
    → lookup x.0 entries ≡ some x.1
unfolding lookup names
lookup-Among x [] distinct m = elim m [ ]
lookup-Among x (y ∷ entries) distinct here = rw ((text_eq_iff x.0 x.0).1 refl) refl
lookup-Among x (y ∷ entries) distinct (there m) = elim (Bool-cases (text_eq x.0 y.0)) [
  | inl same ↦ absurd (cc (distinct.0, name_is_in x entries m, (text_eq_iff x.0 y.0).0 same))
  | inr other ↦ rw other (lookup-Among x entries distinct.1 m)
]

module _ {H I : Type 0} where
  abbrev pub is_named : Text → Grouped H I → Bool
  is_named name r = text_eq name r.name

  -- The items of the rows of that name, in order.
  unfoldable pub items_of : Text → List (Grouped H I) → List I
  items_of name rows = map (λ r. r.item) (keep (is_named name) rows)

  -- The entry of a name: the head of its first row and all its items.
  unfoldable pub entry_for : Text → List (Grouped H I) → Option (H × List I)
  entry_for name rows =
      Option.map (λ r. (r.head, items_of name rows)) (find_first (is_named name) rows)

  -- An entry that is there already, with the items of more rows.
  extended : Text → List (Grouped H I) → Option (H × List I) → Option (H × List I)
  extended name rows none = entry_for name rows
  extended name rows (some (head, items)) = some (head, items ++ items_of name rows)

  names-add_item :
      (r : Grouped H I) (entries : Named (H × List I))
      → names (add_item r entries)
        ≡ names entries ++ (if is_in r.name (names entries) then [] else r.name ∷ [])
  unfolding names add_item is_in
  names-add_item r [] = refl
  names-add_item r ((name, (head, items)) ∷ entries) = elim (Bool-cases (text_eq r.name name)) [
    | inl same ↦ rw (same, append-nil) refl
    | inr other ↦ rw (other) (ap (◌∷◌ name) (names-add_item r entries))
  ]

  names-group :
      (rows : List (Grouped H I)) (entries : Named (H × List I))
      → names (group rows entries)
        ≡ names entries ++ fresh_names (names entries) (map (λ r. r.name) rows)
  unfolding group fresh_names
  names-group [] entries = sym (append-nil (names entries))
  names-group (r ∷ rows) entries = elim (Bool-cases (is_in r.name (names entries))) [
    | inl seen ↦
        let e : names (add_item r entries) ≡ names entries =
          names-add_item r entries ∙ rw seen (append-nil (names entries)) in
        names-group rows (add_item r entries) ∙ rw (e, seen) refl
    | inr new ↦
        let e : names (add_item r entries) ≡ names entries ++ r.name ∷ [] =
          names-add_item r entries ∙ rw new refl in
        names-group rows (add_item r entries)
        ∙ rw (e, new) (append_assoc (names entries) (r.name ∷ []) _)
  ]

  extended-nil : (name : Text) (o : Option (H × List I)) → extended name [] o ≡ o
  unfolding extended entry_for items_of
  extended-nil name none = refl
  extended-nil name (some (head, items)) = rw (append-nil) refl

  skipped_row :
      (name : Text) (r : Grouped H I) (rows : List (Grouped H I)) (o : Option (H × List I))
      → text_eq name r.name ≡ false
      → extended name rows o ≡ extended name (r ∷ rows) o
  unfolding extended entry_for items_of
  skipped_row name r rows none other = rw other refl
  skipped_row name r rows (some (head, items)) other = rw other refl

  own_row :
      (name : Text) (r : Grouped H I) (rows : List (Grouped H I)) (head : H) (items : List I)
      → text_eq name r.name ≡ true
      → extended name rows (some (head, items ++ r.item ∷ []))
        ≡ extended name (r ∷ rows) (some (head, items))
  unfolding extended items_of
  own_row name r rows head items same = rw (same, append_assoc) refl

  lookup-add_item :
      (name : Text) (r : Grouped H I) (rows : List (Grouped H I)) (entries : Named (H × List I))
      → extended name rows (lookup name (add_item r entries))
        ≡ extended name (r ∷ rows) (lookup name entries)
  unfolding lookup add_item
  lookup-add_item name r rows [] = elim (Bool-cases (text_eq name r.name)) [
    | inl same ↦ unfold extended entry_for items_of in rw same refl
    | inr other ↦ unfold extended entry_for items_of in rw other refl
  ]
  lookup-add_item name r rows ((n, (head, items)) ∷ entries) =
      elim (Bool-cases (text_eq r.name n)) [
        | inl same ↦ elim (Bool-cases (text_eq name n)) [
          | inl named ↦
              rw (same, named)
                (own_row name r rows head items (same_name r.name n name same ∙ named))
          | inr unnamed ↦
              rw (same, unnamed)
                (skipped_row name r rows (lookup name entries)
                  (same_name r.name n name same ∙ unnamed))
        ]
        | inr other ↦ elim (Bool-cases (text_eq name n)) [
          | inl named ↦
              rw (other, named)
                (skipped_row name r rows (some (head, items))
                  (other_name r.name n name other named))
          | inr unnamed ↦ rw (other, unnamed) (lookup-add_item name r rows entries)
        ]
      ]

  lookup-group :
      (name : Text) (rows : List (Grouped H I)) (entries : Named (H × List I))
      → lookup name (group rows entries) ≡ extended name rows (lookup name entries)
  unfolding group
  lookup-group name [] entries = sym (extended-nil name (lookup name entries))
  lookup-group name (r ∷ rows) entries =
      lookup-group name rows (add_item r entries) ∙ lookup-add_item name r rows entries

  -- Grouping refines the map of the rows: an entry for each name in the order in which the names
  -- first occur, found under its name with the head of the first row of the name and the items of
  -- all its rows in order.
  pub group-refines :
      (rows : List (Grouped H I))
      → (names (group rows []) ≡ fresh_names [] (map (λ r. r.name) rows))
        × ((name : Text) → lookup name (group rows []) ≡ entry_for name rows)
  unfolding names lookup extended
  group-refines rows = (names-group rows [], λ name. lookup-group name rows [])

  -- The names of the entries are distinct.
  pub group-Distinct : (rows : List (Grouped H I)) → Distinct (names (group rows []))
  group-Distinct rows = rw ((group-refines rows).0) (fresh_names-Distinct [] _)
