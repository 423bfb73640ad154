-- ===== src/Server/Fence/Closed.antt =====
-- The fence of `_as_untrusted` does not occur in the value between the fences.
use mathlib.Core.Path.{subst}
use cubrid_mcp_server.Common.{
  ℕ, zero, suc, ◌+◌, ◌≤◌, ◌<◌, ◌≡◌, ◌≢◌, refl, sym, ap, Bool, true, false, Bool-cases, inl, inr, [],
  ◌∷◌, ◌++◌, length, replicate, arith,
}
use cubrid_mcp_server.Common.Text.{Text}
use cubrid_mcp_server.Server.Fence.{starts_with, contains, fence, grow, fence_for}

length-replicate : {A : Type 0} (n : ℕ) (a : A) → length (replicate n a) ≡ n
length-replicate zero a = refl
length-replicate (suc n) a = ap suc (length-replicate n a)

starts_with-le : (p s : Text) → starts_with p s ≡ true → length p ≤ length s
unfolding starts_with
starts_with-le [] s h = omega arith
starts_with-le (c ∷ p) [] h = cc
starts_with-le (c ∷ p) (x ∷ s) h = ground (arith, starts_with-le p s)

contains-le : (p s : Text) → contains p s ≡ true → length p ≤ length s
unfolding contains
contains-le p [] h = starts_with-le p [] h
contains-le p (x ∷ s) h = ground (arith, starts_with-le p (x ∷ s), contains-le p s)

starts_with-append : (p s : Text) → starts_with p (p ++ s) ≡ true
unfolding starts_with
starts_with-append [] s = refl
starts_with-append (c ∷ p) s = ground (arith, starts_with-append p s)

contains-append : (before p after : Text) → contains p (before ++ (p ++ after)) ≡ true
unfolding contains starts_with
contains-append [] [] [] = starts_with-append [] []
contains-append [] [] (x ∷ after) = ground (arith, starts_with-append [] (x ∷ after))
contains-append [] (c ∷ p) after = ground (arith, starts_with-append (c ∷ p) after)
contains-append (x ∷ before) p after = ground (arith, contains-append before p after)

grow-ge : (fuel n : ℕ) (value : Text) → n ≤ grow fuel n value
unfolding grow
grow-ge zero n value = omega arith
grow-ge (suc fuel) n value = ground (arith, grow-ge fuel (suc n) value)

grow-absent :
    (fuel n : ℕ) (value : Text)
    → length value < fuel + n
    → contains (fence (grow fuel n value)) value ≡ false
unfolding grow fence
grow-absent zero n value h = elim (Bool-cases (contains (replicate n b'`') value)) [
  | inl found ↦
      absurd
        (omega (arith, contains-le (replicate n b'`') value found, length-replicate {A = ℕ} n b'`'))
  | inr absent ↦ absent
]
grow-absent (suc fuel) n value h = elim (Bool-cases (contains (replicate n b'`') value)) [
  | inl found ↦ rw found (grow-absent fuel (suc n) value (omega arith))
  | inr absent ↦ rw (absent, absent) refl
]

not_both : (b : Bool) → b ≡ true → b ≡ false → ⊥
not_both b h h' = cc

-- The fence of a value is three backquotes or more, and the value has no such run of backquotes
-- anywhere in it: the value cannot close the block.
pub fence_for-absent :
    (value before after : Text)
    → (value ≢ before ++ (fence_for value ++ after)) × (3 ≤ length (fence_for value))
unfolding fence_for fence
fence_for-absent value before after = (
  λ e.
      not_both (contains (fence_for value) value)
        (subst (λ v. contains (fence_for value) v ≡ true) (sym e)
          (contains-append before (fence_for value) after))
        (grow-absent (length value) 3 value (omega arith)),
  rw (length-replicate {A = ℕ} (grow (length value) 3 value) b'`') (grow-ge (length value) 3 value),
)
