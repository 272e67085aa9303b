-- ===== src/Hooks/Order.antt =====
-- The order of a bucket in virtual_ecu/virtecu/dispatcher.py.
use mathlib.Core.List.{Perm}
use mathlib.Core.List.Perm
use doip_playground.Base.{Bool-cases, ℕ, ◌≡◌, refl, inl, inr, true, false, List, [], ◌∷◌, arith}
use doip_playground.Hooks.{key_le, sort_hooks, Hook, lex_le, sort_insert}

-- Neighbours are in the order of their keys.
pub data IsSorted : List Hook → Type 0 where
  nil : IsSorted []
  one : (h : Hook) → IsSorted (h ∷ [])
  more : {x y : Hook} {l : List Hook} → key_le x y ≡ true → IsSorted (y ∷ l) → IsSorted (x ∷ y ∷ l)

lex_le-total : (xs ys : List ℕ) → lex_le xs ys ≡ false → lex_le ys xs ≡ true
unfolding lex_le
lex_le-total [] ys e = cc
lex_le-total (x ∷ xs) [] e = refl
lex_le-total (x ∷ xs) (y ∷ ys) e = ground (arith, lex_le-total xs ys)

key_le-total : (a b : Hook) → key_le a b ≡ false → key_le b a ≡ true
unfolding key_le
key_le-total a b e = ground (arith, lex_le-total a.plugin_name b.plugin_name)

IsSorted-behind :
    (x h y : Hook) (l : List Hook)
    → key_le x h ≡ true
    → key_le x y ≡ true
    → IsSorted (sort_insert h (y ∷ l))
    → IsSorted (x ∷ sort_insert h (y ∷ l))
unfolding sort_insert
IsSorted-behind x h y l xh xy s = elim (Bool-cases (key_le h y)) [
  | inl before ↦ rw before (more xh (rw before at s))
  | inr after ↦ rw after (more xy (rw after at s))
]

sort_insert-IsSorted : (h : Hook) {l : List Hook} → IsSorted l → IsSorted (sort_insert h l)
unfolding sort_insert
sort_insert-IsSorted h nil = one h
sort_insert-IsSorted h (one x) = elim (Bool-cases (key_le h x)) [
  | inl before ↦ rw before (more before (one x))
  | inr after ↦ rw after (more (key_le-total h x after) (one h))
]
sort_insert-IsSorted h (more {x} {y} {l} le s) =
    let rest = sort_insert-IsSorted h s in
    elim (Bool-cases (key_le h x)) [
      | inl before ↦ rw before (more before (more le s))
      | inr after ↦ rw after (IsSorted-behind x h y l (key_le-total h x after) le rest)
    ]

sort_insert-perm : (h : Hook) (l : List Hook) → Perm (sort_insert h l) (h ∷ l)
unfolding sort_insert
sort_insert-perm h [] = Perm.refl (h ∷ [])
sort_insert-perm h (x ∷ xs) = elim (Bool-cases (key_le h x)) [
  | inl before ↦ rw before (Perm.refl (h ∷ x ∷ xs))
  | inr after ↦ rw after (Perm.trans (Perm.cons x (sort_insert-perm h xs)) (Perm.swap h x xs))
]

pub sort_hooks-IsSorted : (l : List Hook) → IsSorted (sort_hooks l)
unfolding sort_hooks
sort_hooks-IsSorted [] = nil
sort_hooks-IsSorted (h ∷ hs) = sort_insert-IsSorted h (sort_hooks-IsSorted hs)

pub sort_hooks-perm : (l : List Hook) → Perm (sort_hooks l) l
unfolding sort_hooks
sort_hooks-perm [] = Perm.refl []
sort_hooks-perm (h ∷ hs) =
    Perm.trans (sort_insert-perm h (sort_hooks hs)) (Perm.cons h (sort_hooks-perm hs))
