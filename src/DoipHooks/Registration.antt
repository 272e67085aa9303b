-- ===== src/DoipHooks/Registration.antt =====
-- What the buckets of virtual_ecu/virtecu/doip_dispatcher.py hold, and in which order.
use mathlib.Core.List.{Memᴰ}
use doip_playground.Base.{
  Bool-cases, if-rule, ℕ, ◌≡◌, refl, ap, inl, inr, true, false, List, [], ◌∷◌, ◌++◌, arith,
}
use doip_playground.DoipHooks.{
  kind_eq, doip_hook_of, plugin_hooks, collect_hooks, label_le, hook_le, place_hook, sort_doip,
  register_doip, DoipEntry, DoipPlugin, DoipHook, DoipKind,
}

-- Each hook goes before the next by priority, load position and label.
abbrev pub IsInOrder : List DoipHook → Type 0
IsInOrder [] = Unit {0}
IsInOrder (h ∷ []) = Unit {0}
IsInOrder (h ∷ g ∷ rest) = (hook_le h g ≡ true) × IsInOrder (g ∷ rest)

label_le_total : (a b : List ℕ) → label_le a b ≡ false → label_le b a ≡ true
unfolding label_le
label_le_total [] b e = absurd (ground arith)
label_le_total (c ∷ cs) [] e = refl
label_le_total (c ∷ cs) (d ∷ ds) e = ground (arith, label_le_total cs ds)

hook_le_total : (a b : DoipHook) → hook_le a b ≡ false → hook_le b a ≡ true
unfolding hook_le
hook_le_total a b e = ground (arith, label_le_total a.hook_label b.hook_label)

place_hook-IsInOrder :
    (h : DoipHook) (hs : List DoipHook) → IsInOrder hs → IsInOrder (place_hook h hs)
unfolding place_hook
place_hook-IsInOrder h [] o = tt
place_hook-IsInOrder h (x ∷ []) o =
    if-rule IsInOrder (hook_le h x) (λ le. (le, tt)) (λ gt. (hook_le_total h x gt, tt))
place_hook-IsInOrder h (x ∷ y ∷ rest) (le, o) =
    let behind = place_hook-IsInOrder h (y ∷ rest) o in
    if-rule IsInOrder (hook_le h x) (λ before. (before, (le, o)))
      (λ gt. elim (Bool-cases (hook_le h y)) [
        | inl before ↦ rw before (hook_le_total h x gt, rw before at behind)
        | inr after ↦ rw after (le, rw after at behind)
      ])

place_hook-own : (h : DoipHook) (hs : List DoipHook) → Memᴰ h (place_hook h hs)
unfolding place_hook
place_hook-own h [] = Memᴰ.head refl
place_hook-own h (x ∷ xs) =
    if-rule (λ l. Memᴰ h l) (hook_le h x) (λ _. Memᴰ.head refl)
      (λ _. Memᴰ.tail (place_hook-own h xs))

place_hook-keeps : (h g : DoipHook) (hs : List DoipHook) → Memᴰ g hs → Memᴰ g (place_hook h hs)
unfolding place_hook
place_hook-keeps h g [] m = elim m [ ]
place_hook-keeps h g (x ∷ xs) (Memᴰ.head e) =
    if-rule (λ l. Memᴰ g l) (hook_le h x) (λ _. Memᴰ.tail (Memᴰ.head e)) (λ _. Memᴰ.head e)
place_hook-keeps h g (x ∷ xs) (Memᴰ.tail m) =
    if-rule (λ l. Memᴰ g l) (hook_le h x) (λ _. Memᴰ.tail (Memᴰ.tail m))
      (λ _. Memᴰ.tail (place_hook-keeps h g xs m))

sort_doip-keeps : (g : DoipHook) (hs : List DoipHook) → Memᴰ g hs → Memᴰ g (sort_doip hs)
unfolding sort_doip
sort_doip-keeps g [] m = elim m [ ]
sort_doip-keeps g (x ∷ xs) (Memᴰ.head e) = rw e (place_hook-own x (sort_doip xs))
sort_doip-keeps g (x ∷ xs) (Memᴰ.tail m) =
    place_hook-keeps x g (sort_doip xs) (sort_doip-keeps g xs m)

sort_doip-IsInOrder : (hs : List DoipHook) → IsInOrder (sort_doip hs)
unfolding sort_doip
sort_doip-IsInOrder [] = tt
sort_doip-IsInOrder (h ∷ hs) = place_hook-IsInOrder h (sort_doip hs) (sort_doip-IsInOrder hs)

kind_eq_self : (k : DoipKind) → kind_eq k k ≡ true
unfolding kind_eq
kind_eq_self k = ground arith

plugin_hooks-has :
    (k : DoipKind) (p : DoipPlugin) (e : DoipEntry) (es : List DoipEntry)
    → Memᴰ e es
    → e.kind ≡ k
    → Memᴰ (doip_hook_of p e) (plugin_hooks k p es)
unfolding plugin_hooks
plugin_hooks-has k p e [] m same = elim m [ ]
plugin_hooks-has k p e (x ∷ es) (Memᴰ.head is) same =
    let here : kind_eq x.kind k ≡ true = rw (← is, same) (kind_eq_self k) in
    rw here (Memᴰ.head (ap (doip_hook_of p) is))
plugin_hooks-has k p e (x ∷ es) (Memᴰ.tail m) same =
    if-rule (λ l. Memᴰ (doip_hook_of p e) l) (kind_eq x.kind k)
      (λ _. Memᴰ.tail (plugin_hooks-has k p e es m same)) (λ _. plugin_hooks-has k p e es m same)

Mem-append_left : (g : DoipHook) (xs ys : List DoipHook) → Memᴰ g xs → Memᴰ g (xs ++ ys)
Mem-append_left g [] ys m = elim m [ ]
Mem-append_left g (x ∷ xs) ys (Memᴰ.head e) = Memᴰ.head e
Mem-append_left g (x ∷ xs) ys (Memᴰ.tail m) = Memᴰ.tail (Mem-append_left g xs ys m)

Mem-append_right : (g : DoipHook) (xs ys : List DoipHook) → Memᴰ g ys → Memᴰ g (xs ++ ys)
Mem-append_right g [] ys m = m
Mem-append_right g (x ∷ xs) ys m = Memᴰ.tail (Mem-append_right g xs ys m)

collect_hooks-has :
    (k : DoipKind) (p : DoipPlugin) (e : DoipEntry) (ps : List DoipPlugin)
    → Memᴰ p ps
    → Memᴰ e p.entries
    → e.kind ≡ k
    → Memᴰ (doip_hook_of p e) (collect_hooks k ps)
unfolding collect_hooks
collect_hooks-has k p e [] m own same = elim m [ ]
collect_hooks-has k p e (x ∷ ps) (Memᴰ.head is) own same = rw (← is) (
    Mem-append_left (doip_hook_of p e) (plugin_hooks k p p.entries) (collect_hooks k ps)
      (plugin_hooks-has k p e p.entries own same))
collect_hooks-has k p e (x ∷ ps) (Memᴰ.tail m) own same =
    Mem-append_right (doip_hook_of p e) (plugin_hooks k x x.entries) (collect_hooks k ps)
      (collect_hooks-has k p e ps m own same)

-- The hooks of a kind are in the documented order, and among them is each that any plugin in the list
-- has for it, whether or not that plugin is enabled.
pub register_doip-IsInOrder :
    (k : DoipKind) (p : DoipPlugin) (e : DoipEntry) (ps : List DoipPlugin)
    → Memᴰ p ps
    → Memᴰ e p.entries
    → e.kind ≡ k
    → IsInOrder (register_doip ps k) × Memᴰ (doip_hook_of p e) (register_doip ps k)
register_doip-IsInOrder k p e ps m own same = (
  sort_doip-IsInOrder (collect_hooks k ps),
  sort_doip-keeps (doip_hook_of p e) (collect_hooks k ps) (collect_hooks-has k p e ps m own same),
)
