-- ===== src/Hooks/Tables.antt =====
-- `_register` of virtual_ecu/virtecu/dispatcher.py against a description with no tables.
use mathlib.Core.List.{Perm}
use doip_playground.Base.{
  if◌then◌else◌, ℕ, ◌≡◌, refl, sym, true, false, Option, none, some, List, [], ◌∷◌, ◌++◌,
  append_assoc, append-nil, arith,
}
use doip_playground.Hooks.Order.{sort_hooks-IsSorted, sort_hooks-perm, IsSorted}
use doip_playground.Hooks.{
  claim_eq, Buckets, bucket, hook_of, sort_hooks, register, Hook, Entry, Plugin, Claim, doip_layer,
  routine, option_eq, add_hook, add_entry, add_entries, add_plugins, sort_buckets,
}

-- The hooks that a plugin's entries register for a claim, in order.
abbrev pub claims_in : Claim → Plugin → List Entry → List Hook
claims_in c p [] = []
claims_in c p (e ∷ es) =
    if claim_eq e.claim c then hook_of p e ∷ claims_in c p es else claims_in c p es

abbrev pub claims_of : Claim → List Plugin → List Hook
claims_of c [] = []
claims_of c (p ∷ ps) = if p.enabled then claims_in c p p.hooks ++ claims_of c ps else claims_of c ps

option_eq-eq : (a b : Option ℕ) → option_eq a b ≡ true → a ≡ b
unfolding option_eq
option_eq-eq none none e = refl
option_eq-eq (some a) (some b) e = ground arith
option_eq-eq _ _ e = cc

claim_eq-eq : (a b : Claim) → claim_eq a b ≡ true → a ≡ b
unfolding claim_eq
claim_eq-eq (routine a c) (routine b d) e = ground (arith, option_eq-eq c d)
claim_eq-eq _ _ e = ground arith

option_eq_refl : (a : Option ℕ) → option_eq a a ≡ true
unfolding option_eq
option_eq_refl none = refl
option_eq_refl (some a) = ground arith

claim_eq_refl : (a : Claim) → claim_eq a a ≡ true
unfolding claim_eq
claim_eq_refl (routine a c) = ground (arith, option_eq_refl c)
claim_eq_refl _ = ground arith

bucket-add_hook :
    (c d : Claim) (h : Hook) (t : Buckets)
    → bucket d (add_hook c h t) ≡ (if claim_eq c d then bucket d t ++ h ∷ [] else bucket d t)
unfolding bucket add_hook
bucket-add_hook c d h [] = refl
bucket-add_hook c d h ((x, hooks) ∷ t) = ground (
  arith,
  bucket-add_hook c d h t,
  claim_eq-eq x c,
  claim_eq-eq x d,
  claim_eq-eq c d,
  claim_eq_refl c,
  claim_eq_refl d,
)

bucket-add_entry :
    (c : Claim) (p : Plugin) (e : Entry) (t : Buckets)
    → claim_eq doip_layer c ≡ false
    → bucket c (add_entry p e t)
      ≡ (if claim_eq e.claim c then bucket c t ++ hook_of p e ∷ [] else bucket c t)
unfolding add_entry
bucket-add_entry c p e t ne = ground (
  arith,
  bucket-add_hook e.claim c (hook_of p e) t,
  claim_eq-eq e.claim doip_layer,
  claim_eq-eq e.claim c,
  claim_eq_refl c,
)

bucket-add_entries :
    (c : Claim) (p : Plugin) (es : List Entry) (t : Buckets)
    → claim_eq doip_layer c ≡ false
    → bucket c (add_entries p es t) ≡ bucket c t ++ claims_in c p es
unfolding add_entries
bucket-add_entries c p [] t ne = sym (append-nil (bucket c t))
bucket-add_entries c p (e ∷ es) t ne = ground (
  arith,
  bucket-add_entries c p es (add_entry p e t) ne,
  bucket-add_entry c p e t ne,
  append_assoc (bucket c t) (hook_of p e ∷ []) (claims_in c p es),
)

bucket-add_plugins :
    (c : Claim) (ps : List Plugin) (t : Buckets)
    → claim_eq doip_layer c ≡ false
    → bucket c (add_plugins ps t) ≡ bucket c t ++ claims_of c ps
unfolding add_plugins
bucket-add_plugins c [] t ne = sym (append-nil (bucket c t))
bucket-add_plugins c (p ∷ ps) t ne = ground (
  arith,
  bucket-add_plugins c ps (add_entries p p.hooks t) ne,
  bucket-add_plugins c ps t ne,
  bucket-add_entries c p p.hooks t ne,
  append_assoc (bucket c t) (claims_in c p p.hooks) (claims_of c ps),
)

bucket-sort_buckets :
    (c : Claim) (t : Buckets) → bucket c (sort_buckets t) ≡ sort_hooks (bucket c t)
unfolding bucket sort_buckets sort_hooks
bucket-sort_buckets c [] = refl
bucket-sort_buckets c ((d, hooks) ∷ t) = ground (arith, bucket-sort_buckets c t)

-- Whatever plugins are loaded, the hooks that a request of a claim meets are the ones that the
-- enabled plugins registered for exactly that claim, each once, in the order of priority, load
-- index and plugin name.
pub bucket-register :
    (c : Claim) (ps : List Plugin)
    → claim_eq doip_layer c ≡ false
    → IsSorted (bucket c (register ps)) × Perm (bucket c (register ps)) (claims_of c ps)
unfolding register bucket
bucket-register c ps ne =
    rw (bucket-sort_buckets c (add_plugins ps []), bucket-add_plugins c ps [] ne)
      (sort_hooks-IsSorted (claims_of c ps), sort_hooks-perm (claims_of c ps))
