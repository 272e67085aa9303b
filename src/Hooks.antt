-- ===== src/Hooks.antt =====
-- virtual_ecu/virtecu/dispatcher.py, the hook tables, with what plugin.py and uds.py give them. A
-- plugin's method is a parameter: any function on the process state that returns or raises.
pub mod Tables
pub mod Order
use doip_playground.Base.{
  ltb, ◌==◌, if◌then◌else◌, Bytes, ℕ, Bool, true, false, ◌&&◌, ◌||◌, Option, none, some, List, [],
  ◌∷◌, ◌++◌,
}
use doip_playground.Uds.{UdsRequest}
use doip_playground.Effect.{Action}

-- What a handler returns. `py_other` is an object of any other type, with its truth value.
pub data Value : Type 0 where
  py_none no_response : Value
  py_bytes : Bytes → Value
  py_bool : Bool → Value
  py_other : Bool → Value

abbrev pub is_none : Value → Bool
is_none py_none = true
is_none _ = false

-- `bool(result)`
abbrev pub truthy : Value → Bool
truthy py_none = false
truthy no_response = true
truthy (py_bytes []) = false
truthy (py_bytes (b ∷ bs)) = true
truthy (py_bool b) = b
truthy (py_other b) = b

-- `Context`: the request, and the identity of the session's state.
pub record Context : Type 0 where
  pub request : UdsRequest
  pub session : ℕ

-- The further arguments of a handler, by its kind.
pub data Arguments : Type 0 where
  on_request : Arguments
  on_write : Bytes → Arguments
  on_routine : ℕ → Bytes → Arguments

abbrev pub Method : Type 0
Method = Arguments → Context → Action Value

-- `plugin_name` by its code points.
pub record Hook : Type 0 where
  pub priority : ℕ
  pub load_index : ℕ
  pub plugin_name : List ℕ
  pub method : Method

-- A kind of `_UDS_KINDS` with its key; `doip_layer` is any other kind.
pub data Claim : Type 0 where
  observer any_service doip_layer : Claim
  service read_did write_did : ℕ → Claim
  routine : ℕ → Option ℕ → Claim

-- One entry of `plugin.hooks`, in the order of the iteration over it.
pub record Entry : Type 0 where
  pub claim : Claim
  pub entry_priority : Option ℕ
  pub entry_method : Method

pub record Plugin : Type 0 where
  pub name : List ℕ
  pub plugin_priority : ℕ
  pub enabled : Bool
  pub plugin_index : ℕ
  pub hooks : List Entry

option_eq : Option ℕ → Option ℕ → Bool
option_eq none none = true
option_eq (some a) (some b) = a == b
option_eq _ _ = false

unfoldable pub claim_eq : Claim → Claim → Bool
unfolding option_eq
claim_eq observer observer = true
claim_eq any_service any_service = true
claim_eq doip_layer doip_layer = true
claim_eq (service a) (service b) = a == b
claim_eq (read_did a) (read_did b) = a == b
claim_eq (write_did a) (write_did b) = a == b
claim_eq (routine a c) (routine b d) = a == b && option_eq c d
claim_eq _ _ = false

-- `_sort_key` compared: by priority, load index, and name. A priority is a natural number here.
lex_le : List ℕ → List ℕ → Bool
lex_le [] ys = true
lex_le (x ∷ xs) [] = false
lex_le (x ∷ xs) (y ∷ ys) = ltb x y || (x == y && lex_le xs ys)

unfoldable pub key_le : Hook → Hook → Bool
unfolding lex_le
key_le a b =
    ltb a.priority b.priority
    || (a.priority == b.priority
        && (ltb a.load_index b.load_index
            || (a.load_index == b.load_index && lex_le a.plugin_name b.plugin_name)))

-- The hook tables: the bucket of each claim.
abbrev pub Buckets : Type 0
Buckets = List (Claim × List Hook)

unfoldable pub bucket : Claim → Buckets → List Hook
bucket c [] = []
bucket c ((d, hooks) ∷ t) = if claim_eq d c then hooks else bucket c t

-- `_bucket(kind, key).append(hook)`
add_hook : Claim → Hook → Buckets → Buckets
add_hook c h [] = (c, h ∷ []) ∷ []
add_hook c h ((d, hooks) ∷ t) =
    if claim_eq d c then (d, hooks ++ h ∷ []) ∷ t else (d, hooks) ∷ add_hook c h t

abbrev pub hook_of : Plugin → Entry → Hook
hook_of p e = record {
  priority = elim e.entry_priority [ none ↦ p.plugin_priority | some q ↦ q ];
  load_index = p.plugin_index;
  plugin_name = p.name;
  method = e.entry_method;
}

add_entry : Plugin → Entry → Buckets → Buckets
add_entry p e t = if claim_eq e.claim doip_layer then t else add_hook e.claim (hook_of p e) t

add_entries : Plugin → List Entry → Buckets → Buckets
add_entries p [] t = t
add_entries p (e ∷ es) t = add_entries p es (add_entry p e t)

add_plugins : List Plugin → Buckets → Buckets
add_plugins [] t = t
add_plugins (p ∷ ps) t = add_plugins ps (if p.enabled then add_entries p p.hooks t else t)

-- `list.sort` is stable: a hook goes behind those that are not after it.
sort_insert : Hook → List Hook → List Hook
sort_insert h [] = h ∷ []
sort_insert h (x ∷ xs) = if key_le h x then h ∷ x ∷ xs else x ∷ sort_insert h xs

pub sort_hooks : List Hook → List Hook
unfolding sort_insert
sort_hooks [] = []
sort_hooks (h ∷ hs) = sort_insert h (sort_hooks hs)

sort_buckets : Buckets → Buckets
sort_buckets [] = []
sort_buckets ((c, hooks) ∷ t) = (c, sort_hooks hooks) ∷ sort_buckets t

-- `_register`
unfoldable pub register : List Plugin → Buckets
unfolding add_plugins add_entries add_entry add_hook sort_buckets sort_hooks
register ps = sort_buckets (add_plugins ps [])
