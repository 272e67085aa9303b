-- ===== src/DoipHooks.antt =====
-- virtual_ecu/virtecu/doip_dispatcher.py: the hooks of the DoIP layer. A bound method is a number, and
-- what a call of it does to the plugins' state, with what it returns or raises, is a parameter.
pub mod Registration
pub mod Deciding
use doip_playground.Base.{
  ltb, ◌==◌, if◌then◌else◌, ℕ, Bool, true, false, ◌&&◌, ◌||◌, Option, none, some, List, [], ◌∷◌,
  ◌++◌,
}

pub data DoipKind : Type 0 where
  on_routing_activation on_diagnostic_ack on_frame_rx on_frame_tx on_identification : DoipKind

-- An entry of `plugin.hooks` of one of the DoIP kinds, in the order of the iteration over it.
pub record DoipEntry : Type 0 where
  pub kind : DoipKind
  pub own_priority : Option ℕ
  pub handler : ℕ

pub record DoipPlugin : Type 0 where
  pub plugin_label : List ℕ
  pub class_priority : ℕ
  pub is_enabled : Bool
  pub load_position : ℕ
  pub entries : List DoipEntry

pub record DoipHook : Type 0 where
  pub hook_priority : ℕ
  pub hook_position : ℕ
  pub hook_label : List ℕ
  pub hook_handler : ℕ

unfoldable pub kind_eq : DoipKind → DoipKind → Bool
kind_eq on_routing_activation on_routing_activation = true
kind_eq on_diagnostic_ack on_diagnostic_ack = true
kind_eq on_frame_rx on_frame_rx = true
kind_eq on_frame_tx on_frame_tx = true
kind_eq on_identification on_identification = true
kind_eq _ _ = false

abbrev pub doip_hook_of : DoipPlugin → DoipEntry → DoipHook
doip_hook_of p e = record {
  hook_priority = elim e.own_priority [ none ↦ p.class_priority | some q ↦ q ];
  hook_position = p.load_position;
  hook_label = p.plugin_label;
  hook_handler = e.handler;
}

-- `_register`, the bucket of one kind: no plugin is passed over.
unfoldable pub plugin_hooks : DoipKind → DoipPlugin → List DoipEntry → List DoipHook
plugin_hooks k p [] = []
plugin_hooks k p (e ∷ es) =
    let rest = plugin_hooks k p es in if kind_eq e.kind k then doip_hook_of p e ∷ rest else rest

unfoldable pub collect_hooks : DoipKind → List DoipPlugin → List DoipHook
collect_hooks k [] = []
collect_hooks k (p ∷ ps) = plugin_hooks k p p.entries ++ collect_hooks k ps

-- `_sort_key` compared
unfoldable pub label_le : List ℕ → List ℕ → Bool
label_le [] other = true
label_le (c ∷ cs) [] = false
label_le (c ∷ cs) (d ∷ ds) = ltb c d || (c == d && label_le cs ds)

unfoldable pub hook_le : DoipHook → DoipHook → Bool
hook_le a b =
    ltb a.hook_priority b.hook_priority
    || (a.hook_priority == b.hook_priority
        && (ltb a.hook_position b.hook_position
            || (a.hook_position == b.hook_position && label_le a.hook_label b.hook_label)))

-- `bucket.sort`, which is stable
unfoldable pub place_hook : DoipHook → List DoipHook → List DoipHook
place_hook h [] = h ∷ []
place_hook h (x ∷ xs) =
    let further = place_hook h xs in if hook_le h x then h ∷ x ∷ xs else x ∷ further

unfoldable pub sort_doip : List DoipHook → List DoipHook
sort_doip [] = []
sort_doip (h ∷ hs) = place_hook h (sort_doip hs)

abbrev pub register_doip : List DoipPlugin → DoipKind → List DoipHook
register_doip ps k = sort_doip (collect_hooks k ps)

-- How a call of a handler ends.
pub data CallResult (V : Type 0) : Type 0 where
  returned_value : V → CallResult V
  returned_none raised_error was_cancelled : CallResult V

-- What `_call` makes of it: a value, None, or the cancellation that goes on.
pub data Called (V : Type 0) : Type 0 where
  value : V → Called V
  nothing stopped : Called V

-- What `resolve_…` comes to: a decision, None, an error of the conversion, or a cancellation.
pub data Resolved (W : Type 0) : Type 0 where
  decision : W → Resolved W
  undecided escaped interrupted : Resolved W

module _ {Q S V : Type 0} (handle : ℕ → Q → S → CallResult V × S) where
  abbrev pub isolated : CallResult V × S → Called V × S
  isolated (returned_value v, s) = (value v, s)
  isolated (returned_none, s) = (nothing, s)
  isolated (raised_error, s) = (nothing, s)
  isolated (was_cancelled, s) = (stopped, s)

  -- `_call`
  abbrev pub call_doip : DoipHook → Q → S → Called V × S
  call_doip h q s = isolated (handle h.hook_handler q s)

  -- One round of the loop of `resolve_…`, with the rounds behind it.
  abbrev pub or_further : Called V × S → (S → Called V × S) → Called V × S
  or_further (value v, s) further = (value v, s)
  or_further (nothing, s) further = further s
  or_further (stopped, s) further = (stopped, s)

  unfoldable pub first_decision : List DoipHook → Q → S → Called V × S
  first_decision [] q s = (nothing, s)
  first_decision (h ∷ hs) q s = or_further (call_doip h q s) (first_decision hs q)

  -- `int(result)` or `bytes(result)`, outside of the isolation; `none` is its error.
  abbrev pub as_resolved : {W : Type 0} → Option W → S → Resolved W × S
  as_resolved none s = (escaped, s)
  as_resolved (some w) s = (decision w, s)

  abbrev pub converted : {W : Type 0} → (V → Option W) → Called V × S → Resolved W × S
  converted convert (value v, s) = as_resolved (convert v) s
  converted convert (nothing, s) = (undecided, s)
  converted convert (stopped, s) = (interrupted, s)

  abbrev pub resolve_doip : {W : Type 0} → (V → Option W) → List DoipHook → Q → S → Resolved W × S
  resolve_doip convert hooks q s = converted convert (first_decision hooks q s)

  abbrev pub and_further : Called V × S → (S → Bool × S) → Bool × S
  and_further (value v, s) further = further s
  and_further (nothing, s) further = further s
  and_further (stopped, s) further = (true, s)

  -- `notify_frame_rx` and `notify_frame_tx`; the Boolean says whether a cancellation goes on.
  unfoldable pub notify_frame : List DoipHook → Q → S → Bool × S
  notify_frame [] q s = (false, s)
  notify_frame (h ∷ hs) q s = and_further (call_doip h q s) (notify_frame hs q)
